-- ===== src/Tests/Relocking.antt =====
-- An administrator mutes a member.
use qing_liao_chat_server.Base.{ℕ, ◌≡◌, arith, []}
use qing_liao_chat_server.Base.Int.{ℤ}
use qing_liao_chat_server.Error.{Failure, err}
use qing_liao_chat_server.Room.{Sending, Names}
use qing_liao_chat_server.Group.Permission.{PermissionType, get_user_permission_type}
use qing_liao_chat_server.Group.Room.{GroupRoom}
use qing_liao_chat_server.Group.Room.Moderation.{mute_user, unmute_user, kick_user}
use qing_liao_chat_server.Group.Room.Moderation.Relocking.{
  moderation_fails, with_mute, without_mute,
}
use qing_liao_chat_server.Tests.Data.{moderated, everyone}
use qing_liao_chat_server.Map.{lookup}
use qing_liao_chat_server.Base.Int.{pos}
use qing_liao_chat_server.Error.{deadlock_error}
use qing_liao_chat_server.Base.{refl}
use qing_liao_chat_server.Map.{lookup}

moderation_fails_example :
    let relock : Failure = deadlock_error in
    let names : Names = everyone in
    let now : ℕ = 3 in
    let now' : ℕ = 4 in
    let executor_id : ℕ = 2 in
    let user_id : ℕ = 1 in
    let now_muted : ℕ = 5 in
    let mins : ℤ = (pos 6) in
    let s : Sending GroupRoom = (record { room = moderated; sent = [] }) in
    (mute_user relock names now now' executor_id user_id now_muted mins s
      ≡ (err relock, with_mute user_id now_muted mins s))
    × (unmute_user relock names now now' executor_id user_id s
        ≡ (err relock, without_mute user_id s))
    × (kick_user relock names now now' executor_id user_id s ≡ (err relock, s))
unfolding lookup get_user_permission_type
moderation_fails_example =
    moderation_fails deadlock_error everyone 3 4 2 1 5 (pos 6)
      (record { room = moderated; sent = [] })
      ((record {
        usable_room = refl;
        different = omega arith;
        executor_member = refl;
        user_member = refl;
        executor_type = PermissionType.administrator;
        user_type = PermissionType.default;
        executor_typed = refl;
        user_typed = refl;
        above = omega arith;
      }))
