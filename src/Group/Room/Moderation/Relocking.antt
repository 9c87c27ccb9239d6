-- ===== src/Group/Room/Moderation/Relocking.antt =====
-- What the calls on mutes and kicks come to, given the locks that they hold when they send their
-- tip message (server/room/groupRoom/groupRoom.cpp).
use qing_liao_chat_server.Base.{ℕ, String, ◌<◌, ◌≡◌, ◌≢◌, true, arith}
use qing_liao_chat_server.Base.Int.{ℤ}
use qing_liao_chat_server.Error.{Failure, ok, err}
use qing_liao_chat_server.Map.{contains, insert, erase, id_key}
use qing_liao_chat_server.Room.{Sending, Names}
use qing_liao_chat_server.Group.Permission.{PermissionType, value, get_user_permission_type}
use qing_liao_chat_server.Group.Room.{GroupRoom, has_user, is_muted, send_tip_message}
use qing_liao_chat_server.Group.Room.Moderation.{
  both_members, outranks, say, muting, kicking, mute_user, unmute_user, kick_user,
}

-- The executor may moderate the user: two different members of a usable room, the executor's type
-- above the user's.
pub record Outranks (room : GroupRoom) (executor_id user_id : ℕ) : Type 0 where
  pub usable_room : room.can_be_used ≡ true
  pub different : executor_id ≢ user_id
  pub executor_member : contains executor_id room.user_id_map ≡ true
  pub user_member : contains user_id room.user_id_map ≡ true
  pub executor_type : PermissionType
  pub user_type : PermissionType
  pub executor_typed : get_user_permission_type executor_id room.permission ≡ ok executor_type
  pub user_typed : get_user_permission_type user_id room.permission ≡ ok user_type
  pub above : value user_type < value executor_type

-- The room with a mute begun, and with the mute taken back.
abbrev pub with_mute : ℕ → ℕ → ℤ → Sending GroupRoom → Sending GroupRoom
with_mute user_id since mins s = record s {
  room = record (s.room) { muted_user_map = insert user_id (since, mins) s.room.muted_user_map };
}

abbrev pub without_mute : ℕ → Sending GroupRoom → Sending GroupRoom
without_mute user_id s = record s {
  room = record (s.room) { muted_user_map = erase user_id s.room.muted_user_map };
}

module _ (relock : Failure) (names : Names) (now now' : ℕ) (executor_id user_id : ℕ) where
  -- The tip message takes a lock that its own thread holds.
  say-muting :
      (verb : String) (s : Sending GroupRoom)
      → s.room.can_be_used ≡ true
      → contains executor_id s.room.user_id_map ≡ true
      → say names now now' executor_id user_id (muting relock) verb s ≡ (err relock, s)
  unfolding say send_tip_message has_user is_muted
  say-muting verb s u c = ground arith

  say-kicking :
      (s : Sending GroupRoom)
      → s.room.can_be_used ≡ true
      → say names now now' executor_id user_id (kicking relock) " was kicked by " s
        ≡ (err relock, s)
  unfolding say send_tip_message has_user
  say-kicking s u = ground arith

  guard_true :
      (s : Sending GroupRoom)
      → Outranks s.room executor_id user_id
      → (both_members executor_id user_id s ≡ (ok true, s))
        × (outranks executor_id user_id s ≡ (ok true, s))
  unfolding both_members has_user outranks
  guard_true s g = (ground arith, ground arith)

  -- Where the executor may moderate the user, each of the three calls takes, in its tip message, a
  -- mutex that its own thread holds, and ends as the implementation lets that end. The mute is in
  -- force or taken back by then, the kicked user is still a member, and no message is stored or sent.
  pub moderation_fails :
      (now_muted : ℕ) (mins : ℤ) (s : Sending GroupRoom)
      → Outranks s.room executor_id user_id
      → (mute_user relock names now now' executor_id user_id now_muted mins s
          ≡ (err relock, with_mute user_id now_muted mins s))
        × (unmute_user relock names now now' executor_id user_id s
            ≡ (err relock, without_mute user_id s))
        × (kick_user relock names now now' executor_id user_id s ≡ (err relock, s))
  unfolding mute_user unmute_user kick_user
  moderation_fails now_muted mins s g =
      let (members, higher) = guard_true s g in
      (
        ground (
          arith,
          members,
          higher,
          say-muting " was muted by " (with_mute user_id now_muted mins s),
        ),
        ground (arith, members, higher, say-muting " was unmuted by " (without_mute user_id s)),
        ground (arith, members, higher, say-kicking s),
      )

  -- So no call reports success, whoever makes it and in whatever room.
  pub moderation-ne-true :
      (now_muted : ℕ) (mins : ℤ) (s : Sending GroupRoom)
      → ((mute_user relock names now now' executor_id user_id now_muted mins s).0 ≢ ok true)
        × ((unmute_user relock names now now' executor_id user_id s).0 ≢ ok true)
        × ((kick_user relock names now now' executor_id user_id s).0 ≢ ok true)
  unfolding mute_user unmute_user kick_user both_members has_user outranks
  moderation-ne-true now_muted mins s = (
    ground (arith, say-muting " was muted by " (with_mute user_id now_muted mins s)),
    ground (arith, say-muting " was unmuted by " (without_mute user_id s)),
    ground (arith, say-kicking s),
  )
