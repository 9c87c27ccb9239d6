-- ===== src/Group/Room/Moderation/Valid.antt =====
-- The moderation calls keep the two member tables and the history in step
-- (server/room/groupRoom/groupRoom.cpp).
use qing_liao_chat_server.Base.{ℕ, String, ◌≡◌, ◌==◌, true, false, arith}
use qing_liao_chat_server.Base.Int.{ℤ}
use qing_liao_chat_server.Error.{Failure, fails}
use qing_liao_chat_server.Map.{insert, erase, id_key}
use qing_liao_chat_server.Messages.Laws.{find-clean}
use qing_liao_chat_server.Room.{Sending, Names}
use qing_liao_chat_server.Group.Permission.{
  PermissionType, default, operator, modify_user_permission,
}
use qing_liao_chat_server.Group.Room
use qing_liao_chat_server.Group.Room.{
  GroupRoom, Room, Hold, unique, shared, free, Held, send_tip_message,
}
use qing_liao_chat_server.Group.Room.Members.{IsValidAt, send_tip_message-IsValidAt}
use qing_liao_chat_server.Group.Room.Moderation.{
  both_members, outranks, tip, say, mute_user, unmute_user, kick_user, retype, add_operator,
  set_administrator, muting, kicking, changing, remove_operator, remove_this_room, auto_clean,
}

module _ (names : Names) (now now' e u : ℕ) where
  say-IsValidAt :
      (held : Held) (verb : String) (v : ℕ) (s : Sending GroupRoom)
      → IsValidAt v s.room
      → IsValidAt v (say names now now' e u held verb s).1.room
  unfolding say
  say-IsValidAt held verb v s h = record {
    agrees = ground (
      arith,
      (send_tip_message-IsValidAt names held now now' e v (tip verb u e s.room) s h).agrees,
    );
    named = ground (
      arith,
      (send_tip_message-IsValidAt names held now now' e v (tip verb u e s.room) s h).named,
    );
    ordered = ground (
      arith,
      (send_tip_message-IsValidAt names held now now' e v (tip verb u e s.room) s h).ordered,
    );
  }

  both_members_keeps : (s : Sending GroupRoom) → (both_members e u s).1 ≡ s
  unfolding both_members Room.has_user
  both_members_keeps s = ground arith

  outranks_keeps : (s : Sending GroupRoom) → (outranks e u s).1 ≡ s
  unfolding outranks
  outranks_keeps s = ground arith

  pub mute_user-IsValidAt :
      (relock : Failure) (t : ℕ) (mins : ℤ) (v : ℕ) (s : Sending GroupRoom)
      → IsValidAt v s.room
      → IsValidAt v (mute_user relock names now now' e u t mins s).1.room
  unfolding mute_user
  mute_user-IsValidAt relock t mins v s h =
      let said =
        say-IsValidAt (muting relock) " was muted by " v
          (record s {
            room = record (s.room) { muted_user_map = insert u (t, mins) s.room.muted_user_map };
          })
          (record { agrees = h.agrees; ordered = h.ordered; named = h.named }) in
      record {
        agrees = ground (arith, h.agrees, both_members_keeps s, outranks_keeps s, said.agrees);
        ordered = ground (arith, h.ordered, both_members_keeps s, outranks_keeps s, said.ordered);
        named = ground (arith, h.named, both_members_keeps s, outranks_keeps s, said.named);
      }

  pub unmute_user-IsValidAt :
      (relock : Failure) (v : ℕ) (s : Sending GroupRoom)
      → IsValidAt v s.room
      → IsValidAt v (unmute_user relock names now now' e u s).1.room
  unfolding unmute_user
  unmute_user-IsValidAt relock v s h =
      let said =
        say-IsValidAt (muting relock) " was unmuted by " v
          (record s { room = record (s.room) { muted_user_map = erase u s.room.muted_user_map } })
          (record { agrees = h.agrees; ordered = h.ordered; named = h.named }) in
      record {
        agrees = ground (arith, h.agrees, both_members_keeps s, outranks_keeps s, said.agrees);
        ordered = ground (arith, h.ordered, both_members_keeps s, outranks_keeps s, said.ordered);
        named = ground (arith, h.named, both_members_keeps s, outranks_keeps s, said.named);
      }

  -- The kicked user would leave one table only; the call never gets there.
  kick_fails :
      (relock : Failure) (s : Sending GroupRoom)
      → (say names now now' e u (kicking relock) " was kicked by " s).1 ≡ s
        × (fails (say names now now' e u (kicking relock) " was kicked by " s).0 ≡ true)
  unfolding say send_tip_message Room.has_user
  kick_fails relock s = (ground arith, ground arith)

  pub kick_user-IsValidAt :
      (relock : Failure) (v : ℕ) (s : Sending GroupRoom)
      → IsValidAt v s.room
      → IsValidAt v (kick_user relock names now now' e u s).1.room
  unfolding kick_user
  kick_user-IsValidAt relock v s h = record {
    agrees = ground (arith, h.agrees, both_members_keeps s, outranks_keeps s, kick_fails relock s);
    ordered =
        ground (arith, h.ordered, both_members_keeps s, outranks_keeps s, kick_fails relock s);
    named = ground (arith, h.named, both_members_keeps s, outranks_keeps s, kick_fails relock s);
  }

  retype-IsValidAt :
      (from to : PermissionType) (verb : String) (v : ℕ) (s : Sending GroupRoom)
      → IsValidAt v s.room
      → IsValidAt v (retype names now now' e u from to verb s).1.room
  unfolding retype
  retype-IsValidAt from to verb v s h =
      let said =
        say-IsValidAt changing verb v
          (record s {
            room = record (s.room) { permission = modify_user_permission u to s.room.permission };
          })
          (record { agrees = h.agrees; ordered = h.ordered; named = h.named }) in
      record {
        agrees = ground (arith, h.agrees, both_members_keeps s, said.agrees);
        ordered = ground (arith, h.ordered, both_members_keeps s, said.ordered);
        named = ground (arith, h.named, both_members_keeps s, said.named);
      }

  pub add_operator-IsValidAt :
      (v : ℕ) (s : Sending GroupRoom)
      → IsValidAt v s.room
      → IsValidAt v (add_operator names now now' e u s).1.room
  unfolding add_operator
  add_operator-IsValidAt v s h = retype-IsValidAt default operator " was turned operator by " v s h

  pub remove_operator-IsValidAt :
      (v : ℕ) (s : Sending GroupRoom)
      → IsValidAt v s.room
      → IsValidAt v (remove_operator names now now' e u s).1.room
  unfolding remove_operator
  remove_operator-IsValidAt v s h =
      retype-IsValidAt operator default " was turned default user by " v s h

-- With an administrator in place, only the types and the administrator change.
pub set_administrator-IsValidAt :
    (names : Names) (u v : ℕ) (s : Sending GroupRoom)
    → u == 0 ≡ false
    → IsValidAt v s.room
    → IsValidAt v (set_administrator names u s).1.room
unfolding set_administrator
set_administrator-IsValidAt names u v s user h = record {
  agrees = ground (arith, h.agrees, h.named);
  ordered = ground (arith, h.ordered, h.named);
  named = ground (arith, h.named, user);
}

pub remove_this_room-IsValidAt :
    (v : ℕ) (s : Sending GroupRoom) → IsValidAt v s.room → IsValidAt v (remove_this_room s).1.room
unfolding remove_this_room
remove_this_room-IsValidAt v s h = record {
  agrees = h.agrees;
  ordered = h.ordered;
  named = h.named;
}

pub auto_clean-IsValidAt :
    (now v : ℕ) (s : Sending GroupRoom) → IsValidAt v s.room → IsValidAt v (auto_clean now s).1.room
unfolding auto_clean
auto_clean-IsValidAt now v s h = record {
  agrees = h.agrees;
  ordered = (find-clean 0 now s.room.message_map h.ordered).0;
  named = h.named;
}
