-- ===== src/Group/Room/Posting.antt =====
-- What a message call on a group room stores and sends (server/room/groupRoom/groupRoom.cpp).
use qing_liao_chat_server.Base.{
  ℕ, String, ◌≡◌, Bool, true, false, Option, some, none, ◌++◌, arith, ◌==◌, ◌&&◌, not,
  if◌then◌else◌,
}
use qing_liao_chat_server.Base.Int.{ℤ}
use qing_liao_chat_server.Error.{ok}
use qing_liao_chat_server.Map.{lookup, contains, id_key}
use qing_liao_chat_server.Messages.{normal_message, find, free_time}
use qing_liao_chat_server.Messages.Laws.{IsOrdered, find-insert_message, find-free_time}
use qing_liao_chat_server.Room.{Sending, Names, group_message, send_data}
use qing_liao_chat_server.Group.Room
use qing_liao_chat_server.Group.Room.{
  GroupRoom, nobody, lasts, is_muted, store_message, send_message, send_tip_message,
}

-- A mute holds up to its last tick.
abbrev pub silenced : ℕ → Option (ℕ × ℤ) → Bool
silenced now none = false
silenced now (some (since, mins)) = lasts now since mins

-- The sender is a member, and no mute of the sender holds.
abbrev pub may_speak : ℕ → ℕ → GroupRoom → Bool
may_speak now u room =
    contains u room.user_id_map && not (silenced now (lookup u room.muted_user_map))

-- `sendMessage` in a usable room returns. If the sender may speak, the message is stored at the
-- first free time from the reading of the clock on, and goes to the members; every message stored
-- before stays as it was. Otherwise nothing is stored or sent.
pub send_message_lem :
    (names : Names) (now now' u j : ℕ) (text : String) (s : Sending GroupRoom)
    → s.room.can_be_used ≡ true
    → IsOrdered s.room.message_map
    → let (r, t) = send_message names now now' u text s in
      (r ≡ ok tt)
      × (find j t.room.message_map ≡ (
          if may_speak now u s.room && free_time now' s.room.message_map == j
          then some
              (record { sender = u; message = text; type = normal_message; receiver = nobody })
          else find j s.room.message_map))
      × (t.sent ≡ (
          if may_speak now u s.room
          then s.sent ++ send_data names (group_message u s.room.group_id text) s.room.members
          else s.sent))
unfolding send_message Room.has_user is_muted store_message
send_message_lem names now now' u j text s usable ordered =
    let free = (find-free_time now' s.room.message_map).0 in
    let stored =
      find-insert_message j (free_time now' s.room.message_map) 0
        (record { sender = u; message = text; type = normal_message; receiver = nobody })
        s.room.message_map ordered in
    (ground arith, ground (arith, free, stored), ground arith)
