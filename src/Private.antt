-- ===== src/Private.antt =====
-- server/room/privateRoom/privateRoom.h and privateRoom.cpp. `names` is the server, `now` a reading
-- of the clock (see `Room`).
pub mod Posting
use qing_liao_chat_server.Base.{
  ℕ, ◌-◌, ◌^◌, String, Bool, true, false, Option, none, some, List, [], ◌∷◌, ◌++◌, not, ◌||◌, ◌==◌,
  if◌then◌else◌,
}
use qing_liao_chat_server.Error.{
  Action, Result, ok, err, group_room_unable_to_use, private_room_unable_to_use, ◌>>=◌, ◌>>◌, pure,
  raise_if,
}
use qing_liao_chat_server.Map.{Set}
use qing_liao_chat_server.Messages.{
  MessageStructure, tip_message, History, insert_message, messages_between, clean,
}
use qing_liao_chat_server.Room.{
  Notice, private_message, private_tip_message, Sending, Names, join_room, has_user, send_data,
}

pub record PrivateRoom : Type 0 where
  pub user_id_1 : ℕ
  pub user_id_2 : ℕ
  pub can_be_used : Bool
  pub message_map : History
  pub members : Set ℕ

abbrev pub Room : Type 0 → Type 0
Room A = Action (Sending PrivateRoom) A

-- `MessageStructure::receiver` where none is given: UserID(-1LL).
abbrev pub nobody : ℕ
nobody = 2 ^ 64 - 1

abbrev usable : Room (Unit {0})
usable s = raise_if (not s.room.can_be_used) private_room_unable_to_use s

abbrev ask : {A : Type 0} → (PrivateRoom → A) → Room A
ask f s = (ok (f s.room), s)

-- The constructor: both users join the TCPRoom.
unfoldable pub new_private_room : Names → ℕ → ℕ → Result PrivateRoom
new_private_room names user1 user2 =
    let (r, members) = (join_room names user1 >> join_room names user2) [] in
    elim r [
      | err e ↦ err e
      | ok _ ↦ ok (record {
        user_id_1 = user1;
        user_id_2 = user2;
        can_be_used = true;
        message_map = [];
        members = members;
      })
    ]

-- The rest of `sendMessage` and `sendTipMessage`: both store the type TIP_MESSAGE, and `insert`
-- leaves a message of the same time point as it is.
unfoldable pub store_and_send : Names → ℕ → ℕ → String → Notice → Room (Unit {0})
store_and_send names now sender message notice s = (
  ok tt,
  record s {
    room = record (s.room) {
      message_map =
          insert_message now
            (record { sender = sender; message = message; type = tip_message; receiver = nobody })
            s.room.message_map;
    };
    sent = s.sent ++ send_data names notice s.room.members;
  },
)

unfoldable pub send_message : Names → ℕ → String → ℕ → Room (Unit {0})
send_message names now message sender = do
  usable
  present ← ask (λ r. has_user sender r.members)
  if not present
      then pure tt
      else store_and_send names now sender message (private_message sender message)

pub send_tip_message : Names → ℕ → String → ℕ → Room (Unit {0})
send_tip_message names now message sender = do
  usable
  present ← ask (λ r. has_user sender r.members)
  if not present
      then pure tt
      else store_and_send names now sender message (private_tip_message sender message)

-- This one throws the error of group rooms.
pub get_message : ℕ → ℕ → Room History
get_message from to = do
  (λ s. raise_if (not s.room.can_be_used) group_room_unable_to_use s)
  ask (λ r. messages_between from to r.message_map)

unfoldable pub get_user_id : Room (ℕ × ℕ)
get_user_id = do usable; ask (λ r. (r.user_id_1, r.user_id_2))

pub has_member : ℕ → Room Bool
has_member user_id = do usable; ask (λ r. user_id == r.user_id_1 || user_id == r.user_id_2)

pub remove_this_room : Room (Unit {0})
remove_this_room s = (ok tt, record s { room = record (s.room) { can_be_used = false } })

pub can_be_used : Room Bool
can_be_used = ask (λ r. r.can_be_used)

-- One round of `auto_clean`, when the timer has run.
pub auto_clean : ℕ → Room (Unit {0})
auto_clean now s =
    (ok tt, record s { room = record (s.room) { message_map = clean now s.room.message_map } })
