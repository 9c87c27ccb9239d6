-- ===== src/Private/Posting.antt =====
-- Who may write in a private room, and what a message call stores and sends
-- (server/room/privateRoom/privateRoom.cpp).
use qing_liao_chat_server.Base.{
  ℕ, String, ◌≡◌, refl, true, some, [], ◌++◌, arith, ◌==◌, ◌&&◌, ◌||◌, not, if◌then◌else◌, is_some,
  Bool-cases, ==_iff, ap, inl, inr,
}
use qing_liao_chat_server.Error.{ok}
use qing_liao_chat_server.Map.{id_key}
use qing_liao_chat_server.Messages.{MessageStructure, tip_message, find}
use qing_liao_chat_server.Messages.Laws.{IsOrdered, find-insert_message}
use qing_liao_chat_server.Room.{Sending, Names, private_message, has_user, join_room, send_data}
use qing_liao_chat_server.Room.Members.{has_user-empty, has_user-join_room, join_room_lem}
use qing_liao_chat_server.Private.{
  PrivateRoom, nobody, new_private_room, store_and_send, send_message, has_member,
}

-- A new room of two known users is usable, with an empty history, and its TCPRoom holds exactly the
-- two users, whom `hasMember` accepts too.
pub new_private_room_lem :
    (names : Names) (a b v : ℕ)
    → is_some (names a) ≡ true
    → is_some (names b) ≡ true
    → (room : PrivateRoom) × (new_private_room names a b ≡ ok room)
      × (room.can_be_used ≡ true)
      × (room.message_map ≡ [])
      × (has_user v room.members ≡ (v == a || v == b))
      × ((has_member v (record { room = room; sent = [] })).0 ≡ ok (has_user v room.members))
unfolding new_private_room has_member
new_private_room_lem names a b v ka kb =
    let first = join_room names a [] in
    let joined = has_user-join_room names b v first.1 in
    let before = has_user-join_room names a v [] in
    let empty = has_user-empty v in
    (
      record {
        user_id_1 = a;
        user_id_2 = b;
        can_be_used = true;
        message_map = [];
        members = (join_room names b first.1).1;
      },
      ground (arith, ka, kb, join_room_lem names a [], join_room_lem names b first.1),
      refl,
      refl,
      ground (arith, ka, kb, joined, before, empty),
      ground (arith, ka, kb, joined, before, empty),
    )

-- A message call in a usable room returns. From a member, the text goes to the members, and is
-- stored as a tip message unless a message of the same time point is stored already: then it is
-- dropped from the history. From anybody else, nothing is stored or sent.
pub find-send_message :
    (names : Names) (now u j : ℕ) (text : String) (s : Sending PrivateRoom)
    → s.room.can_be_used ≡ true
    → IsOrdered s.room.message_map
    → let (r, t) = send_message names now text u s in
      (r ≡ ok tt)
      × (find j t.room.message_map ≡ (
          if has_user u s.room.members && now == j && not (is_some (find j s.room.message_map))
          then some (record { sender = u; message = text; type = tip_message; receiver = nobody })
          else find j s.room.message_map))
      × (t.sent ≡ (
          if has_user u s.room.members
          then s.sent ++ send_data names (private_message u text) s.room.members
          else s.sent))
unfolding send_message store_and_send
find-send_message names now u j text s usable ordered =
    let m : MessageStructure = record {
      sender = u;
      message = text;
      type = tip_message;
      receiver = nobody;
    } in
    let stored = find-insert_message j now 0 m s.room.message_map ordered in
    (
      ground arith,
      elim (Bool-cases (now == j)) [
        | inl same ↦
            ground (arith, stored, ap (λ t. find t s.room.message_map) ((==_iff now j).0 same))
        | inr other ↦ ground (arith, stored)
      ],
      ground arith,
    )
