-- ===== src/Server/Commands/Delivery.antt =====
-- Messages to friends (server/jsonMessageProcess/JsonMsgProcessCommand.cpp
-- `SendFriendMessageCommand`), down to the connections that they are written to.
use qing_liao_chat_server.Base.{
  ℕ, String, ◌≡◌, refl, true, none, some, List, [], ◌∷◌, ◌++◌, append-nil, append_assoc, ◌&&◌,
  arith, if◌then◌else◌, Option-cases, Bool, Bool-cases, false, inl, inr, ◌⊎◌, ap, sym, ◌∙◌,
}
use qing_liao_chat_server.Error.{ok}
use qing_liao_chat_server.Map.{Map, Set, lookup, insert, contains, id_key, lookup-insert}
use qing_liao_chat_server.Json.{Json, int_of, string_of, make_success_message, make_error_message}
use qing_liao_chat_server.Messages.{tip_message, insert_message}
use qing_liao_chat_server.Room.{Delivery, Notice, private_message, send_data}
use qing_liao_chat_server.Room
use qing_liao_chat_server.Private
use qing_liao_chat_server.Private.{PrivateRoom, nobody, store_and_send}
use qing_liao_chat_server.User
use qing_liao_chat_server.User.{User}
use qing_liao_chat_server.Server.{Server, names, notices, notify, notify_all, read_user}
use qing_liao_chat_server.Server.Manager.{has_user, get_private_room_id, get_private_room}
use qing_liao_chat_server.Server.Friends.Requests.{notify_lem}
use qing_liao_chat_server.Server.Commands.Users.{World}
use qing_liao_chat_server.Server.Commands.Friends.{send_friend_message, on_private}

-- A notice for every connection of every member.
abbrev pub to_members : Map ℕ User → Notice → Set ℕ → List (ℕ × Notice)
to_members users notice [] = []
to_members users notice ((id, _) ∷ members) =
    let rest = to_members users notice members in
    elim (lookup id users) [ none ↦ rest | some u ↦ notices notice u.connection_map ++ rest ]

-- Notices change nothing but what is sent.
pub notify_all_lem :
    (ds : List Delivery) (s : Server)
    → let t = notify_all ds s in
      (t.users ≡ s.users)
      × (t.private_rooms ≡ s.private_rooms)
      × (t.private_room_ids ≡ s.private_room_ids)
      × (t.group_rooms ≡ s.group_rooms)
unfolding notify_all notify
notify_all_lem [] s = (refl, refl, refl, refl)
notify_all_lem (d ∷ ds) s =
    let rest = notify_all_lem ds (notify d s) in
    (ground (arith, rest), ground (arith, rest), ground (arith, rest), ground (arith, rest))

pub outbox-notify_all :
    (notice : Notice) (members : Set ℕ) (s t : Server)
    → t.users ≡ s.users
    → (notify_all (send_data (names s) notice members) t).outbox
      ≡ t.outbox ++ to_members s.users notice members
unfolding notify_all notify send_data
outbox-notify_all notice [] s t same = sym (append-nil t.outbox)
outbox-notify_all notice ((id, _) ∷ members) s t same = elim (Option-cases (lookup id s.users)) [
  | inl gone ↦ ground (arith, gone, outbox-notify_all notice members s t same)
  | inr (u, there) ↦
      let rest =
        outbox-notify_all notice members s (notify (id, notice) t)
          ((notify_lem (id, notice) t).0 ∙ same) in
      ground (
        arith,
        there,
        same,
        rest,
        append_assoc t.outbox (notices notice u.connection_map) (to_members s.users notice members),
      )
]

-- What `sendMessage` writes down, as ordinary messages are in a private room.
abbrev pub with_message : World → ℕ → String → PrivateRoom → PrivateRoom
with_message world sender message room = record room {
  message_map =
      insert_message world.now
        (record { sender = sender; message = message; type = tip_message; receiver = nobody })
        room.message_map;
}

-- The other one is known, and in the own list of friends.
abbrev pub may_write : ℕ → User → Server → Bool
may_write id u s = has_user id s && User.user_has_friend id u

-- The private room of the two is there and in use, and the user is a member.
pub record IsOpen (executor id r : ℕ) (room : PrivateRoom) (s : Server) : Type 0 where
  pub at_room : get_private_room_id executor id s ≡ ok r
  pub found : get_private_room r s ≡ ok room
  pub usable : room.can_be_used ≡ true
  pub member : contains executor room.members ≡ true

module _ {J : Type 0} (json : Json J) (world : World) (executor id r : ℕ) (j : J) (message : String)
    (u : User) (s : Server) (at_id : int_of json "user_id" j ≡ some id)
    (at_message : string_of json "message" j ≡ some message)
    (at_user : lookup executor s.users ≡ some u) where
  send_friend_message-refused :
      may_write id u s ≡ false
      → send_friend_message json executor world j s ≡ (
        ok (
            make_error_message
              (if has_user id s then "You don't have this friend!" else "UserID is invalid!")),
        s,
      )
  unfolding send_friend_message read_user
  send_friend_message-refused refused = ground (arith, at_id, at_message, at_user, refused)

  send_friend_message-sent :
      (room : PrivateRoom)
      → may_write id u s ≡ true
      → IsOpen executor id r room s
      → let (a, t) = send_friend_message json executor world j s in
        (a ≡ ok (make_success_message "Successfully sent a message!"))
        × (t.outbox
            ≡ s.outbox ++ to_members s.users (private_message executor message) room.members)
        × (get_private_room r t ≡ ok (with_message world executor message room))
        × (t.users ≡ s.users)
  unfolding send_friend_message on_private read_user get_private_room Private.send_message
      store_and_send Room.has_user
  send_friend_message-sent room allowed o = elim (Option-cases (lookup r s.private_rooms)) [
    | inl gone ↦ absurd (ground (arith, gone, o.found))
    | inr (room', there) ↦
        let same : room' ≡ room = ground (arith, there, o.found) in
        let kept = record s {
          private_rooms = insert r (with_message world executor message room) s.private_rooms;
        } in
        let sent = outbox-notify_all (private_message executor message) room.members s kept refl in
        let ds = send_data (names s) (private_message executor message) room.members in
        let frame = notify_all_lem ds kept in
        let stored = lookup-insert r r (with_message world executor message room) s.private_rooms in
        (
          ground (arith, allowed, o.at_room, there, same, o.usable, o.member),
          ground (arith, allowed, o.at_room, there, same, o.usable, o.member, sent),
          ground (arith, allowed, o.at_room, there, same, o.usable, o.member, frame, stored),
          ground (arith, allowed, o.at_room, there, same, o.usable, o.member, frame),
        )
  ]

-- Whether a user may write to the other one is whether the other one is known and in the own list of
-- friends. If not, the answer is an error that says why, and the whole server stays as it was,
-- whatever rooms there are. If so, and their private room is in use with the user in it, the message
-- goes to every connection of every member and into the history of the room, which keeps what it has
-- where a message has the same time already; no user changes.
pub send_friend_message_lem :
    {J : Type 0} (json : Json J) (world : World) (executor id r : ℕ) (j : J) (message : String)
    (u : User) (room : PrivateRoom) (s : Server)
    → int_of json "user_id" j ≡ some id
    → string_of json "message" j ≡ some message
    → lookup executor s.users ≡ some u
    → (may_write id u s ≡ true → IsOpen executor id r room s)
    → let (a, t) = send_friend_message json executor world j s in
      ((may_write id u s ≡ true)
        × (a ≡ ok (make_success_message "Successfully sent a message!"))
        × (t.outbox
            ≡ s.outbox ++ to_members s.users (private_message executor message) room.members)
        × (get_private_room r t ≡ ok (with_message world executor message room))
        × (t.users ≡ s.users))
      ⊎ ((may_write id u s ≡ false)
          × (a
              ≡ ok (
                  make_error_message (
                    if has_user id s then "You don't have this friend!" else "UserID is invalid!")))
          × (t ≡ s))
send_friend_message_lem json world executor id r j message u room s at_id at_message at_user o =
    elim (Bool-cases (may_write id u s)) [
      | inl allowed ↦
          let (a, outbox, history, users) =
            send_friend_message-sent json world executor id r j message u s at_id at_message at_user
              room allowed (o allowed) in
          inl (allowed, a, outbox, history, users)
      | inr refused ↦
          let run =
            send_friend_message-refused json world executor id r j message u s at_id at_message
              at_user refused in
          inr (refused, ap (λ q. q.0) run, ap (λ q. q.1) run)
    ]
