-- ===== src/Server/Manager.antt =====
-- server/manager/manager.cpp: users, private rooms and group rooms.
pub mod Users
pub mod Rooms
use qing_liao_chat_server.Base.{ℕ, ◌+◌, ◌%◌, ◌^◌, Bool, none, some, [], ◌||◌, if◌then◌else◌}
use qing_liao_chat_server.Error.{
  Action, Result, ok, err, throw, user_not_existed, private_room_not_existed,
  group_room_not_existed, ◌>>=◌, ◌>>◌, pure, gets, modify, or_raise,
}
use qing_liao_chat_server.Map.{Map, lookup, contains, insert, emplace, erase, id_key}
use qing_liao_chat_server.User.{User, new_user}
use qing_liao_chat_server.Group.Room.{GroupRoom, new_group_room}
use qing_liao_chat_server.Private
use qing_liao_chat_server.Private.{PrivateRoom, new_private_room}
use qing_liao_chat_server.Server.{Server, Call, names, room_id_key}

-- `std::atomic<long long>::operator++(int)` wraps.
abbrev pub next_id : ℕ → ℕ
next_id n = (n + 1) % 2 ^ 64

unfoldable pub has_user : ℕ → Server → Bool
has_user id s = contains id s.users

unfoldable pub get_user : ℕ → Server → Result User
get_user id s = elim (lookup id s.users) [ none ↦ throw user_not_existed | some u ↦ ok u ]

-- The id of the new user; `now` is the clock.
unfoldable pub add_new_user : ℕ → Call ℕ
add_new_user now s = (
  ok s.new_user_id,
  record s {
    new_user_id = next_id s.new_user_id;
    users = emplace s.new_user_id (new_user s.new_user_id now) s.users;
  },
)

-- A private room takes its id from the counter named for group rooms, and the other way round.
unfoldable pub add_private_room : ℕ → ℕ → Call ℕ
add_private_room user1 user2 s =
    let id = s.new_group_room_id in
    elim (new_private_room (names s) user1 user2) [
      | err e ↦ (err e, record s { new_group_room_id = next_id id })
      | ok room ↦ (
        ok id,
        record s {
          new_group_room_id = next_id id;
          private_rooms = insert id room s.private_rooms;
          private_room_ids = insert ⦃e = room_id_key⦄ (user1, user2) id s.private_room_ids;
        },
      )
    ]

unfoldable pub get_private_room_id : ℕ → ℕ → Server → Result ℕ
get_private_room_id user1 user2 s =
    elim (lookup ⦃e = room_id_key⦄ (user1, user2) s.private_room_ids) [
      | some id ↦ ok id
      | none ↦ elim (lookup ⦃e = room_id_key⦄ (user2, user1) s.private_room_ids) [
        | some id ↦ ok id
        | none ↦ throw private_room_not_existed
      ]
    ]

unfoldable pub has_private_room : ℕ → ℕ → Server → Bool
has_private_room user1 user2 s =
    contains ⦃e = room_id_key⦄ (user1, user2) s.private_room_ids
    || contains ⦃e = room_id_key⦄ (user2, user1) s.private_room_ids

-- `hasPrivateRoom(private_room_id)`
pub has_private_room_id : ℕ → Server → Bool
has_private_room_id id s = contains id s.private_rooms

unfoldable pub get_private_room : ℕ → Server → Result PrivateRoom
get_private_room id s = elim (lookup id s.private_rooms) [
  | none ↦ throw private_room_not_existed
  | some room ↦ ok room
]

-- `itor->second->getUserID()` throws where the room was closed before.
pub remove_private_room : ℕ → Call (Unit {0})
remove_private_room id s = elim (lookup id s.private_rooms) [
  | none ↦ (throw private_room_not_existed, s)
  | some room ↦ elim (Private.get_user_id (record { room = room; sent = [] })).0 [
    | err e ↦ (err e, s)
    | ok (user1, user2) ↦ (
      ok tt,
      record s {
        private_room_ids =
            if contains ⦃e = room_id_key⦄ (user1, user2) s.private_room_ids
            then erase ⦃e = room_id_key⦄ (user1, user2) s.private_room_ids
            else if contains ⦃e = room_id_key⦄ (user2, user1) s.private_room_ids
            then erase ⦃e = room_id_key⦄ (user2, user1) s.private_room_ids
            else s.private_room_ids;
        private_rooms = erase id s.private_rooms;
      },
    )
  ]
]

unfoldable pub add_group_room : ℕ → Call ℕ
add_group_room operator_id s =
    let id = s.new_private_room_id in
    elim (new_group_room (names s) id operator_id) [
      | err e ↦ (err e, record s { new_private_room_id = next_id id })
      | ok room ↦ (
        ok id,
        record s { new_private_room_id = next_id id; group_rooms = insert id room s.group_rooms },
      )
    ]

unfoldable pub has_group_room : ℕ → Server → Bool
has_group_room id s = contains id s.group_rooms

unfoldable pub get_group_room : ℕ → Server → Result GroupRoom
get_group_room id s = elim (lookup id s.group_rooms) [
  | none ↦ throw group_room_not_existed
  | some room ↦ ok room
]

unfoldable pub remove_group_room : ℕ → Call (Unit {0})
remove_group_room id s =
    if contains id s.group_rooms
    then (ok tt, record s { group_rooms = erase id s.group_rooms })
    else (throw group_room_not_existed, s)
