-- ===== src/Server/Groups/Answers.antt =====
-- The administrator's answer to a request (server/user/user.cpp `acceptGroup`, `rejectGroup`, with
-- server/manager/verificationManager.cpp).
use qing_liao_chat_server.Base.{ℕ, String, ◌≡◌, true, false, some, arith, ◌==◌, ◌&&◌, not, []}
use qing_liao_chat_server.Error.{ok}
use qing_liao_chat_server.Map.{lookup, contains, insert, erase, id_key, lookup-insert}
use qing_liao_chat_server.User.{User, insert_group, remove_group_verification}
use qing_liao_chat_server.Room.{Names, added_group, join_room}
use qing_liao_chat_server.Group.Room.{GroupRoom, add_member}
use qing_liao_chat_server.Server.{
  Server, pair_key, on_user, on_group, names, send_json_to_user, notify, notify_all,
}
use qing_liao_chat_server.Server.Manager.{has_group_room}
use qing_liao_chat_server.Server.Groups.{
  accept_group, may_decide, accept_group_room, remove_group_room_verification,
  has_group_room_verification,
}
use qing_liao_chat_server.Room.Members.{join_room_lem}
use qing_liao_chat_server.Group.Level.{min_level}
use qing_liao_chat_server.Server.Groups.Requests.{
  IsRoom, administrator_of-usable, has_member-usable,
}

-- The room with a new member.
abbrev pub with_member : Names → ℕ → String → GroupRoom → GroupRoom
with_member names a name room = record room {
  user_id_map = insert a (record { nickname = name; level = min_level }) room.user_id_map;
  members = (join_room names a room.members).1;
}

add_member-new :
    (names : Names) (a : ℕ) (name : String) (room : GroupRoom)
    → room.can_be_used ≡ true
    → contains a room.user_id_map ≡ false
    → names a ≡ some name
    → add_member names a (record { room = room; sent = [] })
      ≡ (ok true, record { room = with_member names a name room; sent = [] })
unfolding add_member
add_member-new names a name room usable new known =
    ground (arith, usable, new, known, join_room_lem names a room.members)

-- The server without the request of `a` for the group.
abbrev pub without_request : (g a d : ℕ) (u v : User) → Server → Server
without_request g a d u v s = record s {
  group_verifications = erase ⦃e = pair_key⦄ (a, g) s.group_verifications;
  users = insert a u (insert d v s.users);
}

pub remove_group_room_verification-present :
    (g a : ℕ) (room : GroupRoom) (u u' v v' : User) (s : Server)
    → IsRoom g room s
    → has_group_room_verification a g s ≡ true
    → (a == room.administrator_user_id) ≡ false
    → lookup a s.users ≡ some u
    → lookup room.administrator_user_id s.users ≡ some v
    → remove_group_verification g a u ≡ (ok tt, u')
    → remove_group_verification g a v ≡ (ok tt, v')
    → remove_group_room_verification a g s
      ≡ (ok tt, without_request g a room.administrator_user_id u' v' s)
unfolding remove_group_room_verification has_group_room_verification on_user
remove_group_room_verification-present g a room u u' v v' s (there, usable) asked other at_a at_d ru
      rv =
    let s' : Server = record s {
      group_verifications = erase ⦃e = pair_key⦄ (a, g) s.group_verifications;
    } in
    ground (
      arith,
      asked,
      at_d,
      at_a,
      other,
      ru,
      rv,
      administrator_of-usable g room s' (there, usable),
      lookup-insert a room.administrator_user_id v' s.users,
    )

remove_group_verification-insert_group :
    (g a : ℕ) (u u' : User)
    → remove_group_verification g a u ≡ (ok tt, u')
    → remove_group_verification g a (insert_group g u) ≡ (ok tt, insert_group g u')
unfolding remove_group_verification insert_group
remove_group_verification-insert_group g a u u' h = ground (arith, h)

pub may_decide-usable :
    (g e a : ℕ) (room : GroupRoom) (s : Server)
    → IsRoom g room s
    → may_decide e g a s
      ≡ (ok (not (contains a room.user_id_map) && e == room.administrator_user_id), s)
unfolding may_decide has_group_room
may_decide-usable g e a room s (there, usable) = ground (
  arith,
  there,
  has_member-usable g a room s (there, usable),
  administrator_of-usable g room s (there, usable),
)

-- The server where `a` has become a member, before the request is taken out.
abbrev pub with_group : (g a : ℕ) → GroupRoom → User → Server → Server
with_group g a room u s = record s {
  group_verifications = insert ⦃e = pair_key⦄ (a, g) true s.group_verifications;
  group_rooms = insert g (with_member (names s) a u.user_name room) s.group_rooms;
  users = insert a (insert_group g u) s.users;
}

accept_group_room-present :
    (g a : ℕ) (room : GroupRoom) (u : User) (s : Server)
    → IsRoom g room s
    → contains a room.user_id_map ≡ false
    → has_group_room_verification a g s ≡ true
    → lookup a s.users ≡ some u
    → accept_group_room a g s ≡ remove_group_room_verification a g (with_group g a room u s)
unfolding accept_group_room has_group_room_verification on_user on_group notify_all
accept_group_room-present g a room u s (there, usable) new asked at_a = ground (
  arith,
  there,
  asked,
  at_a,
  add_member-new (names s) a u.user_name room usable new (ground (arith, at_a)),
)

abbrev pub accepted : (g a : ℕ) → GroupRoom → (u u' v' : User) → Server → Server
accepted g a room u u' v' s =
    without_request g a room.administrator_user_id (insert_group g u') v' (with_group g a room u s)

pub accept_group-granted :
    (g a : ℕ) (room : GroupRoom) (u u' v v' : User) (s : Server)
    → IsRoom g room s
    → contains a room.user_id_map ≡ false
    → has_group_room_verification a g s ≡ true
    → (a == room.administrator_user_id) ≡ false
    → lookup a s.users ≡ some u
    → lookup room.administrator_user_id s.users ≡ some v
    → remove_group_verification g a u ≡ (ok tt, u')
    → remove_group_verification g a v ≡ (ok tt, v')
    → accept_group room.administrator_user_id g a s
      ≡ (ok true, notify (a, added_group g) (accepted g a room u u' v' s))
unfolding accept_group send_json_to_user has_group_room_verification
accept_group-granted g a room u u' v v' s (there, usable) new asked other at_a at_d ru rv =
    let d = room.administrator_user_id in
    let s' = with_group g a room u s in
    let room' = with_member (names s) a u.user_name room in
    let stored = lookup-insert ⦃e = pair_key⦄ (a, g) (a, g) true s.group_verifications in
    let inserted = λ (w : ℕ). lookup-insert w a (insert_group g u) s.users in
    ground (
      arith,
      may_decide-usable g d a room s (there, usable),
      new,
      accept_group_room-present g a room u s (there, usable) new asked at_a,
      remove_group_room_verification-present g a room' (insert_group g u) (insert_group g u') v v'
          s' (ground (arith, lookup-insert g g room' s.group_rooms), usable)
          (ground (arith, stored)) other (ground (arith, inserted a))
          (ground (arith, other, inserted d, at_d))
          (remove_group_verification-insert_group g a u u' ru) rv,
      lookup-insert a a (insert_group g u') (insert d v' s'.users),
    )
