-- ===== src/Server/Manager/Rooms.antt =====
-- Private rooms in the tables of the manager (server/manager/manager.cpp): a room is found by its id
-- and by its two users in either order.
use qing_liao_chat_server.Base.{
  ℕ, ◌≡◌, refl, Bool, true, some, arith, ◌==◌, ◌||◌, ◌&&◌, not, if◌then◌else◌, [],
}
use qing_liao_chat_server.Error.{ok, throw, private_room_not_existed}
use qing_liao_chat_server.Map.{lookup, insert, id_key, lookup-insert, lookup-erase, lookup_subst}
use qing_liao_chat_server.Room.{join_room}
use qing_liao_chat_server.Room.Members.{join_room_lem}
use qing_liao_chat_server.Private.{PrivateRoom, new_private_room, get_user_id}
use qing_liao_chat_server.Server.{Server, names, room_id_key}
use qing_liao_chat_server.Server.Manager.{
  next_id, has_user, add_private_room, get_private_room_id, has_private_room, get_private_room,
  remove_private_room,
}

-- The same two users, in either order.
abbrev pub same_pair : ℕ → ℕ → ℕ → ℕ → Bool
same_pair a b c d = room_id_key.beq (a, b) (c, d)

-- The private room of two users that the server knows.
abbrev pub room_of : ℕ → ℕ → Server → PrivateRoom
room_of a b s = record {
  user_id_1 = a;
  user_id_2 = b;
  can_be_used = true;
  message_map = [];
  members = (join_room (names s) b (join_room (names s) a []).1).1;
}

abbrev pub with_private_room : ℕ → ℕ → Server → Server
with_private_room a b s = record s {
  new_group_room_id = next_id s.new_group_room_id;
  private_rooms = insert s.new_group_room_id (room_of a b s) s.private_rooms;
  private_room_ids = insert ⦃e = room_id_key⦄ (a, b) s.new_group_room_id s.private_room_ids;
}

pub add_private_room-known :
    (a b : ℕ) (s : Server)
    → has_user a s ≡ true
    → has_user b s ≡ true
    → add_private_room a b s ≡ (ok s.new_group_room_id, with_private_room a b s)
unfolding add_private_room has_user new_private_room
add_private_room-known a b s ka kb = ground (
  arith,
  ka,
  kb,
  join_room_lem (names s) a [],
  join_room_lem (names s) b (join_room (names s) a []).1,
)

-- Adding a private room of two known users gives the counter's value as its id: the two users find the
-- id in either order, any other two users find what they found before, and the id finds a usable room.
pub add_private_room_lem :
    (a b c d : ℕ) (s : Server)
    → has_user a s ≡ true
    → has_user b s ≡ true
    → let (r, t) = add_private_room a b s in
      (r ≡ ok s.new_group_room_id)
      × (get_private_room_id c d t
          ≡ (if same_pair a b c d then ok s.new_group_room_id else get_private_room_id c d s))
      × (has_private_room c d t ≡ (same_pair a b c d || has_private_room c d s))
      × ((room : PrivateRoom) × (get_private_room s.new_group_room_id t ≡ ok room)
          × (room.user_id_1 ≡ a)
          × (room.user_id_2 ≡ b)
          × (room.can_be_used ≡ true))
unfolding get_private_room_id has_private_room get_private_room
add_private_room_lem a b c d s ka kb =
    let run = add_private_room-known a b s ka kb in
    let id = s.new_group_room_id in
    let at = λ (x y : ℕ). lookup-insert ⦃e = room_id_key⦄ (x, y) (a, b) id s.private_room_ids in
    let by_id = lookup-insert id id (room_of a b s) s.private_rooms in
    (
      ground (arith, run),
      ground (arith, run, at c d, at d c),
      ground (arith, run, at c d, at d c),
      (room_of a b s, ground (arith, run, by_id), refl, refl, refl),
    )

-- Removing a private room that can still be used returns, and neither the id nor the two users, in either
-- order, find a room afterwards; other ids and other pairs find what they found before.
pub remove_private_room_lem :
    (id v c d : ℕ) (room : PrivateRoom) (s : Server)
    → get_private_room id s ≡ ok room
    → room.can_be_used ≡ true
    → let (r, t) = remove_private_room id s in
      (r ≡ ok tt)
      × (get_private_room v t
          ≡ (if id == v then throw private_room_not_existed else get_private_room v s))
      × (has_private_room c d t
          ≡ (not (same_pair room.user_id_1 room.user_id_2 c d) && has_private_room c d s))
unfolding remove_private_room get_private_room has_private_room get_user_id
remove_private_room_lem id v c d room s there usable =
    let a = room.user_id_1 in
    let b = room.user_id_2 in
    let ids = s.private_room_ids in
    let found : lookup id s.private_rooms ≡ some room = ground (arith, there) in
    let erased = λ (x y : ℕ). lookup-erase ⦃e = room_id_key⦄ (x, y) (a, b) ids in
    let alike = λ (x y : ℕ). lookup_subst ⦃e = room_id_key⦄ (a, b) (x, y) ids in
    (
      ground (arith, found, usable),
      ground (arith, found, usable, lookup-erase v id s.private_rooms),
      ground (arith, found, usable, erased c d, erased d c, alike b a, alike c d, alike d c),
    )
