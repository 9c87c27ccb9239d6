-- ===== src/Server/Groups/Requests.antt =====
-- Asking to be let into a group (server/user/user.cpp `addGroup`, with
-- server/manager/verificationManager.cpp).
use qing_liao_chat_server.Base.{
  ℕ, ◌≡◌, Bool, true, false, some, none, arith, ◌==◌, ◌||◌, ◌&&◌, not, if◌then◌else◌, inl, inr,
  Bool-cases, [],
}
use qing_liao_chat_server.Error.{Result, ok, Action}
use qing_liao_chat_server.Map.{lookup, contains, insert, id_key, lookup-insert, insert-lookup}
use qing_liao_chat_server.User.{
  User, sent, received, GroupVerificationMap, add_group_verification, insert_multi,
}
use qing_liao_chat_server.Room.{Sending, Names, added_group_verification}
use qing_liao_chat_server.Group.Room
use qing_liao_chat_server.Group.Room.{GroupRoom, get_administrator}
use qing_liao_chat_server.Server.{
  Server, pair_key, on_user, on_group, names, send_json_to_user, notify, notify_all,
}
use qing_liao_chat_server.Server.Manager.{has_user, has_group_room}
use qing_liao_chat_server.Server.Friends.Requests.{notify_lem}
use qing_liao_chat_server.Server.Groups.{
  request, add_group, has_group_room_verification, apply_group_room_verification, administrator_of,
  has_member,
}

-- A method of a group room that only reads changes nothing in the server.
pub on_group-reads :
    {A : Type 0} (g : ℕ) (m : Names → Action (Sending GroupRoom) A) (r : Result A)
    (room : GroupRoom) (s : Server)
    → lookup g s.group_rooms ≡ some room
    → m (names s) (record { room = room; sent = [] }) ≡ (r, record { room = room; sent = [] })
    → on_group g m s ≡ (r, s)
unfolding on_group notify_all
on_group-reads g m r room s there reads =
    ground (arith, there, reads, insert-lookup g room s.group_rooms there)

-- A group room that can be used, as the server has it.
abbrev pub IsRoom : ℕ → GroupRoom → Server → Type 0
IsRoom g room s = (lookup g s.group_rooms ≡ some room) × (room.can_be_used ≡ true)

pub administrator_of-usable :
    (g : ℕ) (room : GroupRoom) (s : Server)
    → IsRoom g room s
    → administrator_of g s ≡ (ok room.administrator_user_id, s)
unfolding get_administrator
administrator_of-usable g room s (there, usable) =
    on_group-reads g (λ _. get_administrator) (ok room.administrator_user_id) room s there
      (ground (arith, usable))

pub has_member-usable :
    (g v : ℕ) (room : GroupRoom) (s : Server)
    → IsRoom g room s
    → has_member g v s ≡ (ok (contains v room.user_id_map), s)
unfolding Room.has_member
has_member-usable g v room s (there, usable) =
    on_group-reads g (λ _. Room.has_member v) (ok (contains v room.user_id_map)) room s there
      (ground (arith, usable))

-- The server with the request of `a` for the group stored, and in the lists of both users.
abbrev pub with_request : (g a d : ℕ) (u v : User) → Server → Server
with_request g a d u v s = record s {
  group_verifications = insert ⦃e = pair_key⦄ (a, g) false s.group_verifications;
  users =
      insert d (add_group_verification g (request a g received) v)
        (insert a (add_group_verification g (request a g sent) u) s.users);
}

apply_group_room_verification-granted :
    (g a : ℕ) (room : GroupRoom) (u v : User) (s : Server)
    → IsRoom g room s
    → has_group_room_verification a g s ≡ false
    → lookup a s.users ≡ some u
    → lookup room.administrator_user_id
        (insert a (add_group_verification g (request a g sent) u) s.users)
      ≡ some v
    → apply_group_room_verification a g s
      ≡ (ok tt, with_request g a room.administrator_user_id u v s)
unfolding apply_group_room_verification has_group_room_verification on_user has_user has_group_room
apply_group_room_verification-granted g a room u v s (there, usable) asked at_a at_d = ground (
  arith,
  there,
  asked,
  at_a,
  at_d,
  administrator_of-usable g room
      (record s {
        group_verifications = insert ⦃e = pair_key⦄ (a, g) false s.group_verifications;
        users = insert a (add_group_verification g (request a g sent) u) s.users;
      })
      (there, usable),
)

-- The list of group requests of a user.
abbrev pub group_requests : ℕ → Server → GroupVerificationMap
group_requests v s = elim (lookup v s.users) [ none ↦ [] | some u ↦ u.group_verification_map ]

-- Whether `addGroup` is let through in a room that can be used.
abbrev pub may_join : (g a : ℕ) → GroupRoom → Server → Bool
may_join g a room s = not (contains a room.user_id_map || has_group_room_verification a g s)

pub add_group-granted :
    (g a : ℕ) (room : GroupRoom) (u v : User) (s : Server)
    → IsRoom g room s
    → may_join g a room s ≡ true
    → (a == room.administrator_user_id) ≡ false
    → lookup a s.users ≡ some u
    → lookup room.administrator_user_id s.users ≡ some v
    → let d = room.administrator_user_id in
      add_group a g s
      ≡ (ok true, notify (d, added_group_verification g a) (with_request g a d u v s))
unfolding add_group send_json_to_user has_group_room
add_group-granted g a room u v s (there, usable) granted other at_a at_d =
    let d = room.administrator_user_id in
    let first = lookup-insert d a (add_group_verification g (request a g sent) u) s.users in
    ground (
      arith,
      there,
      granted,
      has_member-usable g a room s (there, usable),
      apply_group_room_verification-granted g a room u v s (there, usable) (ground (arith, granted))
          at_a (ground (arith, first, other, at_d)),
      administrator_of-usable g room (with_request g a d u v s) (there, usable),
      lookup-insert d d (add_group_verification g (request a g received) v)
          (insert a (add_group_verification g (request a g sent) u) s.users),
    )

add_group-refused :
    (g a : ℕ) (room : GroupRoom) (s : Server)
    → IsRoom g room s
    → may_join g a room s ≡ false
    → add_group a g s ≡ (ok false, s)
unfolding add_group has_group_room
add_group-refused g a room s (there, usable) refused =
    ground (arith, there, refused, has_member-usable g a room s (there, usable))

-- Asking to be let into a group that can be used, by a known user other than its administrator, returns
-- whether it was let through. If so, the request is stored, and it goes into the lists of the user and
-- of the administrator and of nobody else; if not, requests and lists are as before. The group itself
-- does not change.
pub add_group_lem :
    (g a c h : ℕ) (room : GroupRoom) (u v : User) (s : Server)
    → IsRoom g room s
    → (a == room.administrator_user_id) ≡ false
    → lookup a s.users ≡ some u
    → lookup room.administrator_user_id s.users ≡ some v
    → let (r, t) = add_group a g s in
      let granted = may_join g a room s in
      (r ≡ ok granted)
      × (has_group_room_verification c h t
          ≡ (granted && a == c && g == h || has_group_room_verification c h s))
      × (group_requests c t ≡ (
          if granted && a == c
          then insert_multi g (request a g sent) u.group_verification_map
          else if granted && room.administrator_user_id == c
          then insert_multi g (request a g received) v.group_verification_map
          else group_requests c s))
      × IsRoom g room t
unfolding has_group_room_verification add_group_verification
add_group_lem g a c h room u v s (there, usable) other at_a at_d =
    elim (Bool-cases (may_join g a room s)) [
      | inr refused ↦
          let same = add_group-refused g a room s (there, usable) refused in
          (
            ground (arith, refused, same),
            ground (arith, refused, same),
            ground (arith, refused, same),
            (ground (arith, same, there), usable),
          )
      | inl granted ↦
          let d = room.administrator_user_id in
          let run = add_group-granted g a room u v s (there, usable) granted other at_a at_d in
          let frame = notify_lem (d, added_group_verification g a) (with_request g a d u v s) in
          let u' = add_group_verification g (request a g sent) u in
          let v' = add_group_verification g (request a g received) v in
          (
            ground (arith, granted, run),
            ground (
              arith,
              granted,
              run,
              frame,
              lookup-insert ⦃e = pair_key⦄ (c, h) (a, g) false s.group_verifications,
            ),
            ground (
              arith,
              granted,
              run,
              frame,
              other,
              lookup-insert c a u' s.users,
              lookup-insert c d v' (insert a u' s.users),
            ),
            (ground (arith, run, frame, there), usable),
          )
    ]
