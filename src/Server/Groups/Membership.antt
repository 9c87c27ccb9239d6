-- ===== src/Server/Groups/Membership.antt =====
-- From the request to join a group to its answer (server/user/user.cpp `addGroup`, `acceptGroup`,
-- `rejectGroup`).
use qing_liao_chat_server.Base.{◌<◌, ◌^◌, ℕ, ◌≡◌, refl, Bool, true, false, some, none, arith, ◌==◌}
use qing_liao_chat_server.Error.{ok}
use qing_liao_chat_server.Map.{lookup, contains, insert, id_key, lookup-insert, lookup-erase}
use qing_liao_chat_server.User.{
  User, sent, received, add_group_verification, insert_group, remove_group_verification,
}
use qing_liao_chat_server.Room.{
  has_user as is_member, added_group, rejected_to_add_group, added_group_verification,
}
use qing_liao_chat_server.Group.Room.{GroupRoom, UserDataStructure}
use qing_liao_chat_server.Server.{Server, pair_key, names, send_json_to_user, notify}
use qing_liao_chat_server.Server.Friends.Requests.{notify_lem}
use qing_liao_chat_server.Server.Groups.{
  request, add_group, accept_group, reject_group, reject_group_room, has_group_room_verification,
}
use qing_liao_chat_server.Group.Level.{min_level}
use qing_liao_chat_server.Server.Groups.Requests.{IsRoom, group_requests}
use qing_liao_chat_server.User.Verifications.{
  IsSorted, Lacks, remove_group_verification-add_group_verification,
}
use qing_liao_chat_server.Room.Members.{has_user-join_room}
use qing_liao_chat_server.Server.Groups.Requests.{may_join, add_group-granted, with_request}
use qing_liao_chat_server.Server.Groups.Answers.{
  accept_group-granted, accepted, with_member, remove_group_room_verification-present,
  may_decide-usable, without_request,
}

-- Whether the user has the group in its own set.
abbrev pub has_group : ℕ → ℕ → Server → Bool
has_group v g s = elim (lookup v s.users) [ none ↦ false | some u ↦ contains g u.group_set ]

-- What the server has of the two users and the room once the request is made.
asked_lem :
    (g a : ℕ) (room : GroupRoom) (u v : User) (s : Server)
    → IsRoom g room s
    → may_join g a room s ≡ true
    → (a == room.administrator_user_id) ≡ false
    → lookup a s.users ≡ some u
    → lookup room.administrator_user_id s.users ≡ some v
    → let t = (add_group a g s).1 in
      IsRoom g room t
      × (has_group_room_verification a g t ≡ true)
      × (lookup a t.users ≡ some (add_group_verification g (request a g sent) u))
      × (lookup room.administrator_user_id t.users
          ≡ some (add_group_verification g (request a g received) v))
unfolding has_group_room_verification
asked_lem g a room u v s (there, usable) granted other at_a at_d =
    let d = room.administrator_user_id in
    let run = add_group-granted g a room u v s (there, usable) granted other at_a at_d in
    let frame = notify_lem (d, added_group_verification g a) (with_request g a d u v s) in
    let u' = add_group_verification g (request a g sent) u in
    let v' = add_group_verification g (request a g received) v in
    let first = lookup-insert a a u' s.users in
    let second = λ (w : ℕ). lookup-insert w d v' (insert a u' s.users) in
    (
      (ground (arith, run, frame, there), usable),
      ground (
        arith,
        run,
        frame,
        lookup-insert ⦃e = pair_key⦄ (a, g) (a, g) false s.group_verifications,
      ),
      ground (arith, run, frame, other, first, second a),
      ground (arith, run, frame, second d),
    )

-- A request to join a group that the administrator accepts makes the user a member: in both tables of
-- the room and in the user's own set of groups. The request is gone, and the lists of requests of the
-- user and of the administrator are what they were before it, if they were in order and had no
-- entry of this user for this group.
pub accept_group-add_group :
    (g a : ℕ) (room : GroupRoom) (u v : User) (s : Server)
    → IsRoom g room s
    → may_join g a room s ≡ true
    → (a == room.administrator_user_id) ≡ false
    → lookup a s.users ≡ some u
    → lookup room.administrator_user_id s.users ≡ some v
    → g < 2 ^ 64
    → IsSorted u.group_verification_map
    → IsSorted v.group_verification_map
    → Lacks g a u.group_verification_map
    → Lacks g a v.group_verification_map
    → let d = room.administrator_user_id in
      let (r, w) = accept_group d g a (add_group a g s).1 in
      (r ≡ ok true)
      × ((room' : GroupRoom) × IsRoom g room' w
          × (contains a room'.user_id_map ≡ true)
          × (is_member a room'.members ≡ true)
          × (room'.administrator_user_id ≡ d))
      × (has_group a g w ≡ true)
      × (has_group_room_verification a g w ≡ false)
      × (group_requests a w ≡ u.group_verification_map)
      × (group_requests d w ≡ v.group_verification_map)
unfolding has_group_room_verification insert_group
accept_group-add_group g a room u v s is_room granted other at_a at_d small su sv lu lv =
    let d = room.administrator_user_id in
    let t = (add_group a g s).1 in
    let (is_room', asked, at_a', at_d') =
      asked_lem g a room u v s is_room granted other at_a at_d in
    let u' = add_group_verification g (request a g sent) u in
    let v' = add_group_verification g (request a g received) v in
    let run =
      accept_group-granted g a room u' u v' v t is_room' (ground (arith, granted)) asked other at_a'
        at_d' (remove_group_verification-add_group_verification g (request a g sent) u small su lu)
        (remove_group_verification-add_group_verification g (request a g received) v small sv lv) in
    let w = accepted g a room u' u v t in
    let frame = notify_lem (a, added_group g) w in
    let room' = with_member (names t) a u'.user_name room in
    let last = λ (x : ℕ).
      lookup-insert x a (insert_group g u) (insert d v (insert a (insert_group g u') t.users)) in
    (
      ground (arith, run),
      (
        room',
        (ground (arith, run, frame, lookup-insert g g room' t.group_rooms), is_room.1),
        ground (
          arith,
          lookup-insert {V = UserDataStructure} a a
              (record { nickname = u'.user_name; level = min_level }) room.user_id_map,
        ),
        ground (arith, at_a', has_user-join_room (names t) a a room.members),
        refl,
      ),
      ground (arith, run, frame, last a, lookup-insert g g tt u.group_set),
      ground (
        arith,
        run,
        frame,
        lookup-erase ⦃e = pair_key⦄ (a, g) (a, g)
            (insert ⦃e = pair_key⦄ (a, g) true t.group_verifications),
      ),
      ground (arith, run, frame, last a),
      ground (
        arith,
        run,
        frame,
        other,
        last d,
        lookup-insert d d v (insert a (insert_group g u') t.users),
      ),
    )

reject_group-granted :
    (g a : ℕ) (room : GroupRoom) (u u' v v' : User) (s : Server)
    → IsRoom g room s
    → contains a room.user_id_map ≡ false
    → has_group_room_verification a g s ≡ true
    → (a == room.administrator_user_id) ≡ false
    → lookup a s.users ≡ some u
    → lookup room.administrator_user_id s.users ≡ some v
    → remove_group_verification g a u ≡ (ok tt, u')
    → remove_group_verification g a v ≡ (ok tt, v')
    → let d = room.administrator_user_id in
      reject_group d g a s
      ≡ (ok true, notify (a, rejected_to_add_group g) (without_request g a d u' v' s))
unfolding reject_group reject_group_room send_json_to_user
reject_group-granted g a room u u' v v' s is_room new asked other at_a at_d ru rv =
    let d = room.administrator_user_id in
    ground (
      arith,
      may_decide-usable g d a room s is_room,
      new,
      asked,
      remove_group_room_verification-present g a room u u' v v' s is_room asked other at_a at_d ru
          rv,
      lookup-insert a a u' (insert d v' s.users),
    )

-- A request to join a group that the administrator rejects leaves the user, the administrator and the
-- room as they were before it, under the same conditions on the lists, and the request is gone.
pub reject_group-add_group :
    (g a : ℕ) (room : GroupRoom) (u v : User) (s : Server)
    → IsRoom g room s
    → may_join g a room s ≡ true
    → (a == room.administrator_user_id) ≡ false
    → lookup a s.users ≡ some u
    → lookup room.administrator_user_id s.users ≡ some v
    → g < 2 ^ 64
    → IsSorted u.group_verification_map
    → IsSorted v.group_verification_map
    → Lacks g a u.group_verification_map
    → Lacks g a v.group_verification_map
    → let d = room.administrator_user_id in
      let (r, w) = reject_group d g a (add_group a g s).1 in
      (r ≡ ok true)
      × (lookup a w.users ≡ some u)
      × (lookup d w.users ≡ some v)
      × IsRoom g room w
      × (has_group_room_verification a g w ≡ false)
unfolding has_group_room_verification
reject_group-add_group g a room u v s is_room granted other at_a at_d small su sv lu lv =
    let d = room.administrator_user_id in
    let t = (add_group a g s).1 in
    let (is_room', asked, at_a', at_d') =
      asked_lem g a room u v s is_room granted other at_a at_d in
    let u' = add_group_verification g (request a g sent) u in
    let v' = add_group_verification g (request a g received) v in
    let run =
      reject_group-granted g a room u' u v' v t is_room' (ground (arith, granted)) asked other at_a'
        at_d' (remove_group_verification-add_group_verification g (request a g sent) u small su lu)
        (remove_group_verification-add_group_verification g (request a g received) v small sv lv) in
    let frame = notify_lem (a, rejected_to_add_group g) (without_request g a d u v t) in
    let last = λ (x : ℕ). lookup-insert x a u (insert d v t.users) in
    (
      ground (arith, run),
      ground (arith, run, frame, last a),
      ground (arith, run, frame, other, last d, lookup-insert d d v t.users),
      (ground (arith, run, frame, is_room'), is_room.1),
      ground (arith, run, frame, lookup-erase ⦃e = pair_key⦄ (a, g) (a, g) t.group_verifications),
    )
