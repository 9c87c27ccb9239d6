-- ===== src/Server/Friends/Answers.antt =====
-- The answer to a friend request (server/user/user.cpp `acceptFriend`, `rejectFriend`, with
-- server/manager/verificationManager.cpp).
use qing_liao_chat_server.Base.{
  ℕ, ◌≡◌, Bool, true, false, some, none, arith, ◌==◌, ◌||◌, ◌&&◌, not, if◌then◌else◌, inl, inr,
  Bool-cases, Option-cases, ==_iff, ap,
}
use qing_liao_chat_server.Error.{ok}
use qing_liao_chat_server.Map.{lookup, contains, insert, erase, id_key, lookup-insert, lookup-erase}
use qing_liao_chat_server.User.{User, remove_friend_verification, insert_friend}
use qing_liao_chat_server.Room.{added_friend}
use qing_liao_chat_server.Server.{Server, pair_key, room_id_key, on_user, send_json_to_user, notify}
use qing_liao_chat_server.Server.Manager.{has_user, has_private_room}
use qing_liao_chat_server.Server.Manager.Rooms.{
  same_pair, with_private_room, add_private_room-known,
}
use qing_liao_chat_server.Server.Friends.{
  accept_friend, has_friend_room_verification, accept_friend_verification,
  remove_friend_room_verification,
}
use qing_liao_chat_server.Server.Friends.Requests.{entry_of, notify_lem}

-- Whether the user `v` has `w` as a friend.
abbrev pub is_friend_of : ℕ → ℕ → Server → Bool
is_friend_of v w s = elim (lookup v s.users) [ none ↦ false | some u ↦ contains w u.friend_set ]

-- Whether `acceptFriend` and `rejectFriend` are let through.
abbrev pub may_answer : ℕ → ℕ → Server → Bool
may_answer self friend s =
    not (
      self == friend || not (has_user friend s) || not (has_friend_room_verification friend self s))

-- The request of `a` to `b` taken out of the server and of the lists of both users.
abbrev pub without_request : (a b : ℕ) (u v : User) → Server → Server
without_request a b u v s = record s {
  friend_room_verifications = erase ⦃e = pair_key⦄ (a, b) s.friend_room_verifications;
  users =
      insert b (remove_friend_verification a v) (insert a (remove_friend_verification b u) s.users);
}

pub remove_friend_room_verification-present :
    (a b : ℕ) (u v : User) (s : Server)
    → has_friend_room_verification a b s ≡ true
    → lookup a s.users ≡ some u
    → lookup b s.users ≡ some v
    → remove_friend_room_verification a b s ≡ (ok tt, without_request a b u v s)
unfolding remove_friend_room_verification has_friend_room_verification on_user
remove_friend_room_verification-present a b u v s asked at_a at_b =
    ground (arith, asked, at_a, at_b, lookup-insert b a (remove_friend_verification b u) s.users)

-- The server where `a` and `b` have become friends, before the request is taken out.
abbrev with_friends : (a b : ℕ) (u v : User) → Server → Server
with_friends a b u v s =
    let granted = record s {
      friend_room_verifications = insert ⦃e = pair_key⦄ (a, b) true s.friend_room_verifications;
    } in
    let t = with_private_room a b granted in
    record t { users = insert b (insert_friend a v) (insert a (insert_friend b u) t.users) }

accept_friend_verification-present :
    (a b : ℕ) (u v : User) (s : Server)
    → has_friend_room_verification a b s ≡ true
    → lookup a s.users ≡ some u
    → lookup b s.users ≡ some v
    → accept_friend_verification a b s
      ≡ remove_friend_room_verification a b (with_friends a b u v s)
unfolding accept_friend_verification has_friend_room_verification on_user has_user
accept_friend_verification-present a b u v s asked at_a at_b =
    let granted = record s {
      friend_room_verifications = insert ⦃e = pair_key⦄ (a, b) true s.friend_room_verifications;
    } in
    ground (
      arith,
      asked,
      at_a,
      at_b,
      add_private_room-known a b granted (ground (arith, at_a)) (ground (arith, at_b)),
      lookup-insert b a (insert_friend b u) s.users,
    )

abbrev accepted : (a b : ℕ) (u v : User) → Server → Server
accepted a b u v s =
    without_request a b (insert_friend b u) (insert_friend a v) (with_friends a b u v s)

accept_friend-granted :
    (a b : ℕ) (u v : User) (s : Server)
    → may_answer b a s ≡ true
    → lookup a s.users ≡ some u
    → lookup b s.users ≡ some v
    → accept_friend b a s ≡ (ok true, notify (a, added_friend b) (accepted a b u v s))
unfolding accept_friend send_json_to_user has_friend_room_verification
accept_friend-granted a b u v s granted at_a at_b =
    let s' = with_friends a b u v s in
    let u' = insert_friend b u in
    let v' = insert_friend a v in
    let first = λ (w : ℕ). lookup-insert w a u' s.users in
    let both = λ (w : ℕ). lookup-insert w b v' (insert a u' s.users) in
    let third = λ (w : ℕ). lookup-insert w a (remove_friend_verification b u') s'.users in
    let fourth = λ (w : ℕ).
      lookup-insert w b (remove_friend_verification a v')
        (insert a (remove_friend_verification b u') s'.users) in
    let stored = lookup-insert ⦃e = pair_key⦄ (a, b) (a, b) true s.friend_room_verifications in
    let removed : remove_friend_room_verification a b s' ≡ (ok tt, accepted a b u v s) =
      remove_friend_room_verification-present a b u' v' s' (ground (arith, stored))
        (ground (arith, granted, first a, both a)) (ground (arith, both b)) in
    ground (
      arith,
      granted,
      accept_friend_verification-present a b u v s (ground (arith, granted)) at_a at_b,
      removed,
      first a,
      both a,
      third a,
      fourth a,
    )

accept_friend-refused :
    (a b : ℕ) (s : Server) → may_answer b a s ≡ false → accept_friend b a s ≡ (ok false, s)
unfolding accept_friend
accept_friend-refused a b s refused = ground (arith, refused)

-- What the accepted request leaves in the table of users.
user-accepted :
    (a b c : ℕ) (u v : User) (s : Server)
    → (a == b) ≡ false
    → lookup c (accepted a b u v s).users ≡ (
        if b == c
        then some (remove_friend_verification a (insert_friend a v))
        else if a == c
        then some (remove_friend_verification b (insert_friend b u))
        else lookup c s.users)
user-accepted a b c u v s other =
    let u' = insert_friend b u in
    let v' = insert_friend a v in
    let s' = with_friends a b u v s in
    ground (
      arith,
      other,
      lookup-insert c a u' s.users,
      lookup-insert c b v' (insert a u' s.users),
      lookup-insert c a (remove_friend_verification b u') s'.users,
      lookup-insert c b (remove_friend_verification a v')
          (insert a (remove_friend_verification b u') s'.users),
    )

-- Accepting a request returns whether it was let through. If so, the two users are friends of each
-- other and have a private room, and the request is gone from the server and from the lists of both;
-- nobody else's friends, rooms or requests change. If not, the server is as before.
pub accept_friend_lem :
    (a b c d : ℕ) (s : Server)
    → has_user b s ≡ true
    → let (r, t) = accept_friend b a s in
      let granted = may_answer b a s in
      (r ≡ ok granted)
      × (has_friend_room_verification c d t
          ≡ (not (granted && a == c && b == d) && has_friend_room_verification c d s))
      × (has_private_room c d t ≡ (granted && same_pair a b c d || has_private_room c d s))
      × (is_friend_of c d t ≡ (granted && same_pair a b c d || is_friend_of c d s))
      × (entry_of a b t ≡ (if granted then none else entry_of a b s))
      × (entry_of b a t ≡ (if granted then none else entry_of b a s))
unfolding has_friend_room_verification has_user has_private_room remove_friend_verification
    insert_friend
accept_friend_lem a b c d s kb = elim (Bool-cases (may_answer b a s)) [
  | inr refused ↦
      let same = accept_friend-refused a b s refused in
      (
        ground (arith, refused, same),
        ground (arith, refused, same),
        ground (arith, refused, same),
        ground (arith, refused, same),
        ground (arith, refused, same),
        ground (arith, refused, same),
      )
  | inl granted ↦ elim (Option-cases (lookup a s.users)) [
    | inl gone ↦ absurd (ground (arith, gone))
    | inr (u, at_a) ↦ elim (Option-cases (lookup b s.users)) [
      | inl gone ↦ absurd (ground (arith, gone))
      | inr (v, at_b) ↦
          let run = accept_friend-granted a b u v s granted at_a at_b in
          let frame = notify_lem (a, added_friend b) (accepted a b u v s) in
          let other : (a == b) ≡ false = ground (arith, granted) in
          let user = λ (w : ℕ). user-accepted a b w u v s other in
          let verifications = s.friend_room_verifications in
          let stored = lookup-insert ⦃e = pair_key⦄ (c, d) (a, b) true verifications in
          let erased =
            lookup-erase ⦃e = pair_key⦄ (c, d) (a, b)
              (insert ⦃e = pair_key⦄ (a, b) true verifications) in
          let id = s.new_group_room_id in
          let at =
            λ (x y : ℕ). lookup-insert ⦃e = room_id_key⦄ (x, y) (a, b) id s.private_room_ids in
          let u_friends = lookup-insert d b tt u.friend_set in
          let v_friends = lookup-insert d a tt v.friend_set in
          (
            ground (arith, granted, run),
            ground (arith, granted, run, frame, stored, erased),
            ground (arith, granted, run, frame, at c d, at d c),
            elim (Bool-cases (b == c)) [
              | inl is_b ↦ ground (
                arith,
                granted,
                run,
                frame,
                user c,
                v_friends,
                at_b,
                ap (λ w. lookup w s.users) ((==_iff b c).0 is_b),
              )
              | inr not_b ↦ elim (Bool-cases (a == c)) [
                | inl is_a ↦ ground (
                  arith,
                  granted,
                  run,
                  frame,
                  user c,
                  u_friends,
                  at_a,
                  ap (λ w. lookup w s.users) ((==_iff a c).0 is_a),
                )
                | inr not_a ↦ ground (arith, granted, run, frame, user c)
              ]
            ],
            ground (arith, granted, run, frame, user a, lookup-erase b b u.friend_verification_map),
            ground (arith, granted, run, frame, user b, lookup-erase a a v.friend_verification_map),
          )
    ]
  ]
]
