-- ===== src/Server/Friends/Rejection.antt =====
-- A friend request turned down (server/user/user.cpp `rejectFriend`).
use qing_liao_chat_server.Base.{
  ℕ, ◌≡◌, true, false, some, none, arith, ◌==◌, ◌&&◌, not, if◌then◌else◌, inl, inr, Bool-cases,
  Option-cases, ==_iff, ap,
}
use qing_liao_chat_server.Error.{ok}
use qing_liao_chat_server.Map.{lookup, insert, id_key, lookup-insert, lookup-erase}
use qing_liao_chat_server.User.{User, remove_friend_verification}
use qing_liao_chat_server.Room.{rejected_to_add_friend}
use qing_liao_chat_server.Server.{Server, pair_key, send_json_to_user, notify}
use qing_liao_chat_server.Server.Manager.{has_user, has_private_room}
use qing_liao_chat_server.Server.Friends.{
  reject_friend, has_friend_room_verification, reject_friend_verification,
}
use qing_liao_chat_server.Server.Friends.Requests.{entry_of, notify_lem}
use qing_liao_chat_server.Server.Friends.Answers.{
  is_friend_of, may_answer, without_request, remove_friend_room_verification-present,
}

reject_friend-granted :
    (a b : ℕ) (u v : User) (s : Server)
    → may_answer b a s ≡ true
    → lookup a s.users ≡ some u
    → lookup b s.users ≡ some v
    → reject_friend b a s
      ≡ (ok true, notify (a, rejected_to_add_friend b) (without_request a b u v s))
unfolding reject_friend reject_friend_verification send_json_to_user has_friend_room_verification
reject_friend-granted a b u v s granted at_a at_b = ground (
  arith,
  granted,
  remove_friend_room_verification-present a b u v s (ground (arith, granted)) at_a at_b,
  lookup-insert a a (remove_friend_verification b u) s.users,
  lookup-insert a b (remove_friend_verification a v)
      (insert a (remove_friend_verification b u) s.users),
)

reject_friend-refused :
    (a b : ℕ) (s : Server) → may_answer b a s ≡ false → reject_friend b a s ≡ (ok false, s)
unfolding reject_friend
reject_friend-refused a b s refused = ground (arith, refused)

-- Rejecting a request returns whether it was let through. If so, the request is gone from the server
-- and from the lists of both users; no friends, rooms or other requests change. If not, the server is
-- as before.
pub reject_friend_lem :
    (a b c d : ℕ) (s : Server)
    → has_user b s ≡ true
    → let (r, t) = reject_friend b a s in
      let granted = may_answer b a s in
      (r ≡ ok granted)
      × (has_friend_room_verification c d t
          ≡ (not (granted && a == c && b == d) && has_friend_room_verification c d s))
      × (has_private_room c d t ≡ has_private_room c d s)
      × (is_friend_of c d t ≡ is_friend_of c d s)
      × (entry_of a b t ≡ (if granted then none else entry_of a b s))
      × (entry_of b a t ≡ (if granted then none else entry_of b a s))
unfolding has_friend_room_verification has_user has_private_room remove_friend_verification
reject_friend_lem a b c d s kb = elim (Bool-cases (may_answer b a s)) [
  | inr refused ↦
      let same = reject_friend-refused a b s refused in
      (
        ground (arith, refused, same),
        ground (arith, refused, same),
        ground (arith, refused, same),
        ground (arith, refused, same),
        ground (arith, refused, same),
        ground (arith, refused, same),
      )
  | inl granted ↦ elim (Option-cases (lookup a s.users)) [
    | inl gone ↦ absurd (ground (arith, gone))
    | inr (u, at_a) ↦ elim (Option-cases (lookup b s.users)) [
      | inl gone ↦ absurd (ground (arith, gone))
      | inr (v, at_b) ↦
          let run = reject_friend-granted a b u v s granted at_a at_b in
          let frame = notify_lem (a, rejected_to_add_friend b) (without_request a b u v s) in
          let erased = lookup-erase ⦃e = pair_key⦄ (c, d) (a, b) s.friend_room_verifications in
          let first = λ (w : ℕ). lookup-insert w a (remove_friend_verification b u) s.users in
          let both = λ (w : ℕ).
            lookup-insert w b (remove_friend_verification a v)
              (insert a (remove_friend_verification b u) s.users) in
          (
            ground (arith, granted, run),
            ground (arith, granted, run, frame, erased),
            ground (arith, granted, run, frame),
            elim (Bool-cases (b == c)) [
              | inl is_b ↦ ground (
                arith,
                granted,
                run,
                frame,
                first c,
                both c,
                at_b,
                ap (λ w. lookup w s.users) ((==_iff b c).0 is_b),
              )
              | inr not_b ↦ elim (Bool-cases (a == c)) [
                | inl is_a ↦ ground (
                  arith,
                  granted,
                  run,
                  frame,
                  first c,
                  both c,
                  at_a,
                  ap (λ w. lookup w s.users) ((==_iff a c).0 is_a),
                )
                | inr not_a ↦ ground (arith, granted, run, frame, first c, both c)
              ]
            ],
            ground (
              arith,
              granted,
              run,
              frame,
              first a,
              both a,
              lookup-erase b b u.friend_verification_map,
            ),
            ground (
              arith,
              granted,
              run,
              frame,
              first b,
              both b,
              lookup-erase a a v.friend_verification_map,
            ),
          )
    ]
  ]
]
