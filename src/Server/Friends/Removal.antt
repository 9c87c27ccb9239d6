-- ===== src/Server/Friends/Removal.antt =====
-- Two users become friends, and one of them takes it back (server/user/user.cpp `addFriend`,
-- `acceptFriend`, `removeFriend`).
use qing_liao_chat_server.Base.{
  ℕ, ◌≡◌, Bool, true, false, some, arith, ◌==◌, ◌||◌, ◌&&◌, not, inl, inr, Bool-cases, Option-cases,
  ==_iff, ap,
}
use qing_liao_chat_server.Error.{ok}
use qing_liao_chat_server.Map.{lookup, insert, id_key, lookup-insert, lookup-erase}
use qing_liao_chat_server.User.{User, erase_friend, user_has_friend}
use qing_liao_chat_server.Room.{removed_friend}
use qing_liao_chat_server.Server.{read_user, Server, on_user, send_json_to_user, notify}
use qing_liao_chat_server.Server.Manager.{has_user, has_private_room}
use qing_liao_chat_server.Server.Friends.{
  add_friend, accept_friend, remove_friend, has_friend_room_verification,
}
use qing_liao_chat_server.Server.Friends.Requests.{notify_lem, may_ask, add_friend_lem}
use qing_liao_chat_server.Server.Friends.Answers.{is_friend_of, may_answer, accept_friend_lem}

-- Once a request that was let through is accepted, the two users are friends of each other with a
-- private room and no request between them, and neither can ask the other again.
pub accept_friend-add_friend :
    (a b : ℕ) (s : Server)
    → has_user a s ≡ true
    → may_ask a b s ≡ true
    → let (r, t) = accept_friend b a (add_friend a b s).1 in
      (r ≡ ok true)
      × (is_friend_of a b t ≡ true)
      × (is_friend_of b a t ≡ true)
      × (has_private_room a b t ≡ true)
      × (has_friend_room_verification a b t ≡ false)
      × (may_ask a b t ≡ false)
      × (may_ask b a t ≡ false)
accept_friend-add_friend a b s ka granted =
    let t = (add_friend a b s).1 in
    let kb : has_user b s ≡ true = ground (arith, granted) in
    let asked_ab = add_friend_lem a b a b s ka in
    let asked_ba = add_friend_lem a b b a s ka in
    let may : may_answer b a t ≡ true = ground (arith, granted, asked_ab, ka) in
    let answered_ab = accept_friend_lem a b a b t (ground (arith, asked_ba, kb)) in
    let answered_ba = accept_friend_lem a b b a t (ground (arith, asked_ba, kb)) in
    (
      ground (arith, may, answered_ab),
      ground (arith, may, answered_ab),
      ground (arith, may, answered_ba),
      ground (arith, may, answered_ab),
      ground (arith, may, answered_ab),
      ground (arith, may, answered_ab),
      ground (arith, may, answered_ba),
    )

-- Whether `removeFriend` is let through.
abbrev pub may_remove : ℕ → ℕ → Server → Bool
may_remove self friend s =
    not (self == friend || not (has_user friend s)) && is_friend_of self friend s

remove_friend-granted :
    (a b : ℕ) (u v : User) (s : Server)
    → may_remove a b s ≡ true
    → lookup a s.users ≡ some u
    → lookup b s.users ≡ some v
    → remove_friend a b s ≡ (
      ok true,
      notify
          (b, removed_friend a)
          (record s { users = insert b (erase_friend b v) (insert a (erase_friend b u) s.users) }),
    )
unfolding remove_friend send_json_to_user on_user read_user user_has_friend
remove_friend-granted a b u v s granted at_a at_b = ground (
  arith,
  granted,
  at_a,
  at_b,
  lookup-insert b a (erase_friend b u) s.users,
  lookup-insert b b (erase_friend b v) (insert a (erase_friend b u) s.users),
)

remove_friend-refused :
    (a b : ℕ) (s : Server)
    → has_user a s ≡ true
    → may_remove a b s ≡ false
    → remove_friend a b s ≡ (ok false, s)
unfolding remove_friend read_user user_has_friend has_user
remove_friend-refused a b s ka refused = ground (arith, ka, refused)

-- Removing a friend returns whether it was let through: whether the other is known and in the own set
-- of friends. If so, the other's id is taken out of both users' sets: the remover no longer has the
-- other as a friend, while the other, unless a friend of itself, has every friend it had, the remover
-- among them. No private room goes away, and nothing else changes in the friends of any user.
pub remove_friend_lem :
    (a b c d : ℕ) (s : Server)
    → has_user a s ≡ true
    → let (r, t) = remove_friend a b s in
      let granted = may_remove a b s in
      (r ≡ ok granted)
      × (is_friend_of c d t ≡ (not (granted && (a == c || b == c) && b == d) && is_friend_of c d s))
      × (has_private_room c d t ≡ has_private_room c d s)
unfolding has_user has_private_room erase_friend
remove_friend_lem a b c d s ka = elim (Bool-cases (may_remove a b s)) [
  | inr refused ↦
      let same = remove_friend-refused a b s ka refused in
      (ground (arith, refused, same), ground (arith, refused, same), ground (arith, refused, same))
  | inl granted ↦ elim (Option-cases (lookup a s.users)) [
    | inl gone ↦ absurd (ground (arith, gone))
    | inr (u, at_a) ↦ elim (Option-cases (lookup b s.users)) [
      | inl gone ↦ absurd (ground (arith, gone))
      | inr (v, at_b) ↦
          let run = remove_friend-granted a b u v s granted at_a at_b in
          let users = insert b (erase_friend b v) (insert a (erase_friend b u) s.users) in
          let frame = notify_lem (b, removed_friend a) (record s { users = users }) in
          let first = lookup-insert c a (erase_friend b u) s.users in
          let both = lookup-insert c b (erase_friend b v) (insert a (erase_friend b u) s.users) in
          let u_friends = lookup-erase d b u.friend_set in
          let v_friends = lookup-erase d b v.friend_set in
          (
            ground (arith, granted, run),
            elim (Bool-cases (b == c)) [
              | inl is_b ↦ ground (
                arith,
                granted,
                run,
                frame,
                first,
                both,
                v_friends,
                at_b,
                ap (λ w. lookup w s.users) ((==_iff b c).0 is_b),
              )
              | inr not_b ↦ elim (Bool-cases (a == c)) [
                | inl is_a ↦ ground (
                  arith,
                  granted,
                  run,
                  frame,
                  first,
                  both,
                  u_friends,
                  at_a,
                  ap (λ w. lookup w s.users) ((==_iff a c).0 is_a),
                )
                | inr not_a ↦ ground (arith, granted, run, frame, first, both)
              ]
            ],
            ground (arith, granted, run, frame),
          )
    ]
  ]
]
