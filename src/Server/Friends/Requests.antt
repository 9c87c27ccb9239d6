-- ===== src/Server/Friends/Requests.antt =====
-- The handshake of two users who become friends (server/user/user.cpp `addFriend`, `acceptFriend`,
-- `rejectFriend`, with server/manager/verificationManager.cpp).
use qing_liao_chat_server.Base.{
  ℕ, ◌≡◌, Bool, true, false, Option, some, none, arith, ◌==◌, ◌||◌, ◌&&◌, not, if◌then◌else◌,
  is_some, inl, inr, Bool-cases, Option-cases,
}
use qing_liao_chat_server.Error.{ok}
use qing_liao_chat_server.Map.{lookup, insert, id_key, lookup-insert}
use qing_liao_chat_server.Room.{Delivery, added_friend_verification}
use qing_liao_chat_server.User.{User, UserVerification, sent, received, add_friend_verification}
use qing_liao_chat_server.Server.{Server, pair_key, on_user, send_json_to_user, notify}
use qing_liao_chat_server.Server.Manager.{has_user, has_private_room}
use qing_liao_chat_server.Server.Friends.{
  request, add_friend, has_friend_room_verification, apply_friend_room_verification,
}

-- What the list of friend requests of the user `v` says of the user `w`.
abbrev pub entry_of : ℕ → ℕ → Server → Option UserVerification
entry_of v w s = elim (lookup v s.users) [
  | none ↦ none
  | some u ↦ lookup w u.friend_verification_map
]

-- Whether `addFriend` is let through.
abbrev pub may_ask : ℕ → ℕ → Server → Bool
may_ask self friend s = not (
    self == friend
    || not (has_user friend s)
    || has_private_room self friend s
    || has_friend_room_verification self friend s)

-- A notice changes what is sent and nothing else.
pub notify_lem :
    (d : Delivery) (s : Server)
    → ((notify d s).users ≡ s.users)
      × ((notify d s).friend_room_verifications ≡ s.friend_room_verifications)
      × ((notify d s).private_room_ids ≡ s.private_room_ids)
      × ((notify d s).group_verifications ≡ s.group_verifications)
      × ((notify d s).group_rooms ≡ s.group_rooms)
unfolding notify
notify_lem d s = (ground arith, ground arith, ground arith, ground arith, ground arith)

-- The server with the request of `a` to `b` stored and in the lists of both users.
abbrev with_request : (a b : ℕ) (u v : User) → Server → Server
with_request a b u v s = record s {
  friend_room_verifications = insert ⦃e = pair_key⦄ (a, b) false s.friend_room_verifications;
  users =
      insert b (add_friend_verification a (request a received) v)
        (insert a (add_friend_verification b (request b sent) u) s.users);
}

apply_friend_room_verification-granted :
    (a b : ℕ) (u v : User) (s : Server)
    → may_ask a b s ≡ true
    → lookup a s.users ≡ some u
    → lookup b s.users ≡ some v
    → apply_friend_room_verification a b s ≡ (ok tt, with_request a b u v s)
unfolding apply_friend_room_verification has_friend_room_verification on_user has_user
apply_friend_room_verification-granted a b u v s granted at_a at_b = ground (
  arith,
  granted,
  at_a,
  at_b,
  lookup-insert b a (add_friend_verification b (request b sent) u) s.users,
)

add_friend-granted :
    (a b : ℕ) (u v : User) (s : Server)
    → may_ask a b s ≡ true
    → lookup a s.users ≡ some u
    → lookup b s.users ≡ some v
    → add_friend a b s ≡ (ok true, notify (b, added_friend_verification a) (with_request a b u v s))
unfolding add_friend send_json_to_user has_user
add_friend-granted a b u v s granted at_a at_b = ground (
  arith,
  granted,
  at_a,
  at_b,
  apply_friend_room_verification-granted a b u v s granted at_a at_b,
  lookup-insert b b (add_friend_verification a (request a received) v)
      (insert a (add_friend_verification b (request b sent) u) s.users),
)

pub add_friend-refused :
    (a b : ℕ) (s : Server) → may_ask a b s ≡ false → add_friend a b s ≡ (ok false, s)
unfolding add_friend
add_friend-refused a b s refused = ground (arith, refused)

-- Asking for a friendship returns whether it was let through. If so, the request is stored, and it
-- stands in the lists of both users, unless one of them has an entry on the other there already;
-- if not, the server is as before.
pub add_friend_lem :
    (a b c d : ℕ) (s : Server)
    → has_user a s ≡ true
    → let (r, t) = add_friend a b s in
      (r ≡ ok (may_ask a b s))
      × (has_friend_room_verification c d t
          ≡ (may_ask a b s && a == c && b == d || has_friend_room_verification c d s))
      × (has_private_room c d t ≡ has_private_room c d s)
      × (has_user c t ≡ has_user c s)
      × (entry_of a b t ≡ (
          if may_ask a b s && not (is_some (entry_of a b s))
          then some (request b sent)
          else entry_of a b s))
      × (entry_of b a t ≡ (
          if may_ask a b s && not (is_some (entry_of b a s))
          then some (request a received)
          else entry_of b a s))
unfolding add_friend_verification has_friend_room_verification has_user has_private_room
add_friend_lem a b c d s ka = elim (Bool-cases (may_ask a b s)) [
  | inr refused ↦
      let same : add_friend a b s ≡ (ok false, s) = add_friend-refused a b s refused in
      (
        ground (arith, refused, same),
        ground (arith, refused, same),
        ground (arith, refused, same),
        ground (arith, refused, same),
        ground (arith, refused, same),
        ground (arith, refused, same),
      )
  | inl granted ↦ elim (Option-cases (lookup a s.users)) [
    | inl gone ↦ absurd (ground (arith, gone))
    | inr (u, at_a) ↦ elim (Option-cases (lookup b s.users)) [
      | inl gone ↦ absurd (ground (arith, gone))
      | inr (v, at_b) ↦
          let u' = add_friend_verification b (request b sent) u in
          let v' = add_friend_verification a (request a received) v in
          let first = λ (w : ℕ). lookup-insert w a u' s.users in
          let both = λ (w : ℕ). lookup-insert w b v' (insert a u' s.users) in
          let stored =
            lookup-insert ⦃e = pair_key⦄ (c, d) (a, b) false s.friend_room_verifications in
          let run = add_friend-granted a b u v s granted at_a at_b in
          let frame = notify_lem (b, added_friend_verification a) (with_request a b u v s) in
          (
            ground (arith, granted, run),
            ground (arith, granted, run, frame, stored),
            ground (arith, granted, run, frame),
            ground (arith, granted, run, frame, at_a, at_b, first c, both c),
            ground (
              arith,
              granted,
              run,
              frame,
              at_a,
              first a,
              both a,
              lookup-insert b b (request b sent) u.friend_verification_map,
            ),
            ground (
              arith,
              granted,
              run,
              frame,
              at_b,
              both b,
              lookup-insert a a (request a received) v.friend_verification_map,
            ),
          )
    ]
  ]
]
