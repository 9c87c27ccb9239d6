-- ===== src/Server/Manager/Users.antt =====
-- Registering users (server/manager/manager.cpp).
use qing_liao_chat_server.Base.{
  ℕ, ◌+◌, ◌^◌, ◌≤◌, ◌<◌, ◌≡◌, refl, false, arith, ◌==◌, if◌then◌else◌, ◌⊎◌, inl, inr, ==_iff,
  Bool-cases,
}
use qing_liao_chat_server.Error.{ok}
use qing_liao_chat_server.Map.{contains, id_key, lookup-insert}
use qing_liao_chat_server.User.{new_user}
use qing_liao_chat_server.Server.{Server, first_id}
use qing_liao_chat_server.Server.Manager.{has_user, get_user, add_new_user}

-- No user, or an id from `first_id` to the counter.
abbrev pub IsIdAt : ℕ → Server → Type 0
IsIdAt v s = (has_user v s ≡ false) ⊎ ((first_id ≤ v) × (v < s.new_user_id))

-- As long as the ids in use lie between `first_id` and the counter and the counter does not wrap,
-- registering gives the counter's value, which no user has: the new user can be read with its initial
-- data, every other id reads as before, and the ids in use lie below the counter again.
pub add_new_user_lem :
    (now v : ℕ) (s : Server)
    → ((w : ℕ) → IsIdAt w s)
    → first_id ≤ s.new_user_id
    → s.new_user_id + 1 < 2 ^ 64
    → let (r, t) = add_new_user now s in
      (r ≡ ok s.new_user_id)
      × (has_user s.new_user_id s ≡ false)
      × (get_user v t
          ≡ (if s.new_user_id == v then ok (new_user s.new_user_id now) else get_user v s))
      × (s.new_user_id < t.new_user_id)
      × IsIdAt v t
unfolding add_new_user get_user has_user
add_new_user_lem now v s below from room =
    let fresh : contains s.new_user_id s.users ≡ false = elim (below s.new_user_id) [
      | inl new ↦ new
      | inr (_, less) ↦ absurd (omega arith)
    ] in
    let found = lookup-insert v s.new_user_id (new_user s.new_user_id now) s.users in
    (
      refl,
      fresh,
      ground (arith, fresh, found),
      ground arith,
      elim (below v) [
        | inl new ↦ elim (Bool-cases (s.new_user_id == v)) [
          | inl same ↦ inr (ground (arith, ==_iff s.new_user_id v))
          | inr other ↦ inl (ground (arith, fresh, found))
        ]
        | inr bounds ↦ inr (ground arith)
      ],
    )
