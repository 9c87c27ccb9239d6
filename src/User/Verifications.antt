-- ===== src/User/Verifications.antt =====
-- The multimap of a user's group requests (server/user/user.cpp `addGroupVerification`,
-- `removeGroupVerification`).
use qing_liao_chat_server.Base.{
  ℕ, ◌≡◌, ◌<◌, ◌^◌, true, false, arith, ◌==◌, ◌&&◌, if◌then◌else◌, [], ◌∷◌, All, Bool-cases, ==_iff,
  sym, subst, inl, inr,
}
use qing_liao_chat_server.Error.{ok}
use qing_liao_chat_server.User.{
  User, GroupVerification, GroupVerificationMap, id_lt, insert_multi, erase_from, erase_multi,
  add_group_verification, remove_group_verification,
}

-- No entry is before the key.
abbrev pub Above : ℕ → GroupVerificationMap → Type 0
Above k m = All (λ entry. id_lt entry.0 k ≡ false) m

-- A multimap is in the order of its keys, which are 64-bit ids.
abbrev pub IsSorted : GroupVerificationMap → Type 0
IsSorted [] = Unit
IsSorted ((j, w) ∷ m) = (j < 2 ^ 64) × Above j m × IsSorted m

-- No entry on this user's request for this group.
abbrev pub Lacks : ℕ → ℕ → GroupVerificationMap → Type 0
Lacks group user m = All (λ entry. (entry.0 == group && entry.1.user_id == user) ≡ false) m

erase_from-insert_multi :
    (group : ℕ) (v : GroupVerification) (m : GroupVerificationMap)
    → group < 2 ^ 64
    → IsSorted m
    → Above group m
    → Lacks group v.user_id m
    → erase_from group v.user_id (insert_multi group v m) ≡ ok m
unfolding erase_from insert_multi
erase_from-insert_multi group v [] small sorted above lacks = ground arith
erase_from-insert_multi group v ((j, w) ∷ m) small (bound, from, sorted) (later, above)
      (other, lacks) =
    ground (arith, erase_from-insert_multi group v m small sorted above lacks)

erase_multi-insert_multi :
    (group : ℕ) (v : GroupVerification) (m : GroupVerificationMap)
    → group < 2 ^ 64
    → IsSorted m
    → Lacks group v.user_id m
    → erase_multi group v.user_id (insert_multi group v m) ≡ ok m
unfolding erase_multi erase_from insert_multi
erase_multi-insert_multi group v [] small sorted lacks = ground arith
erase_multi-insert_multi group v ((j, w) ∷ m) small (bound, from, sorted) (other, lacks) =
    elim (Bool-cases (j == group)) [
      | inl same ↦
          let above : Above group m = subst (λ k. Above k m) ((==_iff j group).0 same) from in
          ground (arith, same, erase_from-insert_multi group v m small sorted above lacks)
      | inr differs ↦ ground (arith, differs, erase_multi-insert_multi group v m small sorted lacks)
    ]

-- A request put into the list of a user and then removed leaves the list as it was, wherever the list
-- is in order and has no entry for the same user and group: the removal finds the entry among the
-- others of the group, and its loop does not run past the end.
pub remove_group_verification-add_group_verification :
    (group : ℕ) (v : GroupVerification) (u : User)
    → group < 2 ^ 64
    → IsSorted u.group_verification_map
    → Lacks group v.user_id u.group_verification_map
    → remove_group_verification group v.user_id (add_group_verification group v u) ≡ (ok tt, u)
unfolding remove_group_verification add_group_verification
remove_group_verification-add_group_verification group v u small sorted lacks =
    ground (arith, erase_multi-insert_multi group v u.group_verification_map small sorted lacks)

Above-insert_multi :
    (k group : ℕ) (v : GroupVerification) (m : GroupVerificationMap)
    → id_lt group k ≡ false
    → Above k m
    → Above k (insert_multi group v m)
unfolding insert_multi
Above-insert_multi k group v [] h above = (h, tt)
Above-insert_multi k group v ((j, w) ∷ m) h (later, above) = elim (Bool-cases (id_lt group j)) [
  | inl before ↦
      subst (λ b. Above k (if b then (group, v) ∷ (j, w) ∷ m else (j, w) ∷ insert_multi group v m))
        (sym before) (h, (later, above))
  | inr behind ↦
      subst (λ b. Above k (if b then (group, v) ∷ (j, w) ∷ m else (j, w) ∷ insert_multi group v m))
        (sym behind) (later, Above-insert_multi k group v m h above)
]

Above-trans : (k j : ℕ) (m : GroupVerificationMap) → id_lt k j ≡ true → Above j m → Above k m
Above-trans k j [] less above = tt
Above-trans k j ((i, w) ∷ m) less (later, above) =
    (ground (arith, less, later), Above-trans k j m less above)

-- The list of requests stays in order when a request is added.
pub IsSorted-insert_multi :
    (group : ℕ) (v : GroupVerification) (m : GroupVerificationMap)
    → group < 2 ^ 64
    → IsSorted m
    → IsSorted (insert_multi group v m)
unfolding insert_multi
IsSorted-insert_multi group v [] small sorted = (small, tt, tt)
IsSorted-insert_multi group v ((j, w) ∷ m) small (bound, from, sorted) =
    elim (Bool-cases (id_lt group j)) [
      | inl before ↦
          subst
            (λ b. IsSorted (if b then (group, v) ∷ (j, w) ∷ m else (j, w) ∷ insert_multi group v m))
            (sym before)
            (
              small,
              (ground (arith, before), Above-trans group j m before from),
              (bound, from, sorted),
            )
      | inr behind ↦
          subst
            (λ b. IsSorted (if b then (group, v) ∷ (j, w) ∷ m else (j, w) ∷ insert_multi group v m))
            (sym behind)
            (
              bound,
              Above-insert_multi j group v m behind from,
              IsSorted-insert_multi group v m small sorted,
            )
    ]
