-- ===== src/Pattern/Language.antt =====
-- The texts of a pattern, and the test of a text against it (utils/regexMatch.hpp).
use qing_liao_chat_server.Base.{
  ℕ, ◌≡◌, refl, sym, ap, subst, Bool, true, false, [], ◌∷◌, ◌++◌, arith, ◌⊎◌, inl, inr, Bool-cases,
  if◌then◌else◌,
}
use qing_liao_chat_server.Text.{Text}
use qing_liao_chat_server.Pattern.{
  Regex, nothing, empty, one_of, followed_by, either, any_number, nullable, after, regex_match,
}

-- A text in pieces, none empty.
pub data Pieces (P : Text → Type 0) : Text → Type 0 where
  no_piece : {u : Text} → u ≡ [] → Pieces P u
  piece : {u : Text} (c : ℕ) (s t : Text) → u ≡ c ∷ s ++ t → P (c ∷ s) → Pieces P t → Pieces P u

-- The texts that a regular expression stands for.
abbrev pub Matches : Regex → Text → Type 0
Matches nothing u = ⊥
Matches empty u = u ≡ []
Matches (one_of letter) u = (c : ℕ) × (u ≡ c ∷ []) × (letter c ≡ true)
Matches (followed_by r q) u = (s : Text) × (t : Text) × (u ≡ s ++ t) × Matches r s × Matches q t
Matches (either r q) u = Matches r u ⊎ Matches q u
Matches (any_number r) u = Pieces (Matches r) u

nullable_sound : (r : Regex) → nullable r ≡ true → Matches r []
unfolding nullable
nullable_sound nothing h = absurd (ground (arith, h))
nullable_sound empty h = refl
nullable_sound (one_of letter) h = absurd (ground (arith, h))
nullable_sound (followed_by r q) h =
    ([], [], refl, nullable_sound r (ground (arith, h)), nullable_sound q (ground (arith, h)))
nullable_sound (either r q) h = elim (Bool-cases (nullable r)) [
  | inl here ↦ inl (nullable_sound r here)
  | inr other ↦ inr (nullable_sound q (ground (arith, h, other)))
]
nullable_sound (any_number r) h = no_piece refl

append_empty : (s t : Text) → [] ≡ s ++ t → (s ≡ []) × (t ≡ [])
append_empty [] t h = (refl, sym h)
append_empty (c ∷ s) t h = absurd (ground (arith, h))

nullable_complete : (r : Regex) → Matches r [] → nullable r ≡ true
unfolding nullable
nullable_complete nothing m = absurd m
nullable_complete empty m = refl
nullable_complete (one_of letter) (c, h, _) = absurd (ground (arith, h))
nullable_complete (followed_by r q) (s, t, h, m, n) =
    let (left, right) = append_empty s t h in
    let m' = nullable_complete r (subst (Matches r) left m) in
    let n' = nullable_complete q (subst (Matches q) right n) in ground (arith, m', n')
nullable_complete (either r q) (inl m) = ground (arith, nullable_complete r m)
nullable_complete (either r q) (inr m) = ground (arith, nullable_complete q m)
nullable_complete (any_number r) m = refl

if_cases :
    (b : Bool) (r q : Regex) (u : Text)
    → Matches (if b then either r q else r) u
    → Matches r u ⊎ ((b ≡ true) × Matches q u)
if_cases true r q u (inl m) = inl m
if_cases true r q u (inr m) = inr (refl, m)
if_cases false r q u m = inl m

if_left :
    (b : Bool) (r q : Regex) (u : Text) → Matches r u → Matches (if b then either r q else r) u
if_left true r q u m = inl m
if_left false r q u m = m

if_right :
    (b : Bool) (r q : Regex) (u : Text)
    → b ≡ true
    → Matches q u
    → Matches (if b then either r q else r) u
if_right true r q u h m = inr m
if_right false r q u h m = absurd (ground (arith, h))

if_letter : (b : Bool) (u : Text) → Matches (if b then empty else nothing) u → (b ≡ true) × (u ≡ [])
if_letter true u m = (refl, m)
if_letter false u m = absurd m

letter_if : (b : Bool) (u : Text) → b ≡ true → u ≡ [] → Matches (if b then empty else nothing) u
letter_if true u h m = m
letter_if false u h m = absurd (ground (arith, h))

cons_parts : (c d : ℕ) (u v : Text) → c ∷ u ≡ d ∷ v → (d ≡ c) × (u ≡ v)
cons_parts c d u v h = (ground (arith, h), ground (arith, h))

after_sound : (c : ℕ) (r : Regex) (u : Text) → Matches (after c r) u → Matches r (c ∷ u)
unfolding after
after_sound c nothing u m = m
after_sound c empty u m = absurd m
after_sound c (one_of letter) u m =
    let (takes, nil) = if_letter (letter c) u m in (c, ap (◌∷◌ c) nil, takes)
after_sound c (followed_by r q) u m =
    elim (if_cases (nullable r) (followed_by (after c r) q) (after c q) u m) [
      | inl (s, t, h, m', n) ↦ (c ∷ s, t, ap (◌∷◌ c) h, after_sound c r s m', n)
      | inr (h, n) ↦ ([], c ∷ u, refl, nullable_sound r h, after_sound c q u n)
    ]
after_sound c (either r q) u (inl m) = inl (after_sound c r u m)
after_sound c (either r q) u (inr m) = inr (after_sound c q u m)
after_sound c (any_number r) u (s, t, h, m, n) = piece c s t (ap (◌∷◌ c) h) (after_sound c r s m) n

after_complete : (c : ℕ) (r : Regex) (u : Text) → Matches r (c ∷ u) → Matches (after c r) u
unfolding after
after_complete c nothing u m = m
after_complete c empty u m = absurd (ground (arith, m))
after_complete c (one_of letter) u (d, h, takes) =
    let (same, nil) = cons_parts c d u [] h in
    letter_if (letter c) u (subst (λ e. letter e ≡ true) same takes) nil
after_complete c (followed_by r q) u ([], t, h, m, n) =
    if_right (nullable r) (followed_by (after c r) q) (after c q) u (nullable_complete r m)
      (after_complete c q u (subst (Matches q) (sym h) n))
after_complete c (followed_by r q) u (d ∷ s, t, h, m, n) =
    let (same, rest) = cons_parts c d u (s ++ t) h in
    if_left (nullable r) (followed_by (after c r) q) (after c q) u
      (s, t, rest, after_complete c r s (subst (λ e. Matches r (e ∷ s)) same m), n)
after_complete c (either r q) u (inl m) = inl (after_complete c r u m)
after_complete c (either r q) u (inr m) = inr (after_complete c q u m)
after_complete c (any_number r) u (no_piece h) = absurd (ground (arith, h))
after_complete c (any_number r) u (piece d s t h m n) =
    let (same, rest) = cons_parts c d u (s ++ t) h in
    (s, t, rest, after_complete c r s (subst (λ e. Matches r (e ∷ s)) same m), n)

-- A text that is taken has the form of the pattern.
pub regex_match_sound : (r : Regex) (u : Text) → regex_match r u ≡ true → Matches r u
unfolding regex_match
regex_match_sound r [] h = nullable_sound r h
regex_match_sound r (c ∷ u) h = after_sound c r u (regex_match_sound (after c r) u h)

-- Every text of that form is taken.
pub regex_match_complete : (r : Regex) (u : Text) → Matches r u → regex_match r u ≡ true
unfolding regex_match
regex_match_complete r [] m = nullable_complete r m
regex_match_complete r (c ∷ u) m = regex_match_complete (after c r) u (after_complete c r u m)
