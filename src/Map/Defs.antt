-- ===== src/Map/Defs.antt =====
-- The equality test of a key type, and the operations of a table.
use qing_liao_chat_server.Base.{
  ℕ, String, ◌≡◌, Bool, true, Option, none, some, List, [], ◌∷◌, map, arith, ◌==◌, if◌then◌else◌,
  is_some,
}
use text.Mathlib.Text.{◌==◌ as str_eq}
use text.Mathlib.TextEquality.{eq_iff}
use text.Mathlib.TextPositions.{eq_refl}

-- `operator==` of a key: an equivalence. Equal keys need not be identical (a pair of users as the
-- key of their private room compares equal to the same pair the other way round).
pub record Key (K : Type 0) : Type 0 where
  pub beq : K → K → Bool
  pub beq_refl : (a : K) → beq a a ≡ true
  pub beq_subst : (a b c : K) → beq a b ≡ true → beq a c ≡ beq b c

pub nat_beq_refl : (a : ℕ) → (a == a) ≡ true
nat_beq_refl a = ground arith

pub nat_beq_subst : (a b c : ℕ) → (a == b) ≡ true → (a == c) ≡ (b == c)
nat_beq_subst a b c h = ground arith

instance abbrev pub id_key : Key ℕ
id_key = record { beq = ◌==◌; beq_refl = nat_beq_refl; beq_subst = nat_beq_subst }

pub str_beq_subst : (a b c : String) → str_eq a b ≡ true → str_eq a c ≡ str_eq b c
str_beq_subst a b c h = ground (arith, eq_iff a b)

pub str_beq_refl : (a : String) → str_eq a a ≡ true
str_beq_refl a = eq_refl a

instance abbrev pub string_key : Key String
string_key = record { beq = str_eq; beq_refl = str_beq_refl; beq_subst = str_beq_subst }

abbrev pub Map : Type 0 → Type 0 → Type 0
Map K V = List (K × V)

module _ {K V : Type 0} ⦃e : Key K⦄ where
  -- `find(k)`
  unfoldable pub lookup : K → Map K V → Option V
  lookup k [] = none
  lookup k ((j, v) ∷ m) = if e.beq j k then some v else lookup k m

  -- `find(k) != cend()`
  abbrev pub contains : K → Map K V → Bool
  contains k m = is_some (lookup k m)

  -- `m[k] = v`
  unfoldable pub insert : K → V → Map K V → Map K V
  insert k v [] = (k, v) ∷ []
  insert k v ((j, w) ∷ m) = if e.beq j k then (j, v) ∷ m else (j, w) ∷ insert k v m

  -- `m.emplace(k, v)`: an entry that is there stays as it is.
  abbrev pub emplace : K → V → Map K V → Map K V
  emplace k v m = if contains k m then m else insert k v m

  -- `m.erase(k)`
  unfoldable pub erase : K → Map K V → Map K V
  erase k [] = []
  erase k ((j, w) ∷ m) = let rest = erase k m in if e.beq j k then rest else (j, w) ∷ rest

abbrev pub keys : {K V : Type 0} → Map K V → List K
keys m = map (λ entry. entry.0) m

-- A set is a table without values.
abbrev pub Set : Type 0 → Type 0
Set K = Map K (Unit {0})
