-- ===== src/Text.antt =====
-- Texts as lists of bytes, and the cutting of a line into words: `strip` and `split` of
-- server/input/input.cpp and testclient/main.cpp, `split` also inside `Option::parse(command)` of
-- utils/option.hpp.
pub mod Words
use Prim.Native.Char.{code}
use qing_liao_chat_server.Base.{
  ℕ, String, ◌≡◌, refl, Bool, true, false, List, [], ◌∷◌, ◌++◌, arith, ◌==◌, ◌&&◌, if◌then◌else◌,
}
use qing_liao_chat_server.Map.{Key}

abbrev pub Text : Type 0
Text = List ℕ

-- The bytes of an ASCII literal.
abbrev pub codes : String → Text
codes String.[] = []
codes (String.◌∷◌ c s) = code c ∷ codes s

abbrev pub space : ℕ
space = 32

abbrev pub dash : ℕ
dash = 45

abbrev pub equals_sign : ℕ
equals_sign = 61

abbrev pub text_beq : Text → Text → Bool
text_beq [] [] = true
text_beq (a ∷ s) (b ∷ t) = (a == b) && text_beq s t
text_beq _ _ = false

pub text_beq_refl : (s : Text) → text_beq s s ≡ true
text_beq_refl [] = refl
text_beq_refl (a ∷ s) = ground (arith, text_beq_refl s)

pub text_beq_subst : (r s t : Text) → text_beq r s ≡ true → text_beq r t ≡ text_beq s t
text_beq_subst [] [] t h = refl
text_beq_subst [] (b ∷ s) t h = absurd (ground (arith, h))
text_beq_subst (a ∷ r) [] t h = absurd (ground (arith, h))
text_beq_subst (a ∷ r) (b ∷ s) [] h = refl
text_beq_subst (a ∷ r) (b ∷ s) (c ∷ t) h = ground (arith, h, text_beq_subst r s t)

instance abbrev pub text_key : Key Text
text_key = record { beq = text_beq; beq_refl = text_beq_refl; beq_subst = text_beq_subst }

-- The loop of `split`: `word` is what stands between `begin` and `iter`. The last word is kept also
-- where it is empty.
unfoldable pub split_from : Text → Text → List Text
split_from word [] = word ∷ []
split_from word (c ∷ text) = elim (c == space) [
  | true ↦ elim word [ [] ↦ split_from [] text | a ∷ w ↦ (a ∷ w) ∷ split_from [] text ]
  | false ↦ split_from (word ++ (c ∷ [])) text
]

unfoldable pub split : Text → List Text
split text = split_from [] text

-- `strip`: the spaces in front, and those at the end.
unfoldable pub strip_front : Text → Text
strip_front [] = []
strip_front (c ∷ text) = let rest = strip_front text in if c == space then rest else c ∷ text

unfoldable pub strip_back : Text → Text
strip_back [] = []
strip_back (c ∷ text) = elim (strip_back text) [
  | [] ↦ if c == space then [] else c ∷ []
  | a ∷ rest ↦ c ∷ a ∷ rest
]

unfoldable pub strip : Text → Text
strip text = strip_back (strip_front text)
