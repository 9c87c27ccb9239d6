-- ===== src/Text/Words.antt =====
-- Words put together and cut again (utils/option.hpp, server/input/input.cpp, testclient/main.cpp).
use qing_liao_chat_server.Base.{
  ◌≡◌, ◌≢◌, refl, sym, ap, ◌∙◌, Bool, true, false, not, List, [], ◌∷◌, ◌++◌, append-nil,
  append_assoc, arith, All, ◌==◌,
}
use qing_liao_chat_server.Text.{Text, space, split_from, split, strip_front, strip_back, strip}

-- A word has a letter and no space.
abbrev pub Spaceless : Text → Type 0
Spaceless text = All (λ c. c == space ≡ false) text

abbrev pub IsWord : Text → Type 0
IsWord word = (word ≢ []) × Spaceless word

-- The words with one space between two of them.
abbrev pub join : List Text → Text
join [] = []
join (w ∷ []) = w
join (w ∷ v ∷ ws) = w ++ space ∷ join (v ∷ ws)

split_from-append :
    (word w text : Text) → Spaceless w → split_from word (w ++ text) ≡ split_from (word ++ w) text
unfolding split_from
split_from-append word [] text spaceless = ap (λ v. split_from v text) (sym (append-nil word))
split_from-append word (c ∷ w) text (other, spaceless) = ground (
  arith,
  other,
  split_from-append (word ++ (c ∷ [])) w text spaceless,
  append_assoc word (c ∷ []) w,
)

-- Cutting gives the words back that were put together with single spaces.
pub split-join : (w : Text) (ws : List Text) → All IsWord (w ∷ ws) → split (join (w ∷ ws)) ≡ w ∷ ws
unfolding split split_from
split-join w [] ((some_letter, spaceless), _) =
    ap (split_from []) (sym (append-nil w)) ∙ split_from-append [] w [] spaceless
split-join [] (v ∷ ws) ((some_letter, spaceless), words) = absurd (some_letter refl)
split-join (a ∷ w) (v ∷ ws) ((some_letter, spaceless), words) =
    split_from-append [] (a ∷ w) (space ∷ join (v ∷ ws)) spaceless
    ∙ ap (λ rest. (a ∷ w) ∷ rest) (split-join v ws words)

-- The last character is there and no space.
abbrev ends_well : Text → Bool
ends_well [] = false
ends_well (c ∷ []) = not (c == space)
ends_well (c ∷ d ∷ text) = ends_well (d ∷ text)

strip_back-ends_well : (text : Text) → ends_well text ≡ true → strip_back text ≡ text
unfolding strip_back
strip_back-ends_well [] ends = refl
strip_back-ends_well (c ∷ []) ends = ground (arith, ends)
strip_back-ends_well (c ∷ d ∷ text) ends = ground (arith, strip_back-ends_well (d ∷ text) ends)

ends_well-append : (u v : Text) → ends_well v ≡ true → ends_well (u ++ v) ≡ true
ends_well-append [] v ends = ends
ends_well-append (c ∷ []) [] ends = absurd (ground (arith, ends))
ends_well-append (c ∷ []) (d ∷ v) ends = ends
ends_well-append (c ∷ d ∷ u) v ends = ends_well-append (d ∷ u) v ends

ends_well-word : (w : Text) → IsWord w → ends_well w ≡ true
ends_well-word [] (some_letter, spaceless) = absurd (some_letter refl)
ends_well-word (c ∷ []) (some_letter, (other, _)) = ground (arith, other)
ends_well-word (c ∷ d ∷ w) (some_letter, (other, spaceless)) =
    ends_well-word (d ∷ w) (λ empty. absurd (ground (arith, empty)), spaceless)

ends_well-join :
    (w : Text) (ws : List Text) → All IsWord (w ∷ ws) → ends_well (join (w ∷ ws)) ≡ true
ends_well-join w [] (word, _) = ends_well-word w word
ends_well-join w (v ∷ ws) (word, words) =
    ends_well-append w (space ∷ join (v ∷ ws))
      (ends_well-append (space ∷ []) (join (v ∷ ws)) (ends_well-join v ws words))

strip_front-join :
    (w : Text) (ws : List Text) → All IsWord (w ∷ ws) → strip_front (join (w ∷ ws)) ≡ join (w ∷ ws)
unfolding strip_front
strip_front-join [] ws ((some_letter, spaceless), words) = absurd (some_letter refl)
strip_front-join (c ∷ w) [] ((some_letter, (other, spaceless)), words) = ground (arith, other)
strip_front-join (c ∷ w) (v ∷ ws) ((some_letter, (other, spaceless)), words) = ground (arith, other)

-- There is nothing to strip from words put together.
pub strip-join :
    (w : Text) (ws : List Text) → All IsWord (w ∷ ws) → strip (join (w ∷ ws)) ≡ join (w ∷ ws)
unfolding strip
strip-join w ws words =
    ap strip_back (strip_front-join w ws words)
    ∙ strip_back-ends_well (join (w ∷ ws)) (ends_well-join w ws words)
