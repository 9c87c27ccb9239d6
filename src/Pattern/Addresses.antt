-- ===== src/Pattern/Addresses.antt =====
-- The mail addresses and phone numbers that utils/regexMatch.hpp accepts.
use qing_liao_chat_server.Base.{
  ℕ, suc, zero, String, ◌≡◌, ◌≢◌, refl, sym, ap, subst, ◌∙◌, Bool, true, List, [], ◌∷◌, ◌++◌, arith,
  ◌↔◌, append_assoc, All, length,
}
use qing_liao_chat_server.Text.{Text, codes}
use qing_liao_chat_server.Pattern.{
  one_of, one_or_more, just, dot, at_sign, is_word, is_letter, is_digit, dotted, email_regex,
  email_match, phone_match, times,
}
use qing_liao_chat_server.Pattern.Language.{
  Matches, Pieces, no_piece, piece, regex_match_sound, regex_match_complete,
}

-- A text of one or more letters of a kind.
abbrev pub IsRun : (ℕ → Bool) → Text → Type 0
IsRun letter w = (w ≢ []) × All (λ c. letter c ≡ true) w

-- The words, each with a dot behind it.
abbrev pub dotted_text : List Text → Text
dotted_text [] = []
dotted_text (w ∷ ws) = w ++ dot ∷ dotted_text ws

-- A mail address: words with dots between them, the sign, and words with dots between them, one of
-- them at least, with a last one that is of letters only.
pub record IsAddress (u : Text) : Type 0 where
  pub names : List Text
  pub name : Text
  pub label : Text
  pub labels : List Text
  pub top : Text
  pub parts : u ≡ dotted_text names ++ (name ++ at_sign ∷ (dotted_text (label ∷ labels) ++ top))
  pub names-AreRuns : All (IsRun is_word) names
  pub name-IsRun : IsRun is_word name
  pub label-IsRun : IsRun is_word label
  pub labels-AreRuns : All (IsRun is_word) labels
  pub top-IsRun : IsRun is_letter top

just_sound : (d : ℕ) (u : Text) → Matches (just d) u → u ≡ d ∷ []
just_sound d u (c, h, same) = ground (arith, h, same)

just_complete : (d : ℕ) → Matches (just d) (d ∷ [])
just_complete d = (d, refl, ground arith)

module _ (letter : ℕ → Bool) where
  first_sound : (c : ℕ) (s : Text) → Matches (one_of letter) (c ∷ s) → (letter c ≡ true) × (s ≡ [])
  first_sound c s (d, h, takes) =
      (subst (λ e. letter e ≡ true) (ground (arith, h)) takes, ground (arith, h))

  letters_sound : (u : Text) → Pieces (Matches (one_of letter)) u → All (λ c. letter c ≡ true) u
  letters_sound u (no_piece h) = subst (All (λ c. letter c ≡ true)) (sym h) tt
  letters_sound u (piece c s t h m rest) =
      let (takes, nil) = first_sound c s m in
      subst (All (λ d. letter d ≡ true)) (sym (h ∙ ap (λ v. c ∷ v ++ t) nil))
        (takes, letters_sound t rest)

  letters_complete : (u : Text) → All (λ c. letter c ≡ true) u → Pieces (Matches (one_of letter)) u
  letters_complete [] all = no_piece refl
  letters_complete (c ∷ u) (takes, all) =
      piece c [] u refl (c, refl, takes) (letters_complete u all)

  one_or_more-IsRun : (u : Text) → Matches (one_or_more (one_of letter)) u → IsRun letter u
  one_or_more-IsRun u (s, t, h, (c, one, takes), rest) =
      let whole : u ≡ c ∷ t = h ∙ ap (λ v. v ++ t) one in
      (
        λ nil. ground (arith, whole, nil),
        subst (All (λ d. letter d ≡ true)) (sym whole) (takes, letters_sound t rest),
      )

  one_or_more_complete : (u : Text) → IsRun letter u → Matches (one_or_more (one_of letter)) u
  one_or_more_complete [] (some_letter, _) = absurd (some_letter refl)
  one_or_more_complete (c ∷ u) (some_letter, (takes, all)) =
      (c ∷ [], u, refl, (c, refl, takes), letters_complete u all)

dotted_sound : (u : Text) → Matches dotted u → (w : Text) × (u ≡ w ++ dot ∷ []) × IsRun is_word w
dotted_sound u (w, t, h, m, n) =
    (w, h ∙ ap (λ v. w ++ v) (just_sound dot t n), one_or_more-IsRun is_word w m)

dotted_complete : (w : Text) → IsRun is_word w → Matches dotted (w ++ dot ∷ [])
dotted_complete w run = (w, dot ∷ [], refl, one_or_more_complete is_word w run, just_complete dot)

dots_sound :
    (u : Text)
    → Pieces (Matches dotted) u
    → (ws : List Text) × (u ≡ dotted_text ws) × All (IsRun is_word) ws
dots_sound u (no_piece h) = ([], h, tt)
dots_sound u (piece c s t h m rest) =
    let (w, one, run) = dotted_sound (c ∷ s) m in
    let (ws, others, runs) = dots_sound t rest in
    (
      w ∷ ws,
      h ∙ ap (λ v. v ++ t) one ∙ append_assoc w (dot ∷ []) t ∙ ap (λ v. w ++ dot ∷ v) others,
      (run, runs),
    )

dots_complete : (ws : List Text) → All (IsRun is_word) ws → Pieces (Matches dotted) (dotted_text ws)
dots_complete [] runs = no_piece refl
dots_complete ([] ∷ ws) (run, runs) = absurd (run.0 refl)
dots_complete ((c ∷ w) ∷ ws) (run, runs) =
    piece c (w ++ dot ∷ []) (dotted_text ws)
      (ap (◌∷◌ c) (sym (append_assoc w (dot ∷ []) (dotted_text ws)))) (dotted_complete (c ∷ w) run)
      (dots_complete ws runs)

domain_sound :
    (u : Text)
    → Matches (one_or_more dotted) u
    → (w : Text) × (ws : List Text) × (u ≡ dotted_text (w ∷ ws))
      × IsRun is_word w
      × All (IsRun is_word) ws
domain_sound u (s, t, h, m, rest) =
    let (w, one, run) = dotted_sound s m in
    let (ws, others, runs) = dots_sound t rest in
    (
      w,
      ws,
      h ∙ ap (λ v. v ++ t) one ∙ append_assoc w (dot ∷ []) t ∙ ap (λ v. w ++ dot ∷ v) others,
      run,
      runs,
    )

domain_complete :
    (w : Text) (ws : List Text)
    → IsRun is_word w
    → All (IsRun is_word) ws
    → Matches (one_or_more dotted) (dotted_text (w ∷ ws))
domain_complete w ws run runs = (
  w ++ dot ∷ [],
  dotted_text ws,
  sym (append_assoc w (dot ∷ []) (dotted_text ws)),
  dotted_complete w run,
  dots_complete ws runs,
)

email_regex-IsAddress : (u : Text) → Matches email_regex u → IsAddress u
email_regex-IsAddress u
      (s, t, h, m, (name, v, h', m', (sign, x, h'', m'', (domain, top, h3, m3, m4)))) =
    let (names, names_text, runs) = dots_sound s m in
    let (label, labels, labels_text, run, others) = domain_sound domain m3 in
    record {
      names = names;
      name = name;
      label = label;
      labels = labels;
      top = top;
      parts =
          h
          ∙ ap (λ a. a ++ t) names_text
          ∙ ap (λ a. dotted_text names ++ a)
              (h'
                ∙ ap (λ a. name ++ a)
                    (h''
                      ∙ ap (λ a. a ++ x) (just_sound at_sign sign m'')
                      ∙ ap (λ a. at_sign ∷ a) (h3 ∙ ap (λ a. a ++ top) labels_text)));
      names-AreRuns = runs;
      name-IsRun = one_or_more-IsRun is_word name m';
      label-IsRun = run;
      labels-AreRuns = others;
      top-IsRun = one_or_more-IsRun is_letter top m4;
    }

email_regex_complete : (u : Text) → IsAddress u → Matches email_regex u
email_regex_complete u a =
    let domain = dotted_text (a.label ∷ a.labels) in
    (
      dotted_text a.names,
      a.name ++ at_sign ∷ (domain ++ a.top),
      a.parts,
      dots_complete a.names a.names-AreRuns,
      (
        a.name,
        at_sign ∷ (domain ++ a.top),
        refl,
        one_or_more_complete is_word a.name a.name-IsRun,
        (
          at_sign ∷ [],
          domain ++ a.top,
          refl,
          just_complete at_sign,
          (
            domain,
            a.top,
            refl,
            domain_complete a.label a.labels a.label-IsRun a.labels-AreRuns,
            one_or_more_complete is_letter a.top a.top-IsRun,
          ),
        ),
      ),
    )

-- `emailMatch` accepts a text exactly if it is a mail address: one or more words of letters, digits
-- and underscores with dots between them, then the sign `@`, then such words again, two at least,
-- the last of which consists of letters.
pub email_match_lem : (email : String) → (email_match email ≡ true) ↔ IsAddress (codes email)
unfolding email_match
email_match_lem email =
    let u = codes email in
    (
      λ h. email_regex-IsAddress u (regex_match_sound email_regex u h),
      λ a. regex_match_complete email_regex u (email_regex_complete u a),
    )

times_sound :
    (letter : ℕ → Bool) (n : ℕ) (u : Text)
    → Matches (times n (one_of letter)) u
    → (length u ≡ n) × All (λ c. letter c ≡ true) u
times_sound letter zero u nil =
    subst (λ v. (length v ≡ 0) × All (λ c. letter c ≡ true) v) (sym nil) (refl, tt)
times_sound letter (suc n) u (s, t, h, (c, one, takes), m) =
    let (long, all) = times_sound letter n t m in
    subst (λ v. (length v ≡ suc n) × All (λ c. letter c ≡ true) v) (sym (h ∙ ap (λ v. v ++ t) one))
      (ap suc long, (takes, all))

times_complete :
    (letter : ℕ → Bool) (n : ℕ) (u : Text)
    → length u ≡ n
    → All (λ c. letter c ≡ true) u
    → Matches (times n (one_of letter)) u
times_complete letter zero [] long all = refl
times_complete letter zero (c ∷ u) long all = absurd (omega (arith, long))
times_complete letter (suc n) [] long all = absurd (omega (arith, long))
times_complete letter (suc n) (c ∷ u) long (takes, all) =
    (c ∷ [], u, refl, (c, refl, takes), times_complete letter n u (omega (arith, long)) all)

-- `phoneMatch` accepts a text exactly if it consists of eleven digits.
pub phone_match_lem :
    (phone : String)
    → (phone_match phone ≡ true)
      ↔ ((length (codes phone) ≡ 11) × All (λ c. is_digit c ≡ true) (codes phone))
unfolding phone_match
phone_match_lem phone =
    let u = codes phone in
    (
      λ h. times_sound is_digit 11 u (regex_match_sound (times 11 (one_of is_digit)) u h),
      λ both.
          regex_match_complete (times 11 (one_of is_digit)) u
            (times_complete is_digit 11 u both.0 both.1),
    )
