-- ===== src/Pattern.antt =====
-- utils/regexMatch.hpp: the patterns of mail addresses, IP addresses and phone numbers. A pattern is
-- a regular expression of ECMAScript, and `std::regex_match` asks whether it takes the whole text;
-- none of the three has an anchor, a group that is read back or a lazy loop, so the answer does not
-- depend on the order of the trials, and the test below takes the text letter by letter.
pub mod Language
pub mod Addresses
use qing_liao_chat_server.Base.{
  ℕ, zero, suc, String, Bool, true, false, List, [], ◌∷◌, ◌==◌, leb, ◌&&◌, ◌||◌, if◌then◌else◌,
}
use qing_liao_chat_server.Text.{Text, codes}

pub data Regex : Type 0 where
  nothing empty : Regex
  one_of : (letter : ℕ → Bool) → Regex
  followed_by either : (r q : Regex) → Regex
  any_number : (r : Regex) → Regex

-- Whether a pattern takes the empty text.
unfoldable pub nullable : Regex → Bool
nullable nothing = false
nullable empty = true
nullable (one_of letter) = false
nullable (followed_by r q) = nullable r && nullable q
nullable (either r q) = nullable r || nullable q
nullable (any_number r) = true

-- What is left to match after a letter.
unfoldable pub after : ℕ → Regex → Regex
after c nothing = nothing
after c empty = nothing
after c (one_of letter) = if letter c then empty else nothing
after c (followed_by r q) =
    let first = followed_by (after c r) q in
    let second = after c q in if nullable r then either first second else first
after c (either r q) = either (after c r) (after c q)
after c (any_number r) = followed_by (after c r) (any_number r)

unfoldable pub regex_match : Regex → Text → Bool
regex_match r [] = nullable r
regex_match r (c ∷ text) = regex_match (after c r) text

-- `r+`, `r{n}`
abbrev pub one_or_more : Regex → Regex
one_or_more r = followed_by r (any_number r)

abbrev pub times : ℕ → Regex → Regex
times zero r = empty
times (suc n) r = followed_by r (times n r)

abbrev in_range : ℕ → ℕ → ℕ → Bool
in_range low high c = leb low c && leb c high

-- `\d`, `[A-Za-z]`, `\w`
abbrev pub is_digit : ℕ → Bool
is_digit c = in_range 48 57 c

abbrev pub is_letter : ℕ → Bool
is_letter c = in_range 65 90 c || in_range 97 122 c

abbrev pub is_word : ℕ → Bool
is_word c = is_letter c || is_digit c || c == 95

abbrev pub dot : ℕ
dot = 46

abbrev pub at_sign : ℕ
at_sign = 64

abbrev pub just : ℕ → Regex
just letter = one_of (λ c. c == letter)

-- `(\w+\.)*\w+@(\w+\.)+[A-Za-z]+`
abbrev pub dotted : Regex
dotted = followed_by (one_or_more (one_of is_word)) (just dot)

abbrev pub email_regex : Regex
email_regex = followed_by (any_number dotted) (
    followed_by (one_or_more (one_of is_word)) (
      followed_by (just at_sign)
        (followed_by (one_or_more dotted) (one_or_more (one_of is_letter)))))

unfoldable pub email_match : String → Bool
email_match email = regex_match email_regex (codes email)

-- `(\d{1,2})|(1\d{2})|(2[0-4]\d)|(25[0-5])`
abbrev octet_regex : Regex
octet_regex =
    let digit = one_of is_digit in
    either (followed_by digit (either empty digit)) (
      either (followed_by (just 49) (times 2 digit)) (
        either (followed_by (just 50) (followed_by (one_of (in_range 48 52)) digit))
          (followed_by (just 50) (followed_by (just 53) (one_of (in_range 48 53))))))

pub ip_address_match : String → Bool
ip_address_match ip_address =
    regex_match (followed_by (times 3 (followed_by octet_regex (just dot))) octet_regex)
      (codes ip_address)

unfoldable pub phone_match : String → Bool
phone_match phone = regex_match (times 11 (one_of is_digit)) (codes phone)
