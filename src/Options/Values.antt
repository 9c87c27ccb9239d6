-- ===== src/Options/Values.antt =====
-- The values of the options after the parse (utils/option.hpp, the getters of `opt::Option`).
use qing_liao_chat_server.Base.{
  ℕ, ◌+◌, ◌-◌, ◌*◌, ◌^◌, Bool, true, false, none, some, [], ◌∷◌, ◌&&◌, ◌||◌, ◌==◌, not, leb, ltb,
  if◌then◌else◌,
}
use qing_liao_chat_server.Error.{Result, ok, err, logic_error, undefined_behaviour}
use qing_liao_chat_server.Map.{lookup, contains}
use qing_liao_chat_server.Text.{Text, codes, dash, space, text_beq, text_key}
use qing_liao_chat_server.Options.{Options}

unfoldable pub has_opt : Text → Options → Bool
has_opt name o = contains name o.opt_map

unfoldable pub has_opt_with_value : Text → Options → Bool
has_opt_with_value name o = contains name o.opt_map && contains name o.args_map

-- An option without a value is read through the end of the map.
unfoldable pub get_string : Text → Options → Result Text
unfolding has_opt
get_string name o =
    if not (has_opt name o)
    then err logic_error
    else elim (lookup name o.args_map) [ none ↦ err undefined_behaviour | some value ↦ ok value ]

pub get_bool : Text → Options → Result Bool
unfolding get_string has_opt
get_bool name o = elim (get_string name o) [
  | err e ↦ err e
  | ok value ↦
      if text_beq value (codes "true")
      then ok true
      else if text_beq value (codes "false")
      then ok false
      else err logic_error
]

-- `std::stoll`: white space, a sign, and digits up to the first other character; a value that does
-- not fit 64 bits throws. The result is its bit pattern.
abbrev is_digit : ℕ → Bool
is_digit c = leb 48 c && leb c 57

abbrev is_space : ℕ → Bool
is_space c = c == space || leb 9 c && leb c 13

digits : ℕ → Text → ℕ
digits value [] = value
digits value (c ∷ text) = elim (is_digit c) [
  | true ↦ digits (value * 10 + (c - 48)) text
  | false ↦ value
]

number : Bool → Text → Result ℕ
unfolding digits
number negative [] = err logic_error
number negative (c ∷ text) =
    if not (is_digit c)
    then err logic_error
    else let value = digits 0 (c ∷ text) in
      if negative
      then if ltb (2 ^ 63) value
        then err logic_error
        else if value == 0
        then ok 0
        else ok (2 ^ 64 - value)
      else if leb (2 ^ 63) value
      then err logic_error
      else ok value

stoll : Text → Result ℕ
unfolding number
stoll [] = err logic_error
stoll (c ∷ text) =
    let rest = stoll text in
    if is_space c
    then rest
    else if c == dash
    then number true text
    else if c == 43
    then number false text
    else number false (c ∷ text)

unfoldable pub get_int : Text → Options → Result ℕ
unfolding get_string has_opt stoll
get_int name o = elim (get_string name o) [ err e ↦ err e | ok value ↦ stoll value ]
