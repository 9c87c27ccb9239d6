-- ===== src/Options.antt =====
-- The options of a command line: utils/option.hpp (`opt::Option`).
pub mod Values
pub mod Parsing
pub mod Rendering
use qing_liao_chat_server.Base.{
  ℕ, ◌+◌, ◌-◌, ◌*◌, ◌^◌, Bool, true, false, Option, none, some, List, [], ◌∷◌, ◌&&◌, ◌||◌, ◌==◌,
  not, leb, ltb, if◌then◌else◌, is_some,
}
use qing_liao_chat_server.Error.{Action, Result, ok, err, logic_error, undefined_behaviour}
use qing_liao_chat_server.Map.{Map, lookup, contains, insert, erase}
use qing_liao_chat_server.Text.{Text, codes, dash, equals_sign, space, text_beq, text_key, split}

pub data OptionType : Type 0 where
  opt_unknown opt_no opt_required opt_optional : OptionType

pub record Options : Type 0 where
  pub opt_map : Map Text OptionType
  pub args_map : Map Text Text

abbrev pub no_options : Options
no_options = record { opt_map = []; args_map = [] }

unfoldable pub add : Text → OptionType → Action Options (Unit {0})
add name opt_unknown o = (err logic_error, o)
add name type o = (ok tt, record o { opt_map = insert name type o.opt_map })

pub remove : Text → Options → Options
remove name o = record o { opt_map = erase name o.opt_map }

unfoldable pub get_type : Text → Map Text OptionType → OptionType
get_type name opt_map = elim (lookup name opt_map) [ none ↦ opt_unknown | some type ↦ type ]

-- What a step of `parse` leaves: whether it has taken the next argument too.
abbrev pub Step : Type 0
Step = Result Bool × Map Text Text

-- "Ignore", or an option without an argument that can be wrong.
abbrev pub skip_step : Map Text Text → Step
skip_step args = (ok false, args)

abbrev pub set_step : Text → Text → Map Text Text → Step
set_step name value args = (ok false, insert name value args)

-- Whether the text begins with a dash.
abbrev pub dashed : Text → Bool
dashed [] = false
dashed (c ∷ text) = c == dash

-- `(i + 1) != args.cend() && (i + 1)->substr(0, 1) != "-"`: the argument that follows.
unfoldable pub next_value : List Text → Option Text
next_value [] = none
next_value (value ∷ rest) = if dashed value then none else some value

unfoldable pub optional_step : Text → List Text → Map Text Text → Step
optional_step name rest args = elim (next_value rest) [
  | some value ↦ (ok true, insert name value args)
  | none ↦ set_step name [] args
]

unfoldable pub required_step : Text → List Text → Map Text Text → Step
required_step name rest args = elim (next_value rest) [
  | some value ↦ (ok true, insert name value args)
  | none ↦ (err logic_error, args)
]

-- `find('=')` with the two parts.
unfoldable pub cut_at_equals : Text → Option (Text × Text)
cut_at_equals [] = none
cut_at_equals (c ∷ text) =
    let rest = cut_at_equals text in
    if c == equals_sign
    then some ([], text)
    else elim rest [ none ↦ none | some (name, value) ↦ some (c ∷ name, value) ]

-- "Long option parsing"
unfoldable pub long_step : Map Text OptionType → Text → List Text → Map Text Text → Step
long_step opt_map text rest args = elim (cut_at_equals text) [
  | some (name, value) ↦ elim (get_type name opt_map) [
    | opt_unknown ↦ (err logic_error, args)
    | opt_no ↦ (err logic_error, args)
    | opt_optional ↦ set_step name value args
    | opt_required ↦ set_step name value args
  ]
  | none ↦ elim (get_type text opt_map) [
    | opt_unknown ↦ skip_step args
    | opt_no ↦ set_step text [] args
    | opt_optional ↦ optional_step text rest args
    | opt_required ↦ required_step text rest args
  ]
]

-- The loop over the letters of a short option.
unfoldable pub set_flags : Map Text OptionType → Text → Map Text Text → Map Text Text
set_flags opt_map [] args = args
set_flags opt_map (c ∷ text) args = elim (get_type (c ∷ []) opt_map) [
  | opt_no ↦ set_flags opt_map text (insert (c ∷ []) [] args)
  | opt_unknown ↦ set_flags opt_map text args
  | opt_optional ↦ set_flags opt_map text args
  | opt_required ↦ set_flags opt_map text args
]

-- "Short option parsing", of the letter and what stands behind it.
unfoldable pub short_step : Map Text OptionType → ℕ → Text → List Text → Map Text Text → Step
short_step opt_map c text rest args =
    if is_some (cut_at_equals (c ∷ text))
    then (err logic_error, args)
    else elim (get_type (c ∷ []) opt_map) [
      | opt_unknown ↦ skip_step args
      | opt_no ↦ (ok false, set_flags opt_map (c ∷ text) args)
      | opt_optional ↦ elim text [
        | [] ↦ optional_step (c ∷ []) rest args
        | d ∷ more ↦ set_step (c ∷ []) (d ∷ more) args
      ]
      | opt_required ↦ elim text [
        | [] ↦ required_step (c ∷ []) rest args
        | d ∷ more ↦ set_step (c ∷ []) (d ∷ more) args
      ]
    ]

-- One argument, with those behind it.
unfoldable pub step : Map Text OptionType → Text → List Text → Map Text Text → Step
step opt_map [] rest args = skip_step args
step opt_map (a ∷ []) rest args = skip_step args
step opt_map (a ∷ b ∷ []) rest args =
    if not (a == dash) || b == dash then skip_step args else short_step opt_map b [] rest args
step opt_map (a ∷ b ∷ c ∷ text) rest args =
    if not (a == dash)
    then skip_step args
    else if b == dash
    then long_step opt_map (c ∷ text) rest args
    else short_step opt_map b (c ∷ text) rest args

-- The loop over the arguments. `taken` is whether the one before has taken the first.
unfoldable pub parse_from :
    Map Text OptionType → Bool → List Text → Map Text Text → Result (Unit {0}) × Map Text Text
parse_from opt_map taken [] args = (ok tt, args)
parse_from opt_map true (arg ∷ rest) args = parse_from opt_map false rest args
parse_from opt_map false (arg ∷ rest) args =
    let (r, args') = step opt_map arg rest args in
    elim r [ ok took ↦ parse_from opt_map took rest args' | err e ↦ (err e, args') ]

-- The test at the end: whether an option that needs a value has none.
unfoldable pub missing : Map Text OptionType → Map Text Text → Bool
missing [] args = false
missing ((name, type) ∷ opt_map) args =
    let rest = missing opt_map args in
    elim type [
      | opt_required ↦ not (contains name args) || rest
      | opt_unknown ↦ rest
      | opt_no ↦ rest
      | opt_optional ↦ rest
    ]

unfoldable pub parse : List Text → Action Options (Unit {0})
parse words o =
    let (r, args) = parse_from o.opt_map false words o.args_map in
    let t = record o { args_map = args } in
    elim r [
      | ok _ ↦ if missing o.opt_map args then (err logic_error, t) else (ok tt, t)
      | err e ↦ (err e, t)
    ]

-- `parse(command)`
pub parse_command : Text → Action Options (Unit {0})
unfolding parse split
parse_command command o = parse (split command) o
