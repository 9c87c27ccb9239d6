-- ===== src/Options/Rendering.antt =====
-- Options written as arguments and parsed again (utils/option.hpp).
use qing_liao_chat_server.Base.{
  ◌≡◌, refl, Bool, true, false, some, List, [], ◌∷◌, ◌++◌, arith, All, ◌==◌, map,
}
use qing_liao_chat_server.Error.{ok}
use qing_liao_chat_server.Map.{Map, insert}
use qing_liao_chat_server.Text.{Text, text_key, dash, equals_sign}
use qing_liao_chat_server.Options.{
  Options, OptionType, opt_required, opt_unknown, opt_no, opt_optional, get_type, parse, parse_from,
  missing, step, long_step, cut_at_equals,
}

-- `--name=value`
abbrev pub render : Text × Text → Text
render (name, value) = dash ∷ dash ∷ name ++ equals_sign ∷ value

-- The option takes a value, and its name has no equals sign.
abbrev pub takes_value : OptionType → Bool
takes_value opt_unknown = false
takes_value opt_no = false
takes_value opt_optional = true
takes_value opt_required = true

abbrev pub IsSetting : Map Text OptionType → Text × Text → Type 0
IsSetting opt_map (name, value) =
    (takes_value (get_type name opt_map) ≡ true) × All (λ c. c == equals_sign ≡ false) name

-- The values in their order: a later one replaces an earlier one.
abbrev pub insert_all : List (Text × Text) → Map Text Text → Map Text Text
insert_all [] args = args
insert_all ((name, value) ∷ settings) args = insert_all settings (insert name value args)

cut_at_equals-append :
    (name value : Text)
    → All (λ c. c == equals_sign ≡ false) name
    → cut_at_equals (name ++ equals_sign ∷ value) ≡ some (name, value)
unfolding cut_at_equals
cut_at_equals-append [] value lacks = refl
cut_at_equals-append (c ∷ name) value (other, lacks) =
    ground (arith, other, cut_at_equals-append name value lacks)

step-render :
    (opt_map : Map Text OptionType) (name value : Text) (rest : List Text) (args : Map Text Text)
    → IsSetting opt_map (name, value)
    → step opt_map (render (name, value)) rest args ≡ (ok false, insert name value args)
unfolding step long_step
step-render opt_map [] value rest args (takes, lacks) =
    ground (arith, takes, cut_at_equals-append [] value lacks)
step-render opt_map (c ∷ name) value rest args (takes, lacks) =
    ground (arith, takes, cut_at_equals-append (c ∷ name) value lacks)

parse_from-render :
    (opt_map : Map Text OptionType) (settings : List (Text × Text)) (args : Map Text Text)
    → All (IsSetting opt_map) settings
    → parse_from opt_map false (map render settings) args ≡ (ok tt, insert_all settings args)
unfolding parse_from
parse_from-render opt_map [] args valid = refl
parse_from-render opt_map ((name, value) ∷ settings) args (setting, valid) = ground (
  arith,
  step-render opt_map name value (map render settings) args setting,
  parse_from-render opt_map settings (insert name value args) valid,
)

-- Settings written as `--name=value`, with names of options that take a value, are what the parse
-- reads, whatever the values contain: it returns, and leaves each option with the last value given
-- for it, where no option that needs a value is without one.
pub parse-render :
    (settings : List (Text × Text)) (o : Options)
    → All (IsSetting o.opt_map) settings
    → missing o.opt_map (insert_all settings o.args_map) ≡ false
    → parse (map render settings) o
      ≡ (ok tt, record o { args_map = insert_all settings o.args_map })
unfolding parse
parse-render settings o valid complete =
    ground (arith, parse_from-render o.opt_map settings o.args_map valid, complete)
