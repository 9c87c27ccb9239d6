-- ===== src/Options/Parsing.antt =====
-- What a parse that returns has established (utils/option.hpp).
use qing_liao_chat_server.Base.{
  ◌≡◌, true, false, some, List, [], ◌∷◌, arith, inl, inr, Bool-cases, Option-cases,
}
use qing_liao_chat_server.Error.{ok}
use qing_liao_chat_server.Map.{Map, lookup, contains, lookup_subst}
use qing_liao_chat_server.Text.{Text, text_beq, text_key}
use qing_liao_chat_server.Options.{
  Options, OptionType, opt_required, get_type, parse, parse_from, missing,
}
use qing_liao_chat_server.Options.Values.{has_opt, has_opt_with_value, get_string}

missing-required :
    (name : Text) (opt_map : Map Text OptionType) (args : Map Text Text)
    → missing opt_map args ≡ false
    → lookup name opt_map ≡ some opt_required
    → contains name args ≡ true
unfolding missing lookup
missing-required name [] args complete required = absurd (ground (arith, required))
missing-required name ((k, type) ∷ opt_map) args complete required =
    elim (Bool-cases (text_beq k name)) [
      | inl same ↦ ground (arith, complete, required, same, lookup_subst k name args same)
      | inr other ↦
          missing-required name opt_map args (ground (arith, complete, other))
            (ground (arith, required, other))
    ]

-- A parse that returns has changed no option's type, and every option that needs a value has one,
-- which is read without leaving the map.
pub parse_lem :
    (words : List Text) (name : Text) (o t : Options)
    → parse words o ≡ (ok tt, t)
    → get_type name o.opt_map ≡ opt_required
    → (t.opt_map ≡ o.opt_map)
      × (has_opt_with_value name t ≡ true)
      × ((value : Text) × (get_string name t ≡ ok value))
unfolding parse get_type has_opt_with_value get_string has_opt
parse_lem words name o t returned required =
    let args = (parse_from o.opt_map false words o.args_map).1 in
    let complete : missing o.opt_map args ≡ false = ground (arith, returned) in
    let stays : t ≡ record o { args_map = args } = ground (arith, returned) in
    let known : lookup name o.opt_map ≡ some opt_required = ground (arith, required) in
    let there = missing-required name o.opt_map args complete known in
    elim (Option-cases (lookup name args)) [
      | inl gone ↦ absurd (ground (arith, there, gone))
      | inr (value, found) ↦ (
        ground (arith, stays),
        ground (arith, stays, known, found),
        (value, ground (arith, stays, known, found)),
      )
    ]
