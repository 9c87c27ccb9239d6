-- ===== src/Server/Dispatch/Gate.antt =====
-- The two tests before a command is executed (server/jsonMessageProcess/JsonMsgProcess.cpp
-- `processJsonMessage`): that of the login and that of the parameters.
use text.Mathlib.Text.{◌==◌ as str_eq}
use qing_liao_chat_server.Base.{
  ℕ, String, ◌≡◌, refl, true, false, not, Bool, some, none, arith, ◌==◌, ◌&&◌, ◌||◌, is_some, List,
  [], ◌∷◌, Bool-cases, Option-cases, inl, inr,
}
use qing_liao_chat_server.Map.{string_key}
use qing_liao_chat_server.Json.{
  Json, IsTyped, JValueType, jint, jstring, jdict, jother, type_beq, is_error, int_of, string_of,
}
use qing_liao_chat_server.Server.{no_user}
use qing_liao_chat_server.Server.Commands.{JsonOption, has_command, get_command, new_command_list}
use qing_liao_chat_server.Server.Dispatch.{gate, check_options}
use qing_liao_chat_server.Server.Dispatch.Refusals.{check_options-error}

-- The test of the login refuses, on a connection without a login, exactly the functions that there
-- are not: whatever the type of a command that there is, it passes.
pub gate_lem :
    (user_id : ℕ) (name : String)
    → gate user_id name
      ≡ (user_id == no_user && not (str_eq name "login") && not (has_command name new_command_list))
unfolding gate has_command get_command
gate_lem user_id name = ground arith

module _ {J : Type 0} (json : Json J) (j : J) where
  -- The parameter is there and has the type.
  abbrev pub matches : JsonOption → Bool
  matches option = elim (json.find option.name j) [
    | none ↦ false
    | some v ↦ type_beq (json.get_type v) option.json_value_type
  ]

  abbrev pub all_match : List JsonOption → Bool
  all_match [] = true
  all_match (option ∷ options) = matches option && all_match options

  -- A command that reads the parameter gets a value.
  abbrev pub readable : JsonOption → Bool
  readable option = elim option.json_value_type [
    | jint ↦ is_some (int_of json option.name j)
    | jstring ↦ is_some (string_of json option.name j)
    | jdict ↦ true
    | jother ↦ true
  ]

  type_beq_eq : (a b : JValueType) → type_beq a b ≡ true → a ≡ b
  type_beq_eq a b h = ground (arith, h)

  matches-readable :
      (option : JsonOption) → IsTyped json → matches option ≡ true → readable option ≡ true
  matches-readable option typed matched = elim (Option-cases (json.find option.name j)) [
    | inl gone ↦ absurd (ground (arith, gone, matched))
    | inr (v, there) ↦ ground (
      arith,
      there,
      matched,
      typed.at_found option.name j v there,
      typed.int_typed v,
      typed.string_typed v,
    )
  ]

  check_options-none :
      (options : List JsonOption) → is_some (check_options json j options) ≡ not (all_match options)
  unfolding check_options
  check_options-none [] = refl
  check_options-none (option ∷ options) = ground (arith, check_options-none options)

  abbrev pub all_readable : List JsonOption → Bool
  all_readable [] = true
  all_readable (option ∷ options) = readable option && all_readable options

  all_match-readable :
      (options : List JsonOption)
      → IsTyped json
      → (not (all_match options) || all_readable options) ≡ true
  all_match-readable [] typed = refl
  all_match-readable (option ∷ options) typed = elim (Bool-cases (matches option)) [
    | inl matched ↦
        ground
          (arith, matched, matches-readable option typed matched, all_match-readable options typed)
    | inr differs ↦ ground (arith, differs)
  ]

  -- The parameters of a message pass exactly if each one that the command names is there with its
  -- type, and then no read of one of them throws. The answer to others is an error.
  pub check_options_lem :
      (options : List JsonOption)
      → IsTyped json
      → let checked = check_options json j options in
        (is_some checked ≡ not (all_match options))
        × ((not (all_match options) || all_readable options) ≡ true)
        × ((elim checked [ none ↦ true | some a ↦ is_error a ]) ≡ true)
  check_options_lem options typed = (
    check_options-none options,
    all_match-readable options typed,
    elim (Option-cases (check_options json j options)) [
      | inl passed ↦ ground (arith, passed)
      | inr (a, lost) ↦ ground (arith, lost, check_options-error json j options a lost)
    ],
  )
