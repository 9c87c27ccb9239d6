-- ===== src/Console/Stopping.antt =====
-- The one line that ends the server (server/input/input.cpp, inputCommands.cpp).
use qing_liao_chat_server.Base.{
  ℕ, ◌≡◌, Bool, true, false, not, ◌||◌, [], arith, Bool-cases, Option-cases, inl, inr, some,
}
use qing_liao_chat_server.Error.{ok, err}
use qing_liao_chat_server.Map.{Map, lookup}
use qing_liao_chat_server.Text.{Text, codes, text_beq, text_key, split, strip_front}
use qing_liao_chat_server.User.{User}
use qing_liao_chat_server.Console.{
  Console, ConsoleCommand, stop_command, show_user_command, command_map, execute, help, input,
  run_command, first_word, until_dash, is_help, target_name,
}

abbrev is_stop : ConsoleCommand → Bool
is_stop stop_command = true
is_stop show_user_command = false

help_lem :
    (word : Text) (c : Console) → (help word c).0 ≡ ok true × ((help word c).1.stopped ≡ c.stopped)
unfolding help
help_lem word c = (ground arith, ground arith)

command_map-stop :
    (word : Text)
    → lookup word command_map ≡ some stop_command
    → text_beq (codes "stop") word ≡ true
unfolding lookup command_map target_name
command_map-stop word found = elim (Bool-cases (text_beq (codes "stop") word)) [
  | inl same ↦ same
  | inr differs ↦ elim (Bool-cases (text_beq (codes "show user") word)) [
    | inl other ↦ absurd (ground (arith, found, differs, other))
    | inr neither ↦ absurd (ground (arith, found, differs, neither))
  ]
]

run_command_lem :
    (users : Map ℕ User) (name : Text) (command : ConsoleCommand) (arguments : Text) (c : Console)
    → c.stopped ≡ false
    → let (r, t) = run_command users name command arguments c in
      (t.stopped ≡ (elim r [ ok goes_on ↦ not goes_on | err e ↦ false ]))
      × ((not t.stopped || is_stop command) ≡ true)
unfolding run_command execute
run_command_lem users name command arguments c running =
    (ground (arith, running), ground (arith, running))

-- The server is stopped by a line exactly if the line is answered with false, and only if its command
-- is "stop".
pub input_lem :
    (users : Map ℕ User) (text : Text) (c : Console)
    → c.stopped ≡ false
    → let (r, t) = input users text c in
      (t.stopped ≡ (elim r [ ok goes_on ↦ not goes_on | err e ↦ false ]))
      × ((not t.stopped || text_beq (codes "stop") (first_word text)) ≡ true)
unfolding input
input_lem users text c running =
    let word = first_word text in
    let arguments = (until_dash (strip_front text)).1 in
    elim (Bool-cases (text_beq word [])) [
      | inl empty ↦ (ground (arith, running, empty), ground (arith, running, empty))
      | inr some_word ↦ elim (Bool-cases (is_help (split word))) [
        | inl asks ↦
            let helped = help_lem word c in
            (
              ground (arith, running, some_word, asks, helped),
              ground (arith, running, some_word, asks, helped),
            )
        | inr runs ↦ elim (Option-cases (lookup word command_map)) [
          | inl gone ↦ (
            ground (arith, running, some_word, runs, gone),
            ground (arith, running, some_word, runs, gone),
          )
          | inr (command, there) ↦
              let ran = run_command_lem users word command arguments c running in
              elim (Bool-cases (is_stop command)) [
                | inl stops ↦
                    let named = command_map-stop word (ground (arith, there, stops)) in
                    (
                      ground (arith, some_word, runs, there, ran),
                      ground (arith, some_word, runs, there, ran, named),
                    )
                | inr goes_on ↦ (
                  ground (arith, some_word, runs, there, ran),
                  ground (arith, some_word, runs, there, ran, goes_on),
                )
              ]
        ]
      ]
    ]
