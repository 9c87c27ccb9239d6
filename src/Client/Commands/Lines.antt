-- ===== src/Client/Commands/Lines.antt =====
-- A line that is typed in the test client (testclient/main.cpp, testclient/commands.cpp,
-- utils/option.hpp).
use qing_liao_chat_server.Base.{◌≡◌, refl, String, false, List, [], ◌∷◌, map, arith, All}
use qing_liao_chat_server.Error.{Action, ok, pure, catch_all}
use qing_liao_chat_server.Json.{Json}
use qing_liao_chat_server.Text.{Text, codes, text_beq, text_key}
use qing_liao_chat_server.Text.Words.{IsWord, join, split-join, strip-join}
use qing_liao_chat_server.Options.{Options, missing, add}
use qing_liao_chat_server.Options.Rendering.{render, IsSetting, insert_all, parse-render}
use qing_liao_chat_server.Client.{Client, Message}
use qing_liao_chat_server.Client.Commands.{
  ClientCommand, CommandMap, get_option, get_command, can_find_command, execute, run_words,
  run_line, thrown,
}

args_map-get_option : (command : ClientCommand) → (get_option command).args_map ≡ []
unfolding get_option add
args_map-get_option command = ground arith

join-nonempty :
    (w : Text) (ws : List Text) → All IsWord (w ∷ ws) → text_beq (join (w ∷ ws)) [] ≡ false
join-nonempty [] ws ((some_letter, spaceless), words) = absurd (some_letter refl)
join-nonempty (c ∷ w) [] words = refl
join-nonempty (c ∷ w) (v ∷ ws) words = refl

-- The options that a command has once the settings are read.
abbrev pub with_settings : ClientCommand → List (Text × Text) → Options
with_settings command settings = record (get_option command) { args_map = insert_all settings [] }

-- A line of the name of a command and settings `--name=value` of its options, with single spaces
-- between them and none in them, executes exactly this command with exactly these values, where none
-- of its options is without a value that it needs. An exception ends the command only.
pub run_line-join :
    {S J : Type 0} (json : Json J) (ask : Message → Action S J) (words : Text → String)
    (m : CommandMap) (name : Text) (command : ClientCommand) (settings : List (Text × Text))
    (s : Client S)
    → All IsWord (name ∷ map render settings)
    → text_beq name (codes "stop") ≡ false
    → get_command name m ≡ ok command
    → All (IsSetting (get_option command).opt_map) settings
    → missing (get_option command).opt_map (insert_all settings []) ≡ false
    → run_line json ask words m (join (name ∷ map render settings)) s
      ≡ catch_all
          (execute json ask words m command (with_settings command settings))
          (pure thrown)
          s
unfolding run_line run_words get_command can_find_command
run_line-join json ask words m name command settings s typed other known valid complete =
    let nonempty : text_beq (join (name ∷ map render settings)) [] ≡ false =
      join-nonempty name (map render settings) typed in
    let stripped = strip-join name (map render settings) typed in
    let cut = split-join name (map render settings) typed in
    let fresh = args_map-get_option command in
    let parsed =
      parse-render settings (get_option command) valid (ground (arith, fresh, complete)) in
    ground (arith, stripped, cut, fresh, parsed, other, known, nonempty)
