-- ===== src/Console.antt =====
-- The console of the server: server/input/input.cpp and inputCommands.cpp. What is logged is a list,
-- and the users are the server's table.
pub mod Stopping
use qing_liao_chat_server.Base.{
  ℕ, String, Bool, true, false, not, Option, none, some, List, [], ◌∷◌, ◌++◌, drop, length, leb,
  ◌==◌, ◌||◌, if◌then◌else◌,
}
use qing_liao_chat_server.Error.{Action, Result, ok, err, pure, modify, ◌>>=◌, ◌>>◌}
use qing_liao_chat_server.Map.{Map, lookup, keys}
use qing_liao_chat_server.Text.{
  Text, codes, dash, space, text_beq, text_key, split, strip, strip_front,
}
use qing_liao_chat_server.Options.{Options, opt_optional, no_options, add, parse}
use qing_liao_chat_server.Options.Values.{has_opt_with_value}
use qing_liao_chat_server.User.{User}

pub data ConsoleCommand : Type 0 where
  stop_command show_user_command : ConsoleCommand

pub record CommandInfo : Type 0 where
  pub option : Options
  pub description : String

-- `registerCommand`
unfoldable pub register_command : ConsoleCommand → CommandInfo
register_command stop_command = record { option = no_options; description = "stop server" }
register_command show_user_command = record {
  option = no_options;
  description = "show user's infomation";
}

pub data Log : Type 0 where
  info : Text → String → Log
  not_existed : Text → Log
  user_data_list : Log
  user_line : ℕ → String → Log

pub record Console : Type 0 where
  pub stopped : Bool
  pub log : List Log

-- `getTargetName`
target_name : Text → Text
target_name [] = []
target_name (c ∷ name) = let rest = target_name name in if c == 95 then space ∷ rest else c ∷ rest

unfoldable pub command_map : Map Text ConsoleCommand
unfolding target_name
command_map =
    (target_name (codes "stop"), stop_command)
    ∷ (target_name (codes "show_user"), show_user_command)
    ∷ []

abbrev pub write : List Log → Action Console (Unit {0})
write entries c = (ok tt, record c { log = c.log ++ entries })

user_lines : Map ℕ User → List Log
user_lines [] = []
user_lines ((id, u) ∷ users) = user_line id u.user_name ∷ user_lines users

-- `execute`: whether the server goes on.
unfoldable pub execute : Map ℕ User → ConsoleCommand → Action Console Bool
unfolding user_lines
execute users stop_command = do modify (λ c. record c { stopped = true }); pure false
execute users show_user_command = do
  write (user_data_list ∷ [])
  write (user_lines users)
  pure true

-- The command, as far as the first dash, and what follows.
unfoldable pub until_dash : Text → Text × Text
until_dash [] = ([], [])
until_dash (c ∷ text) =
    let (first, rest) = until_dash text in if c == dash then ([], c ∷ text) else (c ∷ first, rest)

abbrev pub first_word : Text → Text
first_word text = strip (until_dash (strip_front text)).0

abbrev pub describe : Text → ConsoleCommand → Log
unfolding register_command
describe name command = info name (register_command command).description

describe_all : Map Text ConsoleCommand → List Log
unfolding register_command
describe_all [] = []
describe_all ((name, command) ∷ m) = describe name command ∷ describe_all m

-- `i->first.substr(0, prefix.size()) == prefix`
abbrev pub begins_with : Text → Text → Bool
begins_with [] text = true
begins_with (a ∷ prefix) [] = false
begins_with (a ∷ prefix) (b ∷ text) = if a == b then begins_with prefix text else false

describe_matching : Text → Map Text ConsoleCommand → List Log
unfolding register_command
describe_matching prefix [] = []
describe_matching prefix ((name, command) ∷ m) =
    let rest = describe_matching prefix m in
    if begins_with prefix name then describe name command ∷ rest else rest

abbrev pub or_not_existed : Text → List Log → List Log
or_not_existed name [] = not_existed name ∷ []
or_not_existed name (entry ∷ entries) = entry ∷ entries

-- The command "help".
unfoldable pub help : Text → Action Console Bool
unfolding describe_all describe_matching
help word =
    if leb (length word) 5
    then (do write (describe_all command_map); pure true)
    else (let name = strip (drop 5 word) in
        elim (lookup name command_map) [
          | some command ↦ (do write (describe name command ∷ []); pure true)
          | none ↦ (do write (or_not_existed name (describe_matching name command_map)); pure true)
        ])

abbrev pub is_help : List Text → Bool
is_help [] = false
is_help (word ∷ words) = text_beq word (codes "help")

-- The option of a command, with "help" and "h".
abbrev pub with_help : ConsoleCommand → Options
with_help command =
    (add (codes "h") opt_optional
      (add (codes "help") opt_optional (register_command command).option).1).1

-- A command that is there, with its arguments.
unfoldable pub run_command : Map ℕ User → Text → ConsoleCommand → Text → Action Console Bool
run_command users name command arguments c =
    let (r, o) = parse (split arguments) (with_help command) in
    elim r [
      | err e ↦ (err e, c)
      | ok _ ↦
          if has_opt_with_value (codes "help") o || has_opt_with_value (codes "h") o
          then (ok true, record c { log = c.log ++ (describe name command ∷ []) })
          else execute users command c
    ]

-- `input`: whether the server goes on.
unfoldable pub input : Map ℕ User → Text → Action Console Bool
input users text =
    let word = first_word text in
    let arguments = (until_dash (strip_front text)).1 in
    if text_beq word []
    then pure true
    else if is_help (split word)
    then help word
    else elim (lookup word command_map) [
      | none ↦ (do write (not_existed word ∷ []); pure true)
      | some command ↦ run_command users word command arguments
    ]
