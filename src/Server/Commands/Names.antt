-- ===== src/Server/Commands/Names.antt =====
-- The names under which the commands stand in the table
-- (server/jsonMessageProcess/JsonMsgProcess.cpp `JsonMessageProcessCommandList`).
use text.Mathlib.TextEquality.{eq_iff}
use qing_liao_chat_server.Base.{
  String, ◌≡◌, ◌↔◌, refl, sym, ap, ◌∙◌, some, [], ◌∷◌, arith, All, inl, inr, Bool-cases,
  Option-cases,
}
use qing_liao_chat_server.Error.{ok}
use qing_liao_chat_server.Map.{Map, lookup, insert, string_key}
use qing_liao_chat_server.Server.Commands.{
  Command, register_command, has_user_command, search_user_command, add_friend_command,
  accept_friend_verification_command, reject_friend_verification_command, get_friend_list_command,
  get_friend_verification_list_command, remove_friend_command, add_group_command,
  accept_group_verification_command, reject_group_verification_command, get_group_list_command,
  get_group_verification_list_command, create_group_command, remove_group_command,
  leave_group_command, send_friend_message_command, send_group_message_command, initial_commands,
  new_command_list, get_command,
}

-- The function that a client asks for to have a command executed: the name of the command's class in
-- snake case, without `Command`. doc/JsonMessageMap.md gives three of them differently: those of
-- RemoveFriendCommand, GetGroupListCommand and LeaveGroupCommand, each as that of another command.
abbrev pub function_name : Command → String
function_name register_command = "register"
function_name has_user_command = "has_user"
function_name search_user_command = "search_user"
function_name add_friend_command = "add_friend"
function_name accept_friend_verification_command = "accept_friend_verification"
function_name reject_friend_verification_command = "reject_friend_verification"
function_name get_friend_list_command = "get_friend_list"
function_name get_friend_verification_list_command = "get_friend_verification_list"
function_name remove_friend_command = "remove_friend"
function_name add_group_command = "add_group"
function_name accept_group_verification_command = "accept_group_verification"
function_name reject_group_verification_command = "reject_group_verification"
function_name get_group_list_command = "get_group_list"
function_name get_group_verification_list_command = "get_group_verification_list"
function_name create_group_command = "create_group"
function_name remove_group_command = "remove_group"
function_name leave_group_command = "leave_group"
function_name send_friend_message_command = "send_friend_message"
function_name send_group_message_command = "send_group_message"

abbrev Names : Map String Command → Type 0
Names m = All (λ entry. function_name entry.1 ≡ entry.0) m

lookup-Names :
    (name : String) (command : Command) (m : Map String Command)
    → Names m
    → lookup name m ≡ some command
    → name ≡ function_name command
unfolding lookup
lookup-Names name command [] names found = absurd (ground (arith, found))
lookup-Names name command ((k, c) ∷ m) (named, names) found =
    elim (Bool-cases (string_key.beq k name)) [
      | inl same ↦
          let here : c ≡ command = ground (arith, found, same) in
          sym ((eq_iff k name).0 same) ∙ sym named ∙ ap function_name here
      | inr differs ↦ lookup-Names name command m names (ground (arith, found, differs))
    ]

initial_commands-Names : Names initial_commands
initial_commands-Names = (
  refl,
  (
    refl,
    (
      refl,
      (
        refl,
        (
          refl,
          (
            refl,
            (
              refl,
              (
                refl,
                (
                  refl,
                  (
                    refl,
                    (refl, (refl, (refl, (refl, (refl, (refl, (refl, (refl, (refl, tt))))))))),
                  ),
                ),
              ),
            ),
          ),
        ),
      ),
    ),
  ),
)

new_command_list_lem : new_command_list ≡ initial_commands
unfolding new_command_list lookup insert
new_command_list_lem = refl

get_command-function_name :
    (command : Command) → get_command (function_name command) new_command_list ≡ ok command
unfolding get_command lookup insert new_command_list
get_command-function_name register_command = refl
get_command-function_name has_user_command = refl
get_command-function_name search_user_command = refl
get_command-function_name add_friend_command = refl
get_command-function_name accept_friend_verification_command = refl
get_command-function_name reject_friend_verification_command = refl
get_command-function_name get_friend_list_command = refl
get_command-function_name get_friend_verification_list_command = refl
get_command-function_name remove_friend_command = refl
get_command-function_name add_group_command = refl
get_command-function_name accept_group_verification_command = refl
get_command-function_name reject_group_verification_command = refl
get_command-function_name get_group_list_command = refl
get_command-function_name get_group_verification_list_command = refl
get_command-function_name create_group_command = refl
get_command-function_name remove_group_command = refl
get_command-function_name leave_group_command = refl
get_command-function_name send_friend_message_command = refl
get_command-function_name send_group_message_command = refl

-- The table answers to a name with a command exactly if it is the command's name.
pub get_command_lem :
    (name : String) (command : Command)
    → (get_command name new_command_list ≡ ok command) ↔ (name ≡ function_name command)
unfolding get_command
get_command_lem name command = (
  λ found. lookup-Names name command initial_commands initial_commands-Names (
      ap (lookup name) (sym new_command_list_lem)
      ∙ elim (Option-cases (lookup name new_command_list)) [
        | inl gone ↦ ground (arith, found, gone)
        | inr (c, there) ↦ ground (arith, found, there)
      ]),
  λ named. ap (λ n. get_command n new_command_list) named ∙ get_command-function_name command,
)
