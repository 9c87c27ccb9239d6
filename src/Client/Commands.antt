-- ===== src/Client/Commands.antt =====
-- The commands of the test client: testclient/commands.cpp, with the reading of a line by
-- testclient/main.cpp. A `std::string` is a list of bytes where the client looks into it, and a text
-- of the session where it only passes it on; `words` turns the one into the other.
pub mod Lines
use qing_liao_chat_server.Base.{
  ℕ, String, Bool, true, false, not, Option, none, some, List, [], ◌∷◌, map, if◌then◌else◌,
}
use qing_liao_chat_server.Error.{Action, Result, ok, err, logic_error, pure, catch_all, ◌>>=◌, ◌>>◌}
use qing_liao_chat_server.Map.{Map, lookup, contains, emplace, erase, keys}
use qing_liao_chat_server.Json.{Json}
use qing_liao_chat_server.Text.{Text, codes, text_beq, text_key, split, strip}
use qing_liao_chat_server.Options.{
  Options, OptionType, opt_required, opt_optional, no_options, add, parse,
}
use qing_liao_chat_server.Options.Values.{has_opt_with_value, get_string, get_int}
use qing_liao_chat_server.Client
use qing_liao_chat_server.Client.{Client, Message}

pub data ClientCommand : Type 0 where
  help_command exit_command register_user_command login_user_command : ClientCommand
  create_friend_application_command accept_friend_application_command : ClientCommand
  reject_friend_application_command create_group_command : ClientCommand
  create_group_application_command accept_group_application_command : ClientCommand
  reject_group_application_command send_friend_message_command : ClientCommand
  send_group_message_command remove_friend_command leave_group_command : ClientCommand

-- `option.add(name, type)`, where the type is none that `add` refuses.
abbrev pub with_option : String → OptionType → Options → Options
unfolding add
with_option name type o = (add (codes name) type o).1

abbrev pub required : String → Options → Options
required name o = with_option name opt_required o

-- `getOption`
unfoldable pub get_option : ClientCommand → Options
unfolding add
get_option help_command = with_option "name" opt_optional no_options
get_option exit_command = no_options
get_option register_user_command = required "password" (required "email" no_options)
get_option login_user_command = required "password" (required "userid" no_options)
get_option create_friend_application_command = required "userid" no_options
get_option accept_friend_application_command = required "userid" no_options
get_option reject_friend_application_command = required "userid" no_options
get_option create_group_command = no_options
get_option create_group_application_command = required "groupid" no_options
get_option accept_group_application_command = required "userid" (required "groupid" no_options)
get_option reject_group_application_command = required "userid" (required "groupid" no_options)
get_option send_friend_message_command = required "message" (required "userid" no_options)
get_option send_group_message_command = required "message" (required "groupid" no_options)
get_option remove_friend_command = required "userid" no_options
get_option leave_group_command = required "groupid" no_options

-- `m_command_map`
abbrev pub CommandMap : Type 0
CommandMap = Map Text ClientCommand

unfoldable pub add_command : Text → ClientCommand → CommandMap → Bool × CommandMap
add_command name command m = if contains name m then (false, m) else (true, emplace name command m)

pub remove_command : Text → CommandMap → Bool × CommandMap
remove_command name m = if not (contains name m) then (false, m) else (true, erase name m)

unfoldable pub can_find_command : Text → CommandMap → Bool
can_find_command name m = contains name m

unfoldable pub get_command : Text → CommandMap → Result ClientCommand
get_command name m = elim (lookup name m) [ none ↦ err logic_error | some command ↦ ok command ]

-- The calls of `addCommand` in the constructor.
abbrev pub initial_commands : List (String × ClientCommand)
initial_commands =
    ("exit", exit_command)
    ∷ ("help", help_command)
    ∷ ("registerUser", register_user_command)
    ∷ ("loginUser", login_user_command)
    ∷ ("createFriendApplication", create_friend_application_command)
    ∷ ("acceptFriendApplication", accept_friend_application_command)
    ∷ ("rejectFriendApplication", reject_friend_application_command)
    ∷ ("createGroup", create_group_command)
    ∷ ("createGroupApplication", create_group_application_command)
    ∷ ("acceptGroupApplication", accept_group_application_command)
    ∷ ("rejectGroupApplication", reject_group_application_command)
    ∷ ("sendFriendMessage", send_friend_message_command)
    ∷ ("sendGroupMessage", send_group_message_command)
    ∷ ("removeFriend", remove_friend_command)
    ∷ ("leaveGroup", leave_group_command)
    ∷ []

add_commands : List (String × ClientCommand) → CommandMap → CommandMap
unfolding add_command
add_commands [] m = m
add_commands ((name, command) ∷ rest) m = add_commands rest (add_command (codes name) command m).1

unfoldable pub new_command_manager : CommandMap
unfolding add_commands add_command
new_command_manager = add_commands initial_commands []

-- What a command prints, or that the program ends.
pub data Output : Type 0 where
  line : String → Output
  new_user : ℕ → Output
  names : List Text → Output
  options : Options → Output
  not_found : Text → Output
  silence thrown exits : Output

abbrev pub say : Bool → String → String → Output
say done yes_text no_text = line (if done then yes_text else no_text)

abbrev pub of_result : {S A : Type 0} → Result A → Action S A
of_result r s = (r, s)

module _ {S J : Type 0} (json : Json J) (ask : Message → Action S J) (words : Text → String) where
  -- `opt.get_int(name)` and `opt.get_string(name)`
  abbrev pub int_option : String → Options → Action (Client S) ℕ
  unfolding get_int
  int_option name o = of_result (get_int (codes name) o)

  abbrev pub string_option : String → Options → Action (Client S) String
  string_option name o = do text ← of_result (get_string (codes name) o); pure (words text)

  -- A command for one user or one group.
  on_id :
      String → (ℕ → Action (Client S) Bool) → String → String → Options → Action (Client S) Output
  on_id name call yes_text no_text o = do
    id ← int_option name o
    done ← call id
    pure (say done yes_text no_text)

  on_group_and_user :
      (ℕ → ℕ → Action (Client S) Bool) → String → String → Options → Action (Client S) Output
  on_group_and_user call yes_text no_text o = do
    group ← int_option "groupid" o
    user ← int_option "userid" o
    done ← call group user
    pure (say done yes_text no_text)

  with_words :
      String
      → (ℕ → String → Action (Client S) Bool)
      → String
      → String
      → Options
      → Action (Client S) Output
  with_words name call yes_text no_text o = do
    id ← int_option name o
    message ← string_option "message" o
    done ← call id message
    pure (say done yes_text no_text)

  -- `HelpCommand`; a command that is not found is looked up all the same, and throws.
  help : CommandMap → Options → Action (Client S) Output
  unfolding get_command has_opt_with_value
  help m o = if not (has_opt_with_value (codes "name") o) then pure (names (keys m)) else do
    name ← of_result (get_string (codes "name") o)
    command ← of_result (get_command name m)
    pure (options (get_option command))

  -- `execute` of the commands on groups, of those that send messages and of those that leave.
  unfoldable pub execute_on_groups : ClientCommand → Options → Action (Client S) Output
  unfolding on_id on_group_and_user with_words
  execute_on_groups create_group_command o = do
    done ← Client.create_group json ask
    pure (say done "Successfully created a group!" "Failed to create a group!")
  execute_on_groups create_group_application_command o =
      on_id "groupid" (Client.create_group_application json ask)
        "Successfully sent a application to the group!" "Failed to send a application to the group!"
        o
  execute_on_groups accept_group_application_command o =
      on_group_and_user (Client.apply_group_application json ask)
        "Successfully applied a application to the group!"
        "Failed to apply a application to the group!" o
  execute_on_groups reject_group_application_command o =
      on_group_and_user (Client.reject_group_application json ask)
        "Successfully applied a application to the group!"
        "Failed to apply a application to the group!" o
  execute_on_groups send_friend_message_command o =
      with_words "userid" (Client.send_friend_message json ask)
        "Successfully sent a message to your friend!" "Failed to send a message to your friend!" o
  execute_on_groups send_group_message_command o =
      with_words "groupid" (Client.send_group_message json ask)
        "Successfully sent a message to the group!" "Failed to send a message to the group!" o
  execute_on_groups remove_friend_command o =
      on_id "userid" (Client.remove_friend json ask) "Successfully removed a friend!"
        "Failed to remove a friend!" o
  execute_on_groups leave_group_command o =
      on_id "groupid" (Client.leave_group json ask) "Successfully left a group!"
        "Failed to leave a group!" o
  execute_on_groups _ o = pure silence

  -- `execute` of each command.
  unfoldable pub execute : CommandMap → ClientCommand → Options → Action (Client S) Output
  unfolding on_id help
  execute m help_command o = help m o
  execute m exit_command o = pure exits
  execute m register_user_command o = do
    email ← string_option "email" o
    password ← string_option "password" o
    (done, id) ← Client.register_user json ask email password 0
    pure (if done then new_user id else line "Failed to created a new user!")
  execute m login_user_command o = do
    id ← int_option "userid" o
    password ← string_option "password" o
    done ← Client.login_user json ask id password
    pure (say done "Successfully logined a user!" "Failed to logined a user!")
  execute m create_friend_application_command o =
      on_id "userid" (Client.create_friend_application json ask)
        "Successfully sent a application to the user!" "Failed to send a application to the user!" o
  execute m accept_friend_application_command o =
      on_id "userid" (Client.apply_friend_application json ask)
        "Successfully applied a application to the user!"
        "Failed to apply a application to the user!" o
  execute m reject_friend_application_command o =
      on_id "userid" (Client.reject_friend_application json ask)
        "Successfully rejected a application to the user!"
        "Failed to reject a application to the user!" o
  execute m command o = execute_on_groups command o

  -- The words of a line, the first of which is the command.
  unfoldable pub run_words : CommandMap → List Text → Action (Client S) Output
  run_words m [] = pure silence
  run_words m (name ∷ arguments) =
      if text_beq name (codes "stop")
      then pure exits
      else if not (can_find_command name m)
      then pure (not_found name)
      else catch_all
          (do
            command ← of_result (get_command name m)
            option ← (λ s.
                let (r, o) = parse arguments (get_option command) in
                (elim r [ ok _ ↦ ok o | err e ↦ err e ], s))
            execute m command option)
          (pure thrown)

  -- One line of the main loop.
  unfoldable pub run_line : CommandMap → Text → Action (Client S) Output
  run_line m text = if text_beq text [] then pure silence else run_words m (split (strip text))
