-- ===== src/Server/Commands.antt =====
-- The commands of server/jsonMessageProcess/JsonMsgProcessCommand.h, with their options, and the
-- table of server/jsonMessageProcess/JsonMsgProcess.cpp that finds one by its name
-- (`JsonMessageProcessCommandList`).
pub mod Names
pub mod Users
pub mod Friends
pub mod Groups
pub mod Accounts
pub mod Delivery
pub mod Quiet
use qing_liao_chat_server.Base.{
  ℕ, ◌*◌, String, Bool, true, false, not, Option, none, some, List, [], ◌∷◌, ◌||◌, if◌then◌else◌,
}
use qing_liao_chat_server.Error.{Action, Result, ok, throw, null_pointer}
use qing_liao_chat_server.Map.{Map, lookup, contains, emplace, erase, string_key}
use qing_liao_chat_server.Json.{JValueType, jint, jstring}

pub data Command : Type 0 where
  register_command has_user_command search_user_command : Command
  add_friend_command accept_friend_verification_command : Command
  reject_friend_verification_command get_friend_list_command : Command
  get_friend_verification_list_command remove_friend_command : Command
  add_group_command accept_group_verification_command : Command
  reject_group_verification_command get_group_list_command : Command
  get_group_verification_list_command create_group_command : Command
  remove_group_command leave_group_command : Command
  send_friend_message_command send_group_message_command : Command

-- `CommandType`
abbrev pub normal_type : ℕ
normal_type = 0

abbrev pub login_type : ℕ
login_type = 1

-- `getCommandType`
unfoldable pub get_command_type : Command → ℕ
get_command_type register_command = normal_type
get_command_type has_user_command = normal_type
get_command_type search_user_command = normal_type
get_command_type _ = login_type

pub record JsonOption : Type 0 where
  pub name : String
  pub json_value_type : JValueType

abbrev user_id_option : JsonOption
user_id_option = record { name = "user_id"; json_value_type = jint }

abbrev group_id_option : JsonOption
group_id_option = record { name = "group_id"; json_value_type = jint }

abbrev message_option : JsonOption
message_option = record { name = "message"; json_value_type = jstring }

-- `getOption` of the commands on groups, and of those that send messages.
unfoldable pub get_group_option : Command → List JsonOption
get_group_option add_group_command = group_id_option ∷ []
get_group_option accept_group_verification_command = group_id_option ∷ user_id_option ∷ []
get_group_option reject_group_verification_command = group_id_option ∷ user_id_option ∷ []
get_group_option remove_group_command = group_id_option ∷ []
get_group_option leave_group_command = group_id_option ∷ []
get_group_option send_friend_message_command = user_id_option ∷ message_option ∷ []
get_group_option send_group_message_command = group_id_option ∷ message_option ∷ []
get_group_option _ = []

-- `getOption`
unfoldable pub get_option : Command → List JsonOption
get_option register_command =
    (record { name = "email"; json_value_type = jstring })
    ∷ (record { name = "password"; json_value_type = jstring })
    ∷ []
get_option has_user_command = user_id_option ∷ []
get_option search_user_command = user_id_option ∷ []
get_option add_friend_command = user_id_option ∷ []
get_option accept_friend_verification_command = user_id_option ∷ []
get_option reject_friend_verification_command = user_id_option ∷ []
get_option get_friend_list_command = []
get_option get_friend_verification_list_command = []
get_option remove_friend_command = user_id_option ∷ []
get_option command = get_group_option command

-- `m_function_map`
abbrev pub CommandList : Type 0
CommandList = Map String Command

unfoldable pub has_command : String → CommandList → Bool
has_command name list = contains name list

-- Calls of the table that change it return whether they did.
pub add_command : String → Command → CommandList → Bool × CommandList
unfolding has_command
add_command name command list =
    if has_command name list then (false, list) else (true, emplace name command list)

unfoldable pub get_command : String → CommandList → Result Command
get_command name list = elim (lookup name list) [
  | none ↦ throw null_pointer
  | some command ↦ ok command
]

pub remove_command : String → CommandList → Bool × CommandList
unfolding has_command
remove_command name list =
    if not (has_command name list) then (false, list) else (true, erase name list)

-- `init_command` of the constructor.
init_command : String → Command → CommandList → CommandList
init_command name command list = if contains name list then list else emplace name command list

init_commands : List (String × Command) → CommandList → CommandList
init_commands [] list = list
init_commands ((name, command) ∷ rest) list = init_commands rest (init_command name command list)

-- The calls of `init_command`, in their order.
abbrev pub initial_commands : List (String × Command)
initial_commands =
    ("register", register_command)
    ∷ ("has_user", has_user_command)
    ∷ ("search_user", search_user_command)
    ∷ ("add_friend", add_friend_command)
    ∷ ("add_group", add_group_command)
    ∷ ("get_friend_list", get_friend_list_command)
    ∷ ("get_group_list", get_group_list_command)
    ∷ ("send_friend_message", send_friend_message_command)
    ∷ ("send_group_message", send_group_message_command)
    ∷ ("accept_friend_verification", accept_friend_verification_command)
    ∷ ("get_friend_verification_list", get_friend_verification_list_command)
    ∷ ("accept_group_verification", accept_group_verification_command)
    ∷ ("get_group_verification_list", get_group_verification_list_command)
    ∷ ("reject_friend_verification", reject_friend_verification_command)
    ∷ ("reject_group_verification", reject_group_verification_command)
    ∷ ("create_group", create_group_command)
    ∷ ("remove_group", remove_group_command)
    ∷ ("leave_group", leave_group_command)
    ∷ ("remove_friend", remove_friend_command)
    ∷ []

unfoldable pub new_command_list : CommandList
unfolding init_commands init_command
new_command_list = init_commands initial_commands []
