-- ===== src/Server/Dispatch.antt =====
-- The way of a message through a connection's message process: `processJsonMessage` of
-- server/jsonMessageProcess/JsonMsgProcess.cpp and `SocketService::process` of
-- server/socketFunctions/socketFunctions.cpp.
pub mod Refusals
pub mod Guests
pub mod Logins
pub mod Gate
pub mod Replies
use Prim.Native.String.{◌++◌ as append}
use text.Mathlib.Text.{◌==◌ as str_eq}
use qing_liao_chat_server.Base.{
  ℕ, String, Bool, true, false, not, Option, none, some, List, [], ◌∷◌, ◌&&◌, ◌||◌, ◌==◌,
  if◌then◌else◌, is_some,
}
use qing_liao_chat_server.Error.{
  Action, Result, ok, err, ◌>>=◌, ◌>>◌, pure, raise_if, gets, catch_all,
}
use qing_liao_chat_server.Json.{
  Json, JValueType, jstring, jdict, type_beq, Answer, make_error_message, make_success_message,
  or_throw, int_at, string_at,
}
use qing_liao_chat_server.Wire.Endian.{Bytes}
use qing_liao_chat_server.Wire.DataPackage.{DataPackage, make_package, text_type, package_to_string}
use qing_liao_chat_server.Server.{Server, Call, no_user}
use qing_liao_chat_server.Server.Login.{Session, login}
use qing_liao_chat_server.Server.Commands.{
  Command, register_command, has_user_command, search_user_command, add_friend_command,
  accept_friend_verification_command, reject_friend_verification_command, get_friend_list_command,
  get_friend_verification_list_command, remove_friend_command, add_group_command,
  accept_group_verification_command, reject_group_verification_command, get_group_list_command,
  get_group_verification_list_command, create_group_command, remove_group_command,
  leave_group_command, send_friend_message_command, send_group_message_command, normal_type,
  get_command_type, JsonOption, get_option, has_command, get_command, new_command_list,
}
use qing_liao_chat_server.Server.Commands.Users.{World, register_account, ask_user, search_user}
use qing_liao_chat_server.Server.Commands.Friends
use qing_liao_chat_server.Server.Commands.Groups

-- What "Check whether the json pack is valid" makes of a body: an answer that refuses it, or the
-- name of a function with its parameters.
pub data Request (J : Type 0) : Type 0 where
  invalid : Answer → Request J
  request : String → J → Request J

-- `a & b` of two flags, each of them 0 or 1.
abbrev pub flag_and : ℕ → ℕ → Bool
flag_and a b = a == 1 && b == 1

-- "Check if user has logined": whether the call is refused.
unfoldable pub gate : ℕ → String → Bool
gate user_id name =
    user_id == no_user
    && not (str_eq name "login")
    && (not (has_command name new_command_list) || elim (get_command name new_command_list) [
      | ok command ↦ flag_and (get_command_type command) normal_type
      | err e ↦ false
    ])

module _ {J : Type 0} (json : Json J) where
  unfoldable pub read_request : {S : Type 0} → J → Action S (Request J)
  read_request body =
      if not (type_beq (json.get_type body) jdict)
      then pure (invalid (make_error_message "The data body must be json dictory type!"))
      else if not (is_some (json.find "function" body))
      then pure (invalid (make_error_message "\"function\" must be included in json dictory!"))
      else if not (is_some (json.find "parameters" body))
      then pure (invalid (make_error_message "\"parameters\" must be included in json dictory!"))
      else do
        function ← or_throw (json.at "function" body)
        if not (type_beq (json.get_type function) jstring)
            then pure (invalid (make_error_message "\"function\" must be string type!"))
            else do
              parameters ← or_throw (json.at "parameters" body)
              if not (type_beq (json.get_type parameters) jdict)
                  then pure (invalid (make_error_message "\"parameters\" must be dictory type!"))
                  else do name ← or_throw (json.get_string function); pure (request name parameters)

  -- "Check whether the type of json values match the options": the answer that refuses.
  unfoldable pub check_options : J → List JsonOption → Option Answer
  check_options parameters [] = none
  check_options parameters (option ∷ options) =
      let rest = check_options parameters options in
      elim (json.find option.name parameters) [
        | none ↦ some (make_error_message (append (append "Lost a parameter: " option.name) "."))
        | some value ↦
            if not (type_beq (json.get_type value) option.json_value_type)
            then some
                (make_error_message (append (append "Wrong parameter type: " option.name) "."))
            else rest
      ]

  -- `command_ptr->execute(executor, parameters)`
  unfoldable pub execute : World → ℕ → Command → J → Call Answer
  execute world executor register_command = register_account json world
  execute world executor has_user_command = ask_user json
  execute world executor search_user_command = search_user json
  execute world executor add_friend_command = Friends.add_friend json executor
  execute world executor accept_friend_verification_command =
      Friends.accept_friend_verification json executor
  execute world executor reject_friend_verification_command =
      Friends.reject_friend_verification json executor
  execute world executor get_friend_list_command = Friends.get_friend_list json executor
  execute world executor get_friend_verification_list_command =
      Friends.get_friend_verification_list json executor
  execute world executor remove_friend_command = Friends.remove_friend json executor
  execute world executor add_group_command = Groups.add_group json executor
  execute world executor accept_group_verification_command =
      Groups.accept_group_verification json executor
  execute world executor reject_group_verification_command =
      Groups.reject_group_verification json executor
  execute world executor get_group_list_command = Groups.get_group_list json executor
  execute world executor get_group_verification_list_command =
      Groups.get_group_verification_list json executor
  execute world executor create_group_command = Groups.create_group json executor
  execute world executor remove_group_command = Groups.remove_group json executor
  execute world executor leave_group_command = Groups.leave_group json executor
  execute world executor send_friend_message_command =
      Friends.send_friend_message json executor world
  execute world executor send_group_message_command = Groups.send_group_message json executor world

  -- `login` with what it reads of the parameters, and its answer.
  unfoldable pub login_request : World → ℕ → J → Action Session Answer
  login_request world c parameters = do
    id ← int_at json "user_id" parameters
    password ← string_at json "password" parameters
    device ← string_at json "device" parameters
    done ← login world.hash c id password device
    if done
        then pure (make_success_message "Successfully logged in!")
        else pure (make_error_message "The user ID or password is wrong!")

  -- A call of the server inside a session.
  abbrev pub on_server : {A : Type 0} → Call A → Action Session A
  on_server call s = let (r, t) = call s.server in (r, record s { server = t })

  -- The part behind the gate.
  unfoldable pub invoke : World → ℕ → String → J → Action Session Answer
  invoke world c name parameters s =
      if str_eq name "login"
      then login_request world c parameters s
      else elim (get_command name new_command_list) [
        | err e ↦ (ok (make_error_message "There isn't a function that matches the name!"), s)
        | ok command ↦ elim (check_options parameters (get_option command)) [
          | some answer ↦ (ok answer, s)
          | none ↦ on_server (execute world s.user_id command parameters) s
        ]
      ]

  unfoldable pub process_request : World → ℕ → Request J → Action Session Answer
  process_request world c (invalid answer) = pure answer
  process_request world c (request name parameters) = do
    refused ← gets (λ s. gate s.user_id name)
    if refused
        then pure (make_error_message "You haven't logged in!")
        else invoke world c name parameters

  -- An exception of a command comes back as another one, with its code; the answer is the same.
  unfoldable pub process_json_message : World → ℕ → J → Action Session Answer
  process_json_message world c body =
      catch_all (read_request body >>= process_request world c)
        (pure (make_error_message "Unknown error occured!"))

  -- `SocketService::process`: the bytes that it writes to its connection. `text` is `to_string` of an
  -- answer.
  unfoldable pub process :
      World → (Answer → Bytes) → ℕ → (bytes : Bytes) → DataPackage → Action Session Bytes
  process world text c bytes pack = do
    guest ← gets (λ s. s.user_id == no_user)
    answer ←
        if guest && not (pack.type == text_type)
        then pure (make_error_message "You haven't logged in!")
        else if pack.type == text_type
        then or_throw (json.to_json bytes) >>= process_json_message world c
        else pure (make_error_message "Error type")
    (λ s. (package_to_string (make_package (text answer) text_type 1 0 pack.request_id), s))
