-- ===== src/Server/Dispatch/Refusals.antt =====
-- What the commands of server/jsonMessageProcess/JsonMsgProcessCommand.cpp do for somebody who is no
-- user, and the answers of the test of the options.
use text.Mathlib.Text.{◌==◌ as str_eq}
use qing_liao_chat_server.Base.{
  ℕ, String, ◌≡◌, subst, Option-cases, Bool, true, false, none, some, List, [], ◌∷◌, arith, ◌||◌,
  ◌⊎◌, inl, inr,
}
use qing_liao_chat_server.Error.{
  Action, Result, ok, err, throw, logic_error, deadlock_error, system_error, undefined_behaviour,
  blocked, user_not_existed,
}
use qing_liao_chat_server.Map.{lookup, id_key, string_key}
use qing_liao_chat_server.Json.{
  Json, Answer, success, bool_field, int_of, is_error, make_message, make_error_message,
  make_success_message,
}
use qing_liao_chat_server.User.{User}
use qing_liao_chat_server.Server.{Server, Call, read_user}
use qing_liao_chat_server.Server.Manager.{has_user}
use qing_liao_chat_server.Server.Commands.{
  Command, register_command, has_user_command, search_user_command, get_command_type, login_type,
  JsonOption,
}
use qing_liao_chat_server.Server.Commands.Names.{function_name}
use qing_liao_chat_server.Server.Commands.Users.{World, as_user, ask_user, search_user}
use qing_liao_chat_server.Server.Commands.Friends
use qing_liao_chat_server.Server.Commands.Groups
use qing_liao_chat_server.Server.Dispatch.{check_options, execute}

-- An answer that says error, or an exception, which becomes one.
abbrev pub refuses : Result Answer → Bool
refuses (ok answer) = is_error answer
refuses (err failure) = elim failure [
  | system_error e ↦ true
  | logic_error ↦ true
  | deadlock_error ↦ true
  | undefined_behaviour ↦ false
  | blocked ↦ false
]

-- A call that refuses and changes nothing.
abbrev pub Refuses : {S : Type 0} → Action S Answer → S → Type 0
Refuses call s = let (r, t) = call s in (t ≡ s) × (refuses r ≡ true)

as_user-refused :
    {A : Type 0} (executor : ℕ) (call : Call A) (s : Server)
    → lookup executor s.users ≡ none
    → as_user executor call s ≡ (throw user_not_existed, s)
unfolding has_user
as_user-refused executor call s gone = ground (arith, gone)

read_user-refused :
    {A : Type 0} (executor : ℕ) (f : User → A) (s : Server)
    → lookup executor s.users ≡ none
    → read_user executor f s ≡ (throw user_not_existed, s)
unfolding read_user
read_user-refused executor f s gone = ground (arith, gone)

-- A command for users who are logged in, executed for somebody who is no user.
execute-Refuses :
    {J : Type 0} (json : Json J) (world : World) (executor : ℕ) (command : Command) (j : J)
    (s : Server)
    → lookup executor s.users ≡ none
    → get_command_type command ≡ login_type
    → Refuses (execute json world executor command j) s
unfolding execute get_command_type make_error_message make_message has_user read_user
    Friends.add_friend Friends.accept_friend_verification Friends.reject_friend_verification
    Friends.get_friend_list Friends.get_friend_verification_list Friends.remove_friend
    Friends.send_friend_message Groups.add_group Groups.accept_group_verification
    Groups.reject_group_verification Groups.get_group_list Groups.get_group_verification_list
    Groups.create_group Groups.remove_group Groups.leave_group Groups.send_group_message
execute-Refuses json world executor command j s gone login =
    (ground (arith, gone, login), ground (arith, gone, login))

Command-cases :
    (command : Command)
    → (get_command_type command ≡ login_type)
      ⊎ ((command ≡ register_command)
          ⊎ ((command ≡ has_user_command) ⊎ (command ≡ search_user_command)))
unfolding get_command_type
Command-cases command = ground arith

-- A request other than to log in or to register.
abbrev pub opens : String → Bool
opens name = str_eq name "login" || str_eq name "register"

-- The answer to the question for a user.
abbrev pub told : Bool → Answer
told known = record {
  state = success;
  message = "Successfully get a result!";
  fields = ("has_user", bool_field known) ∷ [];
}

ask_user_lem :
    {J : Type 0} (json : Json J) (j : J) (s : Server)
    → let (r, t) = ask_user json j s in
      (t ≡ s)
      × ((refuses r ≡ true)
          ⊎ ((id : ℕ) × (int_of json "user_id" j ≡ some id) × (r ≡ ok (told (has_user id s)))))
unfolding ask_user make_success_message make_message
ask_user_lem json j s = elim (Option-cases (int_of json "user_id" j)) [
  | inl lost ↦ (ground (arith, lost), inl (ground (arith, lost)))
  | inr (id, at_id) ↦ (ground (arith, at_id), inr (id, at_id, ground (arith, at_id)))
]

-- Somebody who is no user gets an error or an exception, but for the question for a user.
pub execute-guest :
    {J : Type 0} (json : Json J) (world : World) (executor : ℕ) (command : Command) (j : J)
    (s : Server)
    → lookup executor s.users ≡ none
    → opens (function_name command) ≡ false
    → let (r, t) = execute json world executor command j s in
      (t ≡ s)
      × ((refuses r ≡ true)
          ⊎ ((command ≡ has_user_command)
              × (id : ℕ) × (int_of json "user_id" j ≡ some id)
              × (r ≡ ok (told (has_user id s)))))
unfolding execute make_error_message make_message search_user
execute-guest json world executor command j s gone other = elim (Command-cases command) [
  | inl login ↦
      let (same, refused) = execute-Refuses json world executor command j s gone login in
      (same, inl refused)
  | inr (inl register) ↦
      let no : true ≡ false = subst (λ c. opens (function_name c) ≡ false) register other in
      absurd (ground (arith, no))
  | inr (inr (inl asks)) ↦
      let (same, answer) = ask_user_lem json j s in
      (
        ground (arith, asks, same),
        elim answer [
          | inl refused ↦ inl (ground (arith, asks, refused))
          | inr (id, at_id, said) ↦ inr (asks, id, at_id, ground (arith, asks, said))
        ],
      )
  | inr (inr (inr searches)) ↦ (ground (arith, searches), inl (ground (arith, searches)))
]

pub check_options-error :
    {J : Type 0} (json : Json J) (j : J) (options : List JsonOption) (a : Answer)
    → check_options json j options ≡ some a
    → is_error a ≡ true
unfolding check_options make_error_message make_message
check_options-error json j [] a refused = absurd (ground (arith, refused))
check_options-error json j (option ∷ options) a refused =
    ground (arith, refused, check_options-error json j options a)
