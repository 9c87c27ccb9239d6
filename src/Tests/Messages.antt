-- ===== src/Tests/Messages.antt =====
-- Messages to the server, and the packages that answer them.
use qing_liao_chat_server.Base.{
  ℕ, String, ◌≡◌, refl, ap, subst, true, false, not, none, some, [], ◌∷◌, arith, ◌==◌, ◌&&◌, ◌||◌,
  ◌⊎◌, ◌↔◌, ◌++◌, if◌then◌else◌, is_some,
}
use text.Mathlib.Text.{◌==◌ as str_eq}
use qing_liao_chat_server.Error.{Result, ok}
use qing_liao_chat_server.Map.{lookup, insert, id_key, string_key}
use qing_liao_chat_server.Json.{
  Answer, int_of, is_error, bool_field, with_field, make_success_message, make_error_message,
}
use qing_liao_chat_server.User
use qing_liao_chat_server.User.{User, new_user}
use qing_liao_chat_server.Room.{private_message}
use qing_liao_chat_server.Wire.DataPackage.{make_package, text_type, string_to_package, get_data}
use qing_liao_chat_server.Wire.Endian.{Bytes}
use qing_liao_chat_server.Server.{no_user, first_id}
use qing_liao_chat_server.Server.Manager.{has_user, get_private_room_id, get_private_room}
use qing_liao_chat_server.Server.Connections.{has_connection, match_user_of_connection}
use qing_liao_chat_server.Server.Connections.Logins.{holds, logged_in}
use qing_liao_chat_server.Server.Login.{Session, login}
use qing_liao_chat_server.Server.Commands.{
  get_command, get_command_type, get_option, new_command_list, has_command, add_friend_command,
  send_friend_message_command,
}
use qing_liao_chat_server.Server.Commands.Names.{function_name, get_command_lem}
use qing_liao_chat_server.Pattern.{email_match, regex_match, nullable, after}
use qing_liao_chat_server.Server.Commands.Users.{register_account, ask_user}
use qing_liao_chat_server.Server.Commands.Accounts.{login-register_account, welcome, with_email}
use qing_liao_chat_server.Server.Commands.Friends.{send_friend_message}
use qing_liao_chat_server.Server.Commands.Delivery.{
  send_friend_message_lem, to_members, with_message, may_write, IsOpen,
}
use qing_liao_chat_server.Server.Dispatch.{
  Request, request, gate, read_request, process_request, invoke, execute, check_options,
  process_json_message, process,
}
use qing_liao_chat_server.Server.Dispatch.Refusals.{opens, told}
use qing_liao_chat_server.Server.Dispatch.Guests.{guest_lem}
use qing_liao_chat_server.Server.Dispatch.Logins.{process_json_message_lem}
use qing_liao_chat_server.Server.Dispatch.Gate.{
  gate_lem, all_match, all_readable, check_options_lem,
}
use qing_liao_chat_server.Server.Dispatch.Replies.{string_to_package-process}
use qing_liao_chat_server.Client.{int_value, string_value}
use qing_liao_chat_server.Tests.Data.{first_user, two, online, friends, open_private, one_package}
use qing_liao_chat_server.Tests.JsonData.{
  Plain, plain_message, plain_parameters, plain_json, plain_json-IsTyped, today,
}

-- Somebody who has not logged in asks user 2 for a friendship.
abbrev asks_friend : Plain
asks_friend =
    plain_message (record { function = "add_friend"; parameters = ("user_id", int_value 2) ∷ [] })

abbrev guest : Session
guest = record { user_id = no_user; server = two }

abbrev name_of : Result (Request Plain) → String
name_of (ok (request name j)) = name
name_of _ = ""

asks_friend-closed :
    (name : String) (j : Plain)
    → (read_request plain_json asks_friend guest).0 ≡ ok (request name j)
    → opens name ≡ false
unfolding read_request
asks_friend-closed name j asked = subst (λ n. opens n ≡ false) (ap name_of asked) refl

guest_lem_example :
    (a : Answer) × (process_json_message plain_json today 9 asks_friend guest ≡ (ok a, guest))
    × ((is_error a ≡ true)
        ⊎ ((j : Plain) × (id : ℕ) × ((read_request plain_json asks_friend guest).0
              ≡ ok (request "has_user" j))
            × (int_of plain_json "user_id" j ≡ some id)
            × (a ≡ told (has_user id two))))
unfolding lookup new_user
guest_lem_example = guest_lem plain_json today 9 asks_friend guest refl refl asks_friend-closed

gate_lem_example : gate no_user "add_friend" ≡ (
    no_user == no_user
    && not (str_eq "add_friend" "login")
    && not (has_command "add_friend" new_command_list))
gate_lem_example = gate_lem no_user "add_friend"

get_command_lem_example :
    let name : String = "add_friend" in
    (get_command name new_command_list ≡ ok add_friend_command)
    ↔ (name ≡ function_name add_friend_command)
get_command_lem_example = get_command_lem "add_friend" add_friend_command

-- The message is missing.
abbrev half : Plain
half = plain_parameters (("user_id", int_value 2) ∷ [])

check_options_lem_example :
    let options = get_option send_friend_message_command in
    let checked = check_options plain_json half options in
    (is_some checked ≡ not (all_match plain_json half options))
    × ((not (all_match plain_json half options) || all_readable plain_json half options) ≡ true)
    × ((elim checked [ none ↦ true | some a ↦ is_error a ]) ≡ true)
check_options_lem_example =
    check_options_lem plain_json half (get_option send_friend_message_command) plain_json-IsTyped

online_agrees : (d v : ℕ) → holds d v online ≡ logged_in d v online
unfolding lookup new_user User.has_connection match_user_of_connection
online_agrees d v = ground arith

abbrev account : Plain
account = plain_parameters (("email", string_value "a@b.org") ∷ ("password", string_value "p") ∷ [])

login-register_account_example :
    let (r, t) = register_account plain_json today account online in
    let (r', t') =
      login today.hash 8 first_id "p" "Web" (record { user_id = no_user; server = t }) in
    (r ≡ ok (welcome first_id))
    × (lookup 2 t.users ≡ (
        if first_id == 2
        then some (with_email today "a@b.org" "p" first_id)
        else lookup 2 online.users))
    × (has_user 2 t ≡ (first_id == 2 || has_user 2 online))
    × (r' ≡ ok true)
    × (t'.user_id ≡ first_id)
    × (logged_in 8 2 t'.server ≡ (if 8 == 8 then first_id == 2 else logged_in 8 2 online))
    × (holds 8 2 t'.server ≡ logged_in 8 2 t'.server)
unfolding lookup new_user has_connection email_match regex_match nullable after
login-register_account_example =
    login-register_account plain_json today 8 8 2 account "a@b.org" "p" "Web" online refl refl refl
      refl refl refl online_agrees refl

abbrev hello : Plain
hello = plain_parameters (("user_id", int_value 2) ∷ ("message", string_value "hi") ∷ [])

abbrev writer : User
writer = record first_user { friend_set = (2, tt) ∷ [] }

writes : IsOpen 1 2 3 open_private friends
unfolding lookup get_private_room_id get_private_room
writes = record { at_room = refl; found = refl; usable = refl; member = refl }

send_friend_message_lem_example :
    let (a, t) = send_friend_message plain_json 1 today hello friends in
    ((may_write 2 writer friends ≡ true)
      × (a ≡ ok (make_success_message "Successfully sent a message!"))
      × (t.outbox
          ≡ friends.outbox
            ++ to_members friends.users (private_message 1 "hi") open_private.members)
      × (get_private_room 3 t ≡ ok (with_message today 1 "hi" open_private))
      × (t.users ≡ friends.users))
    ⊎ ((may_write 2 writer friends ≡ false)
        × (a
            ≡ ok (
                make_error_message (
                  if has_user 2 friends
                  then "You don't have this friend!"
                  else "UserID is invalid!")))
        × (t ≡ friends))
unfolding lookup new_user
send_friend_message_lem_example =
    send_friend_message_lem plain_json today 1 2 3 hello "hi" writer open_private friends refl refl
      refl (λ allowed. writes)

abbrev no_text : Answer → Bytes
no_text a = []

string_to_package-process_example :
    let a =
      with_field "has_user" (bool_field true) (make_success_message "Successfully get a result!") in
    let p = make_package [] text_type 1 0 77 in
    (written : Bytes) × (process plain_json today no_text 9 (65 ∷ []) one_package guest
      ≡ (ok written, guest))
    × (string_to_package written ≡ ok p)
    × (p.type ≡ text_type)
    × (p.request_id ≡ 77)
    × (get_data p ≡ ok [])
unfolding process_json_message read_request process_request gate invoke execute check_options
    ask_user has_user lookup insert new_user has_command get_command get_command_type get_option
    new_command_list
string_to_package-process_example =
    string_to_package-process plain_json today no_text 9 (65 ∷ []) one_package
      (with_field "has_user" (bool_field true) (make_success_message "Successfully get a result!"))
      guest guest refl (omega arith) (omega arith)

abbrev logs_in : Plain
logs_in = plain_message (record {
  function = "login";
  parameters =
      ("user_id", int_value 2)
      ∷ ("password", string_value "p")
      ∷ ("device", string_value "Web")
      ∷ [];
})

process_json_message_lem_example :
    let s : Session = record { user_id = no_user; server = online } in
    let t = (process_json_message plain_json today 8 logs_in s).1.server in
    (holds 8 2 t ≡ logged_in 8 2 t)
    × (logged_in 8 2 t ≡ (if 8 == 8 then logged_in 8 2 t else logged_in 8 2 online))
unfolding lookup has_connection
process_json_message_lem_example =
    process_json_message_lem plain_json today 8 8 2 logs_in
      (record { user_id = no_user; server = online }) refl refl refl online_agrees
