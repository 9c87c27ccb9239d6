-- ===== src/Server/Dispatch/Logins.antt =====
-- Messages and who is logged in where (`processJsonMessage` of
-- server/jsonMessageProcess/JsonMsgProcess.cpp, server/manager/manager.cpp).
use qing_liao_chat_server.Base.{
  ℕ, String, ◌≡◌, ap, true, false, none, inl, inr, Bool-cases, Option-cases, arith, ◌==◌, ==_iff,
  if◌then◌else◌, is_some,
}
use text.Mathlib.Text.{◌==◌ as str_eq}
use qing_liao_chat_server.Error.{Result-cases}
use qing_liao_chat_server.Map.{lookup, id_key}
use qing_liao_chat_server.Json.{Json, string_of, int_of}
use qing_liao_chat_server.Server.{Server, no_user}
use qing_liao_chat_server.Server.Quiet.{SameLogins, SameLogins-refl}
use qing_liao_chat_server.Server.Login.{Session}
use qing_liao_chat_server.Server.Login.Sessions.{login_lem}
use qing_liao_chat_server.Server.Connections.{has_connection, match_user_of_connection}
use qing_liao_chat_server.Server.Connections.Logins.{holds, logged_in}
use qing_liao_chat_server.Server.Commands.{
  Command, register_command, has_user_command, search_user_command, add_friend_command,
  accept_friend_verification_command, reject_friend_verification_command, get_friend_list_command,
  get_friend_verification_list_command, remove_friend_command, add_group_command,
  accept_group_verification_command, reject_group_verification_command, get_group_list_command,
  get_group_verification_list_command, create_group_command, remove_group_command,
  leave_group_command, send_friend_message_command, send_group_message_command, get_option,
  get_command, new_command_list,
}
use qing_liao_chat_server.Server.Commands.Quiet as Commands
use qing_liao_chat_server.Server.Commands.Users.{World}
use qing_liao_chat_server.Server.Commands.Accounts.{register_account-SameLogins}
use qing_liao_chat_server.Server.Dispatch.{
  Request, invalid, request, gate, read_request, check_options, execute, login_request, invoke,
  process_request, process_json_message,
}
use qing_liao_chat_server.Server.Dispatch.Guests.{read_request-is_read}

-- The two tables agree about `v` on `d`, and nothing changed where `d` is not `c`.
abbrev KeepsLogins : (c d v : ℕ) → Server → Server → Type 0
KeepsLogins c d v s t =
    (holds d v t ≡ logged_in d v t)
    × (logged_in d v t ≡ (if c == d then logged_in c v t else logged_in d v s))

SameLogins-KeepsLogins :
    (c d v : ℕ) (s t : Server)
    → SameLogins s t
    → holds d v s ≡ logged_in d v s
    → KeepsLogins c d v s t
unfolding match_user_of_connection
SameLogins-KeepsLogins c d v s t same agree = elim (Bool-cases (c == d)) [
  | inl own ↦ (
    ground (arith, same.connections, same.users d v, agree),
    ground (arith, own, ap (λ e. logged_in e v t) ((==_iff c d).0 own)),
  )
  | inr other ↦ (
    ground (arith, same.connections, same.users d v, agree),
    ground (arith, other, same.connections),
  )
]

module _ {J : Type 0} (json : Json J) (world : World) where
  execute-SameLogins :
      (executor : ℕ) (command : Command) (j : J) (s : Server)
      → lookup s.new_user_id s.users ≡ none
      → SameLogins s (execute json world executor command j s).1
  unfolding execute
  execute-SameLogins e register_command j s fresh = register_account-SameLogins json world j s fresh
  execute-SameLogins e has_user_command j s fresh = (Commands.ask_user-IsQuiet json world e j).at s
  execute-SameLogins e search_user_command j s fresh =
      (Commands.search_user-IsQuiet json world e j).at s
  execute-SameLogins e add_friend_command j s fresh =
      (Commands.add_friend-IsQuiet json world e j).at s
  execute-SameLogins e accept_friend_verification_command j s fresh =
      (Commands.accept_friend_verification-IsQuiet json world e j).at s
  execute-SameLogins e reject_friend_verification_command j s fresh =
      (Commands.reject_friend_verification-IsQuiet json world e j).at s
  execute-SameLogins e get_friend_list_command j s fresh =
      (Commands.get_friend_list-IsQuiet json world e j).at s
  execute-SameLogins e get_friend_verification_list_command j s fresh =
      (Commands.get_friend_verification_list-IsQuiet json world e j).at s
  execute-SameLogins e remove_friend_command j s fresh =
      (Commands.remove_friend-IsQuiet json world e j).at s
  execute-SameLogins e add_group_command j s fresh =
      (Commands.add_group-IsQuiet json world e j).at s
  execute-SameLogins e accept_group_verification_command j s fresh =
      (Commands.accept_group_verification-IsQuiet json world e j).at s
  execute-SameLogins e reject_group_verification_command j s fresh =
      (Commands.reject_group_verification-IsQuiet json world e j).at s
  execute-SameLogins e get_group_list_command j s fresh =
      (Commands.get_group_list-IsQuiet json world e j).at s
  execute-SameLogins e get_group_verification_list_command j s fresh =
      (Commands.get_group_verification_list-IsQuiet json world e j).at s
  execute-SameLogins e create_group_command j s fresh =
      (Commands.create_group-IsQuiet json world e j).at s
  execute-SameLogins e remove_group_command j s fresh =
      (Commands.remove_group-IsQuiet json world e j).at s
  execute-SameLogins e leave_group_command j s fresh =
      (Commands.leave_group-IsQuiet json world e j).at s
  execute-SameLogins e send_friend_message_command j s fresh =
      (Commands.send_friend_message-IsQuiet json world e j).at s
  execute-SameLogins e send_group_message_command j s fresh =
      (Commands.send_group_message-IsQuiet json world e j).at s

  module _ (c d v : ℕ) (s : Session) (fresh : lookup s.server.new_user_id s.server.users ≡ none)
      (nobody : is_some (lookup no_user s.server.users) ≡ false)
      (known : has_connection c s.server ≡ true)
      (agree : (d' v' : ℕ) → holds d' v' s.server ≡ logged_in d' v' s.server) where
    unchanged : KeepsLogins c d v s.server s.server
    unchanged =
        SameLogins-KeepsLogins c d v s.server s.server (SameLogins-refl s.server) (agree d v)

    login_request-KeepsLogins :
        (j : J) → KeepsLogins c d v s.server (login_request json world c j s).1.server
    unfolding login_request
    login_request-KeepsLogins j = elim (Option-cases (int_of json "user_id" j)) [
      | inl gone ↦ ground (arith, gone, unchanged)
      | inr (id, at_id) ↦ elim (Option-cases (string_of json "password" j)) [
        | inl gone ↦ ground (arith, at_id, gone, unchanged)
        | inr (password, at_password) ↦ elim (Option-cases (string_of json "device" j)) [
          | inl gone ↦ ground (arith, at_id, at_password, gone, unchanged)
          | inr (device, at_device) ↦
              let step = login_lem world.hash c id d v password device s agree nobody known in
              let own = login_lem world.hash c id c v password device s agree nobody known in
              ground (arith, at_id, at_password, at_device, step, own, unchanged)
        ]
      ]
    ]

    invoke-KeepsLogins :
        (name : String) (j : J) → KeepsLogins c d v s.server (invoke json world c name j s).1.server
    unfolding invoke
    invoke-KeepsLogins name j = elim (Bool-cases (str_eq name "login")) [
      | inl is_login ↦ ground (arith, is_login, login_request-KeepsLogins j)
      | inr other ↦ elim (Result-cases (get_command name new_command_list)) [
        | inr (e, gone) ↦ ground (arith, other, gone, unchanged)
        | inl (command, there) ↦ elim (Option-cases (check_options json j (get_option command))) [
          | inr (answer, refused) ↦ ground (arith, other, there, refused, unchanged)
          | inl passed ↦
              let t = (execute json world s.user_id command j s.server).1 in
              let same = execute-SameLogins s.user_id command j s.server fresh in
              ground (
                arith,
                other,
                there,
                passed,
                SameLogins-KeepsLogins c d v s.server t same (agree d v),
              )
        ]
      ]
    ]

    process_request-KeepsLogins :
        (q : Request J) → KeepsLogins c d v s.server (process_request json world c q s).1.server
    unfolding process_request
    process_request-KeepsLogins (invalid answer) = unchanged
    process_request-KeepsLogins (request name j) = elim (Bool-cases (gate s.user_id name)) [
      | inl refused ↦ ground (arith, refused, unchanged)
      | inr open_gate ↦ ground (arith, open_gate, invoke-KeepsLogins name j)
    ]

-- Whatever a message says and however it ends, it keeps the manager's table of connections and the
-- users' own in agreement, and it changes no login on any other connection. The next id for a new
-- user is free, nobody has the id that stands for no user, and the manager knows the connection.
pub process_json_message_lem :
    {J : Type 0} (json : Json J) (world : World) (c d v : ℕ) (body : J) (s : Session)
    → lookup s.server.new_user_id s.server.users ≡ none
    → is_some (lookup no_user s.server.users) ≡ false
    → has_connection c s.server ≡ true
    → ((d' v' : ℕ) → holds d' v' s.server ≡ logged_in d' v' s.server)
    → let t = (process_json_message json world c body s).1.server in
      (holds d v t ≡ logged_in d v t)
      × (logged_in d v t ≡ (if c == d then logged_in c v t else logged_in d v s.server))
unfolding process_json_message
process_json_message_lem json world c d v body s fresh nobody known agree =
    let same = (read_request-is_read json body s).0 in
    elim (Result-cases (read_request json body s).0) [
      | inr (e, thrown) ↦
          ground (arith, same, thrown, unchanged json world c d v s fresh nobody known agree)
      | inl (q, got) ↦
          let run = process_request-KeepsLogins json world c d v s fresh nobody known agree q in
          ground (arith, same, got, run)
    ]
