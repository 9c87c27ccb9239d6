-- ===== src/Client/Requests.antt =====
-- A command that the client sends, and what the client learns of it (testclient/session.cpp,
-- server/jsonMessageProcess/JsonMsgProcess.cpp).
use text.Mathlib.Text.{◌==◌ as str_eq}
use qing_liao_chat_server.Base.{
  ℕ, ◌≡◌, refl, true, false, not, none, [], ◌∷◌, arith, ◌&&◌, if◌then◌else◌, Bool-cases, inl, inr,
}
use qing_liao_chat_server.Error.{ok}
use qing_liao_chat_server.Map.{lookup, string_key, id_key}
use qing_liao_chat_server.Json.{Answer, make_error_message, make_success_message, make_message}
use qing_liao_chat_server.Server.{Server}
use qing_liao_chat_server.Server.Login.{Session}
use qing_liao_chat_server.Server.Manager.{has_user}
use qing_liao_chat_server.Server.Friends
use qing_liao_chat_server.Server.Friends.Requests.{may_ask, add_friend_lem, add_friend-refused}
use qing_liao_chat_server.Server.Commands.{
  Command, new_command_list, has_command, get_command, get_option, add_friend_command,
}
use qing_liao_chat_server.Server.Commands.Names.{get_command_lem}
use qing_liao_chat_server.Server.Commands.Users.{World}
use qing_liao_chat_server.Server.Commands.Friends as Commands
use qing_liao_chat_server.Server.Dispatch.{
  gate, check_options, execute, invoke, process_request, process_json_message,
}
use qing_liao_chat_server.Client.{
  Client, Message, int_value, when_logged_in, send, create_friend_application,
}
use qing_liao_chat_server.Client.Transport.{
  Transport, IsFaithful, ask_server, read_request-of_message, int_of-of_parameters,
}
use qing_liao_chat_server.Client.Agreement.{succeeds_lem}

module _ {J : Type 0} (io : Transport J) (faithful : IsFaithful io) (world : World) (c : ℕ) where
  -- A command that gets its parameters and returns.
  process_json_message-command :
      (m : Message) (command : Command) (a : Answer) (s : Session) (t : Server)
      → str_eq m.function "login" ≡ false
      → get_command m.function new_command_list ≡ ok command
      → check_options io.json (io.of_parameters m.parameters) (get_option command) ≡ none
      → execute io.json world s.user_id command (io.of_parameters m.parameters) s.server ≡ (ok a, t)
      → process_json_message io.json world c (io.of_message m) s ≡ (ok a, record s { server = t })
  unfolding process_json_message process_request gate invoke has_command get_command
  process_json_message-command m command a s t other found passed ran =
      ground (arith, read_request-of_message io faithful m s, other, found, passed, ran)

  abbrev friend_message : ℕ → Message
  friend_message id = record {
    function = "add_friend";
    parameters = ("user_id", int_value id) ∷ [];
  }

  abbrev friend_answer : ℕ → ℕ → Server → Answer
  friend_answer self id s =
      if not (has_user id s)
      then make_error_message "UserID is invalid!"
      else if may_ask self id s
      then make_success_message "Successfully sent application!"
      else make_error_message "Can't send application"

  execute-add_friend :
      (self id : ℕ) (s : Server)
      → has_user self s ≡ true
      → execute io.json world self add_friend_command
          (io.of_parameters (friend_message id).parameters)
          s
        ≡ (ok (friend_answer self id s), (Friends.add_friend self id s).1)
  unfolding execute Commands.add_friend lookup
  execute-add_friend self id s known =
      let read =
        int_of-of_parameters io faithful "user_id" id (friend_message id).parameters refl in
      let returned = add_friend_lem self id 0 0 s known in
      elim (Bool-cases (has_user id s)) [
        | inl there ↦ ground (arith, read, known, there, returned)
        | inr unknown ↦ ground (arith, read, known, unknown, add_friend-refused self id s)
      ]

  check_options-friend_message :
      (id : ℕ)
      → check_options io.json
          (io.of_parameters (friend_message id).parameters)
          (get_option add_friend_command)
        ≡ none
  unfolding check_options get_option lookup
  check_options-friend_message id = ground (
    arith,
    faithful.parameters_find "user_id" (friend_message id).parameters,
    faithful.int_type id,
  )

  -- A client that has not logged in asks nobody for a friendship. For one whose session is that of a
  -- known user, the server does what `addFriend` of this user does, and the client is told that it
  -- succeeded exactly if the request was let through.
  pub create_friend_application_lem :
      (id : ℕ) (s : Client Session)
      → has_user s.outside.user_id s.outside.server ≡ true
      → let self = s.outside.user_id in
        let (r, t) = create_friend_application io.json (ask_server io world c) id s in
        (r ≡ ok (s.has_login && may_ask self id s.outside.server))
        × (t.outside.server ≡ (
            if s.has_login
            then (Friends.add_friend self id s.outside.server).1
            else s.outside.server))
        × (t.outside.user_id ≡ self)
        × (t.has_login ≡ s.has_login)
        × (t.user_id ≡ s.user_id)
  unfolding create_friend_application when_logged_in send make_success_message make_error_message
      make_message
  create_friend_application_lem id s known =
      let self = s.outside.user_id in
      let a = friend_answer self id s.outside.server in
      let server = (Friends.add_friend self id s.outside.server).1 in
      let ran =
        process_json_message-command (friend_message id) add_friend_command a s.outside server refl
          ((get_command_lem "add_friend" add_friend_command).1 refl)
          (check_options-friend_message id) (execute-add_friend self id s.outside.server known) in
      let at : Client Session = record {
        user_id = s.user_id;
        has_login = s.has_login;
        outside = record (s.outside) { server = server };
      } in
      let read = succeeds_lem io faithful a at in
      (
        ground (arith, ran, read),
        ground (arith, ran, read),
        ground (arith, ran, read),
        ground (arith, ran, read),
        ground (arith, ran, read),
      )
