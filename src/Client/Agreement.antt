-- ===== src/Client/Agreement.antt =====
-- The client with the server: what the client takes for the outcome of a call is what the server did
-- (testclient/session.cpp, server/jsonMessageProcess/JsonMsgProcess.cpp).
use text.Mathlib.Text.{◌==◌ as str_eq}
use qing_liao_chat_server.Base.{
  ℕ, String, ◌≡◌, refl, Bool, true, false, not, arith, is_some, ◌||◌, if◌then◌else◌, Bool-cases,
  inl, inr,
}
use qing_liao_chat_server.Error.{ok}
use qing_liao_chat_server.Map.{lookup, string_key, id_key}
use qing_liao_chat_server.Json.{
  State, Answer, is_error, make_error_message, make_success_message, make_message, success, error,
}
use qing_liao_chat_server.Server.{no_user}
use qing_liao_chat_server.Server.Connections.{has_connection}
use qing_liao_chat_server.Server.Connections.Logins.{holds, logged_in}
use qing_liao_chat_server.Server.Login.{Session, login}
use qing_liao_chat_server.Server.Login.Sessions.{knows, login_lem}
use qing_liao_chat_server.Server.Commands.Users.{World}
use qing_liao_chat_server.Server.Dispatch.{
  gate, login_request, invoke, process_request, process_json_message,
}
use qing_liao_chat_server.Client.{Client, login_message, send, succeeds, login_user}
use qing_liao_chat_server.Client.Transport.{
  Transport, IsFaithful, state_text, ask_server, read_request-of_message, int_of-of_parameters,
  string_of-of_parameters, string_of-state, string_of-message,
}

state_text_lem :
    (state : State)
    → str_eq (state_text state) "success" ≡ (elim state [ success ↦ true | error ↦ false ])
state_text_lem success = refl
state_text_lem error = refl

module _ {J : Type 0} (io : Transport J) (faithful : IsFaithful io) where
  pub succeeds_lem :
      {S : Type 0} (a : Answer) (s : Client S)
      → succeeds io.json (io.of_answer a) s ≡ (ok (not (is_error a)), s)
  unfolding succeeds
  succeeds_lem a s = ground (
    arith,
    state_text_lem a.state,
    string_of-state io faithful a,
    string_of-message io faithful a,
  )

  module _ (world : World) (c : ℕ) where
    -- The server's part of a login.
    process_json_message-login :
        (id : ℕ) (password : String) (done : Bool) (s t : Session)
        → login world.hash c id password "PersonalComputer" s ≡ (ok done, t)
        → process_json_message io.json world c (io.of_message (login_message id password)) s ≡ (
          ok (
              if done
              then make_success_message "Successfully logged in!"
              else make_error_message "The user ID or password is wrong!"),
          t,
        )
    unfolding process_json_message process_request gate invoke login_request lookup
    process_json_message-login id password done s t ran =
        let ps = (login_message id password).parameters in
        ground (
          arith,
          read_request-of_message io faithful (login_message id password) s,
          int_of-of_parameters io faithful "user_id" id ps refl,
          string_of-of_parameters io faithful "password" password ps refl,
          string_of-of_parameters io faithful "device" "PersonalComputer" ps refl,
          ran,
        )

    -- On a registered connection of a server whose tables agree, a client that logs in is told that it
    -- succeeded exactly if the id is that of a user with the password. Then the client and the
    -- server's session take the same user for logged in; otherwise both are as before.
    pub login_user_lem :
        (id : ℕ) (password : String) (s : Client Session)
        → ((d v : ℕ) → holds d v s.outside.server ≡ logged_in d v s.outside.server)
        → is_some (lookup no_user s.outside.server.users) ≡ false
        → has_connection c s.outside.server ≡ true
        → let (r, t) = login_user io.json (ask_server io world c) id password s in
          let granted = knows world.hash id password s.outside.server in
          (r ≡ ok granted)
          × (t.has_login ≡ (granted || s.has_login))
          × (t.user_id ≡ (if granted then id else s.user_id))
          × (t.outside.user_id ≡ (if granted then id else s.outside.user_id))
    unfolding login_user send make_success_message make_error_message make_message
    login_user_lem id password s agree nobody registered =
        let moved =
          login_lem world.hash c id 0 0 password "PersonalComputer" s.outside agree nobody
            registered in
        let granted = knows world.hash id password s.outside.server in
        let t = (login world.hash c id password "PersonalComputer" s.outside).1 in
        let ran =
          process_json_message-login id password granted s.outside t (ground (arith, moved)) in
        let yes = succeeds_lem {S = Session} (make_success_message "Successfully logged in!") in
        let no =
          succeeds_lem {S = Session} (make_error_message "The user ID or password is wrong!") in
        let at : Client Session = record {
          user_id = s.user_id;
          has_login = s.has_login;
          outside = t;
        } in
        elim (Bool-cases granted) [
          | inl right ↦ (
            ground (arith, moved, ran, right, yes at),
            ground (arith, moved, ran, right, yes at),
            ground (arith, moved, ran, right, yes at),
            ground (arith, moved, ran, right, yes at),
          )
          | inr wrong ↦ (
            ground (arith, moved, ran, wrong, no at),
            ground (arith, moved, ran, wrong, no at),
            ground (arith, moved, ran, wrong, no at),
            ground (arith, moved, ran, wrong, no at),
          )
        ]
