-- ===== src/Client.antt =====
-- The session of the test client: testclient/session.cpp. `ask` is what the client's network does
-- with a message (`send_data_with_result_n_option(...).get()` and `to_json` of the data that comes
-- back), on the state of everything outside the client; `json` reads the answer. What is printed on
-- the console is left out, but not what is read to be printed.
pub mod Transport
pub mod Agreement
pub mod Requests
pub mod Network
pub mod Commands
use text.Mathlib.Text.{◌==◌ as str_eq}
use qing_liao_chat_server.Base.{
  ℕ, String, Bool, true, false, not, none, some, List, [], ◌∷◌, if◌then◌else◌,
}
use qing_liao_chat_server.Error.{Action, Result, ok, err, ◌>>=◌, ◌>>◌, pure, gets, modify}
use qing_liao_chat_server.Json.{Json, or_throw, int_at, string_at}

-- The value of a parameter of a message.
pub data Value : Type 0 where
  int_value : ℕ → Value
  string_value : String → Value

-- `makeJsonFunctionDataPackage`
pub record Message : Type 0 where
  pub function : String
  pub parameters : List (String × Value)

-- The session with everything outside it.
pub record Client (S : Type 0) : Type 0 where
  pub user_id : ℕ
  pub has_login : Bool
  pub outside : S

abbrev user : ℕ → String × Value
user id = ("user_id", int_value id)

abbrev group : ℕ → String × Value
group id = ("group_id", int_value id)

abbrev said : String → String × Value
said message = ("message", string_value message)

abbrev pub register_message : String → String → Message
register_message email password = record {
  function = "register";
  parameters = ("email", string_value email) ∷ ("password", string_value password) ∷ [];
}

abbrev pub login_message : ℕ → String → Message
login_message id password = record {
  function = "login";
  parameters =
      user id
      ∷ ("password", string_value password)
      ∷ ("device", string_value "PersonalComputer")
      ∷ [];
}

module _ {S J : Type 0} (json : Json J) where
  -- The message of the answer is read to be printed, then its state.
  unfoldable pub succeeds : J → Action (Client S) Bool
  succeeds reply = do
    string_at json "message" reply
    state ← string_at json "state" reply
    pure (str_eq state "success")

module _ {S J : Type 0} (json : Json J) (ask : Message → Action S J) where
  -- The answer to a message.
  unfoldable pub send : Message → Action (Client S) J
  send message s =
      let (r, t) = ask message s.outside in
      (r, record { user_id = s.user_id; has_login = s.has_login; outside = t })

  -- A call that needs the login, with its message.
  unfoldable pub when_logged_in : Message → Action (Client S) Bool
  unfolding send succeeds
  when_logged_in message = do
    logged_in ← gets (λ s. s.has_login)
    if not logged_in then pure false else do reply ← send message; succeeds json reply

  -- Whether it succeeded, and the id of the new user then.
  pub register_user : String → String → ℕ → Action (Client S) (Bool × ℕ)
  unfolding send succeeds
  register_user email password new_user_id = do
    reply ← send (register_message email password)
    done ← succeeds json reply
    if not done
        then pure (false, new_user_id)
        else do id ← int_at json "user_id" reply; pure (true, id)

  unfoldable pub login_user : ℕ → String → Action (Client S) Bool
  unfolding send succeeds
  login_user id password = do
    reply ← send (login_message id password)
    done ← succeeds json reply
    if not done then pure false else do
      modify (λ s. record { user_id = id; has_login = true; outside = s.outside })
      pure true

  unfoldable pub create_friend_application : ℕ → Action (Client S) Bool
  unfolding when_logged_in
  create_friend_application id =
      when_logged_in (record { function = "add_friend"; parameters = user id ∷ [] })

  pub apply_friend_application : ℕ → Action (Client S) Bool
  unfolding when_logged_in
  apply_friend_application id =
      when_logged_in (record { function = "accept_friend_verification"; parameters = user id ∷ [] })

  pub reject_friend_application : ℕ → Action (Client S) Bool
  unfolding when_logged_in
  reject_friend_application id =
      when_logged_in (record { function = "reject_friend_verification"; parameters = user id ∷ [] })

  -- The id of the group is read to be printed, whether there is one or not.
  unfoldable pub create_group : Action (Client S) Bool
  unfolding send
  create_group = do
    logged_in ← gets (λ s. s.has_login)
    if not logged_in then pure false else do
      reply ← send (record { function = "create_group"; parameters = [] })
      string_at json "message" reply
      int_at json "group_id" reply
      state ← string_at json "state" reply
      pure (str_eq state "success")

  pub create_group_application : ℕ → Action (Client S) Bool
  unfolding when_logged_in
  create_group_application id =
      when_logged_in (record { function = "add_group"; parameters = group id ∷ [] })

  pub apply_group_application : ℕ → ℕ → Action (Client S) Bool
  unfolding when_logged_in
  apply_group_application group_id user_id = when_logged_in (record {
    function = "accept_group_verification";
    parameters = group group_id ∷ user user_id ∷ [];
  })

  pub reject_group_application : ℕ → ℕ → Action (Client S) Bool
  unfolding when_logged_in
  reject_group_application group_id user_id = when_logged_in (record {
    function = "reject_group_verification";
    parameters = group group_id ∷ user user_id ∷ [];
  })

  pub send_friend_message : ℕ → String → Action (Client S) Bool
  unfolding when_logged_in
  send_friend_message id message =
      when_logged_in
        (record { function = "send_friend_message"; parameters = user id ∷ said message ∷ [] })

  pub send_group_message : ℕ → String → Action (Client S) Bool
  unfolding when_logged_in
  send_group_message id message =
      when_logged_in
        (record { function = "send_group_message"; parameters = group id ∷ said message ∷ [] })

  pub remove_friend : ℕ → Action (Client S) Bool
  unfolding when_logged_in
  remove_friend id =
      when_logged_in (record { function = "remove_friend"; parameters = user id ∷ [] })

  pub leave_group : ℕ → Action (Client S) Bool
  unfolding when_logged_in
  leave_group id = when_logged_in (record { function = "leave_group"; parameters = group id ∷ [] })
