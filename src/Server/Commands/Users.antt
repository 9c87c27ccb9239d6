-- ===== src/Server/Commands/Users.antt =====
-- The commands on accounts, and what all commands share
-- (server/jsonMessageProcess/JsonMsgProcessCommand.cpp).
use qing_liao_chat_server.Base.{ℕ, String, not, if◌then◌else◌}
use qing_liao_chat_server.Error.{ok, user_not_existed, ◌>>=◌, ◌>>◌, pure, raise_if, gets}
use qing_liao_chat_server.Json.{
  Json, Answer, int_field, bool_field, int_at, string_at, with_field, make_error_message,
  make_success_message,
}
use qing_liao_chat_server.Pattern.{email_match}
use qing_liao_chat_server.User
use qing_liao_chat_server.User.{User}
use qing_liao_chat_server.Server.{Call, on_user}
use qing_liao_chat_server.Server.Manager.{has_user, add_new_user}

-- What a command asks of the world outside: the password hash, the next random salt, and two
-- readings of the clock.
pub record World : Type 0 where
  pub hash : String → String → String
  pub salt : String
  pub now : ℕ
  pub later : ℕ

-- `serverManager.getUser(executor)->call()` of a call that goes on through the manager.
abbrev pub as_user : {A : Type 0} → ℕ → Call A → Call A
as_user executor call = do
  known ← gets (has_user executor)
  raise_if (not known) user_not_existed
  call

abbrev pub refuse : String → Call Answer
refuse message = pure (make_error_message message)

abbrev pub report : String → Call Answer
report message = pure (make_success_message message)

module _ {J : Type 0} (json : Json J) (world : World) where
  -- The pointer to the new user stands for its id, which the table has.
  unfoldable pub register_account : J → Call Answer
  register_account parameters = do
    email ← string_at json "email" parameters
    password ← string_at json "password" parameters
    if not (email_match email) then refuse "Email is invalid" else do
      id ← add_new_user world.now
      on_user id (User.first_update_user_password world.hash password world.salt)
      on_user id (λ u. (ok tt, User.update_user_email email u))
      pure (
          with_field "user_id" (int_field id)
            (make_success_message "Successfully created a new user!"))

module _ {J : Type 0} (json : Json J) where
  unfoldable pub ask_user : J → Call Answer
  ask_user parameters = do
    id ← int_at json "user_id" parameters
    known ← gets (has_user id)
    pure (
        with_field "has_user" (bool_field known)
          (make_success_message "Successfully get a result!"))

  unfoldable pub search_user : J → Call Answer
  search_user parameters = refuse "This function is incomplete."
