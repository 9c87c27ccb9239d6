-- ===== src/Server/Commands/Accounts.antt =====
-- Registering an account and logging in with it (server/jsonMessageProcess/JsonMsgProcessCommand.cpp
-- `RegisterCommand`, server/jsonMessageProcess/JsonMsgProcess.cpp `login`).
use qing_liao_chat_server.Base.{
  ℕ, String, ◌≡◌, true, false, none, some, [], ◌∷◌, ◌||◌, ◌==◌, arith, if◌then◌else◌, is_some,
  ==_iff, Bool-cases, Option-cases, sym, ap, ◌∙◌, inl, inr,
}
use qing_liao_chat_server.Error.{ok}
use qing_liao_chat_server.Map.{lookup, insert, id_key, string_key, lookup-insert}
use qing_liao_chat_server.Json.{
  Json, Answer, success, int_field, string_of, make_message, make_success_message,
}
use qing_liao_chat_server.Pattern.{email_match}
use qing_liao_chat_server.User
use qing_liao_chat_server.User.{User, new_user, is_user_password}
use qing_liao_chat_server.Server.{Server, no_user, on_user}
use qing_liao_chat_server.Server.Manager.{add_new_user, next_id, has_user}
use qing_liao_chat_server.Server.Connections.{match_user_of_connection, has_connection}
use qing_liao_chat_server.Server.Connections.Logins.{holds, logged_in}
use qing_liao_chat_server.Server.Quiet.{SameLogins}
use qing_liao_chat_server.Server.Login.{login}
use qing_liao_chat_server.Server.Login.Sessions.{login_lem}
use qing_liao_chat_server.Server.Commands.Users.{World, register_account}

-- The user after `firstUpdateUserPassword`, and after `updateUserEmail`.
abbrev pub with_password : World → String → ℕ → User
with_password world password id = record (new_user id world.now) {
  password = world.hash password world.salt;
  salt = world.salt;
}

abbrev pub with_email : World → String → String → ℕ → User
with_email world email password id = record (with_password world password id) { email = email }

abbrev registered : World → String → String → Server → Server
registered world email password s =
    let id = s.new_user_id in
    record s {
      new_user_id = next_id id;
      users =
          insert id (with_email world email password id) (
            insert id (with_password world password id)
              (insert id (new_user id world.now) s.users));
    }

abbrev pub welcome : ℕ → Answer
welcome id = record {
  state = success;
  message = "Successfully created a new user!";
  fields = ("user_id", int_field id) ∷ [];
}

register_account-granted :
    {J : Type 0} (json : Json J) (world : World) (j : J) (email password : String) (s : Server)
    → string_of json "email" j ≡ some email
    → string_of json "password" j ≡ some password
    → email_match email ≡ true
    → lookup s.new_user_id s.users ≡ none
    → register_account json world j s
      ≡ (ok (welcome s.new_user_id), registered world email password s)
unfolding register_account add_new_user on_user User.first_update_user_password make_success_message
    make_message User.update_user_email new_user User.set_password
register_account-granted json world j email password s at_email at_password valid fresh =
    let id = s.new_user_id in
    let u = new_user id world.now in
    ground (
      arith,
      at_email,
      at_password,
      valid,
      fresh,
      lookup-insert id id u s.users,
      lookup-insert id id (with_password world password id) (insert id u s.users),
    )

module _ (world : World) (email password : String) (s : Server)
    (fresh : lookup s.new_user_id s.users ≡ none) where
  lookup-registered :
      (v : ℕ)
      → lookup v (registered world email password s).users ≡ (
          if s.new_user_id == v
          then some (with_email world email password s.new_user_id)
          else lookup v s.users)
  lookup-registered v =
      let id = s.new_user_id in
      let u = new_user id world.now in
      let w = with_password world password id in
      ground (
        arith,
        lookup-insert v id u s.users,
        lookup-insert v id w (insert id u s.users),
        lookup-insert v id (with_email world email password id) (insert id w (insert id u s.users)),
      )

  registered-agree :
      ((d v : ℕ) → holds d v s ≡ logged_in d v s)
      → (d v : ℕ)
      → holds d v (registered world email password s)
        ≡ logged_in d v (registered world email password s)
  unfolding User.has_connection match_user_of_connection new_user lookup
  registered-agree agree d v = elim (Bool-cases (s.new_user_id == v)) [
    | inl same ↦ ground (arith, lookup-registered v, same, agree d v, ==_iff s.new_user_id v, fresh)
    | inr other ↦ ground (arith, lookup-registered v, other, agree d v)
  ]

-- A register command, whatever its parameters, where the next id is free.
pub register_account-SameLogins :
    {J : Type 0} (json : Json J) (world : World) (j : J) (s : Server)
    → lookup s.new_user_id s.users ≡ none
    → SameLogins s (register_account json world j s).1
unfolding register_account User.has_connection new_user lookup
register_account-SameLogins json world j s fresh = elim (Option-cases (string_of json "email" j)) [
  | inl gone ↦ record { connections = ground (arith, gone); users = λ d v. ground (arith, gone) }
  | inr (email, at_email) ↦ elim (Option-cases (string_of json "password" j)) [
    | inl gone ↦ record {
      connections = ground (arith, at_email, gone);
      users = λ d v. ground (arith, at_email, gone);
    }
    | inr (password, at_password) ↦ elim (Bool-cases (email_match email)) [
      | inr bad ↦ record {
        connections = ground (arith, at_email, at_password, bad);
        users = λ d v. ground (arith, at_email, at_password, bad);
      }
      | inl valid ↦
          let run =
            register_account-granted json world j email password s at_email at_password valid
              fresh in
          record {
            connections = ground (arith, run);
            users = λ d v. elim (Bool-cases (s.new_user_id == v)) [
              | inl same ↦ ground (
                arith,
                run,
                lookup-registered world email password s fresh v,
                same,
                sym (ap (λ x. lookup x s.users) ((==_iff s.new_user_id v).0 same)) ∙ fresh,
              )
              | inr other ↦
                  ground (arith, run, lookup-registered world email password s fresh v, other)
            ];
          }
    ]
  ]
]

-- Registering with a valid mail address gives the next id of the server, which no other user has; the
-- new user has the mail address and the hash of the password, and every other user stays as it was.
-- On a connection that the manager knows, a login with this id and the password succeeds at once, and
-- changes nobody's login on any other connection.
pub login-register_account :
    {J : Type 0} (json : Json J) (world : World) (c d v : ℕ) (j : J)
    (email password device : String) (s : Server)
    → string_of json "email" j ≡ some email
    → string_of json "password" j ≡ some password
    → email_match email ≡ true
    → lookup s.new_user_id s.users ≡ none
    → s.new_user_id == no_user ≡ false
    → is_some (lookup no_user s.users) ≡ false
    → ((d' v' : ℕ) → holds d' v' s ≡ logged_in d' v' s)
    → has_connection c s ≡ true
    → let id = s.new_user_id in
      let (r, t) = register_account json world j s in
      let (r', t') =
        login world.hash c id password device (record { user_id = no_user; server = t }) in
      (r ≡ ok (welcome id))
      × (lookup v t.users
          ≡ (if id == v then some (with_email world email password id) else lookup v s.users))
      × (has_user v t ≡ (id == v || has_user v s))
      × (r' ≡ ok true)
      × (t'.user_id ≡ id)
      × (logged_in d v t'.server ≡ (if c == d then id == v else logged_in d v s))
      × (holds d v t'.server ≡ logged_in d v t'.server)
unfolding has_user has_connection match_user_of_connection is_user_password new_user
login-register_account json world c d v j email password device s at_email at_password valid fresh
      known nobody agree registered_connection =
    let id = s.new_user_id in
    let run =
      register_account-granted json world j email password s at_email at_password valid fresh in
    let t = registered world email password s in
    let users = lookup-registered world email password s fresh in
    let step =
      login_lem world.hash c id d v password device (record { user_id = no_user; server = t })
        (registered-agree world email password s fresh agree)
        (ground (arith, users no_user, known, nobody)) (ground (arith, registered_connection)) in
    let right = string_key.beq_refl (world.hash password world.salt) in
    (
      ground (arith, run),
      ground (arith, run, users v),
      ground (arith, run, users v),
      ground (arith, run, step, users id, right),
      ground (arith, run, step, users id, right),
      ground (arith, run, step, users id, right),
      ground (arith, run, step, users id, right),
    )
