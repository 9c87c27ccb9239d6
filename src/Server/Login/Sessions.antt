-- ===== src/Server/Login/Sessions.antt =====
-- What a login changes (server/jsonMessageProcess/JsonMsgProcess.cpp `login`).
use qing_liao_chat_server.Base.{
  ℕ, String, ◌≡◌, Bool, true, false, none, some, arith, ◌==◌, ◌&&◌, if◌then◌else◌, is_some, inl,
  inr, Bool-cases, Option-cases,
}
use qing_liao_chat_server.Error.{ok}
use qing_liao_chat_server.Map.{lookup, id_key}
use qing_liao_chat_server.User.{is_user_password}
use qing_liao_chat_server.Server.{Server, no_user}
use qing_liao_chat_server.Server.Connections.{has_connection}
use qing_liao_chat_server.Server.Connections.Logins.{holds, logged_in}
use qing_liao_chat_server.Server.Connections.Sessions.{modify_user_of_connection_lem}
use qing_liao_chat_server.Server.Login.{Session, login, device_type}

-- Whether the id is that of a user with this password.
abbrev pub knows : (String → String → String) → ℕ → String → Server → Bool
knows hash id password s = elim (lookup id s.users) [
  | none ↦ false
  | some u ↦ is_user_password hash password u
]

-- On a registered connection, where the tables agree, a login succeeds exactly with the password of a
-- known user. Then the session is the user's and exactly this user has the connection; otherwise
-- the session and everybody's logins are as before. Nobody else's connections change.
pub login_lem :
    (hash : String → String → String) (c id d v : ℕ) (password device : String) (s : Session)
    → ((d' v' : ℕ) → holds d' v' s.server ≡ logged_in d' v' s.server)
    → is_some (lookup no_user s.server.users) ≡ false
    → has_connection c s.server ≡ true
    → let (r, t) = login hash c id password device s in
      let granted = knows hash id password s.server in
      (r ≡ ok granted)
      × (t.user_id ≡ (if granted then id else s.user_id))
      × (logged_in d v t.server ≡ (if granted && c == d then id == v else logged_in d v s.server))
      × (holds d v t.server ≡ logged_in d v t.server)
unfolding login
login_lem hash c id d v password device s agree nobody registered =
    elim (Option-cases (lookup id s.server.users)) [
      | inl gone ↦ (
        ground (arith, gone),
        ground (arith, gone),
        ground (arith, gone),
        ground (arith, gone, agree d v),
      )
      | inr (u, there) ↦ elim (Bool-cases (is_user_password hash password u)) [
        | inr wrong ↦ (
          ground (arith, there, wrong),
          ground (arith, there, wrong),
          ground (arith, there, wrong),
          ground (arith, there, wrong, agree d v),
        )
        | inl right ↦
            let moved =
              modify_user_of_connection_lem c id d v (device_type device) s.server agree nobody in
            (
              ground (arith, there, right, moved, registered),
              ground (arith, there, right, moved, registered),
              ground (arith, there, right, moved, registered),
              ground (arith, there, right, moved, registered),
            )
      ]
    ]
