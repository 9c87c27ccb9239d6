-- ===== src/Server/Login.antt =====
-- The login of a user on a connection: `login` of server/jsonMessageProcess/JsonMsgProcess.cpp. What
-- comes with the message is given apart; the password hash is a parameter.
pub mod Sessions
use text.Mathlib.Text.{◌==◌ as str_eq}
use qing_liao_chat_server.Base.{ℕ, String, Bool, true, false, not, none, some, if◌then◌else◌}
use qing_liao_chat_server.Error.{Action, Result, ok, err, throw, user_not_existed}
use qing_liao_chat_server.Map.{lookup, id_key}
use qing_liao_chat_server.User.{
  DeviceType, unknown_device, personal_computer, phone_device, web, is_user_password,
}
use qing_liao_chat_server.Server.{Server}
use qing_liao_chat_server.Server.Connections.{modify_user_of_connection}

-- The message process of a connection with the server: `m_user_id`, and all the rest.
pub record Session : Type 0 where
  pub user_id : ℕ
  pub server : Server

-- "check device type"
pub device_type : String → DeviceType
device_type device =
    if str_eq device "PersonalComputer"
    then personal_computer
    else if str_eq device "Phone"
    then phone_device
    else if str_eq device "Web"
    then web
    else unknown_device

-- Whether the answer is "Successfully logged in!"; otherwise it is that the id or the password is
-- wrong.
pub login : (String → String → String) → (c id : ℕ) (password device : String) → Action Session Bool
login hash c id password device s = elim (lookup id s.server.users) [
  | none ↦ (ok false, s)
  | some u ↦
      if not (is_user_password hash password u)
      then (ok false, s)
      else let (r, t) = modify_user_of_connection c id (device_type device) s.server in
        elim r [
          | ok _ ↦ (ok true, record { user_id = id; server = t })
          | err e ↦ (err e, record s { server = t })
        ]
]
