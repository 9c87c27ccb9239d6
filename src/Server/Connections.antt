-- ===== src/Server/Connections.antt =====
-- server/manager/manager.cpp: the connections and the users that are logged in on them.
pub mod Logins
pub mod Sessions
pub mod Runs
use qing_liao_chat_server.Base.{ℕ, Bool, true, false, none, some, not, ◌==◌, if◌then◌else◌}
use qing_liao_chat_server.Error.{
  Action, Result, ok, err, throw, undefined_behaviour, user_not_existed, socket_pointer_existed,
  socket_pointer_not_existed, ◌>>=◌, ◌>>◌, pure, modify, raise_if, or_raise, gets,
}
use qing_liao_chat_server.Map.{Map, lookup, contains, insert, erase, id_key}
use qing_liao_chat_server.User
use qing_liao_chat_server.User.{User, DeviceType}
use qing_liao_chat_server.Server.{Server, Call, no_user}

pub register_connection : ℕ → Call (Unit {0})
register_connection c = do
  there ← gets (λ s. contains c s.connection_map)
  raise_if there socket_pointer_existed
  modify (λ s. record s { connection_map = insert c no_user s.connection_map })

unfoldable pub has_connection : ℕ → Server → Bool
has_connection c s = contains c s.connection_map

unfoldable pub match_user_of_connection : ℕ → ℕ → Server → Bool
match_user_of_connection c id s = elim (lookup c s.connection_map) [
  | none ↦ false
  | some user ↦ user == id
]

pub get_user_id_of_connection : ℕ → Server → Result ℕ
get_user_id_of_connection c s = elim (lookup c s.connection_map) [
  | none ↦ throw socket_pointer_not_existed
  | some user ↦ ok user
]

-- `m_user_map.find(id)->second->method()`, without a test of the iterator.
at_user : ℕ → Action User (Unit {0}) → Call (Unit {0})
at_user id m s = elim (lookup id s.users) [
  | none ↦ (err undefined_behaviour, s)
  | some u ↦ let (r, v) = m u in (r, record s { users = insert id v s.users })
]

pub modify_user_of_connection : ℕ → ℕ → DeviceType → Call (Unit {0})
modify_user_of_connection c id type = do
  known ← gets (λ s. contains id s.users)
  raise_if (not known) user_not_existed
  entry ← gets (λ s. lookup c s.connection_map)
  old ← or_raise entry socket_pointer_not_existed
  if old == no_user then pure tt else at_user old (User.remove_connection c)
  at_user id (User.add_connection c type)
  modify (λ s. record s { connection_map = insert c id s.connection_map })

pub remove_connection : ℕ → Call (Unit {0})
remove_connection c = do
  entry ← gets (λ s. lookup c s.connection_map)
  old ← or_raise entry socket_pointer_not_existed
  if old == no_user then pure tt else at_user old (User.remove_connection c)
  modify (λ s. record s { connection_map = erase c s.connection_map })
