-- ===== src/Group/Room/Moderation.antt =====
-- server/room/groupRoom/groupRoom.cpp: mutes, kicks, operators, the administrator, and the end of a
-- room. These calls send a tip message while they hold the locks named in `Held`.
pub mod Relocking
pub mod Operators
pub mod Valid
use Prim.Native.String.{◌++◌ as append}
use qing_liao_chat_server.Base.{
  ℕ, String, Bool, true, false, Option, none, some, not, ◌||◌, ◌==◌, if◌then◌else◌,
}
use qing_liao_chat_server.Base.Int.{ℤ}
use qing_liao_chat_server.Error.{
  Action, Failure, Result, ok, err, ◌>>=◌, ◌>>◌, pure, raise_if, or_raise, group_room_unable_to_use,
  user_not_existed,
}
use qing_liao_chat_server.Map.{lookup, contains, insert, erase, id_key}
use qing_liao_chat_server.Messages.{clean}
use qing_liao_chat_server.Room.{Sending, Names}
use qing_liao_chat_server.Group.Level.{min_level}
use qing_liao_chat_server.Group.Permission.{
  PermissionType, default, operator, administrator, value, geb, modify_user_permission,
  get_user_permission_type,
}
use qing_liao_chat_server.Group.Room.{
  UserDataStructure, GroupRoom, Room, Hold, free, shared, unique, Held, unlocked, usable, ask,
  of_result, update_room, has_user, send_tip_message,
}

-- `m_user_id_map[id].nickname`, and the texts that `std::format` makes.
nickname_of : ℕ → GroupRoom → String
nickname_of user_id room = elim (lookup user_id room.user_id_map) [
  | none ↦ ""
  | some user ↦ user.nickname
]

tip : String → ℕ → ℕ → GroupRoom → String
tip verb user_id executor_id room =
    append (nickname_of user_id room) (append verb (nickname_of executor_id room))

-- The guard of every moderation call: two different members.
both_members : ℕ → ℕ → Room Bool
both_members executor_id user_id = do
  usable
  user ← has_user unlocked user_id
  executor ← has_user unlocked executor_id
  pure (not (executor_id == user_id || not user || not executor))

-- The executor's type is above the user's.
outranks : ℕ → ℕ → Room Bool
outranks executor_id user_id = do
  executor_type ← of_result (λ r. get_user_permission_type executor_id r.permission)
  user_type ← of_result (λ r. get_user_permission_type user_id r.permission)
  pure (not (geb user_type executor_type))

-- The locks of the calls on operators.
abbrev pub changing : Held
changing = record unlocked { user_id_map_mutex = shared }

module _ (names : Names) (now now' : ℕ) (executor_id user_id : ℕ) where
  say : Held → String → Room Bool
  say held verb = do
    text ← ask (tip verb user_id executor_id)
    send_tip_message names held now now' executor_id text
    pure true

-- `relock` is what the implementation makes of a mutex that the thread holds already.
abbrev pub muting : Failure → Held
muting relock = record {
  user_id_map_mutex = shared;
  muted_user_map_mutex = unique;
  relock = relock;
}

abbrev pub kicking : Failure → Held
kicking relock = record {
  user_id_map_mutex = unique;
  muted_user_map_mutex = unique;
  relock = relock;
}

module _ (relock : Failure) (names : Names) (now now' : ℕ) (executor_id user_id : ℕ) where
  -- `now_muted` is the reading that the mute begins with.
  pub mute_user : ℕ → ℤ → Room Bool
  mute_user now_muted mins = do
    members ← both_members executor_id user_id
    higher ← if members then outranks executor_id user_id else pure false
    if not higher then pure false else do
      update_room
          (λ r. record r { muted_user_map = insert user_id (now_muted, mins) r.muted_user_map })
      say names now now' executor_id user_id (muting relock) " was muted by "

  pub unmute_user : Room Bool
  unmute_user = do
    members ← both_members executor_id user_id
    higher ← if members then outranks executor_id user_id else pure false
    if not higher then pure false else do
      update_room (λ r. record r { muted_user_map = erase user_id r.muted_user_map })
      say names now now' executor_id user_id (muting relock) " was unmuted by "

  pub kick_user : Room Bool
  kick_user = do
    members ← both_members executor_id user_id
    higher ← if members then outranks executor_id user_id else pure false
    if not higher then pure false else do
      say names now now' executor_id user_id (kicking relock) " was kicked by "
      update_room (λ r. record r { user_id_map = erase user_id r.user_id_map })
      pure true

module _ (names : Names) (now now' : ℕ) (executor_id user_id : ℕ) where
  -- The two calls on operators: an administrator moves a user from one type to the other.
  retype : PermissionType → PermissionType → String → Room Bool
  retype from to verb = do
    members ← both_members executor_id user_id
    executor_type ←
        if members
        then of_result (λ r. get_user_permission_type executor_id r.permission)
        else pure default
    if not (value executor_type == value administrator) then pure false else do
      user_type ← of_result (λ r. get_user_permission_type user_id r.permission)
      if not (value user_type == value from) then pure false else do
        update_room (λ r. record r { permission = modify_user_permission user_id to r.permission })
        say names now now' executor_id user_id changing verb

  pub add_operator : Room Bool
  add_operator = retype default operator " was turned operator by "

  pub remove_operator : Room Bool
  remove_operator = retype operator default " was turned default user by "

pub set_administrator : Names → ℕ → Room (Unit {0})
set_administrator names user_id = do
  usable
  room ← ask (λ r. r)
  if not (room.administrator_user_id == 0)
      then update_room (λ r. record r {
        permission =
            modify_user_permission user_id administrator
              (modify_user_permission r.administrator_user_id default r.permission);
        administrator_user_id = user_id;
      })
      else do
        if contains user_id room.user_id_map then pure tt else do
          name ← or_raise (names user_id) user_not_existed
          update_room (λ r. record r {
            user_id_map =
                insert user_id (record { nickname = name; level = min_level }) r.user_id_map;
          })
        update_room (λ r. record r {
          permission = modify_user_permission user_id administrator r.permission;
        })

pub remove_this_room : Room (Unit {0})
remove_this_room = update_room (λ r. record r { can_be_used = false })

pub can_be_used : Room Bool
can_be_used = ask (λ r. r.can_be_used)

-- One round of `auto_clean`, when the timer has run.
pub auto_clean : ℕ → Room (Unit {0})
auto_clean now = update_room (λ r. record r { message_map = clean now r.message_map })
