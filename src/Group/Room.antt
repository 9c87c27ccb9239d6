-- ===== src/Group/Room.antt =====
-- server/room/groupRoom/groupRoom.h and groupRoom.cpp. A method is an action on the room, with what
-- it sends; `names` is the server (see `Room`) and `now` stands for each reading of the clock.
--
-- Locks. A method runs without interference; what its own thread holds already is an argument of the
-- methods that the moderation calls run inside (`Held`). C++ leaves it undefined what comes of taking
-- a `std::shared_mutex` that the same thread holds, so the failure is an argument, `relock`:
-- libstdc++ on glibc throws (`deadlock_error`), others wait for ever (`blocked`). A shared lock on a
-- shared one is taken for granted, as the implementations do.
pub mod Members
pub mod Posting
pub mod Moderation
pub mod Calls
use Prim.Native.String.{◌++◌ as append}
use qing_liao_chat_server.Base.{
  ℕ, ◌+◌, ◌-◌, ◌*◌, ◌^◌, String, Bool, true, false, Option, none, some, List, [], ◌∷◌, ◌++◌, not,
  ◌||◌, leb, ◌==◌, if◌then◌else◌, is_some,
}
use qing_liao_chat_server.Base.Int.{ℤ, pos, negsuc}
use qing_liao_chat_server.Error.{
  Action, Failure, undefined_behaviour, Result, ok, err, throw, group_room_unable_to_use,
  user_not_existed, ◌>>=◌, ◌>>◌, pure, fail, gets, modify, raise_if, or_raise,
}
use qing_liao_chat_server.Map.{Map, Set, lookup, contains, insert, erase, keys, id_key}
use qing_liao_chat_server.Messages.{
  MessageStructure, normal_message, tip_message, History, insert_message, free_time,
  messages_between, clean,
}
use qing_liao_chat_server.Room.{
  Notice, group_message, group_tip_message, Delivery, Sending, Names, join_room, leave_room,
  send_data, send_data_to,
}
use qing_liao_chat_server.Group.Level.{min_level, get_value}
use qing_liao_chat_server.Group.Permission.{
  Permission, no_permissions, PermissionType, default, operator, administrator, value, geb,
  modify_user_permission, get_user_permission_type,
}

pub record UserDataStructure : Type 0 where
  pub nickname : String
  pub level : ℤ

-- `GroupRoomImpl` with the members of its TCPRoom. A mute is its beginning and its minutes.
pub record GroupRoom : Type 0 where
  pub group_id : ℕ
  pub administrator_user_id : ℕ
  pub can_be_used : Bool
  pub permission : Permission
  pub user_id_map : Map ℕ UserDataStructure
  pub muted_user_map : Map ℕ (ℕ × ℤ)
  pub message_map : History
  pub members : Set ℕ

abbrev pub Room : Type 0 → Type 0
Room A = Action (Sending GroupRoom) A

-- What a thread holds of a mutex.
pub data Hold : Type 0 where
  free shared unique : Hold

pub record Held : Type 0 where
  pub user_id_map_mutex : Hold
  pub muted_user_map_mutex : Hold
  pub relock : Failure

-- Outside the moderation calls no mutex is held, and `relock` does not matter.
abbrev pub unlocked : Held
unlocked = record {
  user_id_map_mutex = free;
  muted_user_map_mutex = free;
  relock = undefined_behaviour;
}

abbrev lock_shared : Failure → Hold → Room (Unit {0})
lock_shared relock unique s = (err relock, s)
lock_shared relock shared s = (ok tt, s)
lock_shared relock free s = (ok tt, s)

abbrev lock_unique : Failure → Hold → Room (Unit {0})
lock_unique relock free s = (ok tt, s)
lock_unique relock _ s = (err relock, s)

abbrev update_room : (GroupRoom → GroupRoom) → Room (Unit {0})
update_room f s = (ok tt, record s { room = f s.room })

abbrev send : List Delivery → Room (Unit {0})
send ds s = (ok tt, record s { sent = s.sent ++ ds })

abbrev ask : {A : Type 0} → (GroupRoom → A) → Room A
ask f s = (ok (f s.room), s)

abbrev of_result : {A : Type 0} → (GroupRoom → Result A) → Room A
of_result f s = (f s.room, s)

-- The test at the head of the methods.
abbrev usable : Room (Unit {0})
usable s = raise_if (not s.room.can_be_used) group_room_unable_to_use s

-- A method of the TCPRoom inside.
abbrev on_members : Action (Set ℕ) (Unit {0}) → Room (Unit {0})
on_members m s =
    let (r, members) = m s.room.members in
    (r, record { room = record (s.room) { members = members }; sent = s.sent })

-- The constructor: the administrator is the first member.
unfoldable pub new_group_room : Names → ℕ → ℕ → Result GroupRoom
new_group_room names group_id creator = elim (names creator) [
  | none ↦ throw user_not_existed
  | some name ↦ ok (record {
    group_id = group_id;
    administrator_user_id = creator;
    can_be_used = true;
    permission = no_permissions;
    user_id_map = insert creator (record { nickname = name; level = min_level }) [];
    muted_user_map = [];
    message_map = [];
    members = (join_room names creator []).1;
  })
]

unfoldable pub add_member : Names → ℕ → Room Bool
add_member names user_id = do
  usable
  present ← ask (λ r. contains user_id r.user_id_map)
  if present then pure tt else do
    name ← or_raise (names user_id) user_not_existed
    update_room (λ r. record r {
      user_id_map = insert user_id (record { nickname = name; level = min_level }) r.user_id_map;
    })
  on_members (join_room names user_id)
  pure true

unfoldable pub has_member : ℕ → Room Bool
has_member user_id = do usable; ask (λ r. contains user_id r.user_id_map)

unfoldable pub remove_member : ℕ → Room Bool
remove_member user_id = do
  usable
  update_room (λ r. record r {
    user_id_map = erase user_id r.user_id_map;
    members = leave_room user_id r.members;
  })
  pure true

pub has_user : Held → ℕ → Room Bool
has_user held user_id = do
  usable
  lock_shared held.relock held.user_id_map_mutex
  ask (λ r. contains user_id r.user_id_map)

-- A minute, in ticks.
abbrev pub minute : ℕ
minute = 60 * 10 ^ 9

-- `first + second >= now()` for a mute; the minutes of a caller may be negative.
abbrev pub lasts : (now since : ℕ) → ℤ → Bool
lasts now since (pos mins) = leb now (since + mins * minute)
lasts now since (negsuc n) = leb (now + (n + 1) * minute) since

-- "Is the sender muted": a mute that is over is erased.
pub is_muted : Held → ℕ → ℕ → Room Bool
is_muted held now sender = do
  lock_shared held.relock held.muted_user_map_mutex
  entry ← ask (λ r. lookup sender r.muted_user_map)
  elim entry [
    | none ↦ pure false
    | some (since, mins) ↦ if lasts now since mins then pure true else do
      lock_unique held.relock held.muted_user_map_mutex
      update_room (λ r. record r { muted_user_map = erase sender r.muted_user_map })
      pure false
  ]

-- "store the message", at the first free time from the reading of the clock on.
pub store_message : ℕ → MessageStructure → Room (Unit {0})
store_message now m =
    update_room
      (λ r. record r { message_map = insert_message (free_time now r.message_map) m r.message_map })

-- `MessageStructure::receiver` where none is given: UserID(-1LL).
abbrev pub nobody : ℕ
nobody = 2 ^ 64 - 1

pub send_message : Names → (now now' : ℕ) → ℕ → String → Room (Unit {0})
send_message names now now' sender message = do
  usable
  present ← has_user unlocked sender
  muted ← if present then is_muted unlocked now sender else pure true
  if muted then pure tt else do
    store_message now'
        (record { sender = sender; message = message; type = normal_message; receiver = nobody })
    room ← ask (λ r. r)
    send (send_data names (group_message sender room.group_id message) room.members)

pub send_tip_message : Names → Held → (now now' : ℕ) → ℕ → String → Room (Unit {0})
send_tip_message names held now now' sender message = do
  usable
  present ← has_user held sender
  muted ← if present then is_muted held now sender else pure true
  if muted then pure tt else do
    store_message now'
        (record { sender = sender; message = message; type = tip_message; receiver = nobody })
    room ← ask (λ r. r)
    send (send_data names (group_tip_message sender room.group_id message) room.members)

pub send_user_tip_message : Names → (now now' : ℕ) → ℕ → String → ℕ → Room (Unit {0})
send_user_tip_message names now now' sender message receiver = do
  usable
  present ← has_user unlocked receiver
  muted ← if present then is_muted unlocked now sender else pure true
  if muted then pure tt else do
    store_message now'
        (record { sender = sender; message = message; type = tip_message; receiver = receiver })
    room ← ask (λ r. r)
    ds ←
        of_result
          (λ r. send_data_to names (group_tip_message sender r.group_id message) receiver r.members)
    send ds

pub get_message : ℕ → ℕ → Room History
get_message from to = do usable; ask (λ r. messages_between from to r.message_map)

pub get_user_nickname : ℕ → Room String
get_user_nickname user_id = do
  usable
  entry ← ask (λ r. lookup user_id r.user_id_map)
  user ← or_raise entry user_not_existed
  pure user.nickname

pub get_user_group_level : ℕ → Room ℤ
get_user_group_level user_id = do
  usable
  entry ← ask (λ r. lookup user_id r.user_id_map)
  user ← or_raise entry user_not_existed
  pure (get_value user.level)

unfoldable pub get_administrator : Room ℕ
get_administrator = do usable; ask (λ r. r.administrator_user_id)

-- `getUserList` hands the table to a callback; those of the server read the ids.
unfoldable pub get_user_list : Room (List ℕ)
get_user_list = do usable; ask (λ r. keys r.user_id_map)
