-- ===== src/Server.antt =====
-- The server: server/manager/manager.h and manager.cpp (`ManagerImpl`), the tables of the
-- verification manager (server/manager/verificationManager.cpp), and what has been written to the
-- connections. A call of the server is an action on this state that runs without interference.
pub mod Quiet
pub mod Manager
pub mod Connections
pub mod Friends
pub mod Groups
pub mod Login
pub mod Commands
pub mod Dispatch
use qing_liao_chat_server.Base.{
  ℕ, ◌-◌, ◌^◌, String, ◌≡◌, refl, Bool, true, false, Option, none, some, List, [], ◌∷◌, ◌++◌, map,
  arith, ◌==◌, ◌&&◌, ◌||◌, if◌then◌else◌,
}
use qing_liao_chat_server.Error.{
  Action, Result, ok, err, throw, user_not_existed, group_room_not_existed,
}
use qing_liao_chat_server.Map.{Key, Map, lookup, insert, id_key}
use qing_liao_chat_server.Room.{Notice, Delivery, Names, Sending}
use qing_liao_chat_server.User.{User, DeviceType}
use qing_liao_chat_server.Group.Room.{GroupRoom}
use qing_liao_chat_server.Private.{PrivateRoom}

-- The keys of the two tables of verifications: equal if both parts are.
abbrev pair_beq : ℕ × ℕ → ℕ × ℕ → Bool
pair_beq (a, b) (c, d) = (a == c) && (b == d)

-- `PrivateRoomIDStruct`: equal also the other way round.
abbrev room_id_beq : ℕ × ℕ → ℕ × ℕ → Bool
room_id_beq (a, b) (c, d) = ((a == c) && (b == d)) || ((b == c) && (a == d))

pair_beq_refl : (p : ℕ × ℕ) → pair_beq p p ≡ true
pair_beq_refl (a, b) = ground arith

pair_beq_subst : (p q r : ℕ × ℕ) → pair_beq p q ≡ true → pair_beq p r ≡ pair_beq q r
pair_beq_subst (a, b) (c, d) (e, f) h = ground arith

room_id_beq_refl : (p : ℕ × ℕ) → room_id_beq p p ≡ true
room_id_beq_refl (a, b) = ground arith

room_id_beq_subst : (p q r : ℕ × ℕ) → room_id_beq p q ≡ true → room_id_beq p r ≡ room_id_beq q r
room_id_beq_subst (a, b) (c, d) (e, f) h = ground arith

abbrev pair_key : Key (ℕ × ℕ)
pair_key = record { beq = pair_beq; beq_refl = pair_beq_refl; beq_subst = pair_beq_subst }

abbrev room_id_key : Key (ℕ × ℕ)
room_id_key = record {
  beq = room_id_beq;
  beq_refl = room_id_beq_refl;
  beq_subst = room_id_beq_subst;
}

-- A connection is its number. `connection_map` has the user of each, `no_user` before the login.
pub record Server : Type 0 where
  pub users : Map ℕ User
  pub group_rooms : Map ℕ GroupRoom
  pub private_rooms : Map ℕ PrivateRoom
  pub private_room_ids : Map (ℕ × ℕ) ℕ
  pub connection_map : Map ℕ ℕ
  pub friend_room_verifications : Map (ℕ × ℕ) Bool
  pub group_verifications : Map (ℕ × ℕ) Bool
  pub new_user_id : ℕ
  pub new_private_room_id : ℕ
  pub new_group_room_id : ℕ
  pub outbox : List (ℕ × Notice)

-- UserID(-1LL), and the first id that `init` gives to users and rooms.
abbrev pub no_user : ℕ
no_user = 2 ^ 64 - 1

abbrev pub first_id : ℕ
first_id = 10000

-- The manager after `init`.
abbrev pub new_server : Server
new_server = record {
  users = [];
  group_rooms = [];
  private_rooms = [];
  private_room_ids = [];
  connection_map = [];
  friend_room_verifications = [];
  group_verifications = [];
  new_user_id = first_id;
  new_private_room_id = first_id;
  new_group_room_id = first_id;
  outbox = [];
}

abbrev pub Call : Type 0 → Type 0
Call A = Action Server A

-- `getUser(id)->getUserName()`, for the rooms.
abbrev pub names : Server → Names
names s id = elim (lookup id s.users) [ none ↦ none | some u ↦ some u.user_name ]

-- `User::notifyAll`: the text goes to every connection of the user.
abbrev pub notices : Notice → Map ℕ DeviceType → List (ℕ × Notice)
notices notice m = map (λ entry. (entry.0, notice)) m

unfoldable pub notify : Delivery → Server → Server
notify (id, notice) s = elim (lookup id s.users) [
  | none ↦ s
  | some u ↦ record s { outbox = s.outbox ++ notices notice u.connection_map }
]

unfoldable pub notify_all : List Delivery → Server → Server
notify_all [] s = s
notify_all (d ∷ ds) s = notify_all ds (notify d s)

-- `getUser(id)->method()`
unfoldable pub on_user : {A : Type 0} → ℕ → Action User A → Call A
on_user id m s = elim (lookup id s.users) [
  | none ↦ (throw user_not_existed, s)
  | some u ↦ let (r, v) = m u in (r, record s { users = insert id v s.users })
]

-- A method that only reads.
unfoldable pub read_user : {A : Type 0} → ℕ → (User → A) → Call A
read_user id f s = elim (lookup id s.users) [
  | none ↦ (throw user_not_existed, s)
  | some u ↦ (ok (f u), s)
]

-- `getGroupRoom(id)->method()`, and the notices that it sends.
pub on_group : {A : Type 0} → ℕ → (Names → Action (Sending GroupRoom) A) → Call A
on_group id m s = elim (lookup id s.group_rooms) [
  | none ↦ (throw group_room_not_existed, s)
  | some room ↦
      let (r, t) = m (names s) (record { room = room; sent = [] }) in
      (r, notify_all t.sent (record s { group_rooms = insert id t.room s.group_rooms }))
]

-- `sendJsonToUser`: `getUser(id)->notifyAll(text)`.
pub send_json_to_user : ℕ → Notice → Call (Unit {0})
send_json_to_user id notice s = elim (lookup id s.users) [
  | none ↦ (throw user_not_existed, s)
  | some u ↦ (ok tt, notify (id, notice) s)
]
