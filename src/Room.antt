-- ===== src/Room.antt =====
-- server/room/room.h and room.cpp: TCPRoom with TextDataRoom, the part that group rooms and private
-- rooms share. The table of a room maps a user to a weak pointer; the server never drops a user, so
-- a pointer is the user's id. `names` is what a room asks the server: `getUser(id)` with the name of
-- the user, `none` where `getUser` throws.
pub mod Members
pub mod Kcp
use qing_liao_chat_server.Base.{
  ℕ, String, Bool, true, false, Option, none, some, List, [], ◌∷◌, ◌++◌, not, if◌then◌else◌,
  is_some,
}
use qing_liao_chat_server.Error.{
  Action, Result, ok, err, throw, logic_error, undefined_behaviour, user_not_existed,
}
use qing_liao_chat_server.Map.{Set, contains, insert, erase, id_key}

-- The JSON texts that the server sends on its own account, by their "type" and fields. Turning one
-- into text is the JSON library's work, framing it is `Wire`.
pub data Notice : Type 0 where
  added_friend_verification : (userid : ℕ) → Notice
  added_friend : (userid : ℕ) → Notice
  rejected_to_add_friend : (userid : ℕ) → Notice
  removed_friend : (userid : ℕ) → Notice
  added_group_verification : (groupid userid : ℕ) → Notice
  added_group : (groupid : ℕ) → Notice
  rejected_to_add_group : (groupid : ℕ) → Notice
  group_removed : (group_id : ℕ) → Notice
  group_leave_member : (user_id group_id : ℕ) → Notice
  group_message : (user_id group_id : ℕ) (message : String) → Notice
  group_tip_message : (user_id group_id : ℕ) (message : String) → Notice
  private_message : (user_id : ℕ) (message : String) → Notice
  private_tip_message : (user_id : ℕ) (message : String) → Notice

-- `notifyAll` on a user: the receiver and the text.
abbrev pub Delivery : Type 0
Delivery = ℕ × Notice

-- A room during a call, with what the call has sent so far.
pub record Sending (R : Type 0) : Type 0 where
  pub room : R
  pub sent : List Delivery

abbrev pub Names : Type 0
Names = ℕ → Option String

-- `joinRoom`
unfoldable pub join_room : Names → ℕ → Action (Set ℕ) (Unit {0})
join_room names user_id members =
    if contains user_id members then (ok tt, members) else elim (names user_id) [
      | none ↦ (throw user_not_existed, members)
      | some name ↦ (ok tt, insert user_id tt members)
    ]

-- `hasUser`
unfoldable pub has_user : ℕ → Set ℕ → Bool
has_user user_id members = contains user_id members

-- `leaveRoom`
pub leave_room : ℕ → Set ℕ → Set ℕ
leave_room user_id members = if contains user_id members then erase user_id members else members

-- `sendData(data)`: to every member whose pointer has not expired.
unfoldable pub send_data : Names → Notice → Set ℕ → List Delivery
send_data names notice [] = []
send_data names notice ((user_id, _) ∷ members) =
    if is_some (names user_id)
    then (user_id, notice) ∷ send_data names notice members
    else send_data names notice members

-- `sendData(data, user_id)`
pub send_data_to : Names → Notice → ℕ → Set ℕ → Result (List Delivery)
send_data_to names notice user_id members =
    if not (contains user_id members) then err logic_error else elim (names user_id) [
      | none ↦ throw user_not_existed
      | some name ↦ ok ((user_id, notice) ∷ [])
    ]
