-- ===== src/Server/Groups.antt =====
-- Groups: server/manager/verificationManager.cpp, the part on group rooms, and the methods of
-- server/user/user.cpp that call it.
pub mod Requests
pub mod Answers
pub mod Membership
pub mod Leaving
pub mod Quiet
use qing_liao_chat_server.Base.{
  ℕ, String, Bool, true, false, none, some, not, List, [], ◌∷◌, ◌||◌, ◌==◌, if◌then◌else◌,
}
use qing_liao_chat_server.Error.{
  Action, Result, ok, err, throw, user_not_existed, group_room_not_existed,
  verification_not_existed, ◌>>=◌, ◌>>◌, pure, modify, raise_if, or_raise, gets, catch_all,
}
use qing_liao_chat_server.Map.{Map, lookup, contains, insert, erase, id_key}
use qing_liao_chat_server.Room.{
  Notice, added_group_verification, added_group, rejected_to_add_group, group_removed,
  group_leave_member,
}
use qing_liao_chat_server.User
use qing_liao_chat_server.User.{GroupVerification, VerificationType, sent, received}
use qing_liao_chat_server.Group.Room
use qing_liao_chat_server.Server.{Server, Call, pair_key, on_user, on_group, send_json_to_user}
use qing_liao_chat_server.Server.Manager.{
  has_user, has_group_room, add_group_room, remove_group_room,
}

-- The entry that a request of a user leaves with the user and with the administrator.
abbrev pub request : ℕ → ℕ → VerificationType → GroupVerification
request user group type = record {
  user_id = user;
  group_id = group;
  verification_type = type;
  message = "";
}

-- `getGroupRoom(group)->getAdministrator()`, and the other calls that only read.
abbrev pub administrator_of : ℕ → Call ℕ
administrator_of group = on_group group (λ _. Room.get_administrator)

abbrev pub has_member : ℕ → ℕ → Call Bool
has_member group user = on_group group (λ _. Room.has_member user)

abbrev pub user_list : ℕ → Call (List ℕ)
user_list group = on_group group (λ _. Room.get_user_list)

abbrev update_user : ℕ → (User.User → User.User) → Call (Unit {0})
update_user id f = on_user id (λ u. (ok tt, f u))

pub apply_group_room_verification : ℕ → ℕ → Call (Unit {0})
apply_group_room_verification sender receiver = do
  room_known ← gets (has_group_room receiver)
  raise_if (not room_known) group_room_not_existed
  sender_known ← gets (has_user sender)
  raise_if (not sender_known) user_not_existed
  there ← gets (λ s. contains ⦃e = pair_key⦄ (sender, receiver) s.group_verifications)
  raise_if there verification_not_existed
  modify (λ s. record s {
    group_verifications = insert ⦃e = pair_key⦄ (sender, receiver) false s.group_verifications;
  })
  update_user sender (User.add_group_verification receiver (request sender receiver sent))
  admin ← administrator_of receiver
  update_user admin (User.add_group_verification receiver (request sender receiver received))

unfoldable pub has_group_room_verification : ℕ → ℕ → Server → Bool
has_group_room_verification sender receiver s =
    contains ⦃e = pair_key⦄ (sender, receiver) s.group_verifications

pub remove_group_room_verification : ℕ → ℕ → Call (Unit {0})
remove_group_room_verification sender receiver = do
  there ← gets (has_group_room_verification sender receiver)
  raise_if (not there) verification_not_existed
  modify (λ s. record s {
    group_verifications = erase ⦃e = pair_key⦄ (sender, receiver) s.group_verifications;
  })
  admin ← administrator_of receiver
  on_user admin (User.remove_group_verification receiver sender)
  on_user sender (User.remove_group_verification receiver sender)

pub accept_group_room : ℕ → ℕ → Call (Unit {0})
accept_group_room sender receiver = do
  there ← gets (has_group_room_verification sender receiver)
  raise_if (not there) verification_not_existed
  modify (λ s. record s {
    group_verifications = insert ⦃e = pair_key⦄ (sender, receiver) true s.group_verifications;
  })
  is_added ← on_group receiver (λ names. Room.add_member names sender)
  update_user sender (User.insert_group receiver)
  remove_group_room_verification sender receiver

pub reject_group_room : ℕ → ℕ → Call (Unit {0})
reject_group_room sender receiver = remove_group_room_verification sender receiver

pub is_group_room_verified : ℕ → ℕ → Call Bool
is_group_room_verified sender receiver = do
  entry ← gets (λ s. lookup ⦃e = pair_key⦄ (sender, receiver) s.group_verifications)
  or_raise entry verification_not_existed

-- `sendJsonToUser` over a range of users.
pub send_json_to_users : List ℕ → Notice → Call (Unit {0})
send_json_to_users [] notice s = (ok tt, s)
send_json_to_users (id ∷ ids) notice s =
    let (r, t) = send_json_to_user id notice s in
    elim r [ ok a ↦ send_json_to_users ids notice t | err e ↦ (err e, t) ]

-- Whether the group room is there and the user `self` its administrator.
pub administers : ℕ → ℕ → Call Bool
administers self group = do
  known ← gets (has_group_room group)
  if not known then pure false else do admin ← administrator_of group; pure (self == admin)

-- The guard of `acceptGroup` and `rejectGroup`.
pub may_decide : ℕ → ℕ → ℕ → Call Bool
may_decide self group user = do
  known ← gets (has_group_room group)
  if not known then pure false else do
    member ← has_member group user
    if member then pure false else do admin ← administrator_of group; pure (self == admin)

-- `User::addGroup` of the user `self`, and so on.
pub add_group : ℕ → ℕ → Call Bool
add_group self group = do
  known ← gets (has_group_room group)
  if not known then pure false else do
    member ← has_member group self
    asked ← gets (has_group_room_verification self group)
    if member || asked then pure false else do
      apply_group_room_verification self group
      admin ← administrator_of group
      send_json_to_user admin (added_group_verification group self)
      pure true

pub create_group : ℕ → Call ℕ
create_group self = do
  group ← add_group_room self
  update_user self (User.insert_group group)
  pure group

pub accept_group : ℕ → ℕ → ℕ → Call Bool
accept_group self group user = do
  allowed ← may_decide self group user
  if not allowed
      then pure false
      else do accept_group_room user group; send_json_to_user user (added_group group); pure true

pub reject_group : ℕ → ℕ → ℕ → Call Bool
reject_group self group user = do
  allowed ← may_decide self group user
  asked ← gets (has_group_room_verification user group)
  if not allowed || not asked then pure false else do
    reject_group_room user group
    send_json_to_user user (rejected_to_add_group group)
    pure true

pub remove_group : ℕ → ℕ → Call Bool
remove_group self group = do
  allowed ← administers self group
  if not allowed then pure false else do
    members ← user_list group
    send_json_to_user self (group_removed group)
    send_json_to_users members (group_removed group)
    catch_all (remove_group_room group >> pure true) (pure false)

-- The member is taken out before the test for the administrator.
pub leave_group : ℕ → ℕ → Call Bool
leave_group self group = do
  known ← gets (has_group_room group)
  if not known then pure false else do
    removed ← on_group group (λ _. Room.remove_member self)
    admin ← administrator_of group
    if not removed || admin == self then pure false else do
      members ← user_list group
      send_json_to_user admin (group_leave_member self group)
      send_json_to_users members (group_leave_member self group)
      pure true
