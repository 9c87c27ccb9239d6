-- ===== src/Server/Friends.antt =====
-- Friends: server/manager/verificationManager.cpp, the part on friend rooms, and the methods of
-- server/user/user.cpp that call it.
pub mod Requests
pub mod Answers
pub mod Rejection
pub mod Removal
pub mod Quiet
use qing_liao_chat_server.Base.{
  ℕ, String, Bool, true, false, none, some, not, ◌||◌, ◌==◌, if◌then◌else◌,
}
use qing_liao_chat_server.Error.{
  Action, Result, ok, err, throw, invalid_verification, user_not_existed, private_room_existed,
  verification_existed, verification_not_existed, ◌>>=◌, ◌>>◌, pure, modify, raise_if, or_raise,
  gets,
}
use qing_liao_chat_server.Map.{Map, lookup, contains, insert, emplace, erase, id_key}
use qing_liao_chat_server.Room.{
  Notice, added_friend_verification, added_friend, rejected_to_add_friend, removed_friend,
}
use qing_liao_chat_server.User
use qing_liao_chat_server.User.{User, UserVerification, VerificationType, sent, received}
use qing_liao_chat_server.Server.{Server, Call, pair_key, on_user, read_user, send_json_to_user}
use qing_liao_chat_server.Server.Manager.{has_user, has_private_room, add_private_room}

-- The entry that a request leaves with one of its users.
abbrev pub request : ℕ → VerificationType → UserVerification
request other type = record { user_id = other; verification_type = type; message = "" }

-- A method of a user that cannot fail.
abbrev update_user : ℕ → (User → User) → Call (Unit {0})
update_user id f = on_user id (λ u. (ok tt, f u))

pub apply_friend_room_verification : ℕ → ℕ → Call (Unit {0})
apply_friend_room_verification sender receiver = do
  raise_if (sender == receiver) invalid_verification
  sender_known ← gets (has_user sender)
  raise_if (not sender_known) user_not_existed
  receiver_known ← gets (has_user receiver)
  raise_if (not receiver_known) user_not_existed
  friends ← gets (has_private_room sender receiver)
  raise_if friends private_room_existed
  there ← gets (λ s. contains ⦃e = pair_key⦄ (sender, receiver) s.friend_room_verifications)
  raise_if there verification_existed
  modify (λ s. record s {
    friend_room_verifications =
        insert ⦃e = pair_key⦄ (sender, receiver) false s.friend_room_verifications;
  })
  update_user sender (User.add_friend_verification receiver (request receiver sent))
  update_user receiver (User.add_friend_verification sender (request sender received))

unfoldable pub has_friend_room_verification : ℕ → ℕ → Server → Bool
has_friend_room_verification sender receiver s =
    if sender == receiver
    then false
    else contains ⦃e = pair_key⦄ (sender, receiver) s.friend_room_verifications

pub remove_friend_room_verification : ℕ → ℕ → Call (Unit {0})
remove_friend_room_verification sender receiver = do
  raise_if (sender == receiver) invalid_verification
  there ← gets (λ s. contains ⦃e = pair_key⦄ (sender, receiver) s.friend_room_verifications)
  if not there then pure tt else do
    modify (λ s. record s {
      friend_room_verifications =
          erase ⦃e = pair_key⦄ (sender, receiver) s.friend_room_verifications;
    })
    update_user sender (User.remove_friend_verification receiver)
    update_user receiver (User.remove_friend_verification sender)

pub accept_friend_verification : ℕ → ℕ → Call (Unit {0})
accept_friend_verification sender receiver = do
  raise_if (sender == receiver) invalid_verification
  there ← gets (λ s. contains ⦃e = pair_key⦄ (sender, receiver) s.friend_room_verifications)
  raise_if (not there) verification_not_existed
  modify (λ s. record s {
    friend_room_verifications =
        insert ⦃e = pair_key⦄ (sender, receiver) true s.friend_room_verifications;
  })
  add_private_room sender receiver
  update_user sender (User.insert_friend receiver)
  update_user receiver (User.insert_friend sender)
  remove_friend_room_verification sender receiver

pub reject_friend_verification : ℕ → ℕ → Call (Unit {0})
reject_friend_verification sender receiver = do
  raise_if (sender == receiver) invalid_verification
  remove_friend_room_verification sender receiver

pub is_friend_verified : ℕ → ℕ → Call Bool
is_friend_verified sender receiver = do
  raise_if (sender == receiver) invalid_verification
  entry ← gets (λ s. lookup ⦃e = pair_key⦄ (sender, receiver) s.friend_room_verifications)
  or_raise entry verification_not_existed

-- `User::addFriend` of the user `self`, and so on.
pub add_friend : ℕ → ℕ → Call Bool
add_friend self friend = do
  known ← gets (has_user friend)
  friends ← gets (has_private_room self friend)
  asked ← gets (has_friend_room_verification self friend)
  if self == friend || not known || friends || asked then pure false else do
    apply_friend_room_verification self friend
    send_json_to_user friend (added_friend_verification self)
    pure true

pub accept_friend : ℕ → ℕ → Call Bool
accept_friend self friend = do
  known ← gets (has_user friend)
  asked ← gets (has_friend_room_verification friend self)
  if self == friend || not known || not asked then pure false else do
    accept_friend_verification friend self
    send_json_to_user friend (added_friend self)
    pure true

pub reject_friend : ℕ → ℕ → Call Bool
reject_friend self friend = do
  known ← gets (has_user friend)
  asked ← gets (has_friend_room_verification friend self)
  if self == friend || not known || not asked then pure false else do
    reject_friend_verification friend self
    send_json_to_user friend (rejected_to_add_friend self)
    pure true

-- The friend's own id is what is taken out of the friend's set.
pub remove_friend : ℕ → ℕ → Call Bool
remove_friend self friend = do
  known ← gets (has_user friend)
  if self == friend || not known then pure false else do
    has ← read_user self (User.user_has_friend friend)
    if not has then pure false else do
      update_user self (User.erase_friend friend)
      update_user friend (User.erase_friend friend)
      send_json_to_user friend (removed_friend self)
      pure true
