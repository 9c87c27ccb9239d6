-- ===== src/Server/Commands/Friends.antt =====
-- The commands on friends (server/jsonMessageProcess/JsonMsgProcessCommand.cpp).
use qing_liao_chat_server.Base.{ℕ, String, not, none, some, List, [], ◌∷◌, if◌then◌else◌}
use qing_liao_chat_server.Error.{Action, throw, private_room_not_existed, ◌>>=◌, ◌>>◌, pure, gets}
use qing_liao_chat_server.Map.{lookup, insert, keys, id_key}
use qing_liao_chat_server.Json.{
  Json, Answer, list_field, friend_requests, int_at, string_at, with_field, make_success_message,
}
use qing_liao_chat_server.Room.{Names, Sending}
use qing_liao_chat_server.Private
use qing_liao_chat_server.Private.{PrivateRoom}
use qing_liao_chat_server.User
use qing_liao_chat_server.Server.{Call, names, read_user, notify_all}
use qing_liao_chat_server.Server.Manager.{has_user, get_private_room_id}
use qing_liao_chat_server.Server.Friends
use qing_liao_chat_server.Server.Commands.Users.{World, as_user, refuse, report}

-- `getPrivateRoom(id)->method()`, and the notices that it sends.
unfoldable pub on_private : {A : Type 0} → ℕ → (Names → Action (Sending PrivateRoom) A) → Call A
on_private id m s = elim (lookup id s.private_rooms) [
  | none ↦ (throw private_room_not_existed, s)
  | some room ↦
      let (r, t) = m (names s) (record { room = room; sent = [] }) in
      (r, notify_all t.sent (record s { private_rooms = insert id t.room s.private_rooms }))
]

-- A list is put into the answer one entry after the other: without an entry there is no list.
abbrev pub with_list : String → List ℕ → Answer → Answer
with_list name [] a = a
with_list name (id ∷ ids) a = with_field name (list_field (id ∷ ids)) a

module _ {J : Type 0} (json : Json J) (executor : ℕ) where
  unfoldable pub add_friend : J → Call Answer
  add_friend parameters = do
    id ← int_at json "user_id" parameters
    known ← gets (has_user id)
    if not known then refuse "UserID is invalid!" else do
      done ← as_user executor (Friends.add_friend executor id)
      if done then report "Successfully sent application!" else refuse "Can't send application"

  -- What `acceptFriend` returns goes to the log only.
  unfoldable pub accept_friend_verification : J → Call Answer
  accept_friend_verification parameters = do
    id ← int_at json "user_id" parameters
    known ← gets (has_user id)
    if not known then refuse "UserID is invalid!" else do
      as_user executor (Friends.accept_friend executor id)
      report "Successfully added a friend!"

  unfoldable pub reject_friend_verification : J → Call Answer
  reject_friend_verification parameters = do
    id ← int_at json "user_id" parameters
    known ← gets (has_user id)
    if not known then refuse "UserID is invalid!" else do
      done ← as_user executor (Friends.reject_friend executor id)
      if not done
          then refuse "Failed to reject!"
          else report "Successfully rejected a friend verification!"

  unfoldable pub get_friend_list : J → Call Answer
  get_friend_list parameters = do
    set ← read_user executor (λ u. keys u.friend_set)
    pure (with_list "friend_list" set (make_success_message "Successfully obtained friend list!"))

  unfoldable pub get_friend_verification_list : J → Call Answer
  get_friend_verification_list parameters = do
    entries ← read_user executor (λ u. u.friend_verification_map)
    pure (
        with_field "result" (friend_requests entries)
          (make_success_message "Successfully obtained verification list!"))

  unfoldable pub remove_friend : J → Call Answer
  remove_friend parameters = do
    id ← int_at json "user_id" parameters
    known ← gets (has_user id)
    if not known then refuse "UserID is invalid!" else do
      done ← as_user executor (Friends.remove_friend executor id)
      if not done
          then refuse "Failed to remove a friend!"
          else report "Successfully removed a friend"

  unfoldable pub send_friend_message : World → J → Call Answer
  send_friend_message world parameters = do
    id ← int_at json "user_id" parameters
    message ← string_at json "message" parameters
    known ← gets (has_user id)
    if not known then refuse "UserID is invalid!" else do
      has ← read_user executor (User.user_has_friend id)
      if not has then refuse "You don't have this friend!" else do
        room ← (λ s. (get_private_room_id executor id s, s))
        on_private room (λ names. Private.send_message names world.now message executor)
        report "Successfully sent a message!"
