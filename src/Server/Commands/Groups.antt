-- ===== src/Server/Commands/Groups.antt =====
-- The commands on groups (server/jsonMessageProcess/JsonMsgProcessCommand.cpp).
use qing_liao_chat_server.Base.{ℕ, not, [], ◌∷◌, if◌then◌else◌}
use qing_liao_chat_server.Error.{◌>>=◌, ◌>>◌, pure, gets, catch_all}
use qing_liao_chat_server.Map.{Map, insert, keys, id_key}
use qing_liao_chat_server.Json.{
  Json, Answer, int_field, group_requests, int_at, string_at, with_field, make_success_message,
}
use qing_liao_chat_server.Group.Room
use qing_liao_chat_server.User
use qing_liao_chat_server.User.{GroupVerification, GroupVerificationMap}
use qing_liao_chat_server.Server.{Call, read_user, on_group}
use qing_liao_chat_server.Server.Manager.{has_group_room}
use qing_liao_chat_server.Server.Groups
use qing_liao_chat_server.Server.Commands.Users.{World, as_user, refuse, report}
use qing_liao_chat_server.Server.Commands.Friends.{with_list}

-- `returnJson["result"][group_str]... = ...`, entry by entry: the last one of a group stays.
pub by_group : GroupVerificationMap → Map ℕ GroupVerification → Map ℕ GroupVerification
by_group [] result = result
by_group ((group, entry) ∷ entries) result = by_group entries (insert group entry result)

-- Without an entry there is no result.
abbrev pub with_requests : GroupVerificationMap → Answer → Answer
unfolding by_group
with_requests [] a = a
with_requests (entry ∷ entries) a =
    with_field "result" (group_requests (by_group (entry ∷ entries) [])) a

module _ {J : Type 0} (json : Json J) (executor : ℕ) where
  unfoldable pub add_group : J → Call Answer
  add_group parameters = do
    group ← int_at json "group_id" parameters
    known ← gets (has_group_room group)
    if not known then refuse "GroupID is invalid!" else do
      done ← as_user executor (Groups.add_group executor group)
      if done
          then report "Successfully sent a group application!"
          else refuse "Failed to send a group application!"

  unfoldable pub accept_group_verification : J → Call Answer
  accept_group_verification parameters = do
    group ← int_at json "group_id" parameters
    id ← int_at json "user_id" parameters
    done ← as_user executor (Groups.accept_group executor group id)
    if done
        then report "Successfully accepted a group application!"
        else refuse "Failed to accept a group application!"

  unfoldable pub reject_group_verification : J → Call Answer
  reject_group_verification parameters = do
    group ← int_at json "group_id" parameters
    id ← int_at json "user_id" parameters
    done ← as_user executor (Groups.reject_group executor group id)
    if done
        then report "Successfully reject a group verfication!"
        else refuse "Failed to reject a group application!"

  unfoldable pub get_group_list : J → Call Answer
  get_group_list parameters = do
    set ← read_user executor (λ u. keys u.group_set)
    pure (with_list "group_list" set (make_success_message "Successfully obtained group list!"))

  unfoldable pub get_group_verification_list : J → Call Answer
  get_group_verification_list parameters = do
    entries ← read_user executor (λ u. u.group_verification_map)
    pure (with_requests entries (make_success_message "Successfully obtained verification list!"))

  unfoldable pub create_group : J → Call Answer
  create_group parameters =
      catch_all
        (do
          group ← as_user executor (Groups.create_group executor)
          pure (
              with_field "group_id" (int_field group)
                (make_success_message "Successfully create a group!")))
        (refuse "Failed to create a group!")

  unfoldable pub remove_group : J → Call Answer
  remove_group parameters = do
    group ← int_at json "group_id" parameters
    done ← as_user executor (Groups.remove_group executor group)
    if not done then refuse "Failed to remove a group!" else report "Successfully removed a group!"

  unfoldable pub leave_group : J → Call Answer
  leave_group parameters = do
    group ← int_at json "group_id" parameters
    done ← as_user executor (Groups.leave_group executor group)
    if not done then refuse "Failed to leave a group!" else report "Successfully left a group!"

  unfoldable pub send_group_message : World → J → Call Answer
  send_group_message world parameters = do
    group ← int_at json "group_id" parameters
    message ← string_at json "message" parameters
    known ← gets (has_group_room group)
    if not known then refuse "GroupID is invalid!" else do
      has ← read_user executor (User.user_has_group group)
      if not has then refuse "You don't have this group!" else do
        on_group group (λ names. Room.send_message names world.now world.later executor message)
        report "Successfully sent a message!"
