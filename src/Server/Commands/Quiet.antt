-- ===== src/Server/Commands/Quiet.antt =====
-- The commands but `register` leave the connections and the logins alone
-- (server/jsonMessageProcess/JsonMsgProcessCommand.cpp).
use qing_liao_chat_server.Base.{[], ℕ, String, arith, Option, none, some}
use qing_liao_chat_server.Error.{Action, Result, throw, private_room_not_existed}
use qing_liao_chat_server.Map.{lookup, insert, id_key}
use qing_liao_chat_server.Json.{Json, or_throw, int_at, string_at}
use qing_liao_chat_server.Room.{Names, Sending}
use qing_liao_chat_server.Private.{PrivateRoom}
use qing_liao_chat_server.Server.{Server, names, notify_all}
use qing_liao_chat_server.Server.Manager.{get_private_room_id}
use qing_liao_chat_server.Server.Quiet.{
  IsQuiet, SameLogins, SameLogins-refl, SameLogins-notify_all, quiet_rules,
}
use qing_liao_chat_server.Server.Friends.Quiet as FriendCalls
use qing_liao_chat_server.Server.Groups.Quiet as GroupCalls
use qing_liao_chat_server.Server.Commands.Users.{World, ask_user, search_user}
use qing_liao_chat_server.Server.Commands.Friends
use qing_liao_chat_server.Server.Commands.Friends.{on_private}
use qing_liao_chat_server.Server.Commands.Groups

on_private-IsQuiet :
    {A : Type 0} (id : ℕ) (m : Names → Action (Sending PrivateRoom) A) → IsQuiet (on_private id m)
unfolding on_private
on_private-IsQuiet {A} id m = record {
  at = λ s.
      elim (lookup id s.private_rooms)
        as (λ o.
          SameLogins s
            (elim o as (λ _. Result A × Server) [
              | none ↦ (throw private_room_not_existed, s)
              | some room ↦
                  let (r, t) = m (names s) (record { room = room; sent = [] }) in
                  (
                    r,
                    notify_all t.sent
                        (record s { private_rooms = insert id t.room s.private_rooms }),
                  )
            ]).1) [
              | none ↦ SameLogins-refl s
              | some room ↦
                  let t = (m (names s) (record { room = room; sent = [] })).1 in
                  let kept : Server = record s {
                    private_rooms = insert id t.room s.private_rooms;
                  } in
                  let notified = SameLogins-notify_all t.sent kept in
                  record { connections = notified.connections; users = notified.users }
            ];
}

find_room-IsQuiet : (a b : ℕ) → IsQuiet {A = ℕ} (λ s. (get_private_room_id a b s, s))
find_room-IsQuiet a b = record { at = SameLogins-refl }

or_throw-IsQuiet : {A : Type 0} (o : Option A) → IsQuiet (or_throw {S = Server} o)
or_throw-IsQuiet none = record { at = SameLogins-refl }
or_throw-IsQuiet (some a) = record { at = SameLogins-refl }

module _ {J : Type 0} (json : Json J) where
  int_at-IsQuiet : (name : String) (j : J) → IsQuiet (int_at {S = Server} json name j)
  int_at-IsQuiet name j = record {
    at = λ s. record { connections = ground arith; users = λ d v. ground arith };
  }

  string_at-IsQuiet : (name : String) (j : J) → IsQuiet (string_at {S = Server} json name j)
  string_at-IsQuiet name j = record {
    at = λ s. record { connections = ground arith; users = λ d v. ground arith };
  }

ruleset command_rules = (
  quiet_rules, int_at-IsQuiet, string_at-IsQuiet, on_private-IsQuiet, find_room-IsQuiet,
  FriendCalls.add_friend-IsQuiet, FriendCalls.accept_friend-IsQuiet,
  FriendCalls.reject_friend-IsQuiet, FriendCalls.remove_friend-IsQuiet,
  GroupCalls.add_group-IsQuiet, GroupCalls.create_group-IsQuiet, GroupCalls.accept_group-IsQuiet,
  GroupCalls.reject_group-IsQuiet, GroupCalls.remove_group-IsQuiet, GroupCalls.leave_group-IsQuiet,
)

module _ {J : Type 0} (json : Json J) (world : World) (executor : ℕ) (j : J) where
  pub ask_user-IsQuiet : IsQuiet (ask_user json j)
  unfolding ask_user
  ask_user-IsQuiet = search command_rules depth 25 fits 3000

  pub search_user-IsQuiet : IsQuiet (search_user json j)
  unfolding search_user
  search_user-IsQuiet = search command_rules depth 25 fits 3000

  pub add_friend-IsQuiet : IsQuiet (Friends.add_friend json executor j)
  unfolding Friends.add_friend
  add_friend-IsQuiet = search command_rules depth 25 fits 3000

  pub accept_friend_verification-IsQuiet :
      IsQuiet (Friends.accept_friend_verification json executor j)
  unfolding Friends.accept_friend_verification
  accept_friend_verification-IsQuiet = search command_rules depth 25 fits 3000

  pub reject_friend_verification-IsQuiet :
      IsQuiet (Friends.reject_friend_verification json executor j)
  unfolding Friends.reject_friend_verification
  reject_friend_verification-IsQuiet = search command_rules depth 25 fits 3000

  pub get_friend_list-IsQuiet : IsQuiet (Friends.get_friend_list json executor j)
  unfolding Friends.get_friend_list
  get_friend_list-IsQuiet = search command_rules depth 25 fits 3000

  pub get_friend_verification_list-IsQuiet :
      IsQuiet (Friends.get_friend_verification_list json executor j)
  unfolding Friends.get_friend_verification_list
  get_friend_verification_list-IsQuiet = search command_rules depth 25 fits 3000

  pub remove_friend-IsQuiet : IsQuiet (Friends.remove_friend json executor j)
  unfolding Friends.remove_friend
  remove_friend-IsQuiet = search command_rules depth 25 fits 3000

  pub send_friend_message-IsQuiet : IsQuiet (Friends.send_friend_message json executor world j)
  unfolding Friends.send_friend_message
  send_friend_message-IsQuiet = search command_rules depth 25 fits 3000

  pub add_group-IsQuiet : IsQuiet (Groups.add_group json executor j)
  unfolding Groups.add_group
  add_group-IsQuiet = search command_rules depth 25 fits 3000

  pub accept_group_verification-IsQuiet : IsQuiet (Groups.accept_group_verification json executor j)
  unfolding Groups.accept_group_verification
  accept_group_verification-IsQuiet = search command_rules depth 25 fits 3000

  pub reject_group_verification-IsQuiet : IsQuiet (Groups.reject_group_verification json executor j)
  unfolding Groups.reject_group_verification
  reject_group_verification-IsQuiet = search command_rules depth 25 fits 3000

  pub get_group_list-IsQuiet : IsQuiet (Groups.get_group_list json executor j)
  unfolding Groups.get_group_list
  get_group_list-IsQuiet = search command_rules depth 25 fits 3000

  pub get_group_verification_list-IsQuiet :
      IsQuiet (Groups.get_group_verification_list json executor j)
  unfolding Groups.get_group_verification_list
  get_group_verification_list-IsQuiet = search command_rules depth 25 fits 3000

  pub create_group-IsQuiet : IsQuiet (Groups.create_group json executor j)
  unfolding Groups.create_group
  create_group-IsQuiet = search command_rules depth 25 fits 3000

  pub remove_group-IsQuiet : IsQuiet (Groups.remove_group json executor j)
  unfolding Groups.remove_group
  remove_group-IsQuiet = search command_rules depth 25 fits 3000

  pub leave_group-IsQuiet : IsQuiet (Groups.leave_group json executor j)
  unfolding Groups.leave_group
  leave_group-IsQuiet = search command_rules depth 25 fits 3000

  pub send_group_message-IsQuiet : IsQuiet (Groups.send_group_message json executor world j)
  unfolding Groups.send_group_message
  send_group_message-IsQuiet = search command_rules depth 25 fits 3000
