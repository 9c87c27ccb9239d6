-- ===== src/Server/Groups/Quiet.antt =====
-- The calls on groups leave the connections and the logins alone (server/user/user.cpp,
-- server/manager/verificationManager.cpp).
use qing_liao_chat_server.Base.{ℕ, ◌≡◌, arith, List, [], ◌∷◌}
use qing_liao_chat_server.Room.{Notice}
use qing_liao_chat_server.User
use qing_liao_chat_server.User.{User}
use qing_liao_chat_server.Server.{send_json_to_user}
use qing_liao_chat_server.Server.Quiet.{
  IsQuiet, quiet_rules, SameLogins-refl, IsQuiet-on_user, IsQuiet-bind, IsQuiet-send_json_to_user,
}
use qing_liao_chat_server.Server.Manager.{add_group_room, remove_group_room}
use qing_liao_chat_server.Server.Groups.{
  apply_group_room_verification, remove_group_room_verification, accept_group_room,
  reject_group_room, send_json_to_users, administers, may_decide, add_group, create_group,
  accept_group, reject_group, remove_group, leave_group,
}

apply_group_room_verification-IsQuiet : (a b : ℕ) → IsQuiet (apply_group_room_verification a b)
unfolding apply_group_room_verification User.add_group_verification
apply_group_room_verification-IsQuiet a b = search quiet_rules depth 25 fits 3000

remove_group_verification-connections :
    (group id : ℕ) (u : User)
    → (User.remove_group_verification group id u).1.connection_map ≡ u.connection_map
unfolding User.remove_group_verification
remove_group_verification-connections group id u = ground arith

remove_group_room_verification-IsQuiet : (a b : ℕ) → IsQuiet (remove_group_room_verification a b)
unfolding remove_group_room_verification
remove_group_room_verification-IsQuiet a b =
    search (quiet_rules, IsQuiet-on_user, remove_group_verification-connections) depth 25 fits 3000

accept_group_room-IsQuiet : (a b : ℕ) → IsQuiet (accept_group_room a b)
unfolding accept_group_room User.insert_group
accept_group_room-IsQuiet a b =
    search (quiet_rules, remove_group_room_verification-IsQuiet) depth 25 fits 3000

reject_group_room-IsQuiet : (a b : ℕ) → IsQuiet (reject_group_room a b)
unfolding reject_group_room
reject_group_room-IsQuiet a b = remove_group_room_verification-IsQuiet a b

send_json_to_users-IsQuiet :
    (ids : List ℕ) (notice : Notice) → IsQuiet (send_json_to_users ids notice)
unfolding send_json_to_users
send_json_to_users-IsQuiet [] notice = record { at = SameLogins-refl }
send_json_to_users-IsQuiet (id ∷ ids) notice =
    IsQuiet-bind (send_json_to_user id notice) (λ _. send_json_to_users ids notice)
      (IsQuiet-send_json_to_user id notice) (λ _. send_json_to_users-IsQuiet ids notice)

add_group_room-IsQuiet : (id : ℕ) → IsQuiet (add_group_room id)
unfolding add_group_room
add_group_room-IsQuiet id = record {
  at = λ s. record { connections = ground arith; users = λ d v. ground arith };
}

remove_group_room-IsQuiet : (id : ℕ) → IsQuiet (remove_group_room id)
unfolding remove_group_room
remove_group_room-IsQuiet id = record {
  at = λ s. record { connections = ground arith; users = λ d v. ground arith };
}

administers-IsQuiet : (self group : ℕ) → IsQuiet (administers self group)
unfolding administers
administers-IsQuiet self group = search quiet_rules depth 25 fits 3000

may_decide-IsQuiet : (self group user : ℕ) → IsQuiet (may_decide self group user)
unfolding may_decide
may_decide-IsQuiet self group user = search quiet_rules depth 25 fits 3000

pub add_group-IsQuiet : (self group : ℕ) → IsQuiet (add_group self group)
unfolding add_group
add_group-IsQuiet self group =
    search (quiet_rules, apply_group_room_verification-IsQuiet) depth 25 fits 3000

pub create_group-IsQuiet : (self : ℕ) → IsQuiet (create_group self)
unfolding create_group User.insert_group
create_group-IsQuiet self = search (quiet_rules, add_group_room-IsQuiet) depth 25 fits 3000

pub accept_group-IsQuiet : (self group user : ℕ) → IsQuiet (accept_group self group user)
unfolding accept_group
accept_group-IsQuiet self group user =
    search (quiet_rules, may_decide-IsQuiet, accept_group_room-IsQuiet) depth 25 fits 3000

pub reject_group-IsQuiet : (self group user : ℕ) → IsQuiet (reject_group self group user)
unfolding reject_group
reject_group-IsQuiet self group user =
    search (quiet_rules, may_decide-IsQuiet, reject_group_room-IsQuiet) depth 25 fits 3000

pub remove_group-IsQuiet : (self group : ℕ) → IsQuiet (remove_group self group)
unfolding remove_group
remove_group-IsQuiet self group =
    search (quiet_rules, administers-IsQuiet, send_json_to_users-IsQuiet, remove_group_room-IsQuiet)
      depth 25 fits 3000

pub leave_group-IsQuiet : (self group : ℕ) → IsQuiet (leave_group self group)
unfolding leave_group
leave_group-IsQuiet self group = search (quiet_rules, send_json_to_users-IsQuiet) depth 25 fits 3000
