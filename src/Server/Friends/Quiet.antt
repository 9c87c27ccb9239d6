-- ===== src/Server/Friends/Quiet.antt =====
-- The calls on friends leave the connections and the logins alone (server/user/user.cpp,
-- server/manager/verificationManager.cpp).
use qing_liao_chat_server.Base.{ℕ, arith}
use qing_liao_chat_server.User
use qing_liao_chat_server.Server.Quiet.{IsQuiet, quiet_rules}
use qing_liao_chat_server.Server.Manager.{add_private_room}
use qing_liao_chat_server.Server.Friends.{
  apply_friend_room_verification, remove_friend_room_verification, accept_friend_verification,
  reject_friend_verification, add_friend, accept_friend, reject_friend, remove_friend,
}

apply_friend_room_verification-IsQuiet : (a b : ℕ) → IsQuiet (apply_friend_room_verification a b)
unfolding apply_friend_room_verification User.add_friend_verification
apply_friend_room_verification-IsQuiet a b = search quiet_rules depth 25 fits 3000

remove_friend_room_verification-IsQuiet : (a b : ℕ) → IsQuiet (remove_friend_room_verification a b)
unfolding remove_friend_room_verification User.remove_friend_verification
remove_friend_room_verification-IsQuiet a b = search quiet_rules depth 25 fits 3000

add_private_room-IsQuiet : (a b : ℕ) → IsQuiet (add_private_room a b)
unfolding add_private_room
add_private_room-IsQuiet a b = record {
  at = λ s. record { connections = ground arith; users = λ d v. ground arith };
}

accept_friend_verification-IsQuiet : (a b : ℕ) → IsQuiet (accept_friend_verification a b)
unfolding accept_friend_verification User.insert_friend
accept_friend_verification-IsQuiet a b =
    search (quiet_rules, add_private_room-IsQuiet, remove_friend_room_verification-IsQuiet) depth 25
      fits 3000

reject_friend_verification-IsQuiet : (a b : ℕ) → IsQuiet (reject_friend_verification a b)
unfolding reject_friend_verification
reject_friend_verification-IsQuiet a b =
    search (quiet_rules, remove_friend_room_verification-IsQuiet) depth 25 fits 3000

pub add_friend-IsQuiet : (self friend : ℕ) → IsQuiet (add_friend self friend)
unfolding add_friend
add_friend-IsQuiet self friend =
    search (quiet_rules, apply_friend_room_verification-IsQuiet) depth 25 fits 3000

pub accept_friend-IsQuiet : (self friend : ℕ) → IsQuiet (accept_friend self friend)
unfolding accept_friend
accept_friend-IsQuiet self friend =
    search (quiet_rules, accept_friend_verification-IsQuiet) depth 25 fits 3000

pub reject_friend-IsQuiet : (self friend : ℕ) → IsQuiet (reject_friend self friend)
unfolding reject_friend
reject_friend-IsQuiet self friend =
    search (quiet_rules, reject_friend_verification-IsQuiet) depth 25 fits 3000

pub remove_friend-IsQuiet : (self friend : ℕ) → IsQuiet (remove_friend self friend)
unfolding remove_friend User.erase_friend
remove_friend-IsQuiet self friend = search quiet_rules depth 25 fits 3000
