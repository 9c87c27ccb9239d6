-- ===== src/Tests/FriendRemoval.antt =====
-- Friends made and lost.
use qing_liao_chat_server.Base.{ℕ, ◌≡◌, refl, true, false, ◌==◌, ◌||◌, ◌&&◌, not}
use qing_liao_chat_server.Error.{ok}
use qing_liao_chat_server.Map.{lookup}
use qing_liao_chat_server.Server.{Server}
use qing_liao_chat_server.Server.Manager.{has_user, has_private_room}
use qing_liao_chat_server.Server.Friends.{
  add_friend, accept_friend, remove_friend, has_friend_room_verification,
}
use qing_liao_chat_server.Server.Friends.Requests.{may_ask}
use qing_liao_chat_server.Server.Friends.Answers.{is_friend_of}
use qing_liao_chat_server.Server.Friends.Removal.{
  accept_friend-add_friend, may_remove, remove_friend_lem,
}
use qing_liao_chat_server.Tests.Data.{two, friends}
use qing_liao_chat_server.User.{new_user}

accept_friend-add_friend_example :
    let a : ℕ = 1 in
    let b : ℕ = 2 in
    let s : Server = two in
    let (r, t) = accept_friend b a (add_friend a b s).1 in
    (r ≡ ok true)
    × (is_friend_of a b t ≡ true)
    × (is_friend_of b a t ≡ true)
    × (has_private_room a b t ≡ true)
    × (has_friend_room_verification a b t ≡ false)
    × (may_ask a b t ≡ false)
    × (may_ask b a t ≡ false)
unfolding new_user lookup has_user has_private_room has_friend_room_verification
accept_friend-add_friend_example = accept_friend-add_friend 1 2 two refl refl

remove_friend_lem_example :
    let a : ℕ = 1 in
    let b : ℕ = 2 in
    let c : ℕ = 2 in
    let d : ℕ = 1 in
    let s : Server = friends in
    let (r, t) = remove_friend a b s in
    let granted = may_remove a b s in
    (r ≡ ok granted)
    × (is_friend_of c d t ≡ (not (granted && (a == c || b == c) && b == d) && is_friend_of c d s))
    × (has_private_room c d t ≡ has_private_room c d s)
unfolding new_user lookup has_user has_private_room has_friend_room_verification
remove_friend_lem_example = remove_friend_lem 1 2 2 1 friends refl
