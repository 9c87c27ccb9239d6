-- ===== src/Tests/FriendRequests.antt =====
-- A request among two users.
use qing_liao_chat_server.Base.{ℕ, ◌≡◌, refl, some, ◌==◌, ◌||◌, ◌&&◌, not, if◌then◌else◌, is_some}
use qing_liao_chat_server.Error.{ok}
use qing_liao_chat_server.Map.{lookup}
use qing_liao_chat_server.User.{sent, received}
use qing_liao_chat_server.Server.{Server}
use qing_liao_chat_server.Server.Manager.{has_user, has_private_room}
use qing_liao_chat_server.Server.Friends.{request, add_friend, has_friend_room_verification}
use qing_liao_chat_server.Server.Friends.Requests.{add_friend_lem, entry_of, may_ask}
use qing_liao_chat_server.Tests.Data.{two}
use qing_liao_chat_server.User.{new_user}

add_friend_lem_example :
    let a : ℕ = 1 in
    let b : ℕ = 2 in
    let c : ℕ = 1 in
    let d : ℕ = 2 in
    let s : Server = two in
    let (r, t) = add_friend a b s in
    (r ≡ ok (may_ask a b s))
    × (has_friend_room_verification c d t
        ≡ (may_ask a b s && a == c && b == d || has_friend_room_verification c d s))
    × (has_private_room c d t ≡ has_private_room c d s)
    × (has_user c t ≡ has_user c s)
    × (entry_of a b t ≡ (
        if may_ask a b s && not (is_some (entry_of a b s))
        then some (request b sent)
        else entry_of a b s))
    × (entry_of b a t ≡ (
        if may_ask a b s && not (is_some (entry_of b a s))
        then some (request a received)
        else entry_of b a s))
unfolding new_user lookup has_user has_private_room has_friend_room_verification
add_friend_lem_example = add_friend_lem 1 2 1 2 two refl
