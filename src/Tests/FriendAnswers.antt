-- ===== src/Tests/FriendAnswers.antt =====
-- An accepted request.
use qing_liao_chat_server.Base.{ℕ, ◌≡◌, refl, none, ◌==◌, ◌||◌, ◌&&◌, not, if◌then◌else◌}
use qing_liao_chat_server.Error.{ok}
use qing_liao_chat_server.Map.{lookup}
use qing_liao_chat_server.Server.{Server}
use qing_liao_chat_server.Server.Manager.{has_user, has_private_room}
use qing_liao_chat_server.Server.Manager.Rooms.{same_pair}
use qing_liao_chat_server.Server.Friends.{accept_friend, has_friend_room_verification}
use qing_liao_chat_server.Server.Friends.Requests.{entry_of}
use qing_liao_chat_server.Server.Friends.Answers.{accept_friend_lem, is_friend_of, may_answer}
use qing_liao_chat_server.Tests.Data.{asked}
use qing_liao_chat_server.User.{new_user}

accept_friend_lem_example :
    let a : ℕ = 1 in
    let b : ℕ = 2 in
    let c : ℕ = 2 in
    let d : ℕ = 1 in
    let s : Server = asked in
    let (r, t) = accept_friend b a s in
    let granted = may_answer b a s in
    (r ≡ ok granted)
    × (has_friend_room_verification c d t
        ≡ (not (granted && a == c && b == d) && has_friend_room_verification c d s))
    × (has_private_room c d t ≡ (granted && same_pair a b c d || has_private_room c d s))
    × (is_friend_of c d t ≡ (granted && same_pair a b c d || is_friend_of c d s))
    × (entry_of a b t ≡ (if granted then none else entry_of a b s))
    × (entry_of b a t ≡ (if granted then none else entry_of b a s))
unfolding new_user lookup has_user has_private_room has_friend_room_verification
accept_friend_lem_example = accept_friend_lem 1 2 2 1 asked refl
