-- ===== src/Tests/GroupRequests.antt =====
-- A request for a group.
use qing_liao_chat_server.Base.{ℕ, ◌≡◌, refl, ◌==◌, ◌||◌, ◌&&◌, if◌then◌else◌}
use qing_liao_chat_server.Error.{ok}
use qing_liao_chat_server.Map.{lookup}
use qing_liao_chat_server.User.{User, sent, received, insert_multi}
use qing_liao_chat_server.Group.Room.{GroupRoom}
use qing_liao_chat_server.Server.{Server}
use qing_liao_chat_server.Server.Groups.{request, add_group, has_group_room_verification}
use qing_liao_chat_server.Server.Groups.Requests.{IsRoom, add_group_lem, group_requests, may_join}
use qing_liao_chat_server.Tests.Data.{first_user, room, group_server}
use qing_liao_chat_server.User.{new_user}

add_group_lem_example :
    let g : ℕ = 7 in
    let a : ℕ = 1 in
    let c : ℕ = 1 in
    let h : ℕ = 7 in
    let room : GroupRoom = room in
    let u : User = first_user in
    let v : User = (new_user 2 6) in
    let s : Server = group_server in
    let (r, t) = add_group a g s in
    let granted = may_join g a room s in
    (r ≡ ok granted)
    × (has_group_room_verification c h t
        ≡ (granted && a == c && g == h || has_group_room_verification c h s))
    × (group_requests c t ≡ (
        if granted && a == c
        then insert_multi g (request a g sent) u.group_verification_map
        else if granted && room.administrator_user_id == c
        then insert_multi g (request a g received) v.group_verification_map
        else group_requests c s))
    × IsRoom g room t
unfolding new_user lookup has_group_room_verification
add_group_lem_example =
    add_group_lem 7 1 1 7 room first_user (new_user 2 6) group_server (refl, refl) refl refl refl
