-- ===== src/Tests/GroupMembership.antt =====
-- Requests for a group, accepted and rejected.
use qing_liao_chat_server.Base.{ℕ, ◌≡◌, refl, true, false, arith}
use qing_liao_chat_server.Error.{ok}
use qing_liao_chat_server.Map.{lookup, contains}
use qing_liao_chat_server.User.{User}
use qing_liao_chat_server.Room.{has_user as is_member}
use qing_liao_chat_server.Group.Room.{GroupRoom}
use qing_liao_chat_server.Server.{Server}
use qing_liao_chat_server.Server.Groups.{add_group, accept_group, has_group_room_verification}
use qing_liao_chat_server.Server.Groups.Requests.{IsRoom, group_requests}
use qing_liao_chat_server.Server.Groups.Membership.{accept_group-add_group, has_group}
use qing_liao_chat_server.Tests.Data.{first_user, room, group_server}
use qing_liao_chat_server.User.{new_user}
use qing_liao_chat_server.Map.{id_key}

accept_group-add_group_example :
    let g : ℕ = 7 in
    let a : ℕ = 1 in
    let room : GroupRoom = room in
    let u : User = first_user in
    let v : User = (new_user 2 6) in
    let s : Server = group_server in
    let d = room.administrator_user_id in
    let (r, w) = accept_group d g a (add_group a g s).1 in
    (r ≡ ok true)
    × ((room' : GroupRoom) × IsRoom g room' w
        × (contains a room'.user_id_map ≡ true)
        × (is_member a room'.members ≡ true)
        × (room'.administrator_user_id ≡ d))
    × (has_group a g w ≡ true)
    × (has_group_room_verification a g w ≡ false)
    × (group_requests a w ≡ u.group_verification_map)
    × (group_requests d w ≡ v.group_verification_map)
unfolding new_user lookup has_group_room_verification
accept_group-add_group_example =
    accept_group-add_group 7 1 room first_user (new_user 2 6) group_server (refl, refl) refl refl
      refl refl (omega arith) tt tt tt tt
