-- ===== src/Tests/GroupLeaving.antt =====
-- A group left and closed.
use qing_liao_chat_server.Base.{ℕ, ◌≡◌, refl, false}
use qing_liao_chat_server.Error.{ok}
use qing_liao_chat_server.Map.{lookup, contains}
use qing_liao_chat_server.Group.Room.{GroupRoom}
use qing_liao_chat_server.Server.{Server}
use qing_liao_chat_server.Server.Groups.{leave_group, has_group_room_verification}
use qing_liao_chat_server.Server.Groups.Requests.{IsRoom}
use qing_liao_chat_server.Server.Groups.Leaving.{leave_group-administrator, without_member}
use qing_liao_chat_server.Tests.Data.{room, group_server}
use qing_liao_chat_server.User.{new_user}
use qing_liao_chat_server.Map.{id_key}

leave_group-administrator_example :
    let g : ℕ = 7 in
    let room : GroupRoom = room in
    let s : Server = group_server in
    let d = room.administrator_user_id in
    let (r, t) = leave_group d g s in
    (r ≡ ok false)
    × IsRoom g (without_member d room) t
    × (contains d (without_member d room).user_id_map ≡ false)
unfolding new_user lookup has_group_room_verification
leave_group-administrator_example = leave_group-administrator 7 room group_server (refl, refl)
