-- ===== src/Tests/Posting.antt =====
-- A message in a room.
use qing_liao_chat_server.Base.{ℕ, String, ◌≡◌, some, ◌++◌, ◌==◌, ◌&&◌, if◌then◌else◌, []}
use qing_liao_chat_server.Error.{ok}
use qing_liao_chat_server.Messages.{normal_message, find, free_time}
use qing_liao_chat_server.Room.{Sending, Names, group_message, send_data}
use qing_liao_chat_server.Group.Room.{GroupRoom, nobody, send_message}
use qing_liao_chat_server.Group.Room.Posting.{may_speak, send_message_lem}
use qing_liao_chat_server.Tests.Data.{room, everyone}
use qing_liao_chat_server.Base.{refl}

send_message_lem_example :
    let names : Names = everyone in
    let now : ℕ = 3 in
    let now' : ℕ = 4 in
    let u : ℕ = 2 in
    let j : ℕ = 4 in
    let text : String = "hello" in
    let s : Sending GroupRoom = (record { room = room; sent = [] }) in
    let (r, t) = send_message names now now' u text s in
    (r ≡ ok tt)
    × (find j t.room.message_map ≡ (
        if may_speak now u s.room && free_time now' s.room.message_map == j
        then some (record { sender = u; message = text; type = normal_message; receiver = nobody })
        else find j s.room.message_map))
    × (t.sent ≡ (
        if may_speak now u s.room
        then s.sent ++ send_data names (group_message u s.room.group_id text) s.room.members
        else s.sent))
send_message_lem_example =
    send_message_lem everyone 3 4 2 4 "hello" (record { room = room; sent = [] }) refl tt
