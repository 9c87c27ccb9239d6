-- ===== src/Tests/PrivatePosting.antt =====
-- A message in a private room.
use qing_liao_chat_server.Base.{
  ℕ, String, ◌≡◌, refl, some, [], ◌++◌, ◌==◌, ◌&&◌, not, if◌then◌else◌, is_some,
}
use qing_liao_chat_server.Error.{ok}
use qing_liao_chat_server.Messages.{tip_message, find}
use qing_liao_chat_server.Room.{Sending, Names, private_message, has_user, send_data}
use qing_liao_chat_server.Private.{PrivateRoom, nobody, send_message}
use qing_liao_chat_server.Private.Posting.{find-send_message}
use qing_liao_chat_server.Tests.Data.{open_private, everyone}

find-send_message_example :
    let names : Names = everyone in
    let now : ℕ = 4 in
    let u : ℕ = 1 in
    let j : ℕ = 4 in
    let text : String = "hello" in
    let s : Sending PrivateRoom = (record { room = open_private; sent = [] }) in
    let (r, t) = send_message names now text u s in
    (r ≡ ok tt)
    × (find j t.room.message_map ≡ (
        if has_user u s.room.members && now == j && not (is_some (find j s.room.message_map))
        then some (record { sender = u; message = text; type = tip_message; receiver = nobody })
        else find j s.room.message_map))
    × (t.sent ≡ (
        if has_user u s.room.members
        then s.sent ++ send_data names (private_message u text) s.room.members
        else s.sent))
find-send_message_example =
    find-send_message everyone 4 1 4 "hello" (record { room = open_private; sent = [] }) refl tt
