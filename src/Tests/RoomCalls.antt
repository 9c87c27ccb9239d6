-- ===== src/Tests/RoomCalls.antt =====
-- Calls on a new room.
use qing_liao_chat_server.Base.{ℕ, List, [], ◌∷◌}
use qing_liao_chat_server.Error.{Failure}
use qing_liao_chat_server.Room.{Names}
use qing_liao_chat_server.Group.Room.{GroupRoom, new_group_room}
use qing_liao_chat_server.Group.Room.Members.{IsValidAt}
use qing_liao_chat_server.Group.Room.Calls.{
  Call, adds, mutes, removes, run, run-new_group_room-IsValidAt, says, sets_administrator,
}
use qing_liao_chat_server.Tests.Data.{everyone, new_room}
use qing_liao_chat_server.Room.{join_room}
use qing_liao_chat_server.Map.{lookup}
use qing_liao_chat_server.Base.Int.{pos}
use qing_liao_chat_server.Error.{deadlock_error}
use qing_liao_chat_server.Base.{refl}
use qing_liao_chat_server.Map.{lookup, insert}
use qing_liao_chat_server.Room.{join_room}

run-new_group_room-IsValidAt_example :
    let relock : Failure = deadlock_error in
    let names : Names = everyone in
    let group_id : ℕ = 7 in
    let creator : ℕ = 2 in
    let v : ℕ = 1 in
    let room : GroupRoom = new_room in
    let cs : List Call =
      (adds 1
        ∷ says 3 4 1 "hello"
        ∷ mutes 5 6 6 2 1 (pos 1)
        ∷ sets_administrator 1
        ∷ mutes 7 8 8 1 2 (pos 1)
        ∷ removes 2
        ∷ []) in
    IsValidAt v (run relock names cs (record { room = room; sent = [] })).room
unfolding new_group_room join_room lookup insert
run-new_group_room-IsValidAt_example =
    run-new_group_room-IsValidAt deadlock_error everyone 7 2 1 new_room
      (adds 1
        ∷ says 3 4 1 "hello"
        ∷ mutes 5 6 6 2 1 (pos 1)
        ∷ sets_administrator 1
        ∷ mutes 7 8 8 1 2 (pos 1)
        ∷ removes 2
        ∷ [])
      refl refl (refl, (refl, (refl, (refl, (refl, (refl, tt))))))
