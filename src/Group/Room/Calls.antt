-- ===== src/Group/Room/Calls.antt =====
-- Any sequence of calls on a group room (server/room/groupRoom/groupRoom.cpp): every call that
-- changes the room.
use qing_liao_chat_server.Base.{
  ℕ, String, ◌≡◌, ◌==◌, Bool, true, false, not, List, [], ◌∷◌, All, arith,
}
use qing_liao_chat_server.Base.Int.{ℤ}
use qing_liao_chat_server.Error.{Failure, Result, ok}
use qing_liao_chat_server.Map.{id_key}
use qing_liao_chat_server.Room.{Sending, Names}
use qing_liao_chat_server.Group.Room.{
  GroupRoom, new_group_room, add_member, remove_member, send_message, send_tip_message,
  send_user_tip_message, unlocked,
}
use qing_liao_chat_server.Group.Room.Members.{
  IsValidAt, new_group_room-IsValidAt, add_member-IsValidAt, remove_member-IsValidAt,
  send_message-IsValidAt, send_tip_message-IsValidAt, send_user_tip_message-IsValidAt,
}
use qing_liao_chat_server.Group.Room.Moderation.{
  mute_user, unmute_user, kick_user, add_operator, remove_operator, remove_this_room, auto_clean,
  set_administrator,
}
use qing_liao_chat_server.Group.Room.Moderation.Valid.{
  mute_user-IsValidAt, unmute_user-IsValidAt, kick_user-IsValidAt, add_operator-IsValidAt,
  remove_operator-IsValidAt, auto_clean-IsValidAt, remove_this_room-IsValidAt,
  set_administrator-IsValidAt,
}

-- `now` and `now'` are the readings of the clock in the call.
pub data Call : Type 0 where
  adds removes : (user_id : ℕ) → Call
  says tells : (now now' sender : ℕ) (message : String) → Call
  tells_user : (now now' sender : ℕ) (message : String) (receiver : ℕ) → Call
  mutes : (now now' now_muted executor_id user_id : ℕ) (mins : ℤ) → Call
  sets_administrator : (user_id : ℕ) → Call
  unmutes kicks adds_operator removes_operator : (now now' executor_id user_id : ℕ) → Call
  removes_room : Call
  cleans : (now : ℕ) → Call

abbrev after : {A : Type 0} → Result A × Sending GroupRoom → Sending GroupRoom
after o = o.1

-- A call makes nobody the administrator whose id stands for none.
abbrev pub names_somebody : Call → Bool
names_somebody (sets_administrator u) = not (u == 0)
names_somebody _ = true

-- The room after a call, returned or not.
pub perform : Failure → Names → Call → Sending GroupRoom → Sending GroupRoom
perform relock names (adds u) s = after (add_member names u s)
perform relock names (removes u) s = after (remove_member u s)
perform relock names (says now now' u m) s = after (send_message names now now' u m s)
perform relock names (tells now now' u m) s = after (send_tip_message names unlocked now now' u m s)
perform relock names (tells_user now now' u m w) s =
    after (send_user_tip_message names now now' u m w s)
perform relock names (mutes now now' t e u mins) s =
    after (mute_user relock names now now' e u t mins s)
perform relock names (unmutes now now' e u) s = after (unmute_user relock names now now' e u s)
perform relock names (kicks now now' e u) s = after (kick_user relock names now now' e u s)
perform relock names (adds_operator now now' e u) s = after (add_operator names now now' e u s)
perform relock names (removes_operator now now' e u) s =
    after (remove_operator names now now' e u s)
perform relock names (sets_administrator u) s = after (set_administrator names u s)
perform relock names removes_room s = after (remove_this_room s)
perform relock names (cleans now) s = after (auto_clean now s)

pub run : Failure → Names → List Call → Sending GroupRoom → Sending GroupRoom
run relock names [] s = s
run relock names (c ∷ cs) s = run relock names cs (perform relock names c s)

perform-IsValidAt :
    (relock : Failure) (names : Names) (c : Call) (s : Sending GroupRoom)
    → names_somebody c ≡ true
    → ((v : ℕ) → IsValidAt v s.room)
    → (v : ℕ) → IsValidAt v (perform relock names c s).room
unfolding perform
perform-IsValidAt relock names (adds u) s named h v = add_member-IsValidAt names u v s h
perform-IsValidAt relock names (removes u) s named h v = remove_member-IsValidAt u v s (h v)
perform-IsValidAt relock names (says now now' u m) s named h v =
    send_message-IsValidAt names now now' u v m s (h v)
perform-IsValidAt relock names (tells now now' u m) s named h v =
    send_tip_message-IsValidAt names unlocked now now' u v m s (h v)
perform-IsValidAt relock names (tells_user now now' u m w) s named h v =
    send_user_tip_message-IsValidAt names now now' u w v m s (h v)
perform-IsValidAt relock names (mutes now now' t e u mins) s named h v =
    mute_user-IsValidAt names now now' e u relock t mins v s (h v)
perform-IsValidAt relock names (unmutes now now' e u) s named h v =
    unmute_user-IsValidAt names now now' e u relock v s (h v)
perform-IsValidAt relock names (kicks now now' e u) s named h v =
    kick_user-IsValidAt names now now' e u relock v s (h v)
perform-IsValidAt relock names (adds_operator now now' e u) s named h v =
    add_operator-IsValidAt names now now' e u v s (h v)
perform-IsValidAt relock names (removes_operator now now' e u) s named h v =
    remove_operator-IsValidAt names now now' e u v s (h v)
perform-IsValidAt relock names (sets_administrator u) s named h v =
    set_administrator-IsValidAt names u v s (ground (arith, named)) (h v)
perform-IsValidAt relock names removes_room s named h v = remove_this_room-IsValidAt v s (h v)
perform-IsValidAt relock names (cleans now) s named h v = auto_clean-IsValidAt now v s (h v)

run-IsValidAt :
    (relock : Failure) (names : Names) (cs : List Call) (s : Sending GroupRoom)
    → All (λ c. names_somebody c ≡ true) cs
    → ((v : ℕ) → IsValidAt v s.room)
    → (v : ℕ) → IsValidAt v (run relock names cs s).room
unfolding run
run-IsValidAt relock names [] s named h v = h v
run-IsValidAt relock names (c ∷ cs) s (named, others) h v =
    run-IsValidAt relock names cs (perform relock names c s) others
      (perform-IsValidAt relock names c s named h) v

-- In a new room and after any sequence of calls on it, whether they return or fail, the room's own
-- table and that of its TCPRoom hold the same members, the history is in order, and the place of the
-- administrator is taken. The creator has another id than 0, and so has everybody whom a call makes
-- the administrator: 0 stands for no administrator, in whose place `setAdministrator` would put a
-- user into one table only.
pub run-new_group_room-IsValidAt :
    (relock : Failure) (names : Names) (group_id creator v : ℕ) (room : GroupRoom) (cs : List Call)
    → new_group_room names group_id creator ≡ ok room
    → creator == 0 ≡ false
    → All (λ c. names_somebody c ≡ true) cs
    → IsValidAt v (run relock names cs (record { room = room; sent = [] })).room
run-new_group_room-IsValidAt relock names group_id creator v room cs e creates named =
    run-IsValidAt relock names cs (record { room = room; sent = [] }) named
      (λ w. new_group_room-IsValidAt names group_id creator w room e creates) v
