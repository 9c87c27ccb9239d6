-- ===== src/Room/Kcp/Hearing.antt =====
-- Which sockets of a KCP room hear what is sent to it (server/room/room.cpp).
use qing_liao_chat_server.Base.{
  ℕ, String, ◌≡◌, refl, Bool, false, List, [], ◌∷◌, arith, ◌==◌, ◌||◌, if◌then◌else◌, is_some,
}
use qing_liao_chat_server.Map.{Set, lookup, id_key, lookup-insert, lookup-erase}
use qing_liao_chat_server.Room.{Names}
use qing_liao_chat_server.Room.Kcp.{
  KcpRoom, new_kcp_room, join_room, leave_room, add_socket, remove_socket, has_socket, write_all,
  send_data,
}

pub data Call : Type 0 where
  joins leaves : (user_id : ℕ) → Call
  adds removes : (socket : ℕ) → Call

pub perform : Names → Call → KcpRoom → KcpRoom
perform names (joins u) room = (join_room names u room).1
perform names (leaves u) room = leave_room u room
perform names (adds s) room = add_socket s room
perform names (removes s) room = remove_socket s room

pub run : Names → List Call → KcpRoom → KcpRoom
run names [] room = room
run names (call ∷ calls) room = run names calls (perform names call room)

-- Whether the last call about a socket added it; `before` where there is none.
abbrev pub last_added : ℕ → Bool → List Call → Bool
last_added s before [] = before
last_added s before (joins u ∷ calls) = last_added s before calls
last_added s before (leaves u ∷ calls) = last_added s before calls
last_added s before (adds t ∷ calls) = last_added s (t == s || before) calls
last_added s before (removes t ∷ calls) = last_added s (if t == s then false else before) calls

abbrev pub hears : ℕ → List (ℕ × String) → Bool
hears s [] = false
hears s ((t, text) ∷ written) = t == s || hears s written

hears-write_all :
    (text : String) (s : ℕ) (sockets : Set ℕ)
    → hears s (write_all text sockets) ≡ is_some (lookup s sockets)
unfolding write_all lookup
hears-write_all text s [] = refl
hears-write_all text s ((t, _) ∷ sockets) = ground (arith, hears-write_all text s sockets)

has_socket-perform :
    (names : Names) (s : ℕ) (call : Call) (room : KcpRoom)
    → has_socket s (perform names call room) ≡ last_added s (has_socket s room) (call ∷ [])
unfolding perform has_socket join_room leave_room add_socket remove_socket
has_socket-perform names s (joins u) room = refl
has_socket-perform names s (leaves u) room = refl
has_socket-perform names s (adds t) room = ground (arith, lookup-insert s t tt room.socket_map)
has_socket-perform names s (removes t) room = ground (arith, lookup-erase s t room.socket_map)

last_added-cons :
    (s : ℕ) (before : Bool) (call : Call) (calls : List Call)
    → last_added s before (call ∷ calls) ≡ last_added s (last_added s before (call ∷ [])) calls
last_added-cons s before (joins u) calls = refl
last_added-cons s before (leaves u) calls = refl
last_added-cons s before (adds t) calls = refl
last_added-cons s before (removes t) calls = refl

has_socket-run :
    (names : Names) (s : ℕ) (calls : List Call) (room : KcpRoom)
    → has_socket s (run names calls room) ≡ last_added s (has_socket s room) calls
unfolding run
has_socket-run names s [] room = refl
has_socket-run names s (call ∷ calls) room = ground (
  arith,
  has_socket-run names s calls (perform names call room),
  has_socket-perform names s call room,
  last_added-cons s (has_socket s room) call calls,
)

-- After any sequence of calls on a new KCP room, what is sent is written to a socket exactly if the
-- last call about the socket added it, whoever has joined or left.
pub hears-send_data :
    (names : Names) (text : String) (s : ℕ) (calls : List Call)
    → hears s (send_data text (run names calls new_kcp_room)) ≡ last_added s false calls
unfolding send_data has_socket lookup
hears-send_data names text s calls = ground (
  arith,
  hears-write_all text s (run names calls new_kcp_room).socket_map,
  has_socket-run names s calls new_kcp_room,
)
