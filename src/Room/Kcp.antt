-- ===== src/Room/Kcp.antt =====
-- KCPRoom of server/room/room.h and room.cpp: users and sockets are apart, and what is sent goes to
-- the sockets. A socket is its number; writing to it is I/O, so a send gives the list of the sockets
-- with what is written. The second `sendData`, for one user, does nothing.
pub mod Hearing
use qing_liao_chat_server.Base.{ℕ, String, Bool, true, false, List, [], ◌∷◌, if◌then◌else◌, is_some}
use qing_liao_chat_server.Error.{Action, Result}
use qing_liao_chat_server.Map.{Set, contains, emplace, erase, id_key}
use qing_liao_chat_server.Room
use qing_liao_chat_server.Room.{Names}

pub record KcpRoom : Type 0 where
  pub user_map : Set ℕ
  pub socket_map : Set ℕ

abbrev pub new_kcp_room : KcpRoom
new_kcp_room = record { user_map = []; socket_map = [] }

-- `joinRoom`, `hasUser` and `leaveRoom` have the text of `TCPRoom`.
pub join_room : Names → ℕ → Action KcpRoom (Unit {0})
join_room names user_id room =
    let (r, users) = Room.join_room names user_id room.user_map in
    (r, record room { user_map = users })

pub has_user : ℕ → KcpRoom → Bool
has_user user_id room = contains user_id room.user_map

pub leave_room : ℕ → KcpRoom → KcpRoom
leave_room user_id room = record room { user_map = Room.leave_room user_id room.user_map }

pub add_socket : ℕ → KcpRoom → KcpRoom
add_socket socket room = record room { socket_map = emplace socket tt room.socket_map }

pub has_socket : ℕ → KcpRoom → Bool
has_socket socket room = contains socket room.socket_map

pub remove_socket : ℕ → KcpRoom → KcpRoom
remove_socket socket room =
    if contains socket room.socket_map
    then record room { socket_map = erase socket room.socket_map }
    else room

pub write_all : String → Set ℕ → List (ℕ × String)
write_all text [] = []
write_all text ((socket, _) ∷ sockets) = (socket, text) ∷ write_all text sockets

-- `sendData(data)`
pub send_data : String → KcpRoom → List (ℕ × String)
send_data text room = write_all text room.socket_map

-- `sendData(data, user_id)`
pub send_data_to : String → ℕ → KcpRoom → List (ℕ × String)
send_data_to text user_id room = []
