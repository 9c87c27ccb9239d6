-- ===== src/Network.antt =====
-- server/network/network.cpp: the receive loop of `Network::process` for one connection, from the end
-- of the TLS handshake on. A step is one `async_read_some` that gives a chunk of bytes; the server's
-- answer to a package (`SocketService::process`) is a parameter, which says whether it throws.
pub mod Stream
use qing_liao_chat_server.Base.{
  ℕ, ◌+◌, ◌*◌, ◌^◌, Bool, true, false, List, [], ◌∷◌, ◌++◌, not, leb, ltb, ◌==◌, if◌then◌else◌,
}
use qing_liao_chat_server.Error.{Result, ok, err}
use qing_liao_chat_server.Wire.Endian.{Bytes}
use qing_liao_chat_server.Wire.DataPackage.{DataPackage, heart_beat_type, string_to_package}
use qing_liao_chat_server.Wire.Package.{write, can_read, read}

-- The variables of the loop. `messages` has what `packageReceiver.read` gave so far, `handled` the
-- packages that went to the socket service; a closed connection has been taken from the manager.
pub record Loop : Type 0 where
  pub is_open : Bool
  pub buffer : Bytes
  pub heart_beat_times : ℕ
  pub heart_beat_time_point : ℕ
  pub messages : List Bytes
  pub handled : List DataPackage

-- `heart_beat_check_interval` in ticks of a nanosecond, and `max_heart_beat_num`.
abbrev pub heart_beat_check_interval : ℕ
heart_beat_check_interval = 10 * 10 ^ 9

abbrev pub max_heart_beat_num : ℕ
max_heart_beat_num = 10

abbrev pub new_loop : ℕ → Loop
new_loop now = record {
  is_open = true;
  buffer = [];
  heart_beat_times = 0;
  heart_beat_time_point = now;
  messages = [];
  handled = [];
}

-- "Heartbeat package"
unfoldable pub heart_beat : ℕ → Loop → Loop
heart_beat now l =
    if leb (l.heart_beat_time_point + heart_beat_check_interval) now
    then if ltb max_heart_beat_num (l.heart_beat_times + 1)
      then record l {
        is_open = false;
        heart_beat_times = l.heart_beat_times + 1;
        heart_beat_time_point = now;
      }
      else record l { heart_beat_times = 0; heart_beat_time_point = now }
    else record l { heart_beat_times = l.heart_beat_times + 1 }

module _ (serves : DataPackage → Bool) where
  -- From `stringToPackage` on; an exception ends the loop.
  unfoldable pub handle : ℕ → Bytes → Loop → Loop
  handle now message l = elim (string_to_package message) [
    | err e ↦ record l { is_open = false }
    | ok pack ↦
        if pack.type == heart_beat_type
        then heart_beat now l
        else record l { is_open = serves pack; handled = l.handled ++ (pack ∷ []) }
  ]

  -- A chunk is read: one package at most is taken off the buffer.
  unfoldable pub receive : ℕ → Bytes → Loop → Loop
  receive now chunk l =
      let buffer = write l.buffer chunk in
      if not l.is_open
      then l
      else if not (can_read buffer)
      then record l { buffer = buffer }
      else elim (read buffer).0 [
        | err e ↦ record l { is_open = false; buffer = buffer }
        | ok message ↦
            handle now message
              (record l { buffer = (read buffer).1; messages = l.messages ++ (message ∷ []) })
      ]

  -- The chunks with the times at which they are handled.
  unfoldable pub receive_all : List (ℕ × Bytes) → Loop → Loop
  receive_all [] l = l
  receive_all ((now, chunk) ∷ chunks) l = receive_all chunks (receive now chunk l)
