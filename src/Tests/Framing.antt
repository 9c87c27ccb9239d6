-- ===== src/Tests/Framing.antt =====
-- A frame and what follows it.
use qing_liao_chat_server.Base.{◌≡◌, refl, true, [], ◌∷◌, ◌++◌, arith}
use qing_liao_chat_server.Error.{ok}
use qing_liao_chat_server.Wire.Endian.{Bytes, swap_endianness}
use qing_liao_chat_server.Wire.Package.{can_read, read}
use qing_liao_chat_server.Wire.Package.Framing.{IsFrame, Reads, read-Reads, read-append}
use qing_liao_chat_server.Tests.Data.{five_bytes}

five_bytes-IsFrame : IsFrame five_bytes
unfolding swap_endianness
five_bytes-IsFrame = record { has_length = omega arith; whole = refl }

read-append_example :
    let w : Bytes = five_bytes in
    let rest : Bytes = (0 ∷ 0 ∷ []) in
    (can_read (w ++ rest) ≡ true) × (read (w ++ rest) ≡ (ok w, rest))
read-append_example = read-append five_bytes (0 ∷ 0 ∷ []) (five_bytes-IsFrame)

read-Reads_example : let buffer : Bytes = (0 ∷ 0 ∷ []) in Reads buffer (read buffer)
read-Reads_example = read-Reads (0 ∷ 0 ∷ [])
