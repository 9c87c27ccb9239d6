-- ===== src/Wire/Package.antt =====
-- utils/network/package.hpp: the buffer that cuts the byte stream of a connection into packages,
-- for T = std::uint32_t (`DataPackage::LengthType`), the only type that the program uses.
pub mod Framing
use qing_liao_chat_server.Base.{
  ℕ, Bool, true, false, ◌++◌, arith, ltb, leb, ◌==◌, if◌then◌else◌, length, take, drop, not,
}
use qing_liao_chat_server.Error.{Action, Result, ok, err, raise, incomplete_package, empty_length}
use qing_liao_chat_server.Wire.Endian.{Bytes, decode, swap_endianness}

-- `m_buffer` is the whole state.
unfoldable pub write : Bytes → Bytes → Bytes
write buffer bs = buffer ++ bs

-- `firstMsgLength`
pub first_msg_length : Bytes → ℕ
first_msg_length buffer =
    if ltb (length buffer) 4 then 0 else swap_endianness 4 (decode (take 4 buffer))

-- `canRead`
unfoldable pub can_read : Bytes → Bool
can_read buffer =
    if ltb (length buffer) 4
    then false
    else leb (swap_endianness 4 (decode (take 4 buffer))) (length buffer)

-- `read`: all three overloads, which differ in where the result is put.
unfoldable pub read : Action Bytes Bytes
read buffer =
    if not (can_read buffer)
    then raise incomplete_package buffer
    else if first_msg_length buffer == 0
    then raise empty_length buffer
    else (ok (take (first_msg_length buffer) buffer), drop (first_msg_length buffer) buffer)
