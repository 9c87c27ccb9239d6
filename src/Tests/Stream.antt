-- ===== src/Tests/Stream.antt =====
-- Chunks on a connection.
use qing_liao_chat_server.Base.{ℕ, ◌≡◌, refl, Bool, true, List, [], ◌∷◌, ◌++◌, concat, map, arith}
use qing_liao_chat_server.Wire.Endian.{Bytes}
use qing_liao_chat_server.Wire.DataPackage.{DataPackage, string_to_package}
use qing_liao_chat_server.Wire.Package.{write, can_read}
use qing_liao_chat_server.Wire.Package.Framing.{IsFrame}
use qing_liao_chat_server.Network.{Loop, new_loop, receive, receive_all}
use qing_liao_chat_server.Network.Stream.{
  Arrival, concat-receive_all, handled-receive_all, receive-append,
}
use qing_liao_chat_server.Tests.Data.{wire, one_package}
use qing_liao_chat_server.Wire.Endian.{swap_endianness}
use qing_liao_chat_server.Wire.DataPackage.{load}
use qing_liao_chat_server.Wire.DataPackage.{swap_fields}

abbrev served : DataPackage → Bool
served pack = true

wire-IsFrame : IsFrame wire
unfolding swap_endianness
wire-IsFrame = record { has_length = omega arith; whole = refl }

concat-receive_all_example :
    let serves : DataPackage → Bool = served in
    let started : ℕ = 0 in
    let chunks : List (ℕ × Bytes) = ((1, 0 ∷ 0 ∷ []) ∷ (2, 0 ∷ []) ∷ []) in
    let t = receive_all serves chunks (new_loop started) in
    concat t.messages ++ t.buffer ≡ concat (map (λ entry. entry.1) chunks)
unfolding receive receive_all can_read write
concat-receive_all_example = concat-receive_all served 0 ((1, 0 ∷ 0 ∷ []) ∷ (2, 0 ∷ []) ∷ []) refl

receive-append_example :
    let serves : DataPackage → Bool = served in
    let now : ℕ = 1 in
    let frame : Bytes = wire in
    let rest : Bytes = wire in
    let pack : DataPackage = one_package in
    let l : Loop = (new_loop 0) in
    let t = receive serves now (frame ++ rest) l in
    (t.handled ≡ l.handled ++ (pack ∷ []))
    × (t.buffer ≡ rest)
    × (t.messages ≡ l.messages ++ (frame ∷ []))
    × (t.is_open ≡ serves pack)
unfolding string_to_package load swap_fields swap_endianness
receive-append_example =
    receive-append served 1 wire wire one_package (new_loop 0) refl refl (wire-IsFrame) refl refl

handled-receive_all_example :
    let serves : DataPackage → Bool = served in
    let arrivals : List Arrival = ((1, (wire, one_package)) ∷ (2, (wire, one_package)) ∷ []) in
    let l : Loop = (new_loop 0) in
    let t = receive_all serves (map (λ a. (a.0, a.1.0)) arrivals) l in
    (t.handled ≡ l.handled ++ map (λ a. a.1.1) arrivals) × (t.buffer ≡ []) × (t.is_open ≡ true)
unfolding string_to_package load swap_fields swap_endianness
handled-receive_all_example =
    handled-receive_all served ((1, (wire, one_package)) ∷ (2, (wire, one_package)) ∷ [])
      (new_loop 0) refl refl
      ((wire-IsFrame, refl, refl, refl), ((wire-IsFrame, refl, refl, refl), tt))
