-- ===== src/Client/Network/Hex.antt =====
-- The printing of bytes (testclient/network.cpp `showBinaryData`).
use qing_liao_chat_server.Base.{ℕ, ◌+◌, ◌*◌, ◌/◌, ◌%◌, ◌<◌, ◌≡◌, false, [], ◌∷◌, arith, ◌==◌}
use qing_liao_chat_server.Client.Network.{digit, hex, escaped, is_showable, show_binary_data}

-- A byte of two hexadecimal digits that is no character to be shown is written with the digits in
-- the wrong order: the lower one stands in front.
pub show_binary_data-high_byte :
    (high low : ℕ)
    → 0 < high
    → high < 16
    → low < 16
    → is_showable (16 * high + low) ≡ false
    → show_binary_data ((16 * high + low) ∷ []) ≡ 92 ∷ 120 ∷ digit low ∷ digit high ∷ []
unfolding show_binary_data escaped hex
show_binary_data-high_byte high low positive h l hidden =
    let rest : (16 * high + low) / 16 ≡ high = omega arith in
    let last : (16 * high + low) % 16 ≡ low = omega arith in
    let top : high % 16 ≡ high = omega arith in
    let some_digit : (16 * high + low) == 0 ≡ false = ground arith in
    let two_digits : (16 * high + low) / 16 == 0 ≡ false = ground (arith, rest) in
    ground (arith, hidden, some_digit, two_digits, rest, last, top)
