-- ===== src/Wire/Endian.antt =====
-- utils/networkEndianness.hpp: `swapEndianness` on a little-endian host. An integer of `size` bytes
-- is its bit pattern, a number below 256 ^ size; a signed one is the same pattern.
use qing_liao_chat_server.Base.{
  ℕ, zero, suc, ◌+◌, ◌*◌, ◌/◌, ◌%◌, ◌^◌, ◌<◌, ◌≡◌, ap, subst, ◌∙◌, List, [], ◌∷◌, arith,
}
use mathlib.Core.List.{reverse}

abbrev pub Bytes : Type 0
Bytes = List ℕ

-- The bytes of an integer in the memory of the host, and the integer that such bytes make.
abbrev pub encode : ℕ → ℕ → Bytes
encode zero value = []
encode (suc size) value = (value % 256) ∷ encode size (value / 256)

abbrev pub decode : Bytes → ℕ
decode [] = 0
decode (b ∷ bs) = b + 256 * decode bs

-- `result = (result << 8) | ((value >> (8 * i)) & 0xFF)` for the rounds that are left. The low byte
-- of `result << 8` is zero, so `|` adds.
pub swap_loop : ℕ → ℕ → ℕ → ℕ → ℕ → ℕ
swap_loop size zero i value result = result
swap_loop size (suc rounds) i value result =
    swap_loop size rounds (i + 1) value ((result * 256) % 256 ^ size + value / 256 ^ i % 256)

unfoldable pub swap_endianness : ℕ → ℕ → ℕ
unfolding swap_loop
swap_endianness size value = swap_loop size size 0 value 0

-- The four or eight bytes of an integer are turned round.
pub swap_endianness-encode :
    (v w : ℕ)
    → v < 256 ^ 4
    → w < 256 ^ 8
    → (encode 4 (swap_endianness 4 v) ≡ reverse (encode 4 v))
      × (encode 8 (swap_endianness 8 w) ≡ reverse (encode 8 w))
unfolding swap_endianness
swap_endianness-encode v w hv hw = (ground arith, ground arith)

-- The same on the bytes, each below 256.
pub swap_four :
    {a b c d : ℕ}
    → a < 256
    → b < 256
    → c < 256
    → d < 256
    → swap_endianness 4 (decode (a ∷ b ∷ c ∷ d ∷ [])) ≡ decode (d ∷ c ∷ b ∷ a ∷ [])
unfolding swap_endianness
swap_four ha hb hc hd = omega arith

pub swap_eight :
    {a b c d e f g h : ℕ}
    → a < 256
    → b < 256
    → c < 256
    → d < 256
    → e < 256
    → f < 256
    → g < 256
    → h < 256
    → swap_endianness 8 (decode (a ∷ b ∷ c ∷ d ∷ e ∷ f ∷ g ∷ h ∷ []))
      ≡ decode (h ∷ g ∷ f ∷ e ∷ d ∷ c ∷ b ∷ a ∷ [])
unfolding swap_endianness
swap_eight ha hb hc hd he hf hg hh = omega arith

pub decode-encode :
    (v w : ℕ) → v < 256 ^ 4 → w < 256 ^ 8 → (decode (encode 4 v) ≡ v) × (decode (encode 8 w) ≡ w)
decode-encode v w hv hw = (omega arith, omega arith)

pub swap_endianness-lt :
    (v w : ℕ) → (swap_endianness 4 v < 256 ^ 4) × (swap_endianness 8 w < 256 ^ 8)
unfolding swap_endianness
swap_endianness-lt v w = (omega arith, omega arith)

low : (v : ℕ) → v % 256 < 256
low v = omega arith

-- Swapping twice gives the integer back, at both widths that the header uses.
pub swap_endianness_involutive :
    (v w : ℕ)
    → v < 256 ^ 4
    → w < 256 ^ 8
    → (swap_endianness 4 (swap_endianness 4 v) ≡ v) × (swap_endianness 8 (swap_endianness 8 w) ≡ w)
swap_endianness_involutive v w hv hw = (
  subst (λ x. swap_endianness 4 (swap_endianness 4 x) ≡ x) (decode-encode v w hv hw).0
      (ap (swap_endianness 4) (swap_four (low _) (low _) (low _) (low _))
        ∙ swap_four (low _) (low _) (low _) (low _)),
  subst (λ x. swap_endianness 8 (swap_endianness 8 x) ≡ x) (decode-encode v w hv hw).1
      (ap (swap_endianness 8)
          (swap_eight (low _) (low _) (low _) (low _) (low _) (low _) (low _) (low _))
        ∙ swap_eight (low _) (low _) (low _) (low _) (low _) (low _) (low _) (low _)),
)
