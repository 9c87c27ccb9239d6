-- ===== src/Wire/Package/Framing.antt =====
-- The buffer against a stream of frames (utils/network/package.hpp).
use qing_liao_chat_server.Base.{
  ℕ, ◌≤◌, ◌<◌, ◌≡◌, refl, ◌∙◌, ◌⊎◌, inl, inr, Bool-cases, ◌==◌, true, false, ◌++◌, arith, length,
  length-append, take, take-append, take-length-append, drop-length-append, take-append-drop,
  length-take,
}
use qing_liao_chat_server.Error.{Result, ok, system_error, incomplete_package, empty_length}
use qing_liao_chat_server.Wire.Endian.{Bytes, decode, swap_endianness}
use qing_liao_chat_server.Wire.Package.{first_msg_length, can_read, read}

-- A block whose first four bytes, read as a length, give its length.
pub record IsFrame (w : Bytes) : Type 0 where
  pub has_length : 4 ≤ length w
  pub whole : swap_endianness 4 (decode (take 4 w)) ≡ length w

-- Once the four bytes are there, what follows does not change the length.
pub first_msg_length-append :
    (xs ys : Bytes) → 4 ≤ length xs → first_msg_length (xs ++ ys) ≡ first_msg_length xs
unfolding first_msg_length
first_msg_length-append xs ys h = rw (take-append 4 xs ys h) (ground (arith, length-append xs ys))

-- Exactly when a package can be read, and what the length is then.
pub can_read_iff_le :
    (xs : Bytes) → can_read xs ≡ true → (4 ≤ length xs) × (first_msg_length xs ≤ length xs)
unfolding can_read first_msg_length
can_read_iff_le xs h = (ground arith, ground arith)

first_msg_length-IsFrame : (w : Bytes) → IsFrame w → first_msg_length w ≡ length w
unfolding first_msg_length
first_msg_length-IsFrame w f = ground (arith, f.whole)

can_read_whole : (xs : Bytes) → 4 ≤ length xs → first_msg_length xs ≤ length xs → can_read xs ≡ true
unfolding can_read first_msg_length
can_read_whole xs h k = ground arith

-- The buffer gives back the frame that it begins with, whole, and keeps what is behind it.
pub read-append :
    (w rest : Bytes) → IsFrame w → (can_read (w ++ rest) ≡ true) × (read (w ++ rest) ≡ (ok w, rest))
unfolding read
read-append w rest f =
    let size : first_msg_length (w ++ rest) ≡ length w =
      first_msg_length-append w rest f.has_length ∙ first_msg_length-IsFrame w f in
    let ready : can_read (w ++ rest) ≡ true =
      can_read_whole (w ++ rest) (omega (arith, length-append w rest, f.has_length))
        (omega (arith, length-append w rest, size)) in
    (
      ready,
      rw (ready, size, take-length-append w rest, drop-length-append w rest)
          (ground (arith, f.has_length)),
    )

-- A part of a frame is not readable.
pub can_read-part : (x y : Bytes) → IsFrame (x ++ y) → 0 < length y → can_read x ≡ false
unfolding can_read
can_read-part x y f h = ground (arith, take-append 4 x y, length-append x y, f.whole)

positive : (n : ℕ) → (n == 0) ≡ false → 0 < n
positive n h = ground arith

-- What a call of `read` did, by how it ended.
abbrev pub Reads : Bytes → Result Bytes × Bytes → Type 0
Reads buffer (Result.ok message, rest) =
    (message ++ rest ≡ buffer) × (length message ≡ first_msg_length buffer) × (0 < length message)
Reads buffer (Result.err e, rest) =
    (rest ≡ buffer)
    × (((e ≡ system_error incomplete_package) × (can_read buffer ≡ false))
        ⊎ ((e ≡ system_error empty_length)
            × (can_read buffer ≡ true)
            × (first_msg_length buffer ≡ 0)))

-- `read` either takes a non-empty message off the front of the buffer, of the announced length and
-- with nothing lost, or throws and leaves the buffer alone: `incomplete_package` when no package
-- can be read, `empty_length` when the announced length is zero.
pub read-Reads : (buffer : Bytes) → Reads buffer (read buffer)
unfolding read
read-Reads buffer = elim (Bool-cases (can_read buffer)) [
  | inr short ↦ rw short (refl, inl (refl, short))
  | inl ready ↦ elim (Bool-cases (first_msg_length buffer == 0)) [
    | inl empty ↦ rw (ready, empty) (refl, inr (refl, ready, ground arith))
    | inr some_bytes ↦
        rw (ready, some_bytes)
          (
            take-append-drop (first_msg_length buffer) buffer,
            length-take (first_msg_length buffer) buffer (can_read_iff_le buffer ready).1,
            omega (
              arith,
              length-take (first_msg_length buffer) buffer (can_read_iff_le buffer ready).1,
              positive (first_msg_length buffer) some_bytes,
            ),
          )
  ]
]
