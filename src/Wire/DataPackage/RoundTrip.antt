-- ===== src/Wire/DataPackage/RoundTrip.antt =====
-- Writing a package and reading it back, both ways round (utils/network/dataPackage.hpp).
use qing_liao_chat_server.Base.{
  ℕ, zero, suc, ◌+◌, ◌-◌, ◌*◌, ◌/◌, ◌%◌, ◌^◌, ◌<◌, ◌≤◌, ◌≡◌, refl, ap, sym, subst, ◌∙◌, [], ◌∷◌,
  ◌++◌, arith, length, take, drop, length-drop, All,
}
use native.Mathlib.Nat.{pow-suc}
use qing_liao_chat_server.Error.{ok}
use qing_liao_chat_server.Wire.Endian.{
  Bytes, encode, decode, swap_endianness, decode-encode, swap_endianness_involutive,
  swap_endianness-lt,
}
use qing_liao_chat_server.Wire.DataPackage.{
  DataPackage, memory, load, swap_fields, make_package, package_to_string, string_to_package,
  get_data, header_size,
}

abbrev pub IsByte : ℕ → Type 0
IsByte b = b < 256

-- The fields fit their widths.
pub record Fits (p : DataPackage) : Type 0 where
  pub length_fits : p.length_field < 256 ^ 4
  pub type_fits : p.type < 256 ^ 4
  pub sequence_size_fits : p.sequence_size < 256 ^ 4
  pub sequence_fits : p.sequence < 256 ^ 4
  pub request_id_fits : p.request_id < 256 ^ 8

swap_fields-Fits : (p : DataPackage) → Fits (swap_fields p)
unfolding swap_fields
swap_fields-Fits p = record {
  length_fits = (swap_endianness-lt p.length_field 0).0;
  type_fits = (swap_endianness-lt p.type 0).0;
  sequence_size_fits = (swap_endianness-lt p.sequence_size 0).0;
  sequence_fits = (swap_endianness-lt p.sequence 0).0;
  request_id_fits = (swap_endianness-lt 0 p.request_id).1;
}

swap_fields_twice : (p : DataPackage) → Fits p → swap_fields (swap_fields p) ≡ p
unfolding swap_fields
swap_fields_twice p h = λ i. record {
  length_field = (swap_endianness_involutive p.length_field 0 h.length_fits (omega arith)).0 i;
  type = (swap_endianness_involutive p.type 0 h.type_fits (omega arith)).0 i;
  sequence_size =
      (swap_endianness_involutive p.sequence_size 0 h.sequence_size_fits (omega arith)).0 i;
  sequence = (swap_endianness_involutive p.sequence 0 h.sequence_fits (omega arith)).0 i;
  request_id = (swap_endianness_involutive 0 p.request_id (omega arith) h.request_id_fits).1 i;
  payload = p.payload;
}

load-memory : (p : DataPackage) → Fits p → load (memory p) ≡ p
unfolding load memory
load-memory p h = λ i. record {
  length_field = (decode-encode p.length_field 0 h.length_fits (omega arith)).0 i;
  type = (decode-encode p.type 0 h.type_fits (omega arith)).0 i;
  sequence_size = (decode-encode p.sequence_size 0 h.sequence_size_fits (omega arith)).0 i;
  sequence = (decode-encode p.sequence 0 h.sequence_fits (omega arith)).0 i;
  request_id = (decode-encode 0 p.request_id (omega arith) h.request_id_fits).1 i;
  payload = p.payload;
}

length-memory : (p : DataPackage) → length (memory p) ≡ header_size + length p.payload
unfolding memory
length-memory p = omega arith

take_all : (bs : Bytes) (n : ℕ) → n ≡ length bs → take n bs ≡ bs
take_all [] zero h = refl
take_all [] (suc n) h = refl
take_all (b ∷ bs) zero h = absurd (omega arith)
take_all (b ∷ bs) (suc n) h = ap (◌∷◌ b) (take_all bs n (omega arith))

-- A block whose length field is its length is written whole.
package_to_string_whole :
    (p : DataPackage)
    → Fits p
    → p.length_field ≡ header_size + length p.payload
    → package_to_string p ≡ ok (memory (swap_fields p))
unfolding package_to_string
package_to_string_whole p h e =
    let whole : take p.length_field (memory p) ≡ memory p =
      take_all (memory p) p.length_field (e ∙ sym (length-memory p)) in
    rw (whole, load-memory p h) (ground arith)

-- The length that `string_to_package` reads.
read_size :
    (p : DataPackage)
    → p.length_field < 256 ^ 4
    → swap_endianness 4 (decode (take 4 (memory (swap_fields p)))) ≡ p.length_field
unfolding memory swap_fields
read_size p h =
    ap (swap_endianness 4)
      (decode-encode (swap_endianness 4 p.length_field) 0 (swap_endianness-lt p.length_field 0).0
        (omega arith)).0
    ∙ (swap_endianness_involutive p.length_field 0 h (omega arith)).0

payload-swap_fields : (p : DataPackage) → (swap_fields p).payload ≡ p.payload
unfolding swap_fields
payload-swap_fields p = refl

string_to_package_whole :
    (p : DataPackage)
    → Fits p
    → p.length_field ≡ header_size + length p.payload
    → string_to_package (memory (swap_fields p)) ≡ ok p
unfolding string_to_package
string_to_package_whole p h e =
    let q = swap_fields p in
    rw (load-memory q (swap_fields-Fits p), swap_fields_twice p h, read_size p h.length_fits)
      (ground (arith, length-memory q, ap length (payload-swap_fields p)))

refill :
    (n : ℕ) (bs : Bytes)
    → n ≤ length bs
    → All IsByte bs
    → encode n (decode (take n bs)) ++ drop n bs ≡ bs
refill zero bs h v = refl
refill (suc n) [] h v = absurd (omega arith)
refill (suc n) (b ∷ bs) h v =
    let here : (b + 256 * decode (take n bs)) % 256 ≡ b = omega (arith, v.0) in
    let rest : (b + 256 * decode (take n bs)) / 256 ≡ decode (take n bs) = omega (arith, v.0) in
    rw (here, rest) (ap (◌∷◌ b) (refill n bs (omega arith) v.1))

All-drop : (n : ℕ) (bs : Bytes) → All IsByte bs → All IsByte (drop n bs)
All-drop zero bs v = v
All-drop (suc n) [] v = tt
All-drop (suc n) (b ∷ bs) v = All-drop n bs v.1

-- The bytes of a block that was loaded from bytes.
memory-load : (bs : Bytes) → header_size ≤ length bs → All IsByte bs → memory (load bs) ≡ bs
unfolding memory load
memory-load bs h v =
    let r1 = drop 4 bs in
    let r2 = drop 4 r1 in
    let r3 = drop 4 r2 in
    let r4 = drop 4 r3 in
    let v1 = All-drop 4 bs v in
    let v2 = All-drop 4 r1 v1 in
    let v3 = All-drop 4 r2 v2 in
    let v4 = All-drop 4 r3 v3 in
    let l1 : length r1 ≡ length bs - 4 = length-drop 4 bs in
    let l2 : length r2 ≡ length r1 - 4 = length-drop 4 r1 in
    let l3 : length r3 ≡ length r2 - 4 = length-drop 4 r2 in
    let l4 : length r4 ≡ length r3 - 4 = length-drop 4 r3 in
    ap (λ x. encode 4 (decode (take 4 bs)) ++ x)
      (ap (λ x. encode 4 (decode (take 4 r1)) ++ x)
          (ap (λ x. encode 4 (decode (take 4 r2)) ++ x)
              (ap (λ x. encode 4 (decode (take 4 r3)) ++ x) (refill 8 r4 (omega arith) v4)
                ∙ refill 4 r3 (omega arith) v3)
            ∙ refill 4 r2 (omega arith) v2)
        ∙ refill 4 r1 (omega arith) v1)
    ∙ refill 4 bs (omega arith) v

-- What a received block comes to: the checks of `string_to_package` in one statement.
string_to_package_inv :
    (bs : Bytes) {p : DataPackage}
    → string_to_package bs ≡ ok p
    → (p ≡ swap_fields (load bs)) × (p.length_field ≡ length bs) × (header_size ≤ length bs)
unfolding string_to_package load swap_fields
string_to_package_inv bs h = ground arith

swap_fields-length :
    (bs : Bytes)
    → header_size ≤ length bs
    → length (swap_fields (load bs)).payload + header_size ≡ length bs
unfolding swap_fields load
swap_fields-length bs h = omega (
  arith,
  length-drop 4 bs,
  length-drop 4 (drop 4 bs),
  length-drop 4 (drop 4 (drop 4 bs)),
  length-drop 8 (drop 4 (drop 4 (drop 4 (drop 4 bs)))),
  length-drop 4 (drop 4 (drop 4 (drop 4 bs))),
)

decode-lt : (n : ℕ) (bs : Bytes) → All IsByte bs → decode (take n bs) < 256 ^ n
decode-lt zero bs v = omega arith
decode-lt (suc n) [] v = omega (arith, decode-lt n [] tt, pow-suc 256 n)
decode-lt (suc n) (b ∷ bs) v = omega (arith, decode-lt n bs v.1, pow-suc 256 n, v.0)

load-Fits : (bs : Bytes) → All IsByte bs → Fits (load bs)
unfolding load
load-Fits bs v =
    let v1 = All-drop 4 bs v in
    let v2 = All-drop 4 (drop 4 bs) v1 in
    let v3 = All-drop 4 (drop 4 (drop 4 bs)) v2 in
    let v4 = All-drop 4 (drop 4 (drop 4 (drop 4 bs))) v3 in
    record {
      length_fits = decode-lt 4 bs v;
      type_fits = decode-lt 4 (drop 4 bs) v1;
      sequence_size_fits = decode-lt 4 (drop 4 (drop 4 bs)) v2;
      sequence_fits = decode-lt 4 (drop 4 (drop 4 (drop 4 bs))) v3;
      request_id_fits = decode-lt 8 (drop 4 (drop 4 (drop 4 (drop 4 bs)))) v4;
    }

-- A byte string that `stringToPackage` accepts is what `packageToString` makes of the package.
pub package_to_string-string_to_package :
    (bs : Bytes) (p : DataPackage)
    → All IsByte bs
    → string_to_package bs ≡ ok p
    → package_to_string p ≡ ok bs
package_to_string-string_to_package bs p v h =
    let (loaded, size, room) = string_to_package_inv bs h in
    let back : swap_fields p ≡ load bs =
      ap swap_fields loaded ∙ swap_fields_twice (load bs) (load-Fits bs v) in
    package_to_string_whole p (subst Fits (sym loaded) (swap_fields-Fits (load bs)))
      (omega (arith, swap_fields-length bs room, ap (λ x. length x.payload) loaded))
    ∙ ap ok (ap memory back ∙ memory-load bs room v)

get_data_size-make_package :
    (bs : Bytes)
    → header_size + length bs < 256 ^ 4
    → ((header_size + length bs) % 2 ^ 32 + 2 ^ 64 - header_size) % 2 ^ 64 ≡ length bs
get_data_size-make_package bs h = omega arith

-- A package that `makePackage` makes of data that fits a 32-bit length, with fields that fit their
-- widths, can be turned into bytes; `stringToPackage` gives the same package back for them, and
-- `getData` the data.
pub string_to_package-package_to_string :
    (bs : Bytes) (type sequence_size sequence request_id : ℕ)
    → header_size + length bs < 256 ^ 4
    → type < 256 ^ 4
    → sequence_size < 256 ^ 4
    → sequence < 256 ^ 4
    → request_id < 256 ^ 8
    → let p = make_package bs type sequence_size sequence request_id in
      (wire : Bytes) × (package_to_string p ≡ ok wire)
      × (string_to_package wire ≡ ok p)
      × (get_data p ≡ ok bs)
unfolding make_package get_data
string_to_package-package_to_string bs type sequence_size sequence request_id hl ht hs hq hr =
    let p = make_package bs type sequence_size sequence request_id in
    let fits : Fits p = record {
      length_fits = omega arith;
      type_fits = ht;
      sequence_size_fits = hs;
      sequence_fits = hq;
      request_id_fits = hr;
    } in
    let whole : p.length_field ≡ header_size + length bs = omega arith in
    (
      memory (swap_fields p),
      package_to_string_whole p fits whole,
      string_to_package_whole p fits whole,
      rw (get_data_size-make_package bs hl, take_all bs (length bs) refl) (ground arith),
    )
