-- ===== src/Wire/DataPackage.antt =====
-- utils/network/dataPackage.hpp: the 24-byte header (packed: length, type, sequence size and
-- sequence of four bytes each, request id of eight) with the data behind it. A field is its bit
-- pattern; a package is the memory block that `makePackage` and `stringToPackage` allocate.
pub mod RoundTrip
use qing_liao_chat_server.Base.{
  ℕ, ◌+◌, ◌-◌, ◌%◌, ◌^◌, ◌++◌, ◌||◌, not, arith, ltb, ◌==◌, if◌then◌else◌, length, take, drop,
}
use qing_liao_chat_server.Error.{
  Result, ok, err, throw, invalid_data, data_too_small, undefined_behaviour,
}
use qing_liao_chat_server.Wire.Endian.{Bytes, encode, decode, swap_endianness}

-- `DataPackageType`, as the numbers that the header carries.
abbrev pub unknown_type : ℕ
unknown_type = 0

abbrev pub text_type : ℕ
text_type = 1

abbrev pub binary_type : ℕ
binary_type = 2

abbrev pub file_stream_type : ℕ
file_stream_type = 3

abbrev pub heart_beat_type : ℕ
heart_beat_type = 4

pub record DataPackage : Type 0 where
  pub length_field : ℕ
  pub type : ℕ
  pub sequence_size : ℕ
  pub sequence : ℕ
  pub request_id : ℕ
  pub payload : Bytes

-- `sizeof(DataPackage)`
abbrev pub header_size : ℕ
header_size = 24

-- The bytes of the block.
unfoldable pub memory : DataPackage → Bytes
memory p =
    encode 4 p.length_field
    ++ (encode 4 p.type
        ++ (encode 4 p.sequence_size
            ++ (encode 4 p.sequence ++ (encode 8 p.request_id ++ p.payload))))

-- The block that such bytes make: `memcpy(package.get(), data.data(), size)`.
unfoldable pub load : Bytes → DataPackage
load bs =
    let r1 = drop 4 bs in
    let r2 = drop 4 r1 in
    let r3 = drop 4 r2 in
    let r4 = drop 4 r3 in
    record {
      length_field = decode (take 4 bs);
      type = decode (take 4 r1);
      sequence_size = decode (take 4 r2);
      sequence = decode (take 4 r3);
      request_id = decode (take 8 r4);
      payload = drop 8 r4;
    }

-- "Endianness conversion" of both directions.
unfoldable pub swap_fields : DataPackage → DataPackage
swap_fields p = record {
  length_field = swap_endianness 4 p.length_field;
  type = swap_endianness 4 p.type;
  sequence_size = swap_endianness 4 p.sequence_size;
  sequence = swap_endianness 4 p.sequence;
  request_id = swap_endianness 8 p.request_id;
  payload = p.payload;
}

-- `makePackage`; the cast of the length to 32 bits wraps.
unfoldable pub make_package : Bytes → ℕ → ℕ → ℕ → ℕ → DataPackage
make_package bs type sequence_size sequence request_id = record {
  length_field = (header_size + length bs) % 2 ^ 32;
  type = type;
  sequence_size = sequence_size;
  sequence = sequence;
  request_id = request_id;
  payload = bs;
}

-- `packageToString`: `length` bytes of the block are copied and the header of the copy is swapped
-- in place. A length that leaves the block, or a copy without room for the header, is undefined.
unfoldable pub package_to_string : DataPackage → Result Bytes
package_to_string p =
    if ltb p.length_field header_size || ltb (header_size + length p.payload) p.length_field
    then err undefined_behaviour
    else ok (memory (swap_fields (load (take p.length_field (memory p)))))

-- `stringToPackage`
unfoldable pub string_to_package : Bytes → Result DataPackage
string_to_package bs =
    if ltb (length bs) header_size
    then throw data_too_small
    else let size = swap_endianness 4 (decode (take 4 bs)) in
      if not (size == length bs) || ltb size header_size
      then throw invalid_data
      else ok (swap_fields (load bs))

-- `getPackageSize`, `getDataSize` and `getData`.
pub get_package_size : DataPackage → ℕ
get_package_size p = p.length_field

pub get_data_size : DataPackage → ℕ
get_data_size p = (p.length_field + 2 ^ 64 - header_size) % 2 ^ 64

pub get_data : DataPackage → Result Bytes
unfolding get_data_size
get_data p =
    if ltb (length p.payload) (get_data_size p)
    then err undefined_behaviour
    else ok (take (get_data_size p) p.payload)
