-- ===== src/Storage/RecordBlob.antt =====
-- src/storage/record_blob.cpp: the framing of a fixed-capacity array of records.
-- A buffer is the list of its bytes. The records are given and returned as one buffer.
pub mod Checksum
pub mod RoundTrip
use matrix_faces.Common.{
  ℕ, zero, suc, ◌+◌, ◌-◌, ◌*◌, ◌/◌, ◌%◌, ◌^◌, bit_and, bit_xor, Bool, true, false, not, ◌||◌, List,
  [], ◌∷◌, ◌++◌, Option, none, some, ltb, ◌==◌, if◌then◌else◌, Bytes, codes, length, get_or, take,
  drop, replicate,
}

-- `readU32` and `readU16` at an offset: disjoint fields, so `|` is `+`.
unfoldable pub read_u32 : Bytes → ℕ → ℕ
read_u32 p i =
    get_or p i 0
    + get_or p (i + 1) 0 * 2 ^ 8
    + get_or p (i + 2) 0 * 2 ^ 16
    + get_or p (i + 3) 0 * 2 ^ 24

unfoldable pub read_u16 : Bytes → ℕ → ℕ
read_u16 p i = get_or p i 0 + get_or p (i + 1) 0 * 2 ^ 8

-- `writeU32` and `writeU16`.
unfoldable pub write_u32 : ℕ → Bytes
write_u32 value =
    value % 256 ∷ value / 2 ^ 8 % 256 ∷ value / 2 ^ 16 % 256 ∷ value / 2 ^ 24 % 256 ∷ []

unfoldable pub write_u16 : ℕ → Bytes
write_u16 value = value % 256 ∷ value / 2 ^ 8 % 256 ∷ []

-- One bit of the inner loop of `crc32`: the mask is all ones if the low bit is set.
pub crc_bit : ℕ → ℕ
crc_bit crc =
    let mask = 2 ^ 32 - 1 - (crc % 2 + 2 ^ 32 - 1) % 2 ^ 32 in
    bit_xor (crc / 2) (bit_and 0xedb88320 mask)

-- `for (bit = 0; bit < 8; ++bit)`.
pub crc_bits : ℕ → ℕ → ℕ
unfolding crc_bit
crc_bits zero crc = crc
crc_bits (suc n) crc = crc_bits n (crc_bit crc)

pub crc_bytes : ℕ → Bytes → ℕ
unfolding crc_bits
crc_bytes crc [] = crc
crc_bytes crc (b ∷ bs) = crc_bytes (crc_bits 8 (bit_xor crc b)) bs

-- `crc32`.
unfoldable pub crc32 : Bytes → ℕ
unfolding crc_bytes
crc32 bytes = 2 ^ 32 - 1 - crc_bytes 0xffffffff bytes

-- `framedSize`.
abbrev pub framed_size : ℕ → ℕ → ℕ
framed_size record_size max_records = 8 + record_size * max_records + 4

-- All that stands before the checksum.
abbrev pub frame : ℕ → ℕ → Bytes → ℕ → ℕ → ℕ → Bytes
frame magic version records record_size max_records count =
    write_u32 magic
    ++ (write_u16 version
        ++ (write_u16 count
            ++ (take (record_size * count) records
                ++ replicate (record_size * max_records - record_size * count) 0)))

-- `serialize`: `none` is false. The rest of a longer output buffer is not written.
unfoldable pub serialize : ℕ → ℕ → ℕ → Bytes → ℕ → ℕ → ℕ → Option Bytes
serialize out_cap magic version records record_size max_records count =
    if ltb out_cap (framed_size record_size max_records) || ltb max_records count
    then none
    else (let body = frame magic version records record_size max_records count in
        some (body ++ write_u32 (crc32 body)))

-- `ParseResult`; `ok` carries what is written to `records` and `outCount`, and the others write
-- nothing.
pub data ParseResult : Type 0 where
  ok : Bytes → ℕ → ParseResult
  too_short no_data bad_checksum bad_count : ParseResult

-- `parse`.
unfoldable pub parse : Bytes → ℕ → ℕ → ℕ → ℕ → ParseResult
parse input magic version record_size max_records =
    let crc_offset = framed_size record_size max_records - 4 in
    let count = read_u16 input 6 in
    if ltb (length input) (framed_size record_size max_records)
    then too_short
    else if not (read_u32 input 0 == magic)
    then no_data
    else if not (read_u16 input 4 == version)
    then no_data
    else if not (read_u32 input crc_offset == crc32 (take crc_offset input))
    then bad_checksum
    else if ltb max_records count
    then bad_count
    else ok (take (record_size * count) (drop 8 input)) count

-- `describe`, without the line for values that the enumeration does not have.
abbrev pub describe : ParseResult → Bytes
describe (ok records count) = codes "ok"
describe too_short = codes "blob shorter than its framing"
describe no_data = codes "no stored data"
describe bad_checksum = codes "stored data failed checksum, ignoring"
describe bad_count = codes "stored count out of range, ignoring"
