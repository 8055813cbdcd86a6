-- ===== src/Tests/Storage.antt =====
-- src/storage on concrete inputs.
use matrix_faces.Common.{◌-◌, ◌*◌, ◌≤◌, ◌≡◌, refl, arith, [], ◌∷◌, ◌++◌, some, Bytes, length, take}
use matrix_faces.Storage.RecordBlob.{
  read_u32, read_u16, write_u32, write_u16, crc32, framed_size, serialize, parse, ok,
}
use matrix_faces.Storage.RecordBlob.RoundTrip.{parse-serialize, parse_ok}
use matrix_faces.Storage.QuietTimer.{QuietTimer, fresh}

abbrev records : Bytes
records = 7 ∷ 8 ∷ []

abbrev blob : Bytes
blob = 0xef ∷ 0xbe ∷ 0xad ∷ 0xde ∷ 3 ∷ 0 ∷ 1 ∷ 0 ∷ 7 ∷ 8 ∷ 0 ∷ 0 ∷ 254 ∷ 169 ∷ 93 ∷ 26 ∷ []

written : serialize 16 0xdeadbeef 3 (7 ∷ 8 ∷ []) 2 2 1 ≡ some blob
unfolding serialize write_u32 write_u16 crc32
written = refl

parse-serialize_example : parse (blob ++ 9 ∷ []) 0xdeadbeef 3 2 2 ≡ ok (7 ∷ 8 ∷ []) 1
parse-serialize_example =
    parse-serialize 0xdeadbeef 3 2 2 1 (7 ∷ 8 ∷ []) (omega arith) (omega arith) (omega arith)
      (omega arith) refl 16 (9 ∷ []) written

read : parse blob 0xdeadbeef 3 2 2 ≡ ok (7 ∷ 8 ∷ []) 1
unfolding parse read_u32 read_u16 crc32
read = refl

parse_ok_example :
    (framed_size 2 2 ≤ length blob)
    × (read_u32 blob 0 ≡ 0xdeadbeef)
    × (read_u16 blob 4 ≡ 3)
    × (read_u32 blob (framed_size 2 2 - 4) ≡ crc32 (take (framed_size 2 2 - 4) blob))
    × (1 ≤ 2)
    × (length records ≡ 2 * 1)
parse_ok_example = parse_ok blob 0xdeadbeef 3 2 2 read

abbrev timer : QuietTimer
timer = fresh 2000
