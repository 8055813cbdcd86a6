-- ===== src/Storage/RecordBlob/Checksum.antt =====
-- src/storage/record_blob.cpp: the checksum is a 32-bit number.
use matrix_faces.Common.{ℕ, zero, suc, ◌/◌, ◌^◌, ◌<◌, arith, Bytes, AllBytes, [], ◌∷◌}
use native.Mathlib.Nat.{le_refl}
use matrix_faces.Common.Bits.{bit_xor-lt, bit_and-le}
use matrix_faces.Storage.RecordBlob.{crc_bit, crc_bits, crc_bytes, crc32}

crc_bit-lt : (crc : ℕ) → crc < 2 ^ 32 → crc_bit crc < 2 ^ 32
unfolding crc_bit
crc_bit-lt crc h =
    bit_xor-lt 32 (crc / 2) _ (omega arith)
      (omega (arith, bit_and-le 0xedb88320 0xedb88320 _ (le_refl _)))

crc_bits-lt : (n crc : ℕ) → crc < 2 ^ 32 → crc_bits n crc < 2 ^ 32
unfolding crc_bits
crc_bits-lt zero crc h = h
crc_bits-lt (suc n) crc h = crc_bits-lt n (crc_bit crc) (crc_bit-lt crc h)

crc_bytes-lt :
    (bytes : Bytes) (crc : ℕ) → AllBytes bytes → crc < 2 ^ 32 → crc_bytes crc bytes < 2 ^ 32
unfolding crc_bytes
crc_bytes-lt [] crc h c = c
crc_bytes-lt (b ∷ bs) crc (hb, hs) c =
    crc_bytes-lt bs _ hs (crc_bits-lt 8 _ (bit_xor-lt 32 crc b c (omega arith)))

pub crc32-lt : (bytes : Bytes) → crc32 bytes < 2 ^ 32
unfolding crc32
crc32-lt bytes = omega arith
