-- ===== src/ApiAuth/Hex.antt =====
-- lib/apiauth/hex.cpp: hexadecimal text and the comparison of secrets.
-- A buffer is the list of its bytes, and a NUL-terminated string is the list before the NUL.
pub mod RoundTrip
pub mod Equality
use matrix_faces.Common.{
  ℕ, ◌+◌, ◌-◌, ◌*◌, ◌/◌, ◌%◌, bit_or, bit_xor, Bool, true, false, not, ◌&&◌, List, [], ◌∷◌, Option,
  none, some, ◌>>=◌, leb, ◌==◌, if◌then◌else◌, Bytes, codes, get_or, length,
}

-- `kDigits`.
abbrev digits : Bytes
digits = codes "0123456789abcdef"

-- `nibble`: `none` is -1.
pub nibble : ℕ → Option ℕ
nibble c =
    if leb b'0' c && leb c b'9'
    then some (c - b'0')
    else if leb b'a' c && leb c b'f'
    then some (c - b'a' + 10)
    else if leb b'A' c && leb c b'F'
    then some (c - b'A' + 10)
    else none

-- `toHex`: the shift and the mask of a byte are its quotient and remainder by 16.
unfoldable pub to_hex : Bytes → Bytes
to_hex [] = []
to_hex (x ∷ xs) = get_or digits (x / 16) 0 ∷ get_or digits (x % 16) 0 ∷ to_hex xs

-- The bytes that the loop of `fromHex` writes, reading two digits for each.
pub from_hex_pairs : Bytes → Option Bytes
from_hex_pairs (h ∷ l ∷ rest) = do
  hi ← nibble h
  lo ← nibble l
  out ← from_hex_pairs rest
  some (bit_or (hi * 16) lo % 256 ∷ out)
from_hex_pairs _ = some []

-- `fromHex`: `none` is false. What `out` holds then is not read by any caller.
unfoldable pub from_hex : Bytes → ℕ → Option Bytes
unfolding from_hex_pairs nibble
from_hex chars out_len = if not (length chars == out_len * 2) then none else from_hex_pairs chars

-- The loop of `constantTimeEquals`, over two buffers of one length.
pub difference : ℕ → Bytes → Bytes → ℕ
difference diff (x ∷ xs) (y ∷ ys) = difference (bit_or diff (bit_xor x y % 256)) xs ys
difference diff _ _ = diff

unfoldable pub constant_time_equals : Bytes → Bytes → Bool
unfolding difference
constant_time_equals a b = difference 0 a b == 0
