-- ===== src/Digest/Words.antt =====
-- 32-bit words: rotation, complement and big-endian bytes.
use matrix_faces.Common.{
  ℕ, zero, suc, ◌+◌, ◌-◌, ◌*◌, ◌/◌, ◌%◌, ◌^◌, bit_or, List, [], ◌∷◌, Bytes, get_or,
}

abbrev pub word : ℕ
word = 2 ^ 32

-- `a + b` on uint32_t.
unfoldable pub add32 : ℕ → ℕ → ℕ
add32 a b = (a + b) % word

-- `~a` on uint32_t.
unfoldable pub not32 : ℕ → ℕ
not32 a = word - 1 - a

-- `x << n` on uint32_t.
unfoldable pub shl32 : ℕ → ℕ → ℕ
shl32 x n = x * 2 ^ n % word

-- The big-endian word at offset `i`.
unfoldable pub word_at : Bytes → ℕ → ℕ
unfolding shl32
word_at block i =
    bit_or (bit_or (bit_or (shl32 (at 0) 24) (shl32 (at 1) 16)) (shl32 (at 2) 8)) (at 3)
  where
    at : ℕ → ℕ
    at k = get_or block (i + k) 0

-- The 16 words of a block: the loop `for (i = 0; i < 16; ++i)`.
unfoldable pub words_from : ℕ → Bytes → ℕ → List ℕ
unfolding word_at
words_from zero block i = []
words_from (suc n) block i = word_at block i ∷ words_from n block (i + 4)

-- The four bytes of a word, most significant first.
unfoldable pub word_bytes : ℕ → Bytes
word_bytes x = x / 2 ^ 24 % 256 ∷ x / 2 ^ 16 % 256 ∷ x / 2 ^ 8 % 256 ∷ x % 256 ∷ []

-- `bits >> (56 - i * 8)` for the eight bytes of a 64-bit length.
unfoldable pub length_bytes : ℕ → Bytes
length_bytes bits =
    bits / 2 ^ 56 % 256
    ∷ bits / 2 ^ 48 % 256
    ∷ bits / 2 ^ 40 % 256
    ∷ bits / 2 ^ 32 % 256
    ∷ bits / 2 ^ 24 % 256
    ∷ bits / 2 ^ 16 % 256
    ∷ bits / 2 ^ 8 % 256
    ∷ bits % 256
    ∷ []
