-- ===== src/ApiAuth/Hmac.antt =====
-- lib/apiauth/hmac_sha256.cpp: HMAC-SHA256. The buffers that the code clears at the end hold
-- nothing that is read again.
use matrix_faces.Common.{
  ℕ, ◌-◌, ◌≡◌, refl, ap, ◌∙◌, arith, bit_xor, List, ◌++◌, map, if◌then◌else◌, ltb, Bytes, length,
  replicate, AllBytes, [], ◌∷◌, ◌*◌, leb, true, false, Bool-cases, inl, inr,
}
use matrix_faces.ApiAuth.Sha256.{Sha256, reset, update, finish, hash, emit, compress}
use matrix_faces.ApiAuth.Sha256.Stream.{update-append, IsValid}
use matrix_faces.Digest.Words.{word_bytes}

-- The key in a zero-filled block: hashed first if it is longer than a block.
unfoldable pub key_block : Bytes → Bytes
key_block key =
    let short = if ltb 64 (length key) then hash key else key in
    short ++ replicate (64 - length short) 0

abbrev pub xor_pad : ℕ → Bytes → Bytes
xor_pad byte block = map (λ b. bit_xor b byte) block

-- `hmacSha256`.
unfoldable pub hmac_sha256 : Bytes → Bytes → Bytes
hmac_sha256 key message =
    let block = key_block key in
    let inner = finish (update (update reset (xor_pad 0x36 block)) message) in
    finish (update (update reset (xor_pad 0x5c block)) inner)

reset-IsValid : IsValid reset
reset-IsValid = omega arith

pub hmac_sha256-key_block :
    (key message : Bytes)
    → hmac_sha256 key message
      ≡ hash (xor_pad 0x5c (key_block key) ++ hash (xor_pad 0x36 (key_block key) ++ message))
unfolding hmac_sha256 hash
hmac_sha256-key_block key message =
    outer (finish (update (update reset (xor_pad 0x36 (key_block key))) message))
    ∙ ap (λ (d : Bytes). finish (update reset (xor_pad 0x5c (key_block key) ++ d))) inner
  where
    inner :
        finish (update (update reset (xor_pad 0x36 (key_block key))) message)
        ≡ finish (update reset (xor_pad 0x36 (key_block key) ++ message))
    inner = ap finish (update-append reset (xor_pad 0x36 (key_block key)) message reset-IsValid)

    outer :
        (d : Bytes)
        → finish (update (update reset (xor_pad 0x5c (key_block key))) d)
          ≡ finish (update reset (xor_pad 0x5c (key_block key) ++ d))
    outer d = ap finish (update-append reset (xor_pad 0x5c (key_block key)) d reset-IsValid)

emit_bytes : (words : List ℕ) → AllBytes (emit words) × (length (emit words) ≡ 4 * length words)
unfolding emit word_bytes
emit_bytes [] = (tt, refl)
emit_bytes (w ∷ ws) =
    let (bytes, len) = emit_bytes ws in
    ((omega arith, (omega arith, (omega arith, (omega arith, bytes)))), omega (arith, len))

length-compress : (state : List ℕ) (block : Bytes) → length (compress state block) ≡ 8
unfolding compress
length-compress state block = refl

-- A digest is 32 bytes.
pub finish_bytes : (s : Sha256) → AllBytes (finish s) × (length (finish s) ≡ 32)
unfolding finish
finish_bytes s =
    let (bytes, len) = emit_bytes (compress _ _) in
    (bytes, len ∙ ap (λ n. 4 * n) (length-compress _ _))

pub hmac_bytes :
    (key message : Bytes)
    → AllBytes (hmac_sha256 key message) × (length (hmac_sha256 key message) ≡ 32)
unfolding hmac_sha256
hmac_bytes key message = finish_bytes _

-- The key of RFC 2104, of one block: a key of at most 64 bytes is filled up with zeros, and the
-- digest of a longer one, which has 32 bytes, too.
unfoldable pub rfc_key : Bytes → Bytes
rfc_key key =
    if leb (length key) 64 then key ++ replicate (64 - length key) 0 else hash key ++ replicate 32 0

key_block-rfc_key : (key : Bytes) → key_block key ≡ rfc_key key
unfolding key_block rfc_key hash
key_block-rfc_key key = elim (Bool-cases (leb (length key) 64)) [
  | inl short ↦
      let kept : ltb 64 (length key) ≡ false = ground (arith, short) in rw (kept, short) refl
  | inr long ↦
      let hashed : ltb 64 (length key) ≡ true = ground (arith, long) in
      let size = (finish_bytes (update reset key)).1 in rw (hashed, long, size) refl
]

-- The code's two streamed digests are those of RFC 2104, H(K ^ opad, H(K ^ ipad, message)), where K
-- is the key filled up with zeros to 64 bytes, its digest in its place when it is longer than that.
pub hmac_sha256-hash :
    (key message : Bytes)
    → hmac_sha256 key message
      ≡ hash (
          map (λ b. bit_xor b 0x5c) (rfc_key key)
          ++ hash (map (λ b. bit_xor b 0x36) (rfc_key key) ++ message))
hmac_sha256-hash key message =
    hmac_sha256-key_block key message
    ∙ ap (λ k. hash (xor_pad 0x5c k ++ hash (xor_pad 0x36 k ++ message))) (key_block-rfc_key key)
