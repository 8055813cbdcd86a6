-- ===== src/ApiAuth/RequestSig.antt =====
-- lib/apiauth/request_sig.cpp: the canonical request, its signature and the check of one.
-- Text arguments are NUL-terminated strings; `none` is the length 0 of a request that does not fit.
pub mod Canonical
pub mod Verify
use matrix_faces.Common.{
  ℕ, ◌+◌, Bool, true, false, not, ◌&&◌, List, [], ◌∷◌, ◌++◌, Option, none, some, ◌==◌, leb,
  if◌then◌else◌, ◌>>=◌, Bytes, length,
}
use matrix_faces.ApiAuth.Hex.{to_hex, from_hex, constant_time_equals}
use matrix_faces.ApiAuth.Sha256.{hash}
use matrix_faces.ApiAuth.Hmac.{hmac_sha256}

-- `kCanonicalRequestMax`.
abbrev pub canonical_request_max : ℕ
canonical_request_max = 320

-- `append`: what has been written is a list, whose length is `offset`.
pub append : ℕ → Bytes → Bytes → Option Bytes
append cap text out = if leb cap (length out + length text) then none else some (out ++ text)

-- `appendChar`.
pub append_char : ℕ → ℕ → Bytes → Option Bytes
append_char cap c out = if leb cap (length out + 1) then none else some (out ++ c ∷ [])

-- `buildCanonicalRequest`, with the body's digest.
unfoldable pub build_canonical_request : Bytes → Bytes → Bytes → Bytes → Bytes → ℕ → Option Bytes
unfolding append append_char
build_canonical_request method path ts nonce body_hash cap = if cap == 0 then none else (do
  a ← append cap method []
  b ← append_char cap b'\n' a
  c ← append cap path b
  d ← append_char cap b'\n' c
  e ← append cap ts d
  f ← append_char cap b'\n' e
  g ← append cap nonce f
  h ← append_char cap b'\n' g
  append cap (to_hex body_hash) h)

-- `signRequest`.
unfoldable pub sign_request : Bytes → Bytes → Bytes → Bytes → Bytes → Bytes → Option Bytes
sign_request secret method path ts nonce body = do
  canonical ← build_canonical_request method path ts nonce (hash body) canonical_request_max
  some (hmac_sha256 secret canonical)

-- `verifyRequestSignature`.
unfoldable pub verify_request_signature :
    Bytes → Bytes → Bytes → Bytes → Bytes → Bytes → Bytes → Bool
verify_request_signature secret method path ts nonce body sig_hex = elim (from_hex sig_hex 32) [
  | none ↦ false
  | some provided ↦ elim (sign_request secret method path ts nonce body) [
    | none ↦ false
    | some expected ↦ constant_time_equals expected provided
  ]
]
