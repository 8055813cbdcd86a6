-- ===== src/Api/WebSocket/Accept.antt =====
-- src/api/websocket.cpp: `acceptKey` and its Base64.
mod Tests
use matrix_faces.Common.{
  ℕ, ◌+◌, ◌*◌, ◌/◌, ◌%◌, ◌^◌, Bool, true, false, List, [], ◌∷◌, ◌++◌, Option, none, some, ltb,
  if◌then◌else◌, Bytes, codes, length, get_or,
}
use matrix_faces.Api.WebSocket.Sha1.{sha1_init, sha1_update, sha1_final}

-- `kBase64`.
abbrev pub alphabet : Bytes
alphabet = codes "ABCDEFGHIJKLMNOPQRSTUVWXYZabcdefghijklmnopqrstuvwxyz0123456789+/"

abbrev pub sextet : ℕ → ℕ → ℕ
sextet triple shift = get_or alphabet (triple / 2 ^ shift % 64) 0

-- The loop of `base64Encode`, three bytes a pass. The disjoint fields of `triple` are added.
unfoldable pub base64_groups : Bytes → Bytes
base64_groups [] = []
base64_groups (a ∷ []) =
    let triple = a * 2 ^ 16 in sextet triple 18 ∷ sextet triple 12 ∷ b'=' ∷ b'=' ∷ []
base64_groups (a ∷ b ∷ []) =
    let triple = a * 2 ^ 16 + b * 2 ^ 8 in
    sextet triple 18 ∷ sextet triple 12 ∷ sextet triple 6 ∷ b'=' ∷ []
base64_groups (a ∷ b ∷ c ∷ rest) =
    let triple = a * 2 ^ 16 + b * 2 ^ 8 + c in
    sextet triple 18 ∷ sextet triple 12 ∷ sextet triple 6 ∷ sextet triple 0 ∷ base64_groups rest

-- `base64Encode`; `none` is 0.
unfoldable pub base64_encode : Bytes → ℕ → Option Bytes
base64_encode input cap =
    let needed = (length input + 2) / 3 * 4 in
    if ltb cap (needed + 1) then none else some (base64_groups input)

-- `kGuid`.
abbrev pub guid : Bytes
guid = codes "258EAFA5-E914-47DA-95CA-C5AB0DC85B11"

abbrev pub accept_key_cap : ℕ
accept_key_cap = 29

-- `acceptKey` on a string; `nullptr` is refused before.
unfoldable pub accept_key : Bytes → ℕ → Option Bytes
accept_key client_key cap =
    if ltb cap (accept_key_cap + 1)
    then none
    else base64_encode (sha1_final (sha1_update (sha1_update sha1_init client_key) guid)) cap
