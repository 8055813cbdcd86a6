-- ===== src/Api/Authenticator.antt =====
-- src/api/authenticator.cpp: signed requests, and the replays that are refused.
-- The client that `store_.find` looks in and the clock are arguments.
pub mod Accept
pub mod Marks
pub mod Replay
use matrix_faces.Common.{
  ℕ, zero, suc, ◌+◌, ◌-◌, ◌%◌, Bool, true, false, not, ◌&&◌, ◌||◌, List, [], ◌∷◌, Option, none,
  some, map, ltb, ◌==◌, if◌then◌else◌, Bytes, codes, bytes_eq, length, set, get_or, replicate,
}
use matrix_faces.ApiAuth.Hex.{from_hex}
use matrix_faces.ApiAuth.AuthHeader.{AuthHeader, parse_auth_header}
use matrix_faces.ApiAuth.RequestSig.{verify_request_signature}
use matrix_faces.Api.CredentialStore.{StoredClient, find, max_clients}

-- `AuthResult`.
pub data AuthResult : Type 0 where
  auth_ok missing_header malformed_header unknown_client clock_unavailable stale_timestamp replay
        bad_signature :
      AuthResult

-- `authResultCode`, without the line for values that the enumeration does not have.
abbrev pub auth_result_code : AuthResult → Bytes
auth_result_code auth_ok = codes "ok"
auth_result_code missing_header = codes "missing_authorization"
auth_result_code malformed_header = codes "malformed_authorization"
auth_result_code unknown_client = codes "unknown_client"
auth_result_code clock_unavailable = codes "clock_unavailable"
auth_result_code stale_timestamp = codes "stale_timestamp"
auth_result_code replay = codes "replay_detected"
auth_result_code bad_signature = codes "bad_signature"

abbrev pub max_skew_seconds : ℕ
max_skew_seconds = 60

abbrev pub nonce_cache_size : ℕ
nonce_cache_size = 24

pub record NonceEntry : Type 0 where
  pub client_id : Bytes
  pub nonce : Bytes
  pub timestamp : ℕ
  pub used : Bool

pub record HighWaterMark : Type 0 where
  pub client_id : Bytes
  pub timestamp : ℕ
  pub used : Bool

-- The replay state of `Authenticator`.
pub record Authenticator : Type 0 where
  pub nonces : List NonceEntry
  pub nonce_next : ℕ
  pub marks : List HighWaterMark

-- `TimeSource`: `isValid()` and `now()`.
pub record Clock : Type 0 where
  pub is_valid : Bool
  pub now : ℕ

-- What `authenticate` is called with. The null pointer is the empty string.
pub record Request : Type 0 where
  pub authorization : Bytes
  pub method : Bytes
  pub path : Bytes
  pub body : Bytes

-- The result, and what is written to `outClientId`.
pub record Outcome : Type 0 where
  pub result : AuthResult
  pub client_id : Option Bytes

abbrev pub refused : AuthResult → Outcome
refused r = record { result = r; client_id = none }

abbrev no_nonce : NonceEntry
no_nonce = record { client_id = []; nonce = []; timestamp = 0; used = false }

abbrev pub no_mark : HighWaterMark
no_mark = record { client_id = []; timestamp = 0; used = false }

-- As constructed, and after `forgetAll`.
unfoldable pub forget_all : Authenticator
forget_all = record {
  nonces = replicate nonce_cache_size no_nonce;
  nonce_next = 0;
  marks = replicate max_clients no_mark;
}

-- `nonceSeen`.
abbrev pub is_nonce : Bytes → Bytes → NonceEntry → Bool
is_nonce client_id nonce e = e.used && (bytes_eq e.client_id client_id && bytes_eq e.nonce nonce)

unfoldable pub nonce_seen : Bytes → Bytes → List NonceEntry → Bool
nonce_seen client_id nonce [] = false
nonce_seen client_id nonce (e ∷ es) = is_nonce client_id nonce e || nonce_seen client_id nonce es

-- `rememberNonce`.
unfoldable pub remember_nonce : Bytes → Bytes → ℕ → Authenticator → Authenticator
remember_nonce client_id nonce timestamp a = record a {
  nonces =
      set a.nonces a.nonce_next
        (record { client_id = client_id; nonce = nonce; timestamp = timestamp; used = true });
  nonce_next = (a.nonce_next + 1) % nonce_cache_size;
}

-- The two loops of `highWaterMark`, with the index for the pointer.
unfoldable pub own_mark : Bytes → List HighWaterMark → Option ℕ
own_mark client_id [] = none
own_mark client_id (m ∷ ms) =
    let rest = own_mark client_id ms in
    if m.used && bytes_eq m.client_id client_id
    then some 0
    else elim rest [ none ↦ none | some i ↦ some (suc i) ]

unfoldable pub free_mark : List HighWaterMark → Option ℕ
free_mark [] = none
free_mark (m ∷ ms) =
    let rest = free_mark ms in
    if not m.used then some 0 else elim rest [ none ↦ none | some i ↦ some (suc i) ]

-- `highWaterMark`.
unfoldable pub high_water_mark : Bytes → List HighWaterMark → Option ℕ
high_water_mark client_id ms = elim (own_mark client_id ms) [
  | some i ↦ some i
  | none ↦ free_mark ms
]

-- The replay test on the mark: older than a request that has been served.
abbrev pub is_older : ℕ → HighWaterMark → Bool
is_older timestamp m = m.used && ltb timestamp m.timestamp

-- What is written to the mark of an accepted request.
abbrev pub raised : Bytes → ℕ → HighWaterMark → HighWaterMark
raised client_id timestamp m = record {
  client_id = client_id;
  timestamp = if not m.used || ltb m.timestamp timestamp then timestamp else m.timestamp;
  used = true;
}

-- `authenticate` behind the signature check.
unfoldable pub admit : Bytes → Bytes → ℕ → Authenticator → Outcome × Authenticator
admit client_id nonce timestamp a =
    let accepted : Outcome = record { result = auth_ok; client_id = some client_id } in
    let remembered = remember_nonce client_id nonce timestamp a in
    elim (high_water_mark client_id a.marks) [
      | none ↦
          if nonce_seen client_id nonce a.nonces
          then (refused replay, a)
          else (accepted, remembered)
      | some i ↦
          let mark = get_or a.marks i no_mark in
          if is_older timestamp mark
          then (refused replay, a)
          else if nonce_seen client_id nonce a.nonces
          then (refused replay, a)
          else (
            accepted,
            record remembered { marks = set a.marks i (raised client_id timestamp mark) },
          )
    ]

-- The distance of two times, on uint32_t.
abbrev pub skew : ℕ → ℕ → ℕ
skew now timestamp = if ltb timestamp now then now - timestamp else timestamp - now

-- `authenticate` behind the parsing, on the decoded id and nonce.
unfoldable pub check :
    List StoredClient
    → Clock
    → Request
    → AuthHeader
    → Bytes
    → Bytes
    → Authenticator
    → Outcome × Authenticator
check clients time r header client_id nonce a =
    if not time.is_valid then (refused clock_unavailable, a) else elim (find clients client_id) [
      | none ↦ (refused unknown_client, a)
      | some client ↦
          if ltb max_skew_seconds (skew time.now header.timestamp)
          then (refused stale_timestamp, a)
          else if not (
              verify_request_signature client.secret r.method r.path header.ts header.nonce r.body
                header.sig)
          then (refused bad_signature, a)
          else admit client_id nonce header.timestamp a
    ]

-- `authenticate`.
unfoldable pub authenticate :
    List StoredClient → Clock → Request → Authenticator → Outcome × Authenticator
authenticate clients time r a =
    if length r.authorization == 0
    then (refused missing_header, a)
    else elim (parse_auth_header r.authorization) [
      | none ↦ (refused malformed_header, a)
      | some header ↦ elim (from_hex header.id 8) [
        | none ↦ (refused malformed_header, a)
        | some client_id ↦ elim (from_hex header.nonce 8) [
          | none ↦ (refused malformed_header, a)
          | some nonce ↦ check clients time r header client_id nonce a
        ]
      ]
    ]

-- `forget`: the entries keep all but `used`.
abbrev forget_nonce : Bytes → NonceEntry → NonceEntry
forget_nonce id e = if e.used && bytes_eq e.client_id id then record e { used = false } else e

abbrev forget_mark : Bytes → HighWaterMark → HighWaterMark
forget_mark id m = if m.used && bytes_eq m.client_id id then record m { used = false } else m

unfoldable pub forget : Bytes → Authenticator → Authenticator
forget id a = record a {
  nonces = map (forget_nonce id) a.nonces;
  marks = map (forget_mark id) a.marks;
}
