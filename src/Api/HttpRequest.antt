-- ===== src/Api/HttpRequest.antt =====
-- src/api/http_request.cpp: a request read from a socket into fixed buffers.
pub mod Bounds
pub mod SoFar
pub mod Fields
pub mod Message
pub mod Reader
use matrix_faces.Common.{
  ℕ, zero, suc, ◌+◌, ◌-◌, ◌*◌, ◌%◌, ◌^◌, Bool, true, false, not, ◌&&◌, ◌||◌, List, [], ◌∷◌, Option,
  none, some, ltb, leb, ◌==◌, if◌then◌else◌, Bytes, codes, c_string, is_digit, length, get_or, drop,
  take_while, drop_while,
}
use matrix_faces.Net.StreamRead.{
  Pass, LineStatus, line_ok, truncated, timed_out, read_line, read_exactly, drain_buffered,
}

abbrev pub method_cap : ℕ
method_cap = 8

abbrev pub target_cap : ℕ
target_cap = 96

abbrev pub authorization_cap : ℕ
authorization_cap = 192

abbrev pub body_cap : ℕ
body_cap = 256

abbrev pub websocket_key_cap : ℕ
websocket_key_cap = 32

-- `kReadTimeoutMs`.
abbrev pub read_timeout : ℕ
read_timeout = 4000

-- `kLineCap`.
abbrev pub line_cap : ℕ
line_cap = 256

-- `kMaxHeaders`.
abbrev pub max_headers : ℕ
max_headers = 40

-- `kDrainTimeoutMs`.
abbrev pub drain_timeout : ℕ
drain_timeout = 200

pub record HttpRequest : Type 0 where
  pub method : Bytes
  pub target : Bytes
  pub path : Bytes
  pub authorization : Bytes
  pub websocket_key : Bytes
  pub body : Bytes
  pub body_len : ℕ
  pub content_length : ℕ

-- `HttpReadStatus` without `kHttpOk`.
pub data HttpReadError : Type 0 where
  http_timeout http_malformed target_too_long header_too_long body_too_large : HttpReadError

-- What the function returns: `kHttpOk` comes with the request that is filled then and with what is
-- left to read. After another status the caller looks at neither.
pub data ReadResult : Type 0 where
  http_ok : HttpRequest → List Pass → ReadResult
  refused : HttpReadError → ReadResult

abbrev pub to_lower : ℕ → ℕ
to_lower c = if leb b'A' c && leb c b'Z' then c - b'A' + b'a' else c

-- `equalsIgnoringCase`. The one caller has checked that both strings have `len` bytes.
unfoldable pub equals_ignoring_case : Bytes → Bytes → ℕ → Bool
equals_ignoring_case a b zero = true
equals_ignoring_case (x ∷ a) (y ∷ b) (suc len) =
    let rest = equals_ignoring_case a b len in
    if not (to_lower x == to_lower y) then false else rest
equals_ignoring_case _ _ (suc len) = false

-- `*value == ' ' || *value == '\t'`.
abbrev pub is_blank : ℕ → Bool
is_blank c = c == b' ' || c == b'\t'

-- `headerValue`; `none` is `nullptr`.
unfoldable pub header_value : Bytes → Bytes → Option Bytes
header_value line name =
    if ltb (length line) (length name + 1)
    then none
    else if not (equals_ignoring_case line name (length name))
    then none
    else if not (get_or line (length name) 0 == b':')
    then none
    else some (drop_while is_blank (drop (length name + 1) line))

-- `copyCapped`: what `dest` holds then, or false with `dest` untouched.
unfoldable pub copy_capped : Bytes → ℕ → Option Bytes
copy_capped src cap = if leb cap (length src) then none else some src

-- `strchr`: the strings before and behind the first `c`.
unfoldable pub strchr : Bytes → ℕ → Option (Bytes × Bytes)
strchr s c = elim (drop_while (λ x. not (x == c)) s) [
  | [] ↦ none
  | _ ∷ rest ↦ some (take_while (λ x. not (x == c)) s, rest)
]

-- `memset(&request, 0, sizeof(request))`.
abbrev pub empty_request : HttpRequest
empty_request = record {
  method = [];
  target = [];
  path = [];
  authorization = [];
  websocket_key = [];
  body = [];
  body_len = 0;
  content_length = 0;
}

-- The part of the target before a question mark.
unfoldable pub path_of : Bytes → Bytes
path_of target = elim (strchr target b'?') [ none ↦ target | some (path, _) ↦ path ]

pub data Parsed (A : Type 0) : Type 0 where
  parsed : A → Parsed A
  failed : HttpReadError → Parsed A

-- The target, which a second space ends, and the path.
unfoldable pub parse_target : Bytes → Bytes → Parsed HttpRequest
parse_target method behind = elim (strchr behind b' ') [
  | none ↦ failed http_malformed
  | some (text, _) ↦ elim (copy_capped text target_cap) [
    | none ↦ failed target_too_long
    | some target ↦
        parsed (record empty_request { method = method; target = target; path = path_of target })
  ]
]

-- "METHOD SP TARGET SP HTTP/1.1".
unfoldable pub parse_request_line : Bytes → Parsed HttpRequest
parse_request_line line = elim (strchr line b' ') [
  | none ↦ failed http_malformed
  | some (text, behind) ↦ elim (copy_capped text method_cap) [
    | none ↦ failed http_malformed
    | some method ↦ parse_target method behind
  ]
]

-- The loop over the value of Content-Length, with the 32-bit `parsed`.
unfoldable pub parse_length : ℕ → Bytes → Parsed ℕ
parse_length value [] = parsed value
parse_length value (c ∷ cs) =
    let next = (value * 10 + (c - b'0')) % 2 ^ 32 in
    let rest = parse_length next cs in
    if not (is_digit c)
    then failed http_malformed
    else if ltb 1000000 next
    then failed body_too_large
    else rest
