-- ===== src/Api/HttpRequest/Reader.antt =====
-- src/api/http_request.cpp: the headers, the body, and the whole request.
use matrix_faces.Common.{
  ℕ, zero, suc, Bool, true, false, List, [], ◌∷◌, none, some, ltb, if◌then◌else◌, Bytes, codes,
  c_string,
}
use matrix_faces.Net.StreamRead.{
  Pass, LineStatus, line_ok, truncated, timed_out, read_line, read_exactly, drain_buffered,
}
use matrix_faces.Api.HttpRequest.{
  authorization_cap, body_cap, websocket_key_cap, read_timeout, line_cap, max_headers,
  drain_timeout, HttpRequest, HttpReadError, ReadResult, header_value, copy_capped, Parsed,
  parse_request_line, parse_length, http_timeout, target_too_long, header_too_long, body_too_large,
  http_ok, refused, parsed, failed,
}

-- The request so far with `authorizationTruncated`.
pub record Headers : Type 0 where
  pub request : HttpRequest
  pub authorization_truncated : Bool

unfoldable pub take_authorization : Bytes → Headers → Headers
take_authorization value h = elim (copy_capped value authorization_cap) [
  | none ↦ record h { authorization_truncated = true }
  | some kept ↦ record h { request = record (h.request) { authorization = kept } }
]

unfoldable pub take_key : Bytes → Headers → Headers
take_key value h = elim (copy_capped value websocket_key_cap) [
  | none ↦ h
  | some kept ↦ record h { request = record (h.request) { websocket_key = kept } }
]

unfoldable pub take_length : Bytes → Headers → Parsed Headers
take_length value h = elim (parse_length 0 value) [
  | failed e ↦ failed e
  | parsed n ↦ parsed (record h { request = record (h.request) { content_length = n } })
]

-- What one header line, as a string, does to the request.
unfoldable pub take_header : Bytes → Headers → Parsed Headers
take_header line h = elim (header_value line (codes "authorization")) [
  | some value ↦ parsed (take_authorization value h)
  | none ↦ elim (header_value line (codes "sec-websocket-key")) [
    | some value ↦ parsed (take_key value h)
    | none ↦ elim (header_value line (codes "content-length")) [
      | some value ↦ take_length value h
      | none ↦ parsed h
    ]
  ]
]

-- A line that did not fit.
unfoldable pub take_truncated : Bytes → Headers → Headers
take_truncated line h = elim (header_value line (codes "authorization")) [
  | some _ ↦ record h { authorization_truncated = true }
  | none ↦ h
]

-- One line: the end of the headers, a failure, or the headers with that line.
pub data Line : Type 0 where
  last : Line
  stop : HttpReadError → Line
  more : Headers → Line

unfoldable pub take_line : LineStatus → Bytes → Headers → Line
take_line timed_out line h = stop http_timeout
take_line truncated line h = more (take_truncated (c_string line) h)
take_line line_ok [] h = last
take_line line_ok (c ∷ cs) h = elim (take_header (c_string (c ∷ cs)) h) [
  | failed e ↦ stop e
  | parsed h' ↦ more h'
]

-- `while (true)`: `left` is what `kMaxHeaders` leaves of the lines.
unfoldable pub headers_loop : ℕ → List Pass → Headers → Parsed (Headers × List Pass)
headers_loop zero ps h = failed header_too_long
headers_loop (suc left) ps h =
    let (status, line, rest) = read_line ps line_cap read_timeout in
    elim (take_line status line h) [
      | last ↦ parsed (h, rest)
      | stop e ↦ failed e
      | more h' ↦ headers_loop left rest h'
    ]

-- What stands behind the headers.
unfoldable pub read_body : Headers → List Pass → ReadResult
read_body h ps =
    if h.authorization_truncated
    then refused header_too_long
    else if ltb body_cap (h.request).content_length
    then refused body_too_large
    else elim (read_exactly ps (h.request).content_length read_timeout) [
      | none ↦ refused http_timeout
      | some (body, rest) ↦
          http_ok (record (h.request) { body = body; body_len = (h.request).content_length })
            (drain_buffered rest drain_timeout)
    ]

unfoldable pub read_headers : HttpRequest → List Pass → ReadResult
read_headers request ps =
    elim (headers_loop max_headers ps
      (record { request = request; authorization_truncated = false })) [
        | failed e ↦ refused e
        | parsed (h, rest) ↦ read_body h rest
      ]

-- What the status of the first line leads to.
unfoldable pub after_request_line : LineStatus → Bytes → List Pass → ReadResult
after_request_line timed_out line ps = refused http_timeout
after_request_line truncated line ps = refused target_too_long
after_request_line line_ok line ps = elim (parse_request_line (c_string line)) [
  | failed e ↦ refused e
  | parsed request ↦ read_headers request ps
]

-- `readHttpRequest`.
unfoldable pub read_http_request : List Pass → ReadResult
read_http_request ps =
    let (status, line, rest) = read_line ps line_cap read_timeout in
    after_request_line status line rest
