-- ===== src/Api/HttpRequest/Bounds.antt =====
-- src/api/http_request.cpp: an accepted request fits its buffers.
use matrix_faces.Common.{
  ℕ, zero, suc, ◌<◌, ◌≤◌, ◌≡◌, sym, subst, arith, false, List, ltb, Bytes, c_string, length,
  Bool-cases, Option-cases, inl, inr,
}
use matrix_faces.Net.StreamRead.{
  Pass, LineStatus, line_ok, truncated, timed_out, read_line, read_exactly,
}
use matrix_faces.Net.StreamRead.Body.{read_exactly-length}
use matrix_faces.Api.HttpRequest.{
  HttpRequest, http_ok, refused, Parsed, parsed, failed, path_of, parse_request_line, line_cap,
  read_timeout, max_headers, method_cap, target_cap, authorization_cap, websocket_key_cap, body_cap,
}
use matrix_faces.Api.HttpRequest.Reader.{
  Headers, last, stop, more, take_line, headers_loop, read_body, read_headers, after_request_line,
  read_http_request,
}
use matrix_faces.Api.HttpRequest.SoFar.{
  FitsSoFar, OnParsed, OnMore, parse_request_line-FitsSoFar, take_line-FitsSoFar,
}

-- Each text has room for its terminator, and the body is as long as the request says.
pub record FitsBuffers (r : HttpRequest) : Type 0 where
  pub method : length r.method < method_cap
  pub target : length r.target < target_cap
  pub path : r.path ≡ path_of r.target
  pub authorization : length r.authorization < authorization_cap
  pub websocket_key : length r.websocket_key < websocket_key_cap
  pub body : length r.body ≤ body_cap
  pub body_len : r.body_len ≡ length r.body
  pub content_length : r.content_length ≡ length r.body

headers_loop-FitsSoFar :
    (left : ℕ) (ps : List Pass) (h : Headers)
    → FitsSoFar h.request
    → OnParsed (λ g. FitsSoFar g.0.request) (headers_loop left ps h)
unfolding headers_loop
headers_loop-FitsSoFar zero ps h fits = tt
headers_loop-FitsSoFar (suc left) ps h fits =
    let (status, line, rest) = read_line ps line_cap read_timeout in
    elim (take_line status line h)
        as (λ l.
          OnMore (λ g. FitsSoFar g.request) l
          → OnParsed (λ (g : Headers × List Pass). FitsSoFar g.0.request)
              (elim l [
                | last ↦ parsed (h, rest)
                | stop e ↦ failed e
                | more g ↦ headers_loop left rest g
              ])) [
                | last ↦ λ _. fits
                | stop e ↦ λ _. tt
                | more g ↦ λ kept. headers_loop-FitsSoFar left rest g kept
              ]
      (take_line-FitsSoFar status line h fits)

accepted_inj : {r s : HttpRequest} {ps qs : List Pass} → http_ok r ps ≡ http_ok s qs → r ≡ s
accepted_inj e = cc

read_body-FitsBuffers :
    (h : Headers) (ps rest : List Pass) (r : HttpRequest)
    → FitsSoFar h.request
    → read_body h ps ≡ http_ok r rest
    → FitsBuffers r
unfolding read_body
read_body-FitsBuffers h ps rest r fits e = elim (Bool-cases h.authorization_truncated) [
  | inl cut ↦ let refused = rw (cut, read_body) at e in cc
  | inr whole ↦ elim (Bool-cases (ltb body_cap (h.request).content_length)) [
    | inl large ↦ let refused = rw (whole, large, read_body) at e in cc
    | inr small ↦ elim (Option-cases (read_exactly ps (h.request).content_length read_timeout)) [
      | inl late ↦ let refused = rw (whole, small, late, read_body) at e in cc
      | inr ((body, left), whole_body) ↦
          let reached = rw (whole, small, whole_body, read_body) at e in
          let size =
            read_exactly-length ps left (h.request).content_length read_timeout body whole_body in
          let bound : (h.request).content_length ≤ body_cap = ground arith in
          subst FitsBuffers (accepted_inj reached) (record {
            method = fits.method;
            target = fits.target;
            path = fits.path;
            authorization = fits.authorization;
            websocket_key = fits.websocket_key;
            body = omega (arith, size, bound);
            body_len = sym size;
            content_length = sym size;
          })
    ]
  ]
]

read_headers-FitsBuffers :
    (request : HttpRequest) (ps rest : List Pass) (r : HttpRequest)
    → FitsSoFar request
    → read_headers request ps ≡ http_ok r rest
    → FitsBuffers r
unfolding read_headers
read_headers-FitsBuffers request ps rest r fits =
    let start : Headers = record { request = request; authorization_truncated = false } in
    elim (headers_loop max_headers ps start)
        as (λ (l : Parsed (Headers × List Pass)).
          OnParsed (λ (g : Headers × List Pass). FitsSoFar g.0.request) l
          → elim l [ failed e ↦ refused e | parsed g ↦ read_body g.0 g.1 ] ≡ http_ok r rest
          → FitsBuffers r) [
            | failed e ↦ λ _ h. cc
            | parsed (g, left) ↦ λ kept. read_body-FitsBuffers g left rest r kept
          ]
      (headers_loop-FitsSoFar max_headers ps start fits)

after_request_line-FitsBuffers :
    (status : LineStatus) (line : Bytes) (ps rest : List Pass) (r : HttpRequest)
    → after_request_line status line ps ≡ http_ok r rest
    → FitsBuffers r
unfolding after_request_line
after_request_line-FitsBuffers timed_out line ps rest r e = cc
after_request_line-FitsBuffers truncated line ps rest r e = cc
after_request_line-FitsBuffers line_ok line ps rest r e =
    elim (parse_request_line (c_string line))
        as (λ l.
          OnParsed FitsSoFar l
          → elim l [ failed e ↦ refused e | parsed request ↦ read_headers request ps ]
            ≡ http_ok r rest
          → FitsBuffers r) [
            | failed e ↦ λ _ h. cc
            | parsed request ↦ λ kept. read_headers-FitsBuffers request ps rest r kept
          ]
      (parse_request_line-FitsSoFar (c_string line)) e

-- Every request that is accepted fits its buffers: method, target, Authorization and WebSocket key
-- with their terminators, the path is the target up to its question mark, and the body is at most
-- 256 bytes and exactly as long as `bodyLen` and `contentLength` say.
pub read_http_request-FitsBuffers :
    (ps rest : List Pass) (r : HttpRequest) → read_http_request ps ≡ http_ok r rest → FitsBuffers r
unfolding read_http_request
read_http_request-FitsBuffers ps rest r =
    let (status, line, left) = read_line ps line_cap read_timeout in
    after_request_line-FitsBuffers status line left rest r
