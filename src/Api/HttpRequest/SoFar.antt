-- ===== src/Api/HttpRequest/SoFar.antt =====
-- src/api/http_request.cpp: each step keeps the request within its buffers.
use matrix_faces.Common.{
  ℕ, ◌<◌, ◌≡◌, refl, arith, [], ◌∷◌, some, Bytes, codes, c_string, length, Option-cases, inl, inr,
}
use matrix_faces.Net.StreamRead.{LineStatus, line_ok, truncated, timed_out}
use matrix_faces.Api.HttpRequest.{
  HttpRequest, Parsed, parsed, failed, strchr, copy_capped, path_of, parse_target,
  parse_request_line, parse_length, header_value, method_cap, target_cap, authorization_cap,
  websocket_key_cap,
}
use matrix_faces.Api.HttpRequest.Reader.{
  Headers, Line, stop, more, take_authorization, take_key, take_length, take_header, take_truncated,
  take_line,
}

-- The same before the body is read.
pub record FitsSoFar (r : HttpRequest) : Type 0 where
  pub method : length r.method < method_cap
  pub target : length r.target < target_cap
  pub path : r.path ≡ path_of r.target
  pub authorization : length r.authorization < authorization_cap
  pub websocket_key : length r.websocket_key < websocket_key_cap

-- A property of a result, if there is one.
abbrev pub OnParsed : {A : Type 0} → (A → Type 0) → Parsed A → Type 0
OnParsed P (parsed a) = P a
OnParsed P (failed e) = Unit

abbrev pub OnMore : (Headers → Type 0) → Line → Type 0
OnMore P (more h) = P h
OnMore P _ = Unit

pub copy_capped-lt :
    (src kept : Bytes) (cap : ℕ) → copy_capped src cap ≡ some kept → length kept < cap
unfolding copy_capped
copy_capped-lt src kept cap e = ground arith

pub parse_target-FitsSoFar :
    (method behind : Bytes)
    → length method < method_cap
    → OnParsed FitsSoFar (parse_target method behind)
unfolding parse_target
parse_target-FitsSoFar method behind short = elim (Option-cases (strchr behind b' ')) [
  | inl e ↦ rw (e, parse_target) tt
  | inr ((text, rest), e) ↦ elim (Option-cases (copy_capped text target_cap)) [
    | inl f ↦ rw (e, f, parse_target) tt
    | inr (target, f) ↦
        rw (e, f, parse_target)
          (record {
            method = short;
            target = copy_capped-lt text target target_cap f;
            path = refl;
            authorization = omega arith;
            websocket_key = omega arith;
          })
  ]
]

pub parse_request_line-FitsSoFar : (line : Bytes) → OnParsed FitsSoFar (parse_request_line line)
unfolding parse_request_line
parse_request_line-FitsSoFar line = elim (Option-cases (strchr line b' ')) [
  | inl e ↦ rw (e, parse_request_line) tt
  | inr ((text, behind), e) ↦ elim (Option-cases (copy_capped text method_cap)) [
    | inl f ↦ rw (e, f, parse_request_line) tt
    | inr (method, f) ↦
        rw (e, f, parse_request_line)
          (parse_target-FitsSoFar method behind (copy_capped-lt text method method_cap f))
  ]
]

pub take_authorization-FitsSoFar :
    (value : Bytes) (h : Headers)
    → FitsSoFar h.request
    → FitsSoFar (take_authorization value h).request
unfolding take_authorization
take_authorization-FitsSoFar value h fits =
    elim (Option-cases (copy_capped value authorization_cap)) [
      | inl e ↦ rw (e, take_authorization) fits
      | inr (kept, e) ↦
          rw (e, take_authorization)
            (record {
              method = fits.method;
              target = fits.target;
              path = fits.path;
              authorization = copy_capped-lt value kept authorization_cap e;
              websocket_key = fits.websocket_key;
            })
    ]

pub take_key-FitsSoFar :
    (value : Bytes) (h : Headers) → FitsSoFar h.request → FitsSoFar (take_key value h).request
unfolding take_key
take_key-FitsSoFar value h fits = elim (Option-cases (copy_capped value websocket_key_cap)) [
  | inl e ↦ rw (e, take_key) fits
  | inr (kept, e) ↦
      rw (e, take_key)
        (record {
          method = fits.method;
          target = fits.target;
          path = fits.path;
          authorization = fits.authorization;
          websocket_key = copy_capped-lt value kept websocket_key_cap e;
        })
]

pub take_length-FitsSoFar :
    (value : Bytes) (h : Headers)
    → FitsSoFar h.request
    → OnParsed (λ g. FitsSoFar g.request) (take_length value h)
unfolding take_length
take_length-FitsSoFar value h fits =
    elim (parse_length 0 value)
      as (λ r.
        OnParsed (λ g. FitsSoFar g.request)
          (elim r [
            | failed e ↦ failed e
            | parsed n ↦ parsed (record h { request = record (h.request) { content_length = n } })
          ])) [
            | failed e ↦ tt
            | parsed n ↦ record {
              method = fits.method;
              target = fits.target;
              path = fits.path;
              authorization = fits.authorization;
              websocket_key = fits.websocket_key;
            }
          ]

pub take_header-FitsSoFar :
    (line : Bytes) (h : Headers)
    → FitsSoFar h.request
    → OnParsed (λ g. FitsSoFar g.request) (take_header line h)
unfolding take_header
take_header-FitsSoFar line h fits =
    elim (Option-cases (header_value line (codes "authorization"))) [
      | inr (value, e) ↦ rw (e, take_header) (take_authorization-FitsSoFar value h fits)
      | inl e ↦ elim (Option-cases (header_value line (codes "sec-websocket-key"))) [
        | inr (value, f) ↦ rw (e, f, take_header) (take_key-FitsSoFar value h fits)
        | inl f ↦ elim (Option-cases (header_value line (codes "content-length"))) [
          | inr (value, g) ↦ rw (e, f, g, take_header) (take_length-FitsSoFar value h fits)
          | inl g ↦ rw (e, f, g, take_header) fits
        ]
      ]
    ]

pub take_truncated-FitsSoFar :
    (line : Bytes) (h : Headers) → FitsSoFar h.request → FitsSoFar (take_truncated line h).request
unfolding take_truncated
take_truncated-FitsSoFar line h fits =
    elim (Option-cases (header_value line (codes "authorization"))) [
      | inl e ↦ rw (e, take_truncated) fits
      | inr (value, e) ↦ rw (e, take_truncated) fits
    ]

pub take_line-FitsSoFar :
    (status : LineStatus) (line : Bytes) (h : Headers)
    → FitsSoFar h.request
    → OnMore (λ g. FitsSoFar g.request) (take_line status line h)
unfolding take_line
take_line-FitsSoFar timed_out line h fits = tt
take_line-FitsSoFar truncated line h fits = take_truncated-FitsSoFar (c_string line) h fits
take_line-FitsSoFar line_ok [] h fits = tt
take_line-FitsSoFar line_ok (c ∷ cs) h fits =
    elim (take_header (c_string (c ∷ cs)) h)
        as (λ r.
          OnParsed (λ g. FitsSoFar g.request) r
          → OnMore (λ g. FitsSoFar g.request) (elim r [ failed e ↦ stop e | parsed g ↦ more g ])) [
            | failed e ↦ λ _. tt
            | parsed g ↦ λ kept. kept
          ]
      (take_header-FitsSoFar (c_string (c ∷ cs)) h fits)
