-- ===== src/Tests/HttpRequest.antt =====
-- src/api/http_request.cpp on a request with three headers and a body.
use matrix_faces.Common.{
  ℕ, ◌≡◌, ◌<◌, refl, arith, Bool, true, not, List, [], ◌∷◌, ◌++◌, some, ◌==◌, ◌&&◌, Bytes, codes,
  c_string, All, length, drop_while, &&-eq-true, take_while,
}
use matrix_faces.Net.StreamRead.{
  Pass, strip_returns, drain_buffered, read_line, line_loop, read_exactly, exactly_loop,
}
use matrix_faces.Net.StreamRead.Line.{Arrives, newline, byte}
use matrix_faces.Net.StreamRead.Body.{Comes, done, got}
use matrix_faces.Api.HttpRequest.{
  HttpRequest, http_ok, parse_request_line, parse_target, copy_capped, empty_request, path_of,
  strchr, header_value, equals_ignoring_case, read_timeout, drain_timeout,
}
use matrix_faces.Api.HttpRequest.Reader.{
  read_http_request, after_request_line, read_headers, read_body, headers_loop, take_line,
  take_header,
}
use matrix_faces.ApiAuth.AuthHeader.Forms.{decimal_value}
use matrix_faces.Api.HttpRequest.Fields.{
  Header, authorization_line, length_line, other_line, header_text, IsHeader, set_field,
}
use matrix_faces.Api.HttpRequest.Message.{
  Lines, no_line, line, Free, request_line, head, IsLine, set_fields, read_http_request-Lines,
}
use matrix_faces.Api.HttpRequest.Bounds.{FitsBuffers, read_http_request-FitsBuffers}

-- The bytes come one after the other, before what comes later.
abbrev sent : Bytes → List Pass → List Pass
sent [] later = later
sent (c ∷ cs) later = record { elapsed = 1; read = some c; more = true } ∷ sent cs later

abbrev free : ℕ → Bytes → Bool
free c [] = true
free c (x ∷ xs) = not (x == c) && free c xs

free-Free : (c : ℕ) (text : Bytes) → free c text ≡ true → Free c text
free-Free c [] h = tt
free-Free c (x ∷ xs) h =
    let (first, later) = &&-eq-true (not (x == c)) (free c xs) h in (first, free-Free c xs later)

sent-Arrives :
    (text : Bytes) (later : List Pass)
    → Free b'\n' text
    → Arrives read_timeout (sent (text ++ b'\n' ∷ []) later) text later
sent-Arrives [] later h = newline _ later (omega arith) refl
sent-Arrives (c ∷ cs) later (first, rest) =
    byte _ _ later c cs (omega arith) refl (λ e. ground arith) (sent-Arrives cs later rest)

sent-Comes : (body : Bytes) (later : List Pass) → Comes read_timeout (sent body later) body later
sent-Comes [] later = done later
sent-Comes (c ∷ cs) later = got _ _ later c cs refl (sent-Comes cs later)

abbrev auth_line : Header
auth_line = authorization_line (codes "AUTHORIZATION") (codes "  ") (codes "HMAC")

abbrev host_line : Header
host_line = other_line (codes "Host: pi")

abbrev size_line : Header
size_line = length_line (codes "Content-Length") (codes " ") (codes "02")

abbrev headers : List Header
headers = auth_line ∷ host_line ∷ size_line ∷ []

abbrev first_line : Bytes
first_line = request_line (codes "PUT") (codes "/a?b=1") (codes "HTTP/1.1")

abbrev crlf : Bytes → List Pass → List Pass
crlf text later = sent ((text ++ 13 ∷ []) ++ b'\n' ∷ []) later

abbrev after_head : List Pass
after_head = sent (codes "{}") []

abbrev message : List Pass
message = crlf first_line (
    crlf (codes "AUTHORIZATION:  HMAC")
      (crlf (codes "Host: pi") (crlf (codes "Content-Length: 02") (crlf [] after_head))))

abbrev filled : HttpRequest
filled = record empty_request {
  method = codes "PUT";
  target = codes "/a?b=1";
  path = codes "/a";
  authorization = codes "HMAC";
  content_length = 2;
}

crlf-Lines :
    (text : Bytes) (later rest : List Pass) (texts : List Bytes)
    → free b'\n' (text ++ 13 ∷ []) ≡ true
    → strip_returns (text ++ 13 ∷ []) ≡ text
    → length (text ++ 13 ∷ []) < 256
    → Lines later texts rest
    → Lines (crlf text later) (text ∷ texts) rest
crlf-Lines text later rest texts one stripped short behind =
    line (crlf text later) later rest (text ++ 13 ∷ []) text texts
      (sent-Arrives (text ++ 13 ∷ []) later (free-Free b'\n' (text ++ 13 ∷ []) one)) short stripped
      behind

message-Lines : Lines message (head first_line headers) after_head
unfolding strip_returns header_text
message-Lines = crlf-Lines first_line _ _ _ refl refl (omega arith) (
    crlf-Lines (codes "AUTHORIZATION:  HMAC") _ _ _ refl refl (omega arith) (
      crlf-Lines (codes "Host: pi") _ _ _ refl refl (omega arith) (
        crlf-Lines (codes "Content-Length: 02") _ _ _ refl refl (omega arith)
          (crlf-Lines [] _ _ _ refl refl (omega arith) (no_line after_head)))))

headers-IsLine : All IsLine headers
unfolding IsHeader header_text equals_ignoring_case drop_while header_value decimal_value
headers-IsLine = (
  (
    ((refl, refl, (refl, (refl, tt)), refl), omega arith),
    free-Free 0 (header_text auth_line) refl,
    λ e. cc,
  ),
  (
    ((refl, refl, refl), free-Free 0 (header_text host_line) refl, λ e. cc),
    (
      (
        ((refl, refl, (refl, tt), refl), (refl, (refl, tt)), omega arith),
        free-Free 0 (header_text size_line) refl,
        λ e. cc,
      ),
      tt,
    ),
  ),
)

read_http_request-Lines_example :
    read_http_request message
    ≡ http_ok
        (record filled { body = codes "{}"; body_len = length (codes "{}") })
        (drain_buffered [] drain_timeout)
unfolding set_fields set_field path_of strchr drop_while take_while decimal_value
read_http_request-Lines_example =
    read_http_request-Lines (codes "PUT") (codes "/a?b=1") (codes "HTTP/1.1") headers (codes "{}")
      message after_head [] filled refl message-Lines (sent-Comes (codes "{}") [])
      (free-Free b' ' (codes "PUT") refl) (free-Free b' ' (codes "/a?b=1") refl)
      (free-Free 0 first_line refl) (omega arith) (omega arith) headers-IsLine (omega arith) refl
      (omega arith)

-- A request with nothing but its first line.
abbrev short_message : List Pass
short_message = crlf (codes "GET /a? HTTP/1.1") (crlf [] [])

abbrev short_request : HttpRequest
short_request = record empty_request {
  method = codes "GET";
  target = codes "/a?";
  path = codes "/a";
}

short_message-read : read_http_request short_message ≡ http_ok short_request []
unfolding read_http_request after_request_line read_headers read_body headers_loop take_line
    take_header parse_request_line parse_target path_of copy_capped strchr c_string take_while
    drop_while read_line line_loop strip_returns read_exactly exactly_loop drain_buffered
short_message-read = refl

read_http_request-FitsBuffers_example : FitsBuffers short_request
read_http_request-FitsBuffers_example =
    read_http_request-FitsBuffers short_message [] short_request short_message-read
