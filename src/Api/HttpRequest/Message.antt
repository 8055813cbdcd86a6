-- ===== src/Api/HttpRequest/Message.antt =====
-- src/api/http_request.cpp: a request that a client writes and that comes in time is read back.
use matrix_faces.Common.{
  ℕ, zero, suc, ◌-◌, ◌<◌, ◌≤◌, ◌≡◌, ◌≢◌, refl, ap, ◌∙◌, subst, arith, true, false, not, List, [],
  ◌∷◌, ◌++◌, map, some, ltb, leb, ◌==◌, Bytes, c_string, All, length, take, take_all,
  take_while-stop, take_while-end,
}
use matrix_faces.Net.StreamRead.{
  Pass, LineStatus, line_ok, strip_returns, read_line, drain_buffered,
}
use matrix_faces.Net.StreamRead.Line.{Arrives, read_line-strip_returns}
use matrix_faces.Net.StreamRead.Body.{Comes, read_exactly-Comes}
use matrix_faces.Api.HttpRequest.{
  HttpRequest, http_ok, parsed, strchr, copy_capped, path_of, empty_request, parse_target,
  parse_request_line, method_cap, target_cap, line_cap, read_timeout, drain_timeout, max_headers,
  body_cap,
}
use matrix_faces.Api.HttpRequest.Reader.{
  Headers, more, take_line, headers_loop, read_body, read_headers, after_request_line,
  read_http_request, take_header,
}
use matrix_faces.Api.HttpRequest.Fields.{
  Header, header_text, IsHeader, set_field, take_header-IsHeader,
}

-- The lines come one after the other, each short and in time, with carriage returns before the
-- newline or without; the last index is what they leave of the passes.
pub data Lines : List Pass → List Bytes → List Pass → Type 0 where
  no_line : (ps : List Pass) → Lines ps [] ps
  line :
      (ps mid rest : List Pass) (sent text : Bytes) (texts : List Bytes)
      → Arrives read_timeout ps sent mid
      → length sent < line_cap
      → strip_returns sent ≡ text
      → Lines mid texts rest
      → Lines ps (text ∷ texts) rest

-- No byte of the text is a NUL, or is `c`.
abbrev pub Free : ℕ → Bytes → Type 0
Free c text = All (λ x. not (x == c) ≡ true) text

abbrev pub request_line : Bytes → Bytes → Bytes → Bytes
request_line method target version = method ++ b' ' ∷ (target ++ b' ' ∷ version)

-- The headers of a request with the empty line behind them.
abbrev pub head : Bytes → List Header → List Bytes
head first hs = first ∷ (map header_text hs ++ [] ∷ [])

abbrev pub IsLine : Header → Type 0
IsLine h = IsHeader h × Free 0 (header_text h) × (header_text h ≢ [])

-- The fields that the headers set, the later ones over the earlier.
unfoldable pub set_fields : List Header → HttpRequest → HttpRequest
set_fields [] r = r
set_fields (h ∷ hs) r = set_fields hs (set_field h r)

read_line-short :
    (ps rest : List Pass) (sent text : Bytes)
    → Arrives read_timeout ps sent rest
    → length sent < line_cap
    → strip_returns sent ≡ text
    → read_line ps line_cap read_timeout ≡ (line_ok, text, rest)
read_line-short ps rest sent text comes short stripped =
    let whole : take (line_cap - 1) sent ≡ sent = take_all 255 sent (omega arith) in
    let fits : leb line_cap (length sent) ≡ false = ground arith in
    let got = read_line-strip_returns read_timeout line_cap ps rest sent comes (omega arith) in
    rw (fits, whole, stripped) at got

c_string-Free : (text : Bytes) → Free 0 text → c_string text ≡ text
unfolding c_string
c_string-Free text h = (take_while-end (λ x. not (x == 0)) text h).0

strchr-stop :
    (text rest : Bytes) (c : ℕ) → Free c text → strchr (text ++ c ∷ rest) c ≡ some (text, rest)
unfolding strchr
strchr-stop text rest c h =
    let (taken, left) = take_while-stop (λ x. not (x == c)) text rest c h (ground arith) in
    rw (left, strchr) (ap (λ s. some (s, rest)) taken)

take_line-nonempty :
    (text : Bytes) (h : Headers) {h' : Headers}
    → text ≢ []
    → Free 0 text
    → take_header text h ≡ parsed h'
    → take_line line_ok text h ≡ more h'
unfolding take_line
take_line-nonempty [] h nonempty free e = absurd (nonempty refl)
take_line-nonempty (c ∷ cs) h nonempty free e = rw (c_string-Free (c ∷ cs) free, e, take_line) refl

take_line-IsLine :
    (header : Header) (h : Headers)
    → IsLine header
    → take_line line_ok (header_text header) h
      ≡ more (record h { request = set_field header h.request })
take_line-IsLine header h (form, free, nonempty) =
    take_line-nonempty (header_text header) h nonempty free (take_header-IsHeader header h form)

copy_capped-lt : (src : Bytes) (cap : ℕ) → length src < cap → copy_capped src cap ≡ some src
unfolding copy_capped
copy_capped-lt src cap h = ground arith

parse_request_line-request_line :
    (method target version : Bytes)
    → Free b' ' method
    → Free b' ' target
    → length method < method_cap
    → length target < target_cap
    → parse_request_line (request_line method target version)
      ≡ parsed (record empty_request { method = method; target = target; path = path_of target })
unfolding parse_request_line parse_target
parse_request_line-request_line method target version hm ht m t =
    rw
      (
        strchr-stop method (target ++ b' ' ∷ version) b' ' hm,
        copy_capped-lt method method_cap m,
        strchr-stop target version b' ' ht,
        copy_capped-lt target target_cap t,
        parse_request_line,
        parse_target,
      )
      refl

Lines-first :
    (ps rest : List Pass) (text : Bytes) (texts : List Bytes)
    → Lines ps (text ∷ texts) rest
    → (mid : List Pass) × (read_line ps line_cap read_timeout ≡ (line_ok, text, mid))
      × Lines mid texts rest
Lines-first ps rest text texts (line _ mid _ sent _ _ comes short stripped later) =
    (mid, read_line-short ps mid sent text comes short stripped, later)

Lines-none : (ps rest : List Pass) → Lines ps [] rest → ps ≡ rest
Lines-none ps rest (no_line _) = refl

headers_loop-Lines :
    (left : ℕ) (ps rest : List Pass) (hs : List Header) (h : Headers)
    → Lines ps (map header_text hs ++ [] ∷ []) rest
    → length hs < left
    → All IsLine hs
    → headers_loop left ps h ≡ parsed (record h { request = set_fields hs h.request }, rest)
unfolding headers_loop set_fields take_line
headers_loop-Lines zero ps rest hs h lines room form = absurd (omega arith)
headers_loop-Lines (suc left) ps rest [] h lines room form =
    let (mid, first, later) = Lines-first ps rest [] [] lines in
    let end : read_line ps line_cap read_timeout ≡ (line_ok, [], rest) =
      first ∙ ap (λ (qs : List Pass). (line_ok, [], qs)) (Lines-none mid rest later) in
    rw (end, headers_loop) (ap (λ (l : LineStatus × Bytes × List Pass). parsed (h, l.2)) end)
headers_loop-Lines (suc left) ps rest (x ∷ hs) h lines room (form, forms) =
    let (mid, first, later) =
      Lines-first ps rest (header_text x) (map header_text hs ++ [] ∷ []) lines in
    let h' : Headers = record h { request = set_field x h.request } in
    rw (first, take_line-IsLine x h form, headers_loop)
      (ap (λ (l : LineStatus × Bytes × List Pass). headers_loop left l.2 h') first
        ∙ headers_loop-Lines left mid rest hs h' later (omega arith) forms)

after_request_line-parsed :
    (text : Bytes) (r : HttpRequest) (ps : List Pass)
    → Free 0 text
    → parse_request_line text ≡ parsed r
    → after_request_line line_ok text ps ≡ read_headers r ps
unfolding after_request_line
after_request_line-parsed text r ps free e =
    rw (c_string-Free text free, e, after_request_line) refl

read_headers-parsed :
    (r : HttpRequest) (ps : List Pass) (h : Headers) (rest : List Pass)
    → headers_loop max_headers ps (record { request = r; authorization_truncated = false })
      ≡ parsed (h, rest)
    → read_headers r ps ≡ read_body h rest
unfolding read_headers
read_headers-parsed r ps h rest e = rw (e, read_headers) refl

read_body-Comes :
    (r : HttpRequest) (ps rest : List Pass) (body : Bytes)
    → Comes read_timeout ps body rest
    → r.content_length ≡ length body
    → length body ≤ body_cap
    → read_body (record { request = r; authorization_truncated = false }) ps
      ≡ http_ok
          (record r { body = body; body_len = length body })
          (drain_buffered rest drain_timeout)
unfolding read_body
read_body-Comes r ps rest body comes size small =
    let whole = read_exactly-Comes read_timeout ps rest body comes in
    let fits : ltb body_cap (length body) ≡ false = ground arith in
    rw (size, fits, whole, read_body)
      (ap
        (λ n.
          http_ok (record r { body = body; body_len = n; content_length = n })
            (drain_buffered rest drain_timeout))
        size)

-- A request whose lines and body come in time is read back: its method and its target as they were
-- sent, the path, what the headers set with the later over the earlier, and the body whole. Each
-- line fits the line buffer, has no NUL, and may end in carriage returns; the method and the target
-- have no space and fit their buffers; at most 39 headers come, each of them a field in form, its
-- name in any case, or a line that is none of the three fields; and the Content-Length that they
-- leave is the length of the body and at most 256.
pub read_http_request-Lines :
    (method target version : Bytes) (hs : List Header) (body : Bytes) (ps mid rest : List Pass)
    → (r : HttpRequest)
    → r
      ≡ set_fields hs
          (record empty_request { method = method; target = target; path = path_of target })
    → Lines ps (head (request_line method target version) hs) mid
    → Comes read_timeout mid body rest
    → Free b' ' method
    → Free b' ' target
    → Free 0 (request_line method target version)
    → length method < method_cap
    → length target < target_cap
    → All IsLine hs
    → length hs < max_headers
    → r.content_length ≡ length body
    → length body ≤ body_cap
    → read_http_request ps
      ≡ http_ok
          (record r { body = body; body_len = length body })
          (drain_buffered rest drain_timeout)
unfolding read_http_request
read_http_request-Lines method target version hs body ps mid rest r fields lines comes hm ht text m
      t forms few size small =
    let begun : HttpRequest = record empty_request {
      method = method;
      target = target;
      path = path_of target;
    } in
    let start : Headers = record { request = begun; authorization_truncated = false } in
    let (behind, first, later) =
      Lines-first ps mid (request_line method target version) (map header_text hs ++ [] ∷ [])
        lines in
    let loop = headers_loop-Lines max_headers behind mid hs start later few forms in
    let parse = parse_request_line-request_line method target version hm ht m t in
    let done : Headers = record {
      request = set_fields hs begun;
      authorization_truncated = false;
    } in
    ap (λ (l : LineStatus × Bytes × List Pass). after_request_line l.0 l.1 l.2) first
    ∙ after_request_line-parsed (request_line method target version) begun behind text parse
    ∙ read_headers-parsed begun behind done mid loop
    ∙ subst
        (λ q.
          read_body (record { request = q; authorization_truncated = false }) mid
          ≡ http_ok (record r { body = body; body_len = length body })
              (drain_buffered rest drain_timeout))
        fields (read_body-Comes r mid rest body comes size small)
