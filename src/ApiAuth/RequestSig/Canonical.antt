-- ===== src/ApiAuth/RequestSig/Canonical.antt =====
-- lib/apiauth/request_sig.cpp: what is signed determines the request.
use matrix_faces.Common.{
  ℕ, ◌+◌, ◌≡◌, ◌≢◌, refl, sym, some_inj, ◌∙◌, arith, List, [], ◌∷◌, ◌++◌, Option, none, some, ◌==◌,
  leb, ltb, if◌then◌else◌, ◌>>=◌, Bytes, AllBytes, All, length, ap₂, length-append, append_assoc,
  Bool-cases, inl, inr,
}
use matrix_faces.ApiAuth.Hex.{to_hex}
use matrix_faces.ApiAuth.Hex.RoundTrip.{to_hex-injective}
use matrix_faces.ApiAuth.RequestSig.{append, append_char, build_canonical_request}

-- The text that is signed: four lines and the digest of the body.
unfoldable pub canonical : Bytes → Bytes → Bytes → Bytes → Bytes → Bytes
canonical method path ts nonce body_hash =
    method ++ b'\n' ∷ (path ++ b'\n' ∷ (ts ++ b'\n' ∷ (nonce ++ b'\n' ∷ to_hex body_hash)))

-- The pieces of a text, appended one after the other; the first piece stands apart.
append_all : ℕ → Bytes → List Bytes → Bytes → Option Bytes
append_all cap p [] out = append cap p out
append_all cap p (q ∷ ps) out = append cap p out >>= append_all cap q ps

concat : Bytes → List Bytes → Bytes
concat p [] = p
concat p (q ∷ ps) = p ++ concat q ps

append_all-concat :
    (cap : ℕ) (p : Bytes) (ps : List Bytes) (out : Bytes)
    → append_all cap p ps out
      ≡ (if ltb (length (out ++ concat p ps)) cap then some (out ++ concat p ps) else none)
unfolding append_all concat append
append_all-concat cap p [] out = ground (arith, length-append out p)
append_all-concat cap p (q ∷ ps) out = elim (Bool-cases (leb cap (length out + length p))) [
  | inl full ↦ ground (arith, length-append out (p ++ concat q ps), length-append p (concat q ps))
  | inr fits ↦
      rw (fits, ◌>>=◌)
        (append_all-concat cap q ps (out ++ p) ∙ rw (append_assoc out p (concat q ps)))
]

-- The canonical request is written whole, with room for its terminator, or not at all: it is
-- produced exactly when the four lines and the digest are shorter than the buffer.
pub build-canonical :
    (method path ts nonce body_hash : Bytes) (cap : ℕ)
    → build_canonical_request method path ts nonce body_hash cap ≡ (
        if ltb (length (canonical method path ts nonce body_hash)) cap
        then some (canonical method path ts nonce body_hash)
        else none)
unfolding build_canonical_request append_all concat canonical append append_char
build-canonical method path ts nonce body_hash cap = elim (Bool-cases (cap == 0)) [
  | inl empty ↦ ground arith
  | inr room ↦
      let line : Bytes = b'\n' ∷ [] in
      let pieces : List Bytes =
        line ∷ path ∷ line ∷ ts ∷ line ∷ nonce ∷ line ∷ to_hex body_hash ∷ [] in
      rw room (append_all-concat cap method pieces [])
]

-- The parts of a request that the signature covers; the body stands in by its digest.
pub record Signed : Type 0 where
  pub method : Bytes
  pub path : Bytes
  pub ts : Bytes
  pub nonce : Bytes
  pub body_hash : Bytes

abbrev pub canonical_of : Signed → Bytes
canonical_of r = canonical r.method r.path r.ts r.nonce r.body_hash

-- No newline in `xs`.
abbrev pub IsLine : Bytes → Type 0
IsLine xs = All (λ b. b ≢ b'\n') xs

-- The four texts are lines, as those of a request read line by line are, and the digest is bytes.
pub record IsSafe (r : Signed) : Type 0 where
  pub method : IsLine r.method
  pub path : IsLine r.path
  pub ts : IsLine r.ts
  pub nonce : IsLine r.nonce
  pub body_hash : AllBytes r.body_hash

-- A line ends at the first newline.
line_end :
    (xs ys : Bytes) {us vs : Bytes}
    → IsLine xs
    → IsLine ys
    → xs ++ b'\n' ∷ us ≡ ys ++ b'\n' ∷ vs
    → (xs ≡ ys) × (us ≡ vs)
line_end [] [] hx hy e = (refl, cc)
line_end [] (y ∷ ys) hx hy e = let first : y ≡ b'\n' = cc in absurd (hy.0 first)
line_end (x ∷ xs) [] hx hy e = let first : x ≡ b'\n' = cc in absurd (hx.0 first)
line_end (x ∷ xs) (y ∷ ys) {us} {vs} hx hy e =
    let first : x ≡ y = cc in
    let later : xs ++ b'\n' ∷ us ≡ ys ++ b'\n' ∷ vs = cc in
    let (same, rest) = line_end xs ys hx.1 hy.1 later in (ap₂ ◌∷◌ first same, rest)

-- Two requests with the same canonical text are the same request: no byte of one field can be
-- moved into another under one signature.
pub canonical-injective :
    (r s : Signed) → IsSafe r → IsSafe s → canonical_of r ≡ canonical_of s → r ≡ s
unfolding canonical
canonical-injective r s hr hs e =
    let (methods, e1) = line_end r.method s.method hr.method hs.method e in
    let (paths, e2) = line_end r.path s.path hr.path hs.path e1 in
    let (times, e3) = line_end r.ts s.ts hr.ts hs.ts e2 in
    let (nonces, e4) = line_end r.nonce s.nonce hr.nonce hs.nonce e3 in
    let bodies = to_hex-injective r.body_hash s.body_hash hr.body_hash hs.body_hash e4 in
    λ i. record {
      method = methods i;
      path = paths i;
      ts = times i;
      nonce = nonces i;
      body_hash = bodies i;
    }

abbrev pub build_of : ℕ → Signed → Option Bytes
build_of cap r = build_canonical_request r.method r.path r.ts r.nonce r.body_hash cap

canonical_of-build :
    (cap : ℕ) (r : Signed) {text : Bytes} → build_of cap r ≡ some text → canonical_of r ≡ text
canonical_of-build cap r {text} e =
    let whole = sym (build-canonical r.method r.path r.ts r.nonce r.body_hash cap) ∙ e in
    elim (Bool-cases (ltb (length (canonical_of r)) cap)) [
      | inl fits ↦ some_inj (rw fits at whole)
      | inr long ↦ let refused = rw long at whole in cc
    ]

-- Two requests of lines for which the same canonical request is built are the same request: no byte
-- of one field can be moved into another under one signature.
pub build_canonical_request-injective :
    (r s : Signed) (cap : ℕ) {text : Bytes}
    → IsSafe r
    → IsSafe s
    → build_of cap r ≡ some text
    → build_of cap s ≡ some text
    → r ≡ s
build_canonical_request-injective r s cap hr hs er es =
    canonical-injective r s hr hs (canonical_of-build cap r er ∙ sym (canonical_of-build cap s es))
