-- ===== src/ApiAuth/AuthHeader/Fields.antt =====
-- lib/apiauth/auth_header.cpp: every header that is accepted has its four fields, each in form.
use matrix_faces.Common.{
  ℕ, zero, suc, ◌≡◌, subst, arith, true, ◌&&◌, Option, none, some, [], ◌∷◌, ◌==◌, if◌then◌else◌,
  >>=-eq-some, some_inj, Bool-cases, inl, inr, Bytes, bytes_eq, codes, length, drop_while,
  take_while,
}
use mathlib.Core.Bool.{false≢true}
use matrix_faces.ApiAuth.AuthHeader.{
  AuthHeader, Parsed, fresh, take_hex, is_space, between_params, in_value, in_name, parse_ts,
  apply_param, param_value, param, params, after_scheme, scheme_params, parse_auth_header,
}
use matrix_faces.ApiAuth.AuthHeader.Forms.{
  IsTime, IsHex, IsWellFormed, take_hex-IsHex, parse_ts-IsTime,
}

-- What the flags promise while the header is being filled.
record Inv (st : Parsed) : Type 0 where
  id : st.have_id ≡ true → IsHex 16 st.header.id
  nonce : st.have_nonce ≡ true → IsHex 16 st.header.nonce
  sig : st.have_sig ≡ true → IsHex 64 st.header.sig
  time : st.have_ts ≡ true → IsTime st.header.ts st.header.timestamp

-- One lemma for each parameter: storing a value in form keeps what the flags promise.
apply_param-Inv :
    (name value : Bytes) (st : Parsed) {st' : Parsed}
    → Inv st
    → apply_param name value st ≡ some st'
    → Inv st'
unfolding apply_param
apply_param-Inv name value st inv e = elim (Bool-cases (bytes_eq name (codes "id"))) [
  | inl is_id ↦
      let (id, taken, e1) = >>=-eq-some (take_hex value 16) _ (rw is_id at e) in
      subst Inv (some_inj e1) (record {
        id = λ _. take_hex-IsHex value 16 taken;
        nonce = inv.nonce;
        sig = inv.sig;
        time = inv.time;
      })
  | inr not_id ↦ elim (Bool-cases (bytes_eq name (codes "ts"))) [
    | inl is_ts ↦
        let (v, parsed, e1) = >>=-eq-some (parse_ts value) _ (rw (not_id, is_ts) at e) in
        subst Inv (some_inj e1) (record {
          id = inv.id;
          nonce = inv.nonce;
          sig = inv.sig;
          time = λ _. parse_ts-IsTime value parsed;
        })
    | inr not_ts ↦ elim (Bool-cases (bytes_eq name (codes "nonce"))) [
      | inl is_nonce ↦
          let (nonce, taken, e1) =
            >>=-eq-some (take_hex value 16) _ (rw (not_id, not_ts, is_nonce) at e) in
          subst Inv (some_inj e1) (record {
            id = inv.id;
            nonce = λ _. take_hex-IsHex value 16 taken;
            sig = inv.sig;
            time = inv.time;
          })
      | inr not_nonce ↦ elim (Bool-cases (bytes_eq name (codes "sig"))) [
        | inl is_sig ↦
            let (sig, taken, e1) =
              >>=-eq-some (take_hex value 64) _ (rw (not_id, not_ts, not_nonce, is_sig) at e) in
            subst Inv (some_inj e1) (record {
              id = inv.id;
              nonce = inv.nonce;
              sig = λ _. take_hex-IsHex value 64 taken;
              time = inv.time;
            })
        | inr other ↦ let refused = rw (not_id, not_ts, not_nonce, other) at e in cc
      ]
    ]
  ]
]

-- One pass keeps the promise if the passes after it do.
abbrev PassInv : (Bytes → Parsed → Option Parsed) → Type 0
PassInv next = (q : Bytes) (s : Parsed) (s' : Parsed) → Inv s → next q s ≡ some s' → Inv s'

param_value-Inv :
    (next : Bytes → Parsed → Option Parsed) (name p : Bytes) (st : Parsed) {st' : Parsed}
    → PassInv next
    → Inv st
    → param_value next name p st ≡ some st'
    → Inv st'
unfolding param_value
param_value-Inv next name [] st later inv e = cc
param_value-Inv next name (c ∷ p) st later inv e = elim (Bool-cases (c == b'=')) [
  | inl equals ↦
      let (st1, applied, rest) =
        >>=-eq-some (apply_param name (take_while in_value p) st) _ (rw equals at e) in
      later (drop_while in_value p) st1 _
        (apply_param-Inv name (take_while in_value p) st inv applied) rest
  | inr other ↦ let refused = rw other at e in cc
]

param-Inv :
    (next : Bytes → Parsed → Option Parsed) (p : Bytes) (st : Parsed) {st' : Parsed}
    → PassInv next
    → Inv st
    → param next p st ≡ some st'
    → Inv st'
unfolding param
param-Inv next [] st later inv e = subst Inv (some_inj e) inv
param-Inv next (c ∷ p) st later inv e =
    param_value-Inv next (take_while in_name (c ∷ p)) (drop_while in_name (c ∷ p)) st later inv e

params-Inv :
    (fuel : ℕ) (p : Bytes) (st : Parsed) {st' : Parsed}
    → Inv st
    → params fuel p st ≡ some st'
    → Inv st'
unfolding params
params-Inv zero p st inv e = cc
params-Inv (suc fuel) p st inv e =
    param-Inv (params fuel) (drop_while between_params p) st (λ q s s' i d. params-Inv fuel q s i d)
      inv e

fresh-Inv : Inv fresh
fresh-Inv = record {
  id = λ e. absurd (false≢true e);
  nonce = λ e. absurd (false≢true e);
  sig = λ e. absurd (false≢true e);
  time = λ e. absurd (false≢true e);
}

scheme_params-Inv : (p : Bytes) {st : Parsed} → scheme_params p ≡ some st → Inv st
unfolding scheme_params
scheme_params-Inv [] e = cc
scheme_params-Inv (c ∷ p) e = elim (Bool-cases (is_space c)) [
  | inl space ↦ params-Inv (suc (suc (length p))) (c ∷ p) fresh fresh-Inv (rw space at e)
  | inr other ↦ let refused = rw other at e in cc
]

-- The four flags together make the header well formed.
IsWellFormed-of_flags :
    (st : Parsed) {h : AuthHeader}
    → Inv st
    → (if st.have_id && st.have_ts && st.have_nonce && st.have_sig then some st.header else none)
      ≡ some h
    → IsWellFormed h
IsWellFormed-of_flags st inv e =
    elim (Bool-cases (st.have_id && st.have_ts && st.have_nonce && st.have_sig)) [
      | inl seen ↦ subst IsWellFormed (some_inj (rw seen at e)) (
          let all : (st.have_id ≡ true)
              × (st.have_ts ≡ true)
              × (st.have_nonce ≡ true)
              × (st.have_sig ≡ true) =
            ground arith in
          record {
            id = inv.id all.0;
            nonce = inv.nonce all.2;
            sig = inv.sig all.3;
            time = inv.time all.1;
          })
      | inr missing ↦ let refused = rw missing at e in cc
    ]

-- A header that is accepted has a client id and a nonce of 16 hexadecimal digits, a signature of
-- 64, and a time stamp of one to ten digits whose value is the number kept beside it and lies
-- below 2^32.
pub parse_auth_header-IsWellFormed :
    (value : Bytes) {h : AuthHeader} → parse_auth_header value ≡ some h → IsWellFormed h
unfolding parse_auth_header
parse_auth_header-IsWellFormed value e =
    let (p, scheme, e1) =
      >>=-eq-some (after_scheme (codes "HMAC") (drop_while is_space value)) _ e in
    let (st, filled, e2) = >>=-eq-some (scheme_params p) _ e1 in
    IsWellFormed-of_flags st (scheme_params-Inv p filled) e2
