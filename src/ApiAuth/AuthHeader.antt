-- ===== src/ApiAuth/AuthHeader.antt =====
-- lib/apiauth/auth_header.cpp: the Authorization header, `HMAC id=..., ts=..., nonce=..., sig=...`.
-- A pointer into the header is the list of the bytes from there to the terminator.
pub mod Forms
pub mod Fields
pub mod Tracking
pub mod Accepted
pub mod Grammar
pub mod Loop
pub mod RoundTrip
use matrix_faces.Common.{
  ℕ, zero, suc, ◌+◌, ◌-◌, ◌*◌, Bool, true, false, not, ◌&&◌, ◌||◌, List, [], ◌∷◌, Option, none,
  some, ◌>>=◌, ltb, leb, ◌==◌, if◌then◌else◌, Bytes, bytes_eq, codes, is_digit, length, take_while,
  drop_while,
}

abbrev pub client_id_hex_len : ℕ
client_id_hex_len = 16

abbrev pub nonce_hex_len : ℕ
nonce_hex_len = 16

abbrev pub signature_hex_len : ℕ
signature_hex_len = 64

-- `sizeof(out.ts)`.
abbrev pub ts_cap : ℕ
ts_cap = 11

-- `isSpace`.
abbrev pub is_space : ℕ → Bool
is_space c = c == b' ' || c == b'\t'

-- `lower`.
abbrev lower : ℕ → ℕ
lower c = if leb b'A' c && leb c b'Z' then c - b'A' + b'a' else c

-- `matchesIgnoringCase(p, scheme, schemeLen)` behind the test of the length, and the text behind
-- the scheme.
pub after_scheme : Bytes → Bytes → Option Bytes
after_scheme [] p = some p
after_scheme (s ∷ scheme) [] = none
after_scheme (s ∷ scheme) (c ∷ p) =
    let rest = after_scheme scheme p in if lower c == lower s then rest else none

-- `isHexString`.
abbrev pub is_hex : ℕ → Bool
is_hex c = is_digit c || leb b'a' c && leb c b'f' || leb b'A' c && leb c b'F'

pub is_hex_string : Bytes → Bool
is_hex_string [] = true
is_hex_string (c ∷ cs) = is_hex c && is_hex_string cs

pub record AuthHeader : Type 0 where
  pub id : Bytes
  pub nonce : Bytes
  pub sig : Bytes
  pub ts : Bytes
  pub timestamp : ℕ

-- The header being filled, with the four flags of what has been seen.
pub record Parsed : Type 0 where
  pub header : AuthHeader
  pub have_id : Bool
  pub have_ts : Bool
  pub have_nonce : Bool
  pub have_sig : Bool

-- `memset(&out, 0, sizeof(out))`, and no parameter seen.
abbrev pub fresh : Parsed
fresh = record {
  header = record { id = []; nonce = []; sig = []; ts = []; timestamp = 0 };
  have_id = false;
  have_ts = false;
  have_nonce = false;
  have_sig = false;
}

-- `takeValue` and the check of its digits.
unfoldable pub take_hex : Bytes → ℕ → Option Bytes
unfolding is_hex_string
take_hex value expected_len =
    if not (length value == expected_len)
    then none
    else if is_hex_string value
    then some value
    else none

-- The digits of the time stamp. At most ten are read, so `parsed` does not wrap.
unfoldable pub parse_digits : ℕ → Bytes → Option ℕ
parse_digits parsed [] = some parsed
parse_digits parsed (c ∷ cs) =
    let rest = parse_digits (parsed * 10 + (c - b'0')) cs in if not (is_digit c) then none else rest

unfoldable pub parse_ts : Bytes → Option ℕ
unfolding parse_digits
parse_ts value =
    if length value == 0 || leb ts_cap (length value)
    then none
    else (do parsed ← parse_digits 0 value; if ltb 0xffffffff parsed then none else some parsed)

-- The four branches on the parameter's name; another name refuses the header.
unfoldable pub apply_param : Bytes → Bytes → Parsed → Option Parsed
apply_param name value st =
    if bytes_eq name (codes "id")
    then (do
      id ← take_hex value client_id_hex_len
      some (record st { header = record (st.header) { id = id }; have_id = true }))
    else if bytes_eq name (codes "ts")
    then (do
      parsed ← parse_ts value
      some (record st {
        header = record (st.header) { ts = value; timestamp = parsed };
        have_ts = true;
      }))
    else if bytes_eq name (codes "nonce")
    then (do
      nonce ← take_hex value nonce_hex_len
      some (record st { header = record (st.header) { nonce = nonce }; have_nonce = true }))
    else if bytes_eq name (codes "sig")
    then (do
      sig ← take_hex value signature_hex_len
      some (record st { header = record (st.header) { sig = sig }; have_sig = true }))
    else none

abbrev pub between_params : ℕ → Bool
between_params c = is_space c || c == b','

abbrev pub in_name : ℕ → Bool
in_name c = not (c == b'=') && not (c == b',')

abbrev pub in_value : ℕ → Bool
in_value c = not (c == b',') && not (is_space c)

-- The body of the loop behind the `=`, given the name.
unfoldable pub param_value :
    (Bytes → Parsed → Option Parsed) → Bytes → Bytes → Parsed → Option Parsed
param_value next name [] st = none
param_value next name (eq ∷ p) st =
    if not (eq == b'=')
    then none
    else (do st' ← apply_param name (take_while in_value p) st; next (drop_while in_value p) st')

-- One pass of the loop from the first byte behind the separators.
unfoldable pub param : (Bytes → Parsed → Option Parsed) → Bytes → Parsed → Option Parsed
param next [] st = some st
param next (c ∷ p) st =
    param_value next (take_while in_name (c ∷ p)) (drop_while in_name (c ∷ p)) st

-- `while (*p != '\0')`. Each pass takes an `=` at least, so one unit of fuel more than the length
-- is enough (`Loop.params_fuel`).
unfoldable pub params : ℕ → Bytes → Parsed → Option Parsed
params zero p st = none
params (suc fuel) p st = param (params fuel) (drop_while between_params p) st

-- The parameters, which a space must set off from the scheme.
unfoldable pub scheme_params : Bytes → Option Parsed
scheme_params [] = none
scheme_params (c ∷ p) =
    if not (is_space c) then none else params (suc (suc (length p))) (c ∷ p) fresh

-- `parseAuthHeader` on a string; `nullptr` is refused before.
unfoldable pub parse_auth_header : Bytes → Option AuthHeader
unfolding after_scheme
parse_auth_header value = do
  p ← after_scheme (codes "HMAC") (drop_while is_space value)
  st ← scheme_params p
  if st.have_id && st.have_ts && st.have_nonce && st.have_sig then some st.header else none
