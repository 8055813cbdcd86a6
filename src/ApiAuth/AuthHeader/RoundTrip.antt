-- ===== src/ApiAuth/AuthHeader/RoundTrip.antt =====
-- lib/apiauth/auth_header.cpp: a header in form is read back.
use matrix_faces.Common.{
  ℕ, suc, ◌+◌, ◌-◌, ◌*◌, ◌^◌, ◌≡◌, refl, ap, ap₂, ◌∙◌, arith, true, false, ◌&&◌, &&-eq-true, Option,
  none, some, [], ◌∷◌, ◌++◌, if◌then◌else◌, ◌>>=◌, Bytes, bytes_eq, codes, All, is_digit, length,
  drop_while, take_while-stop, take_while-end,
}
use matrix_faces.ApiAuth.AuthHeader.{
  AuthHeader, Parsed, fresh, take_hex, is_hex, is_hex_string, between_params, in_value, in_name,
  parse_digits, parse_ts, apply_param, param_value, param, params, scheme_params, parse_auth_header,
}
use matrix_faces.ApiAuth.AuthHeader.Forms.{next_digit, IsTime, IsHex, IsWellFormed, decimal_value}

-- A header as the clients write it, with nothing but a comma between the parameters.
unfoldable pub format_header : AuthHeader → Bytes
format_header h =
    codes "HMAC id="
    ++ (h.id
        ++ (codes ",ts=" ++ (h.ts ++ (codes ",nonce=" ++ (h.nonce ++ (codes ",sig=" ++ h.sig))))))

is_hex-in_value : (c : ℕ) → is_hex c ≡ true → in_value c ≡ true
is_hex-in_value c h = ground arith

is_hex_string-in_value :
    (text : Bytes) → is_hex_string text ≡ true → All (λ c. in_value c ≡ true) text
unfolding is_hex_string
is_hex_string-in_value [] h = tt
is_hex_string-in_value (c ∷ cs) h =
    let (first, later) = &&-eq-true (is_hex c) (is_hex_string cs) h in
    (is_hex-in_value c first, is_hex_string-in_value cs later)

is_digit-in_value : (c : ℕ) → is_digit c ≡ true → in_value c ≡ true
is_digit-in_value c h = ground arith

digits-in_value :
    (text : Bytes) → All (λ c. is_digit c ≡ true) text → All (λ c. in_value c ≡ true) text
digits-in_value [] h = tt
digits-in_value (c ∷ cs) (first, later) = (is_digit-in_value c first, digits-in_value cs later)

parse_digits-eq-some :
    (cs : Bytes) (acc : ℕ)
    → All (λ c. is_digit c ≡ true) cs
    → parse_digits acc cs ≡ some (acc * 10 ^ length cs + decimal_value cs)
unfolding parse_digits decimal_value
parse_digits-eq-some [] acc h = ap some (omega arith)
parse_digits-eq-some (c ∷ cs) acc (digit, later) = rw digit (
    parse_digits-eq-some cs (acc * 10 + (c - b'0')) later
    ∙ ap some (omega (arith, next_digit acc (c - b'0') (length cs))))

parse_ts-eq-some : (ts : Bytes) {v : ℕ} → IsTime ts v → parse_ts ts ≡ some v
unfolding parse_ts
parse_ts-eq-some ts t =
    ground (arith, parse_digits-eq-some ts 0 t.digits, t.value, t.bound, t.short)

take_hex-eq-some : (value : Bytes) (n : ℕ) → IsHex n value → take_hex value n ≡ some value
unfolding take_hex
take_hex-eq-some value n h = ground arith

-- One pass over a parameter that a comma follows.
params_step :
    (fuel : ℕ) (sep : Bytes) (n : ℕ) (ns value rest : Bytes) (st : Parsed) {st' : Parsed}
    → All (λ c. between_params c ≡ true) sep
    → between_params n ≡ false
    → All (λ c. in_name c ≡ true) (n ∷ ns)
    → All (λ c. in_value c ≡ true) value
    → apply_param (n ∷ ns) value st ≡ some st'
    → params (suc fuel) (sep ++ n ∷ (ns ++ b'=' ∷ (value ++ b',' ∷ rest))) st
      ≡ params fuel (b',' ∷ rest) st'
unfolding params param param_value
params_step fuel sep n ns value rest st hs hn hns hv e =
    let (_, skipped) =
      take_while-stop between_params sep (ns ++ b'=' ∷ (value ++ b',' ∷ rest)) n hs hn in
    let (name, equals) = take_while-stop in_name (n ∷ ns) (value ++ b',' ∷ rest) b'=' hns refl in
    let (taken, left) = take_while-stop in_value value rest b',' hv refl in
    ap (λ q. param (params fuel) q st) skipped
    ∙ ap₂ (λ m q. param_value (params fuel) m q st) name equals
    ∙ ap₂ (λ v q. apply_param (n ∷ ns) v st >>= params fuel q) taken left
    ∙ ap (λ r. r >>= params fuel (b',' ∷ rest)) e

params_end : (fuel : ℕ) (st : Parsed) → params (suc fuel) [] st ≡ some st
unfolding params param drop_while
params_end fuel st = refl

-- The pass over the last parameter.
params_last :
    (fuel : ℕ) (sep : Bytes) (n : ℕ) (ns value : Bytes) (st : Parsed) {st' : Parsed}
    → All (λ c. between_params c ≡ true) sep
    → between_params n ≡ false
    → All (λ c. in_name c ≡ true) (n ∷ ns)
    → All (λ c. in_value c ≡ true) value
    → apply_param (n ∷ ns) value st ≡ some st'
    → params (suc (suc fuel)) (sep ++ n ∷ (ns ++ b'=' ∷ value)) st ≡ some st'
unfolding params param param_value
params_last fuel sep n ns value st {st'} hs hn hns hv e =
    let (_, skipped) = take_while-stop between_params sep (ns ++ b'=' ∷ value) n hs hn in
    let (name, equals) = take_while-stop in_name (n ∷ ns) value b'=' hns refl in
    let (taken, left) = take_while-end in_value value hv in
    ap (λ q. param (params (suc fuel)) q st) skipped
    ∙ ap₂ (λ m q. param_value (params (suc fuel)) m q st) name equals
    ∙ ap₂ (λ v q. apply_param (n ∷ ns) v st >>= params (suc fuel) q) taken left
    ∙ ap (λ r. r >>= params (suc fuel) []) e
    ∙ params_end fuel st'

-- The header after each parameter.
abbrev with_id : AuthHeader → Parsed
with_id h = record fresh { header = record (fresh.header) { id = h.id }; have_id = true }

abbrev with_ts : AuthHeader → Parsed
with_ts h = record (with_id h) {
  header = record ((with_id h).header) { ts = h.ts; timestamp = h.timestamp };
  have_ts = true;
}

abbrev with_nonce : AuthHeader → Parsed
with_nonce h = record (with_ts h) {
  header = record ((with_ts h).header) { nonce = h.nonce };
  have_nonce = true;
}

abbrev with_sig : AuthHeader → Parsed
with_sig h = record (with_nonce h) {
  header = record ((with_nonce h).header) { sig = h.sig };
  have_sig = true;
}

module _ (h : AuthHeader) (w : IsWellFormed h) where
  stage_id : apply_param (codes "id") h.id fresh ≡ some (with_id h)
  unfolding apply_param bytes_eq
  stage_id = rw (take_hex-eq-some h.id 16 w.id, ◌>>=◌)

  stage_ts : apply_param (codes "ts") h.ts (with_id h) ≡ some (with_ts h)
  unfolding apply_param bytes_eq
  stage_ts = rw (parse_ts-eq-some h.ts w.time, ◌>>=◌)

  stage_nonce : apply_param (codes "nonce") h.nonce (with_ts h) ≡ some (with_nonce h)
  unfolding apply_param bytes_eq
  stage_nonce = rw (take_hex-eq-some h.nonce 16 w.nonce, ◌>>=◌)

  stage_sig : apply_param (codes "sig") h.sig (with_nonce h) ≡ some (with_sig h)
  unfolding apply_param bytes_eq
  stage_sig = rw (take_hex-eq-some h.sig 64 w.sig, ◌>>=◌)

  -- The texts behind the scheme, and behind each comma.
  abbrev after_nonce : Bytes
  after_nonce = codes "sig=" ++ h.sig

  abbrev after_ts : Bytes
  after_ts = codes "nonce=" ++ (h.nonce ++ b',' ∷ after_nonce)

  abbrev after_id : Bytes
  after_id = codes "ts=" ++ (h.ts ++ b',' ∷ after_ts)

  abbrev all_params : Bytes
  all_params = codes " id=" ++ (h.id ++ b',' ∷ after_id)

  params-all_params :
      (fuel : ℕ) → params (suc (suc (suc (suc (suc fuel))))) all_params fresh ≡ some (with_sig h)
  params-all_params fuel =
      params_step _ (codes " ") b'i' (codes "d") h.id after_id fresh (refl, tt) refl
        (refl, (refl, tt)) (is_hex_string-in_value h.id w.id.1) stage_id
      ∙ params_step _ (codes ",") b't' (codes "s") h.ts after_ts (with_id h) (refl, tt) refl
          (refl, (refl, tt)) (digits-in_value h.ts w.time.digits) stage_ts
      ∙ params_step _ (codes ",") b'n' (codes "once") h.nonce after_nonce (with_ts h) (refl, tt)
          refl (refl, (refl, (refl, (refl, (refl, tt))))) (is_hex_string-in_value h.nonce w.nonce.1)
          stage_nonce
      ∙ params_last _ (codes ",") b's' (codes "ig") h.sig (with_nonce h) (refl, tt) refl
          (refl, (refl, (refl, tt))) (is_hex_string-in_value h.sig w.sig.1) stage_sig

  -- A well-formed header, written as the clients write it, its parameters in their order with a
  -- comma and no blank between them, is read back as it was.
  pub parse-format_header : parse_auth_header (format_header h) ≡ some h
  unfolding parse_auth_header format_header scheme_params drop_while
  parse-format_header =
      ap
        (λ (o : Option Parsed). o >>= λ st.
          if st.have_id && st.have_ts && st.have_nonce && st.have_sig then some st.header else none)
        (params-all_params _)
