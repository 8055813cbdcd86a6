-- ===== src/ApiAuth/AuthHeader/Tracking.antt =====
-- lib/apiauth/auth_header.cpp: what the parameters do to the fields.
use matrix_faces.Common.{
  ℕ, ◌≡◌, ◌≢◌, ◌⊎◌, refl, sym, ap, ◌∙◌, subst, Bool, true, false, List, [], ◌∷◌, Option, none, some,
  some_inj, >>=-eq-some, if◌then◌else◌, Bytes, bytes_eq, bytes_eq_iff, codes, All, Bool-cases, inl,
  inr,
}
use matrix_faces.ApiAuth.AuthHeader.{Parsed, take_hex, parse_ts, apply_param}
use matrix_faces.ApiAuth.AuthHeader.Forms.{
  IsHex, IsTime, take_hex-IsHex, take_hex_lem, parse_ts-IsTime,
}
use matrix_faces.ApiAuth.AuthHeader.Grammar.{Params, over, more}
use matrix_faces.ApiAuth.AuthHeader.Loop.{Ends}

-- The value of the last parameter of a name.
unfoldable pub last_of : Bytes → List (Bytes × Bytes) → Option Bytes
last_of name [] = none
last_of name ((n, value) ∷ ps) = elim (last_of name ps) [
  | some v ↦ some v
  | none ↦ if bytes_eq n name then some value else none
]

-- A parameter of one of the four names with a value in its form.
pub data IsInForm : Bytes × Bytes → Type 0 where
  id : (value : Bytes) → IsHex 16 value → IsInForm (codes "id", value)
  ts : (value : Bytes) (time : ℕ) → IsTime value time → IsInForm (codes "ts", value)
  nonce : (value : Bytes) → IsHex 16 value → IsInForm (codes "nonce", value)
  sig : (value : Bytes) → IsHex 64 value → IsInForm (codes "sig", value)

-- What a parameter does to the field of a name: it is its value, or stays.
abbrev Step : Bytes → Bytes → Bytes → Bool → Bytes → Bool → Bytes → Type 0
Step n value name have field have' field' =
    ((n ≡ name) × (field' ≡ value)) ⊎ ((n ≢ name) × (have ≡ have') × (field ≡ field'))

-- The same for the parameters of a text.
abbrev pub Track : List (Bytes × Bytes) → Bytes → Bool → Bytes → Bool → Bytes → Type 0
Track ps name have field have' field' =
    (last_of name ps ≡ some field') ⊎ ((last_of name ps ≡ none) × (have ≡ have') × (field ≡ field'))

Track-step :
    (n value : Bytes) (ps : List (Bytes × Bytes)) (name : Bytes) (h0 h1 h2 : Bool)
    (f0 f1 f2 : Bytes)
    → Step n value name h0 f0 h1 f1
    → Track ps name h1 f1 h2 f2
    → Track ((n, value) ∷ ps) name h0 f0 h2 f2
unfolding last_of
Track-step n value ps name h0 h1 h2 f0 f1 f2 step (inl last) = inl (rw (last, last_of) refl)
Track-step n value ps name h0 h1 h2 f0 f1 f2 (inl (same, is)) (inr (absent, have, field)) =
    let named : bytes_eq n name ≡ true = (bytes_eq_iff n name).1 same in
    inl (rw (absent, named, last_of) (ap some (sym is ∙ field)))
Track-step n value ps name h0 h1 h2 f0 f1 f2 (inr (apart, have', field'))
      (inr (absent, have, field)) =
    elim (Bool-cases (bytes_eq n name)) [
      | inl same ↦ absurd (apart ((bytes_eq_iff n name).0 same))
      | inr other ↦ inr (rw (absent, other, last_of) refl, have' ∙ have, field' ∙ field)
    ]

-- The four fields before and after.
abbrev Steps : Bytes → Bytes → Parsed → Parsed → Type 0
Steps n value st st' =
    Step n value (codes "id") st.have_id st.header.id st'.have_id st'.header.id
    × Step n value (codes "ts") st.have_ts st.header.ts st'.have_ts st'.header.ts
    × Step n value (codes "nonce") st.have_nonce st.header.nonce st'.have_nonce st'.header.nonce
    × Step n value (codes "sig") st.have_sig st.header.sig st'.have_sig st'.header.sig

abbrev pub Tracks : List (Bytes × Bytes) → Parsed → Parsed → Type 0
Tracks ps st st' =
    Track ps (codes "id") st.have_id st.header.id st'.have_id st'.header.id
    × Track ps (codes "ts") st.have_ts st.header.ts st'.have_ts st'.header.ts
    × Track ps (codes "nonce") st.have_nonce st.header.nonce st'.have_nonce st'.header.nonce
    × Track ps (codes "sig") st.have_sig st.header.sig st'.have_sig st'.header.sig

is_name : (n name : Bytes) → bytes_eq n name ≡ true → n ≡ name
is_name n name e = (bytes_eq_iff n name).0 e

no_name : (n name : Bytes) → bytes_eq n name ≡ false → n ≢ name
no_name n name e same = let equal = (bytes_eq_iff n name).1 same in cc

-- A name is one of the four only.
apart : (n a b : Bytes) → n ≡ a → bytes_eq a b ≡ false → n ≢ b
apart n a b same differ e = no_name a b differ (sym same ∙ e)

abbrev Applied : Bytes → Bytes → Parsed → Parsed → Type 0
Applied n value st st' = IsInForm (n, value) × Steps n value st st'

apply_param-Applied :
    (n value : Bytes) (st st' : Parsed) → apply_param n value st ≡ some st' → Applied n value st st'
unfolding apply_param bytes_eq
apply_param-Applied n value st st' e = elim (Bool-cases (bytes_eq n (codes "id"))) [
  | inl is_id ↦
      let (out, taken, e1) = >>=-eq-some (take_hex value 16) _ (rw is_id at e) in
      let name = is_name n (codes "id") is_id in
      let kept = take_hex_lem value 16 taken in
      subst (Applied n value st) (some_inj e1) (
        subst (λ m. IsInForm (m, value)) (sym name)
            (id value (subst (IsHex 16) kept (take_hex-IsHex value 16 taken))),
        (
          inl (name, kept),
          inr (apart n (codes "id") (codes "ts") name refl, refl, refl),
          inr (apart n (codes "id") (codes "nonce") name refl, refl, refl),
          inr (apart n (codes "id") (codes "sig") name refl, refl, refl),
        ),
      )
  | inr not_id ↦ elim (Bool-cases (bytes_eq n (codes "ts"))) [
    | inl is_ts ↦
        let (v, parsed, e1) = >>=-eq-some (parse_ts value) _ (rw (not_id, is_ts) at e) in
        let name = is_name n (codes "ts") is_ts in
        subst (Applied n value st) (some_inj e1) (
          subst (λ m. IsInForm (m, value)) (sym name) (ts value v (parse_ts-IsTime value parsed)),
          (
            inr (apart n (codes "ts") (codes "id") name refl, refl, refl),
            inl (name, refl),
            inr (apart n (codes "ts") (codes "nonce") name refl, refl, refl),
            inr (apart n (codes "ts") (codes "sig") name refl, refl, refl),
          ),
        )
    | inr not_ts ↦ elim (Bool-cases (bytes_eq n (codes "nonce"))) [
      | inl is_nonce ↦
          let (out, taken, e1) =
            >>=-eq-some (take_hex value 16) _ (rw (not_id, not_ts, is_nonce) at e) in
          let name = is_name n (codes "nonce") is_nonce in
          let kept = take_hex_lem value 16 taken in
          subst (Applied n value st) (some_inj e1) (
            subst (λ m. IsInForm (m, value)) (sym name)
                (nonce value (subst (IsHex 16) kept (take_hex-IsHex value 16 taken))),
            (
              inr (apart n (codes "nonce") (codes "id") name refl, refl, refl),
              inr (apart n (codes "nonce") (codes "ts") name refl, refl, refl),
              inl (name, kept),
              inr (apart n (codes "nonce") (codes "sig") name refl, refl, refl),
            ),
          )
      | inr not_nonce ↦ elim (Bool-cases (bytes_eq n (codes "sig"))) [
        | inl is_sig ↦
            let (out, taken, e1) =
              >>=-eq-some (take_hex value 64) _ (rw (not_id, not_ts, not_nonce, is_sig) at e) in
            let name = is_name n (codes "sig") is_sig in
            let kept = take_hex_lem value 64 taken in
            subst (Applied n value st) (some_inj e1) (
              subst (λ m. IsInForm (m, value)) (sym name)
                  (sig value (subst (IsHex 64) kept (take_hex-IsHex value 64 taken))),
              (
                inr (apart n (codes "sig") (codes "id") name refl, refl, refl),
                inr (apart n (codes "sig") (codes "ts") name refl, refl, refl),
                inr (apart n (codes "sig") (codes "nonce") name refl, refl, refl),
                inl (name, kept),
              ),
            )
        | inr other ↦ let refused = rw (not_id, not_ts, not_nonce, other) at e in cc
      ]
    ]
  ]
]

pub Ends-Params :
    (p : Bytes) (st : Parsed) (ps : List (Bytes × Bytes)) (r : Option Parsed) (st' : Parsed)
    → Ends p st ps r
    → r ≡ some st'
    → Params p ps × All IsInForm ps × Tracks ps st st'
unfolding last_of
Ends-Params p st ps r st' (Ends.over _ _ end) e =
    let same : st ≡ st' = some_inj e in
    (
      over p end,
      tt,
      (
        inr (refl, ap (λ s. s.have_id) same, ap (λ s. s.header.id) same),
        inr (refl, ap (λ s. s.have_ts) same, ap (λ s. s.header.ts) same),
        inr (refl, ap (λ s. s.have_nonce) same, ap (λ s. s.header.nonce) same),
        inr (refl, ap (λ s. s.have_sig) same, ap (λ s. s.header.sig) same),
      ),
    )
Ends-Params p st ps r st' (Ends.no_equals _ name tail _ a b c d) e = cc
Ends-Params p st ps r st' (Ends.refused _ name value rest _ a b) e = cc
Ends-Params p st ps r st' (Ends.passed _ n value rest _ st1 qs _ cut applied ends) e =
    let (params_of, in_form, tracks) = Ends-Params rest st1 qs r st' ends e in
    let (id_t, ts_t, nonce_t, sig_t) = tracks in
    let (this, steps) = apply_param-Applied n value st st1 applied in
    let (id_s, ts_s, nonce_s, sig_s) = steps in
    (
      more p n value rest qs cut params_of,
      (this, in_form),
      (
        Track-step n value qs (codes "id") _ _ _ _ _ _ id_s id_t,
        Track-step n value qs (codes "ts") _ _ _ _ _ _ ts_s ts_t,
        Track-step n value qs (codes "nonce") _ _ _ _ _ _ nonce_s nonce_t,
        Track-step n value qs (codes "sig") _ _ _ _ _ _ sig_s sig_t,
      ),
    )
