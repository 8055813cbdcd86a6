-- ===== src/ApiAuth/AuthHeader/Accepted.antt =====
-- lib/apiauth/auth_header.cpp: what a header that is accepted consists of.
use matrix_faces.Common.{
  ℕ, suc, ◌+◌, ◌≤◌, ◌≡◌, ◌⊎◌, refl, sym, ap, ◌∙◌, subst, arith, Bool, true, false, ◌&&◌, List, [],
  ◌∷◌, ◌++◌, some, some_inj, >>=-eq-some, Bytes, codes, length, All, Bool-cases, inl, inr,
  drop_while, take_while, take_while-append-drop_while, take_while-All,
}
use mathlib.Core.Bool.{false≢true}
use matrix_faces.ApiAuth.AuthHeader.{
  AuthHeader, Parsed, fresh, is_space, after_scheme, scheme_params, parse_auth_header,
}
use matrix_faces.ApiAuth.AuthHeader.Forms.{IsWellFormed}
use matrix_faces.ApiAuth.AuthHeader.Fields.{parse_auth_header-IsWellFormed}
use matrix_faces.ApiAuth.AuthHeader.Grammar.{Params, All-mono}
use matrix_faces.ApiAuth.AuthHeader.Loop.{params_fuel}
use matrix_faces.ApiAuth.AuthHeader.Tracking.{last_of, IsInForm, Track, Tracks, Ends-Params}

abbrev pub IsBlank : ℕ → Type 0
IsBlank c = (c ≡ b' ') ⊎ (c ≡ b'\t')

-- The letters of a word in capitals, each as it is or in lower case.
abbrev pub IsWord : Bytes → Bytes → Type 0
IsWord [] [] = Unit {0}
IsWord (c ∷ cs) (s ∷ ss) = ((c ≡ s) ⊎ (c ≡ s + 32)) × IsWord cs ss
IsWord _ _ = ⊥

-- The text of a header in the four parts that it is accepted for, and the fields that it has.
pub record IsAccepted (value : Bytes) (h : AuthHeader) : Type 0 where
  pub blanks : Bytes
  pub scheme : Bytes
  pub blank : ℕ
  pub behind : Bytes
  pub parameters : List (Bytes × Bytes)
  pub split : value ≡ blanks ++ (scheme ++ blank ∷ behind)
  pub blanks_are : All IsBlank blanks
  pub scheme_is : IsWord scheme (codes "HMAC")
  pub blank_is : IsBlank blank
  pub read : Params (blank ∷ behind) parameters
  pub in_form : All IsInForm parameters
  pub id : last_of (codes "id") parameters ≡ some h.id
  pub ts : last_of (codes "ts") parameters ≡ some h.ts
  pub nonce : last_of (codes "nonce") parameters ≡ some h.nonce
  pub sig : last_of (codes "sig") parameters ≡ some h.sig
  pub well_formed : IsWellFormed h

IsBlank-of_space : (c : ℕ) → is_space c ≡ true → IsBlank c
IsBlank-of_space c h = ground arith

after_scheme-IsWord :
    (word p rest : Bytes)
    → All (λ s. (65 ≤ s) × (s ≤ 90)) word
    → after_scheme word p ≡ some rest
    → (scheme : Bytes) × (p ≡ scheme ++ rest) × IsWord scheme word
unfolding after_scheme
after_scheme-IsWord [] p rest capitals e = ([], some_inj e, tt)
after_scheme-IsWord (s ∷ word) [] rest capitals e = cc
after_scheme-IsWord (s ∷ word) (c ∷ p) rest (capital, capitals) e =
    let matched : after_scheme word p ≡ some rest = ground arith in
    let letter : (c ≡ s) ⊎ (c ≡ s + 32) = ground arith in
    let (scheme, split, is_word) = after_scheme-IsWord word p rest capitals matched in
    (c ∷ scheme, ap (◌∷◌ c) split, (letter, is_word))

-- A flag that is set shows where its field comes from.
seen :
    (ps : List (Bytes × Bytes)) (name field : Bytes) (have : Bool)
    → Track ps name false [] have field
    → have ≡ true
    → last_of name ps ≡ some field
seen ps name field have (inl last) set = last
seen ps name field have (inr (absent, unset, same)) set = absurd (false≢true (unset ∙ set))

-- The parameters behind the scheme.
scheme_params-Params :
    (p : Bytes) (st : Parsed)
    → scheme_params p ≡ some st
    → (c : ℕ) × (r : Bytes) × (ps : List (Bytes × Bytes)) × (p ≡ c ∷ r)
      × IsBlank c
      × Params p ps
      × All IsInForm ps
      × Tracks ps fresh st
unfolding scheme_params
scheme_params-Params [] st e = cc
scheme_params-Params (c ∷ r) st e = elim (Bool-cases (is_space c)) [
  | inr other ↦ let refused = rw (other, scheme_params) at e in cc
  | inl space ↦
      let (ps, ends) = params_fuel (suc (suc (length r))) (c ∷ r) fresh (omega arith) in
      let (read, in_form, tracks) =
        Ends-Params (c ∷ r) fresh ps _ st ends (rw (space, scheme_params) at e) in
      (c, r, ps, refl, IsBlank-of_space c space, read, in_form, tracks)
]

-- A header that is accepted is the scheme `HMAC` in any case, behind blanks that may be there, a
-- blank, and parameters up to the end of the text. Each of them is one of the four, in its form: a
-- client id or a nonce of 16 hexadecimal digits, a signature of 64, or a time stamp of one to ten
-- digits below 2^32. All four are there, and the fields are the values of the last of each name,
-- with the number that the time stamp stands for beside it.
pub parse_auth_header-IsAccepted :
    (value : Bytes) (h : AuthHeader) → parse_auth_header value ≡ some h → IsAccepted value h
unfolding parse_auth_header
parse_auth_header-IsAccepted value h e =
    let (p, matched, e1) =
      >>=-eq-some (after_scheme (codes "HMAC") (drop_while is_space value)) _ e in
    let (st, filled, e2) = >>=-eq-some (scheme_params p) _ e1 in
    let (scheme, word, is_word) =
      after_scheme-IsWord (codes "HMAC") (drop_while is_space value) p (omega arith) matched in
    let (c, r, ps, text, blank, read, in_form, tracks) = scheme_params-Params p st filled in
    let (id_t, ts_t, nonce_t, sig_t) = tracks in
    let flags : (st.have_id && st.have_ts && st.have_nonce && st.have_sig) ≡ true = ground arith in
    let same : st.header ≡ h = some_inj (rw flags at e2) in
    let well = parse_auth_header-IsWellFormed value e in
    record {
      blanks = take_while is_space value;
      scheme = scheme;
      blank = c;
      behind = r;
      parameters = ps;
      split =
          sym (take_while-append-drop_while is_space value)
          ∙ ap (λ q. take_while is_space value ++ q) (word ∙ ap (λ q. scheme ++ q) text);
      blanks_are =
          All-mono IsBlank-of_space (take_while is_space value) (take_while-All is_space value);
      scheme_is = is_word;
      blank_is = blank;
      read = subst (λ q. Params q ps) text read;
      in_form = in_form;
      id =
          seen ps (codes "id") st.header.id st.have_id id_t (ground arith)
          ∙ ap (λ k. some k.id) same;
      ts =
          seen ps (codes "ts") st.header.ts st.have_ts ts_t (ground arith)
          ∙ ap (λ k. some k.ts) same;
      nonce =
          seen ps (codes "nonce") st.header.nonce st.have_nonce nonce_t (ground arith)
          ∙ ap (λ k. some k.nonce) same;
      sig =
          seen ps (codes "sig") st.header.sig st.have_sig sig_t (ground arith)
          ∙ ap (λ k. some k.sig) same;
      well_formed = well;
    }
