-- ===== src/ApiAuth/AuthHeader/Grammar.antt =====
-- lib/apiauth/auth_header.cpp: the text of a parameter, and the parameters of a text.
use matrix_faces.Common.{
  ℕ, ◌≡◌, ◌≢◌, ◌⊎◌, sym, ap, ◌∙◌, subst, arith, true, false, List, [], ◌∷◌, ◌++◌, Bytes, All,
  Bool-cases, inl, inr, Bool, take_while, drop_while, take_while-append-drop_while, take_while-All,
}
use matrix_faces.ApiAuth.AuthHeader.{between_params, in_name, in_value}

-- Between parameters stand blanks and commas.
abbrev pub IsSeparator : ℕ → Type 0
IsSeparator c = (c ≡ b' ') ⊎ (c ≡ b'\t') ⊎ (c ≡ b',')

abbrev pub IsNameChar : ℕ → Type 0
IsNameChar c = (c ≢ b'=') × (c ≢ b',')

-- `q` is `p` from its first byte that separates nothing.
pub record IsTrimmed (p q : Bytes) : Type 0 where
  pub sep : Bytes
  pub split : p ≡ sep ++ q
  pub separators : All IsSeparator sep
  pub starts : (c : ℕ) (r : Bytes) → q ≡ c ∷ r → IsSeparator c → ⊥

-- A text starts with separators, a name, an equals sign and a value, which goes on to the next
-- separator or the end.
pub record IsParam (p name value rest : Bytes) : Type 0 where
  pub trimmed : IsTrimmed p (name ++ b'=' ∷ (value ++ rest))
  pub name_is : All IsNameChar name
  pub value_is : All (λ c. IsSeparator c → ⊥) value
  pub stops : (c : ℕ) (r : Bytes) → rest ≡ c ∷ r → IsSeparator c

-- The parameters of a text, names and values, up to its end.
pub data Params : Bytes → List (Bytes × Bytes) → Type 0 where
  over : (p : Bytes) → IsTrimmed p [] → Params p []
  more :
      (p name value rest : Bytes) (ps : List (Bytes × Bytes))
      → IsParam p name value rest
      → Params rest ps
      → Params p ((name, value) ∷ ps)

pub All-mono {ℓ κ μ} :
    {A : Type ℓ} {P : A → Type κ} {Q : A → Type μ} (f : (x : A) → P x → Q x) (xs : List A)
    → All P xs
    → All Q xs
All-mono f [] h = tt
All-mono f (x ∷ xs) (first, later) = (f x first, All-mono f xs later)

pub drop_while-head :
    (p : ℕ → Bool) (xs : Bytes) {c : ℕ} {r : Bytes} → drop_while p xs ≡ c ∷ r → p c ≡ false
unfolding drop_while
drop_while-head p [] e = cc
drop_while-head p (x ∷ xs) {c} {r} e = elim (Bool-cases (p x)) [
  | inl passed ↦ drop_while-head p xs (rw (passed, drop_while) at e)
  | inr stopped ↦
      let same : x ∷ xs ≡ c ∷ r = rw (stopped, drop_while) at e in
      let head : x ≡ c = cc in subst (λ d. p d ≡ false) head stopped
]

separator : (c : ℕ) → between_params c ≡ true → IsSeparator c
separator c h = ground arith

pub no_separator : (c : ℕ) → between_params c ≡ false → IsSeparator c → ⊥
no_separator c h (inl s) = ground arith
no_separator c h (inr (inl s)) = ground arith
no_separator c h (inr (inr s)) = ground arith

name_char : (c : ℕ) → in_name c ≡ true → IsNameChar c
name_char c h = (λ e. ground arith, λ e. ground arith)

value_char : (c : ℕ) → in_value c ≡ true → IsSeparator c → ⊥
value_char c h (inl s) = ground arith
value_char c h (inr (inl s)) = ground arith
value_char c h (inr (inr s)) = ground arith

value_end : (c : ℕ) → in_value c ≡ false → IsSeparator c
value_end c h = ground arith

pub drop_while-IsTrimmed : (p : Bytes) → IsTrimmed p (drop_while between_params p)
drop_while-IsTrimmed p = record {
  sep = take_while between_params p;
  split = sym (take_while-append-drop_while between_params p);
  separators = All-mono separator (take_while between_params p) (take_while-All between_params p);
  starts = λ c r e. no_separator c (drop_while-head between_params p e);
}

pub take_while-name : (q : Bytes) → All IsNameChar (take_while in_name q)
take_while-name q = All-mono name_char (take_while in_name q) (take_while-All in_name q)

-- The code's cuts make a parameter of a text.
pub IsParam-cut :
    (p v : Bytes)
    → drop_while in_name (drop_while between_params p) ≡ b'=' ∷ v
    → IsParam p
        (take_while in_name (drop_while between_params p))
        (take_while in_value v)
        (drop_while in_value v)
IsParam-cut p v equals =
    let q : Bytes = drop_while between_params p in
    let value = take_while-append-drop_while in_value v in
    let whole : q
        ≡ take_while in_name q ++ b'=' ∷ (take_while in_value v ++ drop_while in_value v) =
      sym (take_while-append-drop_while in_name q)
      ∙ ap (λ t. take_while in_name q ++ t) (equals ∙ ap (◌∷◌ b'=') (sym value)) in
    record {
      trimmed = subst (IsTrimmed p) whole (drop_while-IsTrimmed p);
      name_is = take_while-name q;
      value_is = All-mono value_char (take_while in_value v) (take_while-All in_value v);
      stops = λ c r e. value_end c (drop_while-head in_value v e);
    }
