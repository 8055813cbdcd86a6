-- ===== src/ApiAuth/AuthHeader/Loop.antt =====
-- lib/apiauth/auth_header.cpp: the loop over the parameters ends.
use matrix_faces.Common.{
  ℕ, zero, suc, ◌<◌, ◌≡◌, ◌≢◌, ◌⊎◌, refl, sym, ap, ◌∙◌, subst, arith, false, List, [], ◌∷◌, ◌++◌,
  Option, Option-cases, none, some, ◌==◌, ◌>>=◌, inl, inr, Bytes, length, drop_while, take_while,
  length-drop_while, take_while-append-drop_while, All, Bool-cases,
}
use matrix_faces.ApiAuth.AuthHeader.{
  Parsed, between_params, in_value, in_name, apply_param, param_value, param, params,
}
use matrix_faces.ApiAuth.AuthHeader.Grammar.{
  IsNameChar, IsTrimmed, IsParam, drop_while-IsTrimmed, drop_while-head, take_while-name,
  IsParam-cut,
}

-- A loop over the parameters that ends: the text, what has been read before it, the parameters
-- that are applied, and the result. It ends where the text is over, at a name without an equals
-- sign, or at a parameter that is refused.
pub data Ends : Bytes → Parsed → List (Bytes × Bytes) → Option Parsed → Type 0 where
  over : (p : Bytes) (st : Parsed) → IsTrimmed p [] → Ends p st [] (some st)
  no_equals :
      (p name tail : Bytes) (st : Parsed)
      → IsTrimmed p (name ++ tail)
      → name ++ tail ≢ []
      → All IsNameChar name
      → (tail ≡ []) ⊎ ((t : Bytes) × (tail ≡ b',' ∷ t))
      → Ends p st [] none
  refused :
      (p name value rest : Bytes) (st : Parsed)
      → IsParam p name value rest
      → apply_param name value st ≡ none
      → Ends p st ((name, value) ∷ []) none
  passed :
      (p name value rest : Bytes) (st st' : Parsed) (ps : List (Bytes × Bytes)) (r : Option Parsed)
      → IsParam p name value rest
      → apply_param name value st ≡ some st'
      → Ends rest st' ps r
      → Ends p st ((name, value) ∷ ps) r

-- The loop ends, with this result.
abbrev pub Terminates : Bytes → Parsed → Option Parsed → Type 0
Terminates p st r = (ps : List (Bytes × Bytes)) × Ends p st ps r

stray :
    (p : Bytes) (st : Parsed) (c : ℕ) (r tail : Bytes)
    → drop_while between_params p ≡ c ∷ r
    → drop_while in_name (c ∷ r) ≡ tail
    → (tail ≡ []) ⊎ ((t : Bytes) × (tail ≡ b',' ∷ t))
    → Terminates p st none
stray p st c r tail first end ends =
    let name : Bytes = take_while in_name (c ∷ r) in
    let whole : name ++ tail ≡ c ∷ r =
      ap (λ t. name ++ t) (sym end) ∙ take_while-append-drop_while in_name (c ∷ r) in
    (
      [],
      no_equals p name tail st (subst (IsTrimmed p) (first ∙ sym whole) (drop_while-IsTrimmed p))
          (λ empty. let none_of : c ∷ r ≡ [] = sym whole ∙ empty in cc) (take_while-name (c ∷ r))
          ends,
    )

name_end : (c : ℕ) → in_name c ≡ false → (c == b'=') ≡ false → c ≡ b','
name_end c h other = ground arith

params_value :
    (fuel : ℕ) (p : Bytes) (st : Parsed) (c : ℕ) (r tail : Bytes)
    → ((rest : Bytes) (st' : Parsed)
        → length rest < length tail
        → Terminates rest st' (params fuel rest st'))
    → drop_while between_params p ≡ c ∷ r
    → drop_while in_name (c ∷ r) ≡ tail
    → Terminates p st (param_value (params fuel) (take_while in_name (c ∷ r)) tail st)
unfolding param_value
params_value fuel p st c r [] later first end = stray p st c r [] first end (inl refl)
params_value fuel p st c r (e ∷ v) later first end = elim (Bool-cases (e == b'=')) [
  | inr other ↦
      let comma : e ≡ b',' = name_end e (drop_while-head in_name (c ∷ r) end) other in
      rw (other, param_value) (stray p st c r (e ∷ v) first end (inr (v, ap (λ d. d ∷ v) comma)))
  | inl equals ↦
      let sign : e ≡ b'=' = ground arith in
      let name : Bytes = take_while in_name (c ∷ r) in
      let cut : IsParam p name (take_while in_value v) (drop_while in_value v) =
        subst
          (λ q. IsParam p (take_while in_name q) (take_while in_value v) (drop_while in_value v))
          first (IsParam-cut p v (ap (drop_while in_name) first ∙ end ∙ ap (λ d. d ∷ v) sign)) in
      elim (Option-cases (apply_param name (take_while in_value v) st)) [
        | inl bad ↦
            rw (equals, bad, param_value, ◌>>=◌)
              ((name, take_while in_value v) ∷ [], refused p name _ _ st cut bad)
        | inr (st', applied) ↦
            let shorter = length-drop_while in_value v in
            let (ps, ends) = later (drop_while in_value v) st' (omega arith) in
            rw (equals, applied, param_value, ◌>>=◌)
              ((name, take_while in_value v) ∷ ps, passed p name _ _ st st' ps _ cut applied ends)
      ]
]

params_pass :
    (fuel : ℕ) (p q : Bytes) (st : Parsed)
    → ((rest : Bytes) (st' : Parsed)
        → length rest < length q
        → Terminates rest st' (params fuel rest st'))
    → drop_while between_params p ≡ q
    → Terminates p st (param (params fuel) q st)
unfolding param
params_pass fuel p [] st later first =
    ([], over p st (subst (IsTrimmed p) first (drop_while-IsTrimmed p)))
params_pass fuel p (c ∷ r) st later first =
    let shorter = length-drop_while in_name (c ∷ r) in
    params_value fuel p st c r (drop_while in_name (c ∷ r))
      (λ rest st' h. later rest st' (omega (arith, h, shorter))) first refl

-- The loop over the parameters ends within one pass for each byte of the text and one more: where
-- the text is over, at a name without an equals sign, or at a parameter that is refused.
pub params_fuel :
    (fuel : ℕ) (p : Bytes) (st : Parsed) → length p < fuel → Terminates p st (params fuel p st)
unfolding params
params_fuel zero p st h = elim h [ ]
params_fuel (suc fuel) p st h =
    let shorter = length-drop_while between_params p in
    params_pass fuel p (drop_while between_params p) st
      (λ rest st' less. params_fuel fuel rest st' (omega (arith, less, shorter, h))) refl
