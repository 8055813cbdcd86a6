-- ===== src/Net/QueryString/Split.antt =====
-- src/net/query_string.cpp: the scan finds the first parameter of the name.
use matrix_faces.Common.{
  ℕ, zero, suc, ◌+◌, ◌<◌, ◌≡◌, refl, ap, ap₂, ◌∙◌, subst, arith, true, false, List, [], ◌∷◌, ◌++◌,
  Option, none, some, ltb, ◌==◌, if◌then◌else◌, Bytes, bytes_eq, length, drop, All, take_while,
  take_while-stop, take_while-end, Bool-cases, inl, inr, length-append, append_assoc, append-nil,
}
use native.Mathlib.Nat.{suc-add}
use matrix_faces.Net.QueryString.{not_amp, not_question, names_here, value_here, scan, query_param}

abbrev pub IsToken : Bytes → Type 0
IsToken = All (λ c. not_amp c ≡ true)

-- The parameters joined with `&`.
unfoldable pub joined : Bytes → List Bytes → Bytes
joined p [] = p
joined p (q ∷ ps) = p ++ b'&' ∷ joined q ps

-- The value of the first parameter that is the name, an `=` and a value.
unfoldable pub lookup : Bytes → ℕ → List Bytes → Option Bytes
lookup name cap [] = none
lookup name cap (p ∷ ps) =
    let later = lookup name cap ps in
    let value = drop (length name + 1) p in
    if names_here name p then (if ltb cap (length value + 1) then none else some value) else later

names_here-append :
    (name p r : Bytes) → IsToken name → names_here name (p ++ b'&' ∷ r) ≡ names_here name p
unfolding names_here bytes_eq
names_here-append [] [] r token = refl
names_here-append [] (c ∷ p) r token = refl
names_here-append (x ∷ name) [] r token = ground arith
names_here-append (x ∷ name) (c ∷ p) r (tx, token) =
    let rest = names_here-append name p r token in ground arith

names_here-split :
    (name p : Bytes) → names_here name p ≡ true → p ≡ name ++ b'=' ∷ drop (length name + 1) p
unfolding names_here bytes_eq
names_here-split [] [] h = cc
names_here-split [] (c ∷ p) h = ground arith
names_here-split (x ∷ name) [] h = cc
names_here-split (x ∷ name) (c ∷ p) h =
    rw (suc-add (length name) 1) (ap₂ ◌∷◌ (ground arith) (names_here-split name p (ground arith)))

drop-name : (name w : Bytes) (c : ℕ) → drop (length name + 1) (name ++ c ∷ w) ≡ w
drop-name [] w c = refl
drop-name (x ∷ name) w c = rw (suc-add (length name) 1) (drop-name name w c)

All-drop : (n : ℕ) (p : Bytes) → IsToken p → IsToken (drop n p)
All-drop zero p h = h
All-drop (suc n) [] h = h
All-drop (suc n) (c ∷ p) (hc, hs) = All-drop n p hs

value_here-split :
    (name p tail : Bytes) (cap : ℕ)
    → names_here name p ≡ true
    → take_while not_amp (drop (length name + 1) p ++ tail) ≡ drop (length name + 1) p
    → value_here name (p ++ tail) cap ≡ (
        if ltb cap (length (drop (length name + 1) p) + 1)
        then none
        else some (drop (length name + 1) p))
unfolding value_here
value_here-split name p tail cap h ends =
    let v = drop (length name + 1) p in
    let behind : drop (length name + 1) (p ++ tail) ≡ v ++ tail =
      ap (λ q. drop (length name + 1) (q ++ tail)) (names_here-split name p h)
      ∙ ap (drop (length name + 1)) (append_assoc name (b'=' ∷ v) tail)
      ∙ drop-name name (v ++ tail) b'=' in
    rw (behind, ends) refl

scan-lookup :
    (fuel : ℕ) (name : Bytes) (cap : ℕ) (p : Bytes) (ps : List Bytes)
    → IsToken name
    → IsToken p
    → All IsToken ps
    → length (joined p ps) < fuel
    → scan fuel name (joined p ps) cap ≡ lookup name cap (p ∷ ps)
unfolding scan joined lookup
scan-lookup zero name cap p ps tn tp tps enough = absurd (omega arith)
scan-lookup (suc fuel) name cap p [] tn tp tps enough =
    let (taken, left) =
      take_while-end not_amp (drop (length name + 1) p) (All-drop (length name + 1) p tp) in
    let (all, last) = take_while-end not_amp p tp in
    elim (Bool-cases (names_here name p)) [
      | inl here ↦
          rw (here, scan, lookup)
            (subst
              (λ q. value_here name q cap ≡ (
                if ltb cap (length (drop (length name + 1) p) + 1)
                then none
                else some (drop (length name + 1) p)))
              (append-nil p)
              (value_here-split name p [] cap here
                (ap (take_while not_amp) (append-nil _) ∙ taken)))
      | inr elsewhere ↦ rw (elsewhere, last, scan, lookup) refl
    ]
scan-lookup (suc fuel) name cap p (q ∷ ps) tn tp (tq, tps) enough =
    let r = joined q ps in
    let (taken, left) =
      take_while-stop not_amp (drop (length name + 1) p) r b'&' (All-drop (length name + 1) p tp)
        refl in
    let (all, last) = take_while-stop not_amp p r b'&' tp refl in
    let same = names_here-append name p r tn in
    elim (Bool-cases (names_here name p)) [
      | inl here ↦ rw (same, here, scan, lookup) (value_here-split name p (b'&' ∷ r) cap here taken)
      | inr elsewhere ↦
          rw (same, elsewhere, last, scan, lookup)
            (scan-lookup fuel name cap q ps tn tq tps
              (omega (arith, enough, length-append p (b'&' ∷ r))))
    ]

-- The query of a target is a list of parameters with `&` between them, behind the first `?`: with a
-- buffer that is not empty and a name without `&`, `queryParam` returns the value of the first one
-- that is the name, an `=` and a value, if that fits the buffer.
pub query_param-lookup :
    (path name p : Bytes) (ps : List Bytes) (cap : ℕ)
    → All (λ c. not_question c ≡ true) path
    → IsToken name
    → IsToken p
    → All IsToken ps
    → 0 < cap
    → query_param (path ++ b'?' ∷ joined p ps) name cap ≡ lookup name cap (p ∷ ps)
unfolding query_param
query_param-lookup path name p ps cap tpath tn tp tps room =
    let (before, behind) = take_while-stop not_question path (joined p ps) b'?' tpath refl in
    let positive : (cap == 0) ≡ false = ground arith in
    rw (positive, behind, query_param)
      (scan-lookup (suc (length (joined p ps))) name cap p ps tn tp tps (omega arith))
