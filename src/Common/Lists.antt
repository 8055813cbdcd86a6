-- ===== src/Common/Lists.antt =====
-- Lists measured and indexed by native numbers, under the library's names.
use Prim.Native.Nat.{ℕ, zero, suc, ◌+◌, ◌-◌, ◌<◌, ◌≤◌, min}
use mathlib.Core.Path.{◌≡◌, refl, ap}
use mathlib.Core.Logic.{◌≢◌}
use mathlib.Core.List.{List, [], ◌∷◌, ◌++◌, map}
use mathlib.Core.Option.{Option, none, some}
use mathlib.Core.Bool.{Bool, true, false}
use native.Mathlib.Nat.{zero-add, suc-add}
use native.Mathlib.Omega.{arith}
use matrix_faces.Common.Order.{Bool-cases}
use mathlib.Core.Logic.{inl, inr}

module _ {ℓ} {A : Type ℓ} where
  abbrev pub length : List A → ℕ
  length [] = 0
  length (x ∷ xs) = suc (length xs)

  abbrev pub get_elem? : List A → ℕ → Option A
  get_elem? [] i = none
  get_elem? (x ∷ xs) zero = some x
  get_elem? (x ∷ xs) (suc i) = get_elem? xs i

  abbrev pub get_or : List A → ℕ → A → A
  get_or [] i d = d
  get_or (x ∷ xs) zero d = x
  get_or (x ∷ xs) (suc i) d = get_or xs i d

  -- A write out of bounds changes nothing.
  abbrev pub set : List A → ℕ → A → List A
  set [] i v = []
  set (x ∷ xs) zero v = v ∷ xs
  set (x ∷ xs) (suc i) v = x ∷ set xs i v

  abbrev pub take : ℕ → List A → List A
  take zero xs = []
  take (suc n) [] = []
  take (suc n) (x ∷ xs) = x ∷ take n xs

  abbrev pub drop : ℕ → List A → List A
  drop zero xs = xs
  drop (suc n) [] = []
  drop (suc n) (x ∷ xs) = drop n xs

  abbrev pub replicate : ℕ → A → List A
  replicate zero a = []
  replicate (suc n) a = a ∷ replicate n a

  abbrev pub All {κ} : (A → Type κ) → List A → Type κ
  All P [] = Unit
  All P (x ∷ xs) = P x × All P xs

  pub length-append : (xs ys : List A) → length (xs ++ ys) ≡ length xs + length ys
  length-append [] ys = omega arith
  length-append (x ∷ xs) ys = omega (arith, length-append xs ys)

  pub length-set : (xs : List A) (i : ℕ) (v : A) → length (set xs i v) ≡ length xs
  length-set [] i v = refl
  length-set (x ∷ xs) zero v = refl
  length-set (x ∷ xs) (suc i) v = ap suc (length-set xs i v)

  pub get_elem?-set_self :
      (xs : List A) (i : ℕ) (v : A) → i < length xs → get_elem? (set xs i v) i ≡ some v
  get_elem?-set_self [] i v h = elim h [ ]
  get_elem?-set_self (x ∷ xs) zero v h = refl
  get_elem?-set_self (x ∷ xs) (suc i) v h = get_elem?-set_self xs i v (omega arith)

  pub get_elem?-set_ne :
      (xs : List A) (i j : ℕ) (v : A) → i ≢ j → get_elem? (set xs i v) j ≡ get_elem? xs j
  get_elem?-set_ne [] i j v h = refl
  get_elem?-set_ne (x ∷ xs) zero zero v h = absurd (h refl)
  get_elem?-set_ne (x ∷ xs) zero (suc j) v h = refl
  get_elem?-set_ne (x ∷ xs) (suc i) zero v h = refl
  get_elem?-set_ne (x ∷ xs) (suc i) (suc j) v h = get_elem?-set_ne xs i j v (λ e. h (ap suc e))

  pub take-append-drop : (n : ℕ) (xs : List A) → take n xs ++ drop n xs ≡ xs
  take-append-drop zero xs = refl
  take-append-drop (suc n) [] = refl
  take-append-drop (suc n) (x ∷ xs) = ap (◌∷◌ x) (take-append-drop n xs)

  pub length-take : (n : ℕ) (xs : List A) → length (take n xs) ≡ min n (length xs)
  length-take zero xs = omega arith
  length-take (suc n) [] = omega arith
  length-take (suc n) (x ∷ xs) = omega (arith, length-take n xs)

  pub length-drop : (n : ℕ) (xs : List A) → length (drop n xs) ≡ length xs - n
  length-drop zero xs = omega arith
  length-drop (suc n) [] = omega arith
  length-drop (suc n) (x ∷ xs) = omega (arith, length-drop n xs)

  pub length-replicate : (n : ℕ) (a : A) → length (replicate n a) ≡ n
  length-replicate zero a = refl
  length-replicate (suc n) a = ap suc (length-replicate n a)

  pub take-append : (xs ys : List A) → take (length xs) (xs ++ ys) ≡ xs
  take-append [] ys = refl
  take-append (x ∷ xs) ys = ap (◌∷◌ x) (take-append xs ys)

  pub take-length : (xs : List A) → take (length xs) xs ≡ xs
  take-length [] = refl
  take-length (x ∷ xs) = ap (◌∷◌ x) (take-length xs)

  pub take_all : (n : ℕ) (xs : List A) → length xs ≤ n → take n xs ≡ xs
  take_all zero [] h = refl
  take_all zero (x ∷ xs) h = elim h [ ]
  take_all (suc n) [] h = refl
  take_all (suc n) (x ∷ xs) h = ap (◌∷◌ x) (take_all n xs (omega arith))

  pub drop-append : (xs ys : List A) → drop (length xs) (xs ++ ys) ≡ ys
  drop-append [] ys = refl
  drop-append (x ∷ xs) ys = drop-append xs ys

  pub get_or-append :
      (xs ys : List A) (k : ℕ) (d : A) → get_or (xs ++ ys) (length xs + k) d ≡ get_or ys k d
  get_or-append [] ys k d = rw zero-add
  get_or-append (x ∷ xs) ys k d = rw (suc-add (length xs) k) (get_or-append xs ys k d)

  pub All-append {κ} : (P : A → Type κ) (us bs : List A) → All P us → All P bs → All P (us ++ bs)
  All-append P [] bs left right = right
  All-append P (a ∷ us) bs (first, left) right = (first, All-append P us bs left right)

  pub All-map {κ μ} :
      (P : A → Type κ) (Q : A → Type μ) (xs : List A) → ((x : A) → P x → Q x) → All P xs → All Q xs
  All-map P Q [] f h = tt
  All-map P Q (x ∷ xs) f (first, later) = (f x first, All-map P Q xs f later)

  pub All-append_left {κ} : (P : A → Type κ) (xs ys : List A) → All P (xs ++ ys) → All P xs
  All-append_left P [] ys h = tt
  All-append_left P (x ∷ xs) ys h = (h.0, All-append_left P xs ys h.1)

  pub All-append_right {κ} : (P : A → Type κ) (xs ys : List A) → All P (xs ++ ys) → All P ys
  All-append_right P [] ys h = h
  All-append_right P (x ∷ xs) ys h = All-append_right P xs ys h.1

pub length-map {ℓ κ} :
    {A : Type ℓ} {B : Type κ} (xs : List A) (f : A → B) → length (map f xs) ≡ length xs
length-map [] f = refl
length-map (x ∷ xs) f = ap suc (length-map xs f)

-- Scanning with a pointer: the part that a loop passes over, and the part that it stops at.
module _ {ℓ} {A : Type ℓ} where
  unfoldable pub take_while : (A → Bool) → List A → List A
  take_while p [] = []
  take_while p (x ∷ xs) = elim (p x) [ true ↦ x ∷ take_while p xs | false ↦ [] ]

  unfoldable pub drop_while : (A → Bool) → List A → List A
  drop_while p [] = []
  drop_while p (x ∷ xs) = elim (p x) [ true ↦ drop_while p xs | false ↦ x ∷ xs ]

  pub length-drop_while : (p : A → Bool) (xs : List A) → length (drop_while p xs) ≤ length xs
  unfolding drop_while
  length-drop_while p [] = omega arith
  length-drop_while p (x ∷ xs) = ground (arith, length-drop_while p xs)

  -- The scan stops at the first element that fails, or at the end.
  pub take_while-stop :
      (p : A → Bool) (xs ys : List A) (y : A)
      → All (λ x. p x ≡ true) xs
      → p y ≡ false
      → (take_while p (xs ++ y ∷ ys) ≡ xs) × (drop_while p (xs ++ y ∷ ys) ≡ y ∷ ys)
  unfolding take_while drop_while
  take_while-stop p [] ys y h stop = (rw stop, rw stop)
  take_while-stop p (x ∷ xs) ys y (hx, hs) stop =
      let (taken, left) = take_while-stop p xs ys y hs stop in
      (rw (hx, take_while) (ap (◌∷◌ x) taken), rw (hx, drop_while) left)

  pub take_while-end :
      (p : A → Bool) (xs : List A)
      → All (λ x. p x ≡ true) xs
      → (take_while p xs ≡ xs) × (drop_while p xs ≡ [])
  unfolding take_while drop_while
  take_while-end p [] h = (refl, refl)
  take_while-end p (x ∷ xs) (hx, hs) =
      let (taken, left) = take_while-end p xs hs in
      (rw (hx, take_while) (ap (◌∷◌ x) taken), rw (hx, drop_while) left)

  pub take_while-append-drop_while :
      (p : A → Bool) (xs : List A) → take_while p xs ++ drop_while p xs ≡ xs
  unfolding take_while drop_while
  take_while-append-drop_while p [] = refl
  take_while-append-drop_while p (x ∷ xs) =
      elim (p x)
        as (λ b.
          elim b [ true ↦ x ∷ take_while p xs | false ↦ [] ]
            ++ elim b [ true ↦ drop_while p xs | false ↦ x ∷ xs ]
          ≡ x ∷ xs) [ true ↦ ap (◌∷◌ x) (take_while-append-drop_while p xs) | false ↦ refl ]

  pub take_while-All : (p : A → Bool) (xs : List A) → All (λ x. p x ≡ true) (take_while p xs)
  unfolding take_while
  take_while-All p [] = tt
  take_while-All p (x ∷ xs) = elim (Bool-cases (p x)) [
    | inl passed ↦ rw (passed, take_while) (passed, take_while-All p xs)
    | inr stopped ↦ rw (stopped, take_while) tt
  ]
