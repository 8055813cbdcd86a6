-- ===== src/Common/Bits.antt =====
-- Facts about the bit operations at variables, from the digit recursion that they stand for.
use Prim.Native.Nat.{
  ℕ, zero, suc, ◌+◌, ◌*◌, ◌-◌, ◌/◌, ◌%◌, ◌^◌, ◌≤◌, ◌<◌, min, max, bit_and, bit_or, bit_xor, digits,
  bitwise, differ, bit_and-bitwise, bit_or-bitwise, bit_xor-bitwise,
}
use mathlib.Core.Path.{◌≡◌, refl, ap}
use native.Mathlib.Nat.{le_refl, zero-add, suc-add, pow-suc}
use mathlib.Core.Logic.{◌≢◌, ◌⊎◌, inl, inr}
use mathlib.Core.Bool.{Bool, true, ◌&&◌}
use native.Mathlib.Omega.{arith}

module _ (rest : ℕ → ℕ) (bit : ℕ → ℕ → ℕ) where
  -- One more unit of fuel than the value needs changes nothing, and so do any more.
  digits-suc : (n a b : ℕ) → a ≤ n → digits rest bit (suc n) a b ≡ digits rest bit n a b
  digits-suc zero zero b p = refl
  digits-suc zero (suc a) b p = elim p [ ]
  digits-suc (suc n) zero b p = refl
  digits-suc (suc n) (suc a) b p = rw (digits-suc n (suc a / 2) (b / 2) (omega arith))

  digits-add : (d n a b : ℕ) → a ≤ n → digits rest bit (d + n) a b ≡ digits rest bit n a b
  digits-add zero n a b p = rw zero-add
  digits-add (suc d) n a b p =
      rw (suc-add d n) (rw (digits-suc (d + n) a b (omega arith)) (digits-add d n a b p))

  -- The lowest digit of a nonzero value, and the digits above it.
  bitwise_low :
      (a b : ℕ)
      → bitwise rest bit (suc a) b
        ≡ bitwise rest bit (suc a / 2) (b / 2) * 2 + bit (suc a % 2) (b % 2)
  bitwise_low a b =
      let half : ℕ = suc a / 2 in
      let more : (a - half) + half ≡ a = omega arith in
      omega (arith, rw more at (digits-add (a - half) half half (b / 2) (le_refl half)))

-- Each operation works on the lowest digit and on the rest.
pub bit_or_step : (x y : ℕ) → bit_or x y ≡ bit_or (x / 2) (y / 2) * 2 + max (x % 2) (y % 2)
bit_or_step zero y = simp bit_or-bitwise (omega arith)
bit_or_step (suc x) y = simp bit_or-bitwise (bitwise_low (λ r. r) max x y)

pub bit_xor_step : (x y : ℕ) → bit_xor x y ≡ bit_xor (x / 2) (y / 2) * 2 + differ (x % 2) (y % 2)
bit_xor_step zero y = simp bit_xor-bitwise (omega arith)
bit_xor_step (suc x) y = simp bit_xor-bitwise (bitwise_low (λ r. r) differ x y)

-- The digits of two equal or distinct bits.
differ-cases :
    (a b : ℕ)
    → ((a % 2 ≡ b % 2) × (differ (a % 2) (b % 2) ≡ 0))
      ⊎ ((a % 2 ≢ b % 2) × (differ (a % 2) (b % 2) ≡ 1))
differ-cases a b = bits (a % 2) (b % 2) (omega arith) (omega arith)
  where
    bits : (x y : ℕ) → x < 2 → y < 2 → ((x ≡ y) × (differ x y ≡ 0)) ⊎ ((x ≢ y) × (differ x y ≡ 1))
    bits zero zero p q = inl (refl, refl)
    bits zero (suc zero) p q = inr (omega arith, refl)
    bits (suc zero) zero p q = inr (omega arith, refl)
    bits (suc zero) (suc zero) p q = inl (refl, refl)
    bits zero (suc (suc y)) p q = absurd (omega arith)
    bits (suc zero) (suc (suc y)) p q = absurd (omega arith)
    bits (suc (suc x)) y p q = absurd (omega arith)

div_digits : (q r : ℕ) → r < 2 → ((q * 2 + r) / 2 ≡ q) × ((q * 2 + r) % 2 ≡ r)
div_digits q r h = omega arith

-- `^` of two values is zero exactly when they are equal.
bit_xor-zero_bound : (n a b : ℕ) → a ≤ n → b ≤ n → bit_xor a b ≡ 0 → a ≡ b
bit_xor-zero_bound zero a b p q e = omega arith
bit_xor-zero_bound (suc n) a b p q e =
    ground (arith, bit_xor_step a b, differ-cases a b, bit_xor-zero_bound n (a / 2) (b / 2))

pub bit_xor-eq-zero : (a b : ℕ) → bit_xor a b ≡ 0 → a ≡ b
bit_xor-eq-zero a b = bit_xor-zero_bound (max a b) a b (omega arith) (omega arith)

bit_xor_self_bound : (n a : ℕ) → a ≤ n → bit_xor a a ≡ 0
bit_xor_self_bound zero zero p = refl
bit_xor_self_bound zero (suc a) p = absurd (omega arith)
bit_xor_self_bound (suc n) zero p = refl
bit_xor_self_bound (suc n) (suc a) p = ground (
  arith,
  bit_xor_step (suc a) (suc a),
  differ-cases (suc a) (suc a),
  bit_xor_self_bound n (suc a / 2),
)

pub bit_xor_self : (a : ℕ) → bit_xor a a ≡ 0
bit_xor_self a = bit_xor_self_bound a a (le_refl a)

-- `|` of two values is zero exactly when both are.
bit_or-zero_bound : (n a b : ℕ) → a ≤ n → b ≤ n → bit_or a b ≡ 0 → (a ≡ 0) × (b ≡ 0)
bit_or-zero_bound zero a b p q e = omega arith
bit_or-zero_bound (suc n) a b p q e =
    ground (arith, bit_or_step a b, bit_or-zero_bound n (a / 2) (b / 2))

pub bit_or-eq-zero : (a b : ℕ) → bit_or a b ≡ 0 → (a ≡ 0) × (b ≡ 0)
bit_or-eq-zero a b = bit_or-zero_bound (max a b) a b (omega arith) (omega arith)

-- Applying the same mask twice gives the value back.
bit_xor-cancel_bound : (n a b : ℕ) → a ≤ n → b ≤ n → bit_xor (bit_xor a b) b ≡ a
bit_xor-cancel_bound zero zero zero p q = refl
bit_xor-cancel_bound zero zero (suc b) p q = absurd (omega arith)
bit_xor-cancel_bound zero (suc a) b p q = absurd (omega arith)
bit_xor-cancel_bound (suc n) a b p q = ground (
  arith,
  bit_xor_step a b,
  bit_xor_step (bit_xor a b) b,
  differ-cases a b,
  differ-cases (bit_xor a b) b,
  div_digits (bit_xor (a / 2) (b / 2)) (differ (a % 2) (b % 2)),
  bit_xor-cancel_bound n (a / 2) (b / 2),
)

pub bit_xor-cancel : (a b : ℕ) → bit_xor (bit_xor a b) b ≡ a
bit_xor-cancel a b = bit_xor-cancel_bound (max a b) a b (omega arith) (omega arith)

-- `^` of two values of `k` bits has `k` bits.
pub bit_xor-lt : (k a b : ℕ) → a < 2 ^ k → b < 2 ^ k → bit_xor a b < 2 ^ k
bit_xor-lt zero zero zero p q = p
bit_xor-lt zero zero (suc b) p q = absurd (omega arith)
bit_xor-lt zero (suc a) b p q = absurd (omega arith)
bit_xor-lt (suc k) a b p q =
    ground (arith, pow-suc 2 k, bit_xor_step a b, differ-cases a b, bit_xor-lt k (a / 2) (b / 2))

-- `|` with zero, and of a value with its low `k` bits clear and one of `k` bits.
bit_or-zero_right : (n a : ℕ) → a ≤ n → bit_or a 0 ≡ a
bit_or-zero_right n zero p = refl
bit_or-zero_right zero (suc a) p = elim p [ ]
bit_or-zero_right (suc n) (suc a) p =
    omega (arith, bit_or_step (suc a) 0, bit_or-zero_right n (suc a / 2) (omega arith))

pub bit_or-shifted : (k q r : ℕ) → r < 2 ^ k → bit_or (q * 2 ^ k) r ≡ q * 2 ^ k + r
bit_or-shifted zero q zero p = omega (arith, bit_or-zero_right (q * 2 ^ 0) (q * 2 ^ 0) (le_refl _))
bit_or-shifted zero q (suc r) p = absurd (omega arith)
bit_or-shifted (suc k) q r p = ground (
  arith,
  pow-suc 2 k,
  ap (λ (t : ℕ). q * t) (pow-suc 2 k),
  bit_or_step (q * 2 ^ suc k) r,
  bit_or-shifted k q (r / 2),
)

-- Over a small range, check every value by evaluation.
unfoldable pub all_below : ℕ → (ℕ → Bool) → Bool
all_below zero test = true
all_below (suc bound) test = test bound && all_below bound test

pub all_below_sound :
    (bound : ℕ) (test : ℕ → Bool) (value : ℕ)
    → value < bound
    → all_below bound test ≡ true
    → test value ≡ true
unfolding all_below
all_below_sound zero test value below checked = elim below [ ]
all_below_sound (suc bound) test value below checked =
    ground (arith, all_below_sound bound test value)

bit_and_step : (x y : ℕ) → bit_and x y ≡ bit_and (x / 2) (y / 2) * 2 + min (x % 2) (y % 2)
bit_and_step zero y = simp bit_and-bitwise (omega arith)
bit_and_step (suc x) y = simp bit_and-bitwise (bitwise_low (λ r. 0) min x y)

-- `&` is no larger than its left operand.
pub bit_and-le : (n a b : ℕ) → a ≤ n → bit_and a b ≤ a
bit_and-le n zero b p = omega (arith, bit_and-bitwise 0 b)
bit_and-le zero (suc a) b p = elim p [ ]
bit_and-le (suc n) (suc a) b p =
    omega (arith, bit_and_step (suc a) b, bit_and-le n (suc a / 2) (b / 2) (omega arith))
