-- ===== src/ApiAuth/Hex/Equality.antt =====
-- lib/apiauth/hex.cpp: `constantTimeEquals` decides equality.
use matrix_faces.Common.{
  ℕ, ◌%◌, ◌≡◌, ◌↔◌, refl, ap₂, arith, bit_or, bit_xor, true, [], ◌∷◌, ==_iff, Bytes, AllBytes,
  length,
}
use matrix_faces.Common.Bits.{bit_xor_self, bit_xor-lt, bit_xor-eq-zero, bit_or-eq-zero}
use matrix_faces.ApiAuth.Hex.{difference, constant_time_equals}

difference-eq-zero :
    (a b : Bytes) (diff : ℕ)
    → AllBytes a
    → AllBytes b
    → length a ≡ length b
    → difference diff a b ≡ 0
    → (diff ≡ 0) × (a ≡ b)
unfolding difference
difference-eq-zero [] [] diff ha hb e z = (z, refl)
difference-eq-zero [] (y ∷ b) diff ha hb e z = absurd (omega arith)
difference-eq-zero (x ∷ a) [] diff ha hb e z = absurd (omega arith)
difference-eq-zero (x ∷ a) (y ∷ b) diff (hx, ha) (hy, hb) e z =
    let (now, same) =
      difference-eq-zero a b (bit_or diff (bit_xor x y % 256)) ha hb (omega arith) z in
    let (before, byte) = bit_or-eq-zero diff (bit_xor x y % 256) now in
    (before, ap₂ ◌∷◌ (bit_xor-eq-zero x y (omega (arith, bit_xor-lt 8 x y hx hy))) same)

difference_self : (a : Bytes) → difference 0 a a ≡ 0
unfolding difference
difference_self [] = refl
difference_self (x ∷ a) = ground (arith, bit_xor_self x, difference_self a)

-- Two buffers of bytes of one length are equal for `constantTimeEquals` exactly when they hold the
-- same bytes: no difference is lost in the accumulator, wherever it stands.
pub constant_time_equals_iff :
    (a b : Bytes)
    → AllBytes a
    → AllBytes b
    → length a ≡ length b
    → (constant_time_equals a b ≡ true) ↔ (a ≡ b)
unfolding constant_time_equals
constant_time_equals_iff a b ha hb e = (
  λ t. (difference-eq-zero a b 0 ha hb e ((==_iff _ _).0 t)).1,
  λ p. rw p (rw (difference_self b)),
)
