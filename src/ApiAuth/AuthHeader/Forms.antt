-- ===== src/ApiAuth/AuthHeader/Forms.antt =====
-- lib/apiauth/auth_header.cpp: the forms of the four values.
use matrix_faces.Common.{
  ℕ, suc, ◌+◌, ◌-◌, ◌*◌, ◌^◌, ◌<◌, ◌≤◌, ◌≡◌, ap, arith, true, false, ◌||◌, none, some, [], ◌∷◌, ltb,
  leb, ◌==◌, if◌then◌else◌, >>=-eq-some, some_inj, Bool-cases, inl, inr, Bytes, All, is_digit,
  length,
}
use native.Mathlib.Nat.{pow-suc}
use matrix_faces.ApiAuth.AuthHeader.{AuthHeader, take_hex, is_hex_string, parse_digits, parse_ts}

-- The number that decimal digits stand for.
unfoldable pub decimal_value : Bytes → ℕ
decimal_value [] = 0
decimal_value (c ∷ cs) = (c - b'0') * 10 ^ length cs + decimal_value cs

-- A text of digits, and the number below 2^32 that it stands for.
pub record IsTime (ts : Bytes) (timestamp : ℕ) : Type 0 where
  pub short : (1 ≤ length ts) × (length ts ≤ 10)
  pub digits : All (λ c. is_digit c ≡ true) ts
  pub value : timestamp ≡ decimal_value ts
  pub bound : timestamp < 2 ^ 32

-- `n` hexadecimal digits.
abbrev pub IsHex : ℕ → Bytes → Type 0
IsHex n text = (length text ≡ n) × (is_hex_string text ≡ true)

pub record IsWellFormed (h : AuthHeader) : Type 0 where
  pub id : IsHex 16 h.id
  pub nonce : IsHex 16 h.nonce
  pub sig : IsHex 64 h.sig
  pub time : IsTime h.ts h.timestamp

pub take_hex-IsHex :
    (value : Bytes) (n : ℕ) {out : Bytes} → take_hex value n ≡ some out → IsHex n out
unfolding take_hex
take_hex-IsHex value n e = ground arith

pub next_digit : (acc d n : ℕ) → (acc * 10 + d) * 10 ^ n ≡ acc * 10 ^ suc n + d * 10 ^ n
next_digit acc d n = omega (arith, ap (λ (t : ℕ). acc * t) (pow-suc 10 n))

-- What is taken is the value.
pub take_hex_lem : (value : Bytes) (n : ℕ) {out : Bytes} → take_hex value n ≡ some out → out ≡ value
unfolding take_hex
take_hex_lem value n e = ground arith

parse_digits-decimal_value :
    (cs : Bytes) (acc : ℕ) {v : ℕ}
    → parse_digits acc cs ≡ some v
    → All (λ c. is_digit c ≡ true) cs × (v ≡ acc * 10 ^ length cs + decimal_value cs)
unfolding parse_digits decimal_value
parse_digits-decimal_value [] acc e = (tt, omega (arith, some_inj e))
parse_digits-decimal_value (c ∷ cs) acc e = elim (Bool-cases (is_digit c)) [
  | inl digit ↦
      let rest = rw digit at e in
      let (all, value) = parse_digits-decimal_value cs (acc * 10 + (c - b'0')) rest in
      ((digit, all), omega (arith, next_digit acc (c - b'0') (length cs), value))
  | inr other ↦ let refused = rw other at e in cc
]

-- The bounds that `parse_ts` checks, around the digits that it read.
IsTime-of_digits :
    (text : Bytes) (read : ℕ) {v : ℕ}
    → (length text == 0 || leb 11 (length text)) ≡ false
    → parse_digits 0 text ≡ some read
    → (if ltb 0xffffffff read then none else some read) ≡ some v
    → IsTime text v
IsTime-of_digits text read good parsed e =
    let (all, value) = parse_digits-decimal_value text 0 parsed in
    record {
      short = ground arith;
      digits = all;
      value = ground (arith, value);
      bound = ground arith;
    }

pub parse_ts-IsTime : (text : Bytes) {v : ℕ} → parse_ts text ≡ some v → IsTime text v
unfolding parse_ts
parse_ts-IsTime text e = elim (Bool-cases (length text == 0 || leb 11 (length text))) [
  | inl bad ↦ let refused = rw bad at e in cc
  | inr good ↦
      let (read, parsed, e1) = >>=-eq-some (parse_digits 0 text) _ (rw good at e) in
      IsTime-of_digits text read good parsed e1
]
