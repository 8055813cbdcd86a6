-- ===== src/ApiAuth/Hex/RoundTrip.antt =====
-- lib/apiauth/hex.cpp: what `toHex` writes, `fromHex` reads back, and what `fromHex` reads is
-- hexadecimal text.
use matrix_faces.Common.{
  sym, ap, ◌∙◌, bit_or, some_inj, zero, suc, ap₂, subst, IsByte, >>=-eq-some, inl, inr, Bool-cases,
  ==_iff, ltb, map, ℕ, ◌*◌, ◌/◌, ◌%◌, ◌-◌, ◌+◌, ◌&&◌, leb, if◌then◌else◌, ◌<◌, ◌≡◌, refl, arith,
  Bool, true, [], ◌∷◌, some, none, ◌==◌, Bytes, AllBytes, length, length-map, get_or,
}
use matrix_faces.Common.Bits.{bit_or-shifted, all_below, all_below_sound}
use matrix_faces.ApiAuth.Hex.{digits, nibble, to_hex, from_hex, from_hex_pairs}

pub length-to_hex : (xs : Bytes) → length (to_hex xs) ≡ length xs * 2
unfolding to_hex
length-to_hex [] = refl
length-to_hex (x ∷ xs) = omega (arith, length-to_hex xs)

abbrev reads_back : ℕ → Bool
reads_back d = elim (nibble (get_or digits d 0)) [ some v ↦ v == d | none ↦ Bool.false ]

digits_table : all_below 16 reads_back ≡ true
unfolding all_below nibble
digits_table = refl

nibble-digits : (d : ℕ) → d < 16 → nibble (get_or digits d 0) ≡ some d
nibble-digits d h = ground (arith, all_below_sound 16 reads_back d h digits_table)

pub from_hex_pairs-to_hex : (xs : Bytes) → AllBytes xs → from_hex_pairs (to_hex xs) ≡ some xs
unfolding from_hex_pairs to_hex
from_hex_pairs-to_hex [] h = refl
from_hex_pairs-to_hex (x ∷ xs) (b, bs) = ground (
  arith,
  nibble-digits (x / 16) (omega arith),
  nibble-digits (x % 16) (omega arith),
  from_hex_pairs-to_hex xs bs,
  bit_or-shifted 4 (x / 16) (x % 16) (omega arith),
)

-- For every buffer of bytes, `fromHex` reads what `toHex` wrote and gives the same bytes back.
pub from_hex-to_hex : (xs : Bytes) → AllBytes xs → from_hex (to_hex xs) (length xs) ≡ some xs
unfolding from_hex
from_hex-to_hex xs h = ground (arith, length-to_hex xs, from_hex_pairs-to_hex xs h)

-- `tolower` on a letter, the identity elsewhere.
abbrev pub lower : ℕ → ℕ
lower c = if leb b'A' c && leb c b'Z' then c - b'A' + b'a' else c

abbrev is_lower_digit : ℕ → Bool
is_lower_digit c = elim (nibble c) [
  | some v ↦ ltb v 16 && get_or digits v 0 == lower c
  | none ↦ true
]

nibble_table : all_below 256 is_lower_digit ≡ true
unfolding all_below nibble
nibble_table = refl

-- A digit that is read stands for the value whose own digit is its lower case.
nibble-lower :
    (c : ℕ) {v : ℕ} → IsByte c → nibble c ≡ some v → (v < 16) × (get_or digits v 0 ≡ lower c)
nibble-lower c h e = ground (arith, all_below_sound 256 is_lower_digit c h nibble_table)

-- What `from_hex_pairs` gives for the digits `chars`.
abbrev Reads : ℕ → Bytes → Bytes → Type 0
Reads n chars out = (to_hex out ≡ map lower chars) × (length out ≡ n) × AllBytes out

-- One byte from its two digits.
Reads-cons :
    {n : ℕ} (c d : ℕ) {hi lo : ℕ} (cs out : Bytes)
    → IsByte c
    → IsByte d
    → nibble c ≡ some hi
    → nibble d ≡ some lo
    → Reads n cs out
    → Reads (suc n) (c ∷ d ∷ cs) (bit_or (hi * 16) lo % 256 ∷ out)
unfolding to_hex
Reads-cons c d {hi} {lo} cs out hc hd eh el (text, len, bytes) =
    let (high, high_digit) = nibble-lower c hc eh in
    let (low, low_digit) = nibble-lower d hd el in
    let sum = bit_or-shifted 4 hi lo low in
    let upper : bit_or (hi * 16) lo % 256 / 16 ≡ hi = omega (arith, sum) in
    let under : bit_or (hi * 16) lo % 256 % 16 ≡ lo = omega (arith, sum) in
    (
      ap₂ ◌∷◌ (rw upper high_digit) (ap₂ ◌∷◌ (rw under low_digit) text),
      omega (arith, len),
      (omega arith, bytes),
    )

from_hex_pairs-Reads :
    (n : ℕ) (chars : Bytes) {out : Bytes}
    → AllBytes chars
    → length chars ≡ n * 2
    → from_hex_pairs chars ≡ some out
    → Reads n chars out
unfolding from_hex_pairs to_hex
from_hex_pairs-Reads zero [] h len e = subst (Reads 0 []) (some_inj e) (refl, refl, tt)
from_hex_pairs-Reads zero (c ∷ cs) h len e = absurd (omega arith)
from_hex_pairs-Reads (suc n) [] h len e = absurd (omega arith)
from_hex_pairs-Reads (suc n) (c ∷ []) h len e = absurd (omega arith)
from_hex_pairs-Reads (suc n) (c ∷ d ∷ cs) (hc, (hd, hs)) len e =
    let (hi, eh, e1) = >>=-eq-some (nibble c) _ e in
    let (lo, el, e2) = >>=-eq-some (nibble d) _ e1 in
    let (rest, er, e3) = >>=-eq-some (from_hex_pairs cs) _ e2 in
    subst (Reads (suc n) (c ∷ d ∷ cs)) (some_inj e3)
      (Reads-cons c d cs rest hc hd eh el (from_hex_pairs-Reads n cs hs (omega arith) er))

-- Whatever `fromHex` accepts is the hexadecimal text, in either case, of exactly the bytes that it
-- writes, and it writes `outLen` of them.
pub from_hex_lem :
    (chars : Bytes) (n : ℕ) {out : Bytes}
    → AllBytes chars
    → from_hex chars n ≡ some out
    → (to_hex out ≡ map lower chars) × (length out ≡ n) × AllBytes out
unfolding from_hex
from_hex_lem chars n h e = elim (Bool-cases (length chars == n * 2)) [
  | inl same ↦ from_hex_pairs-Reads n chars h ((==_iff _ _).0 same) (rw same at e)
  | inr other ↦ let refused = rw other at e in cc
]

abbrev same_as_lower : ℕ → Bool
same_as_lower c = elim (nibble c) [
  | some v ↦ elim (nibble (lower c)) [ some w ↦ v == w | none ↦ Bool.false ]
  | none ↦ elim (nibble (lower c)) [ some w ↦ Bool.false | none ↦ true ]
]

lower_table : all_below 256 same_as_lower ≡ true
unfolding all_below nibble
lower_table = refl

nibble-lower_eq : (c : ℕ) → IsByte c → nibble c ≡ nibble (lower c)
nibble-lower_eq c h = ground (arith, all_below_sound 256 same_as_lower c h lower_table)

-- The case of the digits does not matter.
pub from_hex_pairs-map-lower :
    (chars : Bytes) → AllBytes chars → from_hex_pairs (map lower chars) ≡ from_hex_pairs chars
unfolding from_hex_pairs
from_hex_pairs-map-lower [] h = refl
from_hex_pairs-map-lower (c ∷ []) h = refl
from_hex_pairs-map-lower (c ∷ d ∷ cs) (hc, (hd, hs)) =
    rw (← nibble-lower_eq c hc, ← nibble-lower_eq d hd, from_hex_pairs-map-lower cs hs)

-- `toHex` writes different texts for different bytes.
pub to_hex-injective : (xs ys : Bytes) → AllBytes xs → AllBytes ys → to_hex xs ≡ to_hex ys → xs ≡ ys
to_hex-injective xs ys hx hy e =
    some_inj (sym (from_hex_pairs-to_hex xs hx) ∙ ap from_hex_pairs e ∙ from_hex_pairs-to_hex ys hy)

pub from_hex-map-lower :
    (chars : Bytes) (n : ℕ) → AllBytes chars → from_hex (map lower chars) n ≡ from_hex chars n
unfolding from_hex
from_hex-map-lower chars n h = rw (length-map chars lower, from_hex_pairs-map-lower chars h)
