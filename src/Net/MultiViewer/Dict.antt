-- ===== src/Net/MultiViewer/Dict.antt =====
-- src/net/multiviewer_parse.cpp: the entries of an object with numbers for keys are found in order.
use matrix_faces.Common.{
  ℕ, zero, suc, ◌-◌, ◌^◌, ◌<◌, ◌≤◌, ◌≡◌, refl, ap, ◌∙◌, arith, Bool, true, false, List, [], ◌∷◌,
  ◌++◌, map, some, leb, ◌==◌, Bytes, is_digit, length, drop_while, take_while-stop, All, pos,
  Bool-cases, inl, inr,
}
use matrix_faces.Net.MultiViewer.Scan.{
  is_space, is_separator, digits_value, saturated, unsigned_part, strtol, entry_object, next_entry,
  entries,
}
use matrix_faces.Net.MultiViewer.Objects.{Balanced, find_object_end-Balanced}

-- An entry as the feed writes it: white space and a comma, the digits of the key, and what stands
-- between the braces.
pub record Entry : Type 0 where
  pub gap : Bytes
  pub digit : ℕ
  pub digits : Bytes
  pub inside : Bytes

abbrev pub key_digits : Entry → Bytes
key_digits e = e.digit ∷ e.digits

pub record IsEntry (e : Entry) : Type 0 where
  pub gap : All (λ c. is_separator c ≡ true) e.gap
  pub digit : is_digit e.digit ≡ true
  pub digits : All (λ c. is_digit c ≡ true) e.digits
  pub small : digits_value 0 (key_digits e) < 2 ^ 31
  pub inside : Balanced e.inside

-- The entry with what follows it.
abbrev pub written : Entry → Bytes → Bytes
written e rest = e.gap ++ b'"' ∷ (key_digits e ++ b'"' ∷ b':' ∷ b'{' ∷ (e.inside ++ b'}' ∷ rest))

abbrev pub dict : List Entry → Bytes
dict [] = []
dict (e ∷ es) = written e (dict es)

drop_while-all :
    (p : ℕ → Bool) (xs ys : Bytes)
    → All (λ c. p c ≡ true) xs
    → drop_while p (xs ++ ys) ≡ drop_while p ys
unfolding drop_while
drop_while-all p [] ys h = refl
drop_while-all p (x ∷ xs) ys (first, later) = rw (first, drop_while) (drop_while-all p xs ys later)

drop_while-none : (p : ℕ → Bool) (x : ℕ) (xs : Bytes) → p x ≡ false → drop_while p (x ∷ xs) ≡ x ∷ xs
unfolding drop_while
drop_while-none p x xs h = rw (h, drop_while) refl

saturated-small : (n : ℕ) → n < 2 ^ 31 → saturated false n ≡ pos n
unfolding saturated
saturated-small n h = elim (Bool-cases (leb (2 ^ 31 - 1) n)) [
  | inl top ↦ rw top (ap pos (ground arith))
  | inr below ↦ rw below refl
]

unsigned_part-digits :
    (d : ℕ) (ds rest : Bytes)
    → is_digit d ≡ true
    → All (λ c. is_digit c ≡ true) ds
    → digits_value 0 (d ∷ ds) < 2 ^ 31
    → unsigned_part false (d ∷ ds ++ b'"' ∷ rest)
      ≡ some (pos (digits_value 0 (d ∷ ds)), b'"' ∷ rest)
unfolding unsigned_part
unsigned_part-digits d ds rest digit digits small =
    let (taken, left) = take_while-stop is_digit (d ∷ ds) rest b'"' (digit, digits) refl in
    let some_digit : (length (d ∷ ds) == 0) ≡ false = ground arith in
    let value = saturated-small (digits_value 0 (d ∷ ds)) small in
    rw (taken, left, some_digit, unsigned_part) (ap (λ z. some (z, b'"' ∷ rest)) value)

strtol-digits :
    (d : ℕ) (ds rest : Bytes)
    → is_digit d ≡ true
    → All (λ c. is_digit c ≡ true) ds
    → digits_value 0 (d ∷ ds) < 2 ^ 31
    → strtol (d ∷ ds ++ b'"' ∷ rest) ≡ some (pos (digits_value 0 (d ∷ ds)), b'"' ∷ rest)
unfolding strtol
strtol-digits d ds rest digit digits small =
    let not_space : is_space d ≡ false = ground arith in
    let not_minus : (d == b'-') ≡ false = ground arith in
    let not_plus : (d == b'+') ≡ false = ground arith in
    rw (drop_while-none is_space d (ds ++ b'"' ∷ rest) not_space, not_minus, not_plus, strtol)
      (unsigned_part-digits d ds rest digit digits small)

entry_object-found :
    (inside rest : Bytes)
    → Balanced inside
    → entry_object (b'"' ∷ b':' ∷ b'{' ∷ (inside ++ b'}' ∷ rest))
      ≡ some (b'{' ∷ inside, b'}' ∷ rest)
unfolding entry_object drop_while
entry_object-found inside rest b = find_object_end-Balanced inside rest b

next_entry-written :
    (e : Entry) (rest : Bytes)
    → IsEntry e
    → next_entry (written e rest)
      ≡ some (pos (digits_value 0 (key_digits e)), b'{' ∷ e.inside, rest)
unfolding next_entry
next_entry-written e rest form =
    let tail : Bytes = b':' ∷ b'{' ∷ (e.inside ++ b'}' ∷ rest) in
    let text : Bytes = key_digits e ++ b'"' ∷ tail in
    let start : drop_while is_separator (written e rest) ≡ b'"' ∷ text =
      drop_while-all is_separator e.gap (b'"' ∷ text) form.gap
      ∙ drop_while-none is_separator b'"' text refl in
    let key = strtol-digits e.digit e.digits tail form.digit form.digits form.small in
    let object : entry_object (b'"' ∷ tail) ≡ some (b'{' ∷ e.inside, b'}' ∷ rest) =
      entry_object-found e.inside rest form.inside in
    rw (start, key, object, next_entry) refl

-- Whatever white space and commas stand between them, the entries of an object are found in order:
-- each with the number that its key says, below 2^31, and the object behind it.
pub entries-dict :
    (es : List Entry) (fuel : ℕ)
    → All IsEntry es
    → length es ≤ fuel
    → entries fuel (dict es)
      ≡ map (λ (e : Entry). (pos (digits_value 0 (key_digits e)), b'{' ∷ e.inside)) es
unfolding entries next_entry drop_while
entries-dict [] zero forms enough = refl
entries-dict [] (suc fuel) forms enough = refl
entries-dict (e ∷ es) zero forms enough = absurd (omega arith)
entries-dict (e ∷ es) (suc fuel) (form, forms) enough =
    let found = next_entry-written e (dict es) form in
    rw (found, entries)
      (ap (◌∷◌ (pos (digits_value 0 (key_digits e)), b'{' ∷ e.inside))
        (entries-dict es fuel forms (omega arith)))
