-- ===== src/Api/HttpRequest/Fields.antt =====
-- src/api/http_request.cpp: what a header in form does to the request.
use matrix_faces.Common.{
  ℕ, zero, suc, ◌+◌, ◌-◌, ◌*◌, ◌%◌, ◌^◌, ◌<◌, ◌≤◌, ◌≡◌, refl, ap, ◌∙◌, arith, true, false, [], ◌∷◌,
  ◌++◌, none, some, ltb, ◌==◌, Bytes, codes, is_digit, All, length, get_or, drop, drop_while,
  length-append,
}
use native.Mathlib.Nat.{suc-add, pow-suc}
use matrix_faces.ApiAuth.AuthHeader.Forms.{decimal_value, next_digit}
use matrix_faces.Api.HttpRequest.{
  HttpRequest, parsed, to_lower, equals_ignoring_case, is_blank, header_value, copy_capped,
  parse_length, authorization_cap, websocket_key_cap,
}
use matrix_faces.Api.HttpRequest.Reader.{
  Headers, take_authorization, take_key, take_length, take_header,
}

-- A header line as a client may write it: its name, the white space behind the colon, its value;
-- or a line that is none of the three.
pub data Header : Type 0 where
  authorization_line : Bytes → Bytes → Bytes → Header
  key_line : Bytes → Bytes → Bytes → Header
  length_line : Bytes → Bytes → Bytes → Header
  other_line : Bytes → Header

unfoldable pub header_text : Header → Bytes
header_text (authorization_line name blanks value) = name ++ b':' ∷ (blanks ++ value)
header_text (key_line name blanks value) = name ++ b':' ∷ (blanks ++ value)
header_text (length_line name blanks value) = name ++ b':' ∷ (blanks ++ value)
header_text (other_line line) = line

-- A name in any case, and a value that the white space before it does not run into.
abbrev pub IsField : Bytes → Bytes → Bytes → Bytes → Type 0
IsField key name blanks value =
    (length name ≡ length key)
    × (equals_ignoring_case name key (length key) ≡ true)
    × All (λ c. is_blank c ≡ true) blanks
    × (drop_while is_blank value ≡ value)

-- The header is in form and its value fits.
unfoldable pub IsHeader : Header → Type 0
IsHeader (authorization_line name blanks value) =
    IsField (codes "authorization") name blanks value × (length value < authorization_cap)
IsHeader (key_line name blanks value) =
    IsField (codes "sec-websocket-key") name blanks value × (length value < websocket_key_cap)
IsHeader (length_line name blanks value) =
    IsField (codes "content-length") name blanks value
    × All (λ c. is_digit c ≡ true) value
    × (decimal_value value ≤ 1000000)
IsHeader (other_line line) =
    (header_value line (codes "authorization") ≡ none)
    × (header_value line (codes "sec-websocket-key") ≡ none)
    × (header_value line (codes "content-length") ≡ none)

-- The field that a header sets.
unfoldable pub set_field : Header → HttpRequest → HttpRequest
set_field (authorization_line name blanks value) r = record r { authorization = value }
set_field (key_line name blanks value) r = record r { websocket_key = value }
set_field (length_line name blanks value) r = record r { content_length = decimal_value value }
set_field (other_line line) r = r

equals_ignoring_case-append :
    (name key rest : Bytes)
    → length name ≡ length key
    → equals_ignoring_case name key (length key) ≡ true
    → equals_ignoring_case (name ++ rest) key (length key) ≡ true
unfolding equals_ignoring_case
equals_ignoring_case-append [] [] rest same e = refl
equals_ignoring_case-append [] (y ∷ key) rest same e = absurd (omega arith)
equals_ignoring_case-append (x ∷ name) [] rest same e = refl
equals_ignoring_case-append (x ∷ name) (y ∷ key) rest same e =
    ground (arith, equals_ignoring_case-append name key rest)

drop_while-blanks :
    (blanks value : Bytes)
    → All (λ c. is_blank c ≡ true) blanks
    → drop_while is_blank (blanks ++ value) ≡ drop_while is_blank value
unfolding drop_while
drop_while-blanks [] value h = refl
drop_while-blanks (c ∷ blanks) value (first, later) =
    rw (first, drop_while) (drop_while-blanks blanks value later)

drop-name : (name rest : Bytes) (c : ℕ) → drop (length name + 1) (name ++ c ∷ rest) ≡ rest
drop-name [] rest c = refl
drop-name (x ∷ name) rest c = rw (suc-add (length name) 1) (drop-name name rest c)

get_or-head : (name rest : Bytes) (c : ℕ) → get_or (name ++ c ∷ rest) (length name) 0 ≡ c
get_or-head [] rest c = refl
get_or-head (x ∷ name) rest c = get_or-head name rest c

header_value-IsField :
    (key name blanks value : Bytes)
    → IsField key name blanks value
    → header_value (name ++ b':' ∷ (blanks ++ value)) key ≡ some value
unfolding header_value
header_value-IsField key name blanks value (same, spelled, white, whole) =
    let rest : Bytes = b':' ∷ (blanks ++ value) in
    let long = length-append name rest in
    let begins = equals_ignoring_case-append name key rest same spelled in
    let behind : drop_while is_blank (drop (length key + 1) (name ++ rest)) ≡ value = rw (← same) (
      ap (drop_while is_blank) (drop-name name (blanks ++ value) b':')
      ∙ drop_while-blanks blanks value white
      ∙ whole) in
    let colon' : get_or (name ++ rest) (length key) 0 ≡ b':' =
      rw (← same) (get_or-head name (blanks ++ value) b':') in
    let found : ltb (length (name ++ rest)) (length key + 1) ≡ false = ground (arith, long, same) in
    rw (found, begins, colon', header_value) (ap some behind)

-- A line whose first letter is another has no value.
header_value-other :
    (c k : ℕ) (line key : Bytes)
    → (to_lower c == to_lower k) ≡ false
    → header_value (c ∷ line) (k ∷ key) ≡ none
unfolding header_value equals_ignoring_case
header_value-other c k line key other = rw (other, header_value) (ground arith)

-- The name that is spelled begins with the key's letter.
first_letter :
    (k : ℕ) (key name : Bytes)
    → equals_ignoring_case name (k ∷ key) (suc (length key)) ≡ true
    → (c : ℕ) × (cs : Bytes) × (name ≡ c ∷ cs) × ((to_lower c == to_lower k) ≡ true)
unfolding equals_ignoring_case
first_letter k key [] e = cc
first_letter k key (c ∷ cs) e = (c, cs, refl, ground arith)

header_value-first :
    (name rest : Bytes) (k j : ℕ) (key other : Bytes)
    → equals_ignoring_case name (k ∷ key) (suc (length key)) ≡ true
    → (to_lower k == to_lower j) ≡ false
    → header_value (name ++ rest) (j ∷ other) ≡ none
header_value-first name rest k j key other spelled differ =
    let (c, cs, begins, letter) = first_letter k key name spelled in
    rw begins (header_value-other c j (cs ++ rest) other (ground arith))

le_mul_pow : (x n : ℕ) → x ≤ x * 10 ^ n
le_mul_pow x zero = omega arith
le_mul_pow x (suc n) = omega (arith, le_mul_pow x n, ap (λ (t : ℕ). x * t) (pow-suc 10 n))

parse_length-digits :
    (cs : Bytes) (acc : ℕ)
    → All (λ c. is_digit c ≡ true) cs
    → acc * 10 ^ length cs + decimal_value cs ≤ 1000000
    → parse_length acc cs ≡ parsed (acc * 10 ^ length cs + decimal_value cs)
unfolding parse_length decimal_value
parse_length-digits [] acc h small = ap parsed (omega arith)
parse_length-digits (c ∷ cs) acc (digit, later) small =
    let next : ℕ = acc * 10 + (c - b'0') in
    let total = next_digit acc (c - b'0') (length cs) in
    let grows = le_mul_pow next (length cs) in
    let exact : next % 2 ^ 32 ≡ next = omega arith in
    let ih = parse_length-digits cs next later (omega (arith, total)) in
    rw exact (ground (arith, ih, total))

-- A header in form sets its field, and no other line of the three cases is taken for it.
pub take_header-IsHeader :
    (header : Header) (h : Headers)
    → IsHeader header
    → take_header (header_text header) h
      ≡ parsed (record h { request = set_field header h.request })
unfolding take_header take_authorization take_key take_length copy_capped header_text set_field
    IsHeader
take_header-IsHeader (authorization_line name blanks value) h (field, fits) =
    rw (header_value-IsField (codes "authorization") name blanks value field, take_header)
      (ground arith)
take_header-IsHeader (key_line name blanks value) h (field, fits) =
    rw
      (
        header_value-first name (b':' ∷ (blanks ++ value)) _ b'a' _ (codes "uthorization") field.1
            refl,
        header_value-IsField (codes "sec-websocket-key") name blanks value field,
        take_header,
      )
      (ground arith)
take_header-IsHeader (length_line name blanks value) h (field, digits, small) =
    rw
      (
        header_value-first name (b':' ∷ (blanks ++ value)) _ b'a' _ (codes "uthorization") field.1
            refl,
        header_value-first name (b':' ∷ (blanks ++ value)) _ b's' _ (codes "ec-websocket-key")
            field.1 refl,
        header_value-IsField (codes "content-length") name blanks value field,
        take_header,
      )
      (ground (arith, parse_length-digits value 0 digits))
take_header-IsHeader (other_line line) h (a, k, l) = rw (a, k, l, take_header) refl
