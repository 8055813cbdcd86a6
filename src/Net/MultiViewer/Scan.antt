-- ===== src/Net/MultiViewer/Scan.antt =====
-- src/net/multiviewer_parse.cpp: the bounded navigation of the response.
-- A pointer with the end of its scope is the list of the bytes between them. What stands at the end
-- of a scope is the closing brace of an object or the NUL behind the buffer, which stops `strtol`.
use matrix_faces.Common.{
  ℕ, zero, suc, ◌+◌, ◌-◌, ◌*◌, ◌^◌, Bool, true, false, not, ◌&&◌, ◌||◌, List, [], ◌∷◌, Option, none,
  some, leb, ◌==◌, if◌then◌else◌, Bytes, c_string, is_digit, length, take, drop, take_while,
  drop_while, ℤ, pos, negsuc,
}

-- Whether the text begins with the key, and what stands behind it.
unfoldable pub after_key : Bytes → Bytes → Option Bytes
after_key [] text = some text
after_key (k ∷ key) [] = none
after_key (k ∷ key) (c ∷ text) = let rest = after_key key text in if c == k then rest else none

-- `strstr`, and what stands behind what it finds.
unfoldable pub strstr : Bytes → Bytes → Option Bytes
strstr key [] = after_key key []
strstr key (c ∷ text) =
    let later = strstr key text in
    elim (after_key key (c ∷ text)) [ none ↦ later | some rest ↦ some rest ]

abbrev pub is_blank : ℕ → Bool
is_blank c = c == b' ' || c == b'\t'

-- `findValue`: the search stops at the first NUL, but the value goes on to the end of the scope.
unfoldable pub find_value : Bytes → Bytes → Option Bytes
find_value scope key = elim (strstr key (c_string scope)) [
  | none ↦ none
  | some rest ↦ elim (drop_while is_blank (drop (length (c_string scope) - length rest) scope)) [
    | [] ↦ none
    | c ∷ value ↦ some (c ∷ value)
  ]
]

-- Where the scan of `findObjectEnd` stands: outside a string, in one, or behind a backslash in one.
pub data Place : Type 0 where
  outside in_string escaped : Place

-- A byte before what was found.
unfoldable pub before : ℕ → Option (Bytes × Bytes) → Option (Bytes × Bytes)
before c none = none
before c (some found) = some (c ∷ found.0, found.1)

-- The loop of `findObjectEnd`: the bytes up to the brace that takes the depth to zero, and the
-- bytes from there on.
unfoldable pub object_end : Bytes → ℕ → Place → Option (Bytes × Bytes)
object_end [] depth place = none
object_end (c ∷ cs) depth escaped = before c (object_end cs depth in_string)
object_end (c ∷ cs) depth in_string =
    let place = if c == 92 then escaped else if c == b'"' then outside else in_string in
    before c (object_end cs depth place)
object_end (c ∷ cs) depth outside =
    let string = before c (object_end cs depth in_string) in
    let deeper = before c (object_end cs (depth + 1) outside) in
    let out = before c (object_end cs (depth - 1) outside) in
    let on = before c (object_end cs depth outside) in
    if c == b'"'
    then string
    else if c == b'{'
    then deeper
    else if c == b'}'
    then (if depth == 1 then some ([], c ∷ cs) else out)
    else on

-- `findObjectEnd`. The object's own brace is the first, so the depth does not fall below zero.
unfoldable pub find_object_end : Bytes → Option (Bytes × Bytes)
find_object_end [] = none
find_object_end (c ∷ cs) = if not (c == b'{') then none else object_end (c ∷ cs) 0 outside

-- A byte before the rest of the string.
unfoldable pub byte_before : ℕ → Option Bytes → Option Bytes
byte_before c none = none
byte_before c (some s) = some (c ∷ s)

-- The loop of `extractString` from behind the opening quote, with whether a backslash goes before;
-- `none` when no quote closes the string.
unfoldable pub string_body : Bytes → Bool → Option Bytes
string_body [] quoted = none
string_body (c ∷ cs) true = byte_before c (string_body cs false)
string_body (c ∷ cs) false =
    let behind = string_body cs true in
    let plain = byte_before c (string_body cs false) in
    if c == b'"' then some [] else if c == 92 then behind else plain

-- `extractString` of a value that was found; `none` is false.
unfoldable pub extract_string : Option Bytes → ℕ → Option Bytes
extract_string none cap = none
extract_string (some []) cap = none
extract_string (some (c ∷ cs)) cap =
    if not (c == b'"') || cap == 0
    then none
    else elim (string_body cs false) [ none ↦ none | some s ↦ some (take (cap - 1) s) ]

-- `isspace`.
abbrev pub is_space : ℕ → Bool
is_space c = c == b' ' || leb 9 c && leb c 13

unfoldable pub digits_value : ℕ → Bytes → ℕ
digits_value value [] = value
digits_value value (c ∷ cs) = digits_value (value * 10 + (c - b'0')) cs

-- What fits `long`, which has 32 bits on the boards.
unfoldable pub saturated : Bool → ℕ → ℤ
saturated true zero = pos 0
saturated true (suc n) = if leb (2 ^ 31 - 1) n then negsuc (2 ^ 31 - 1) else negsuc n
saturated false n = if leb (2 ^ 31 - 1) n then pos (2 ^ 31 - 1) else pos n

unfoldable pub unsigned_part : Bool → Bytes → Option (ℤ × Bytes)
unsigned_part negative text =
    let digits = take_while is_digit text in
    if length digits == 0
    then none
    else some (saturated negative (digits_value 0 digits), drop_while is_digit text)

-- `strtol` to base ten: the value and what stands behind it; `none` when there are no digits.
unfoldable pub strtol : Bytes → Option (ℤ × Bytes)
strtol text = elim (drop_while is_space text) [
  | [] ↦ none
  | c ∷ cs ↦
      let minus = unsigned_part true cs in
      let plus = unsigned_part false cs in
      let plain = unsigned_part false (c ∷ cs) in
      if c == b'-' then minus else if c == b'+' then plus else plain
]

-- `extractLong` of a value that was found.
unfoldable pub extract_long : Option Bytes → Option ℤ
extract_long none = none
extract_long (some value) = elim (strtol value) [ none ↦ none | some (n, rest) ↦ some n ]

abbrev pub is_separator : ℕ → Bool
is_separator c = c == b',' || c == b' ' || c == b'\t' || c == b'\n' || c == 13

-- The entry behind the key: past the colon, an object.
unfoldable pub entry_object : Bytes → Option (Bytes × Bytes)
entry_object text = elim (drop_while (λ c. not (c == b':')) text) [
  | [] ↦ none
  | _ ∷ rest ↦ find_object_end (drop_while is_blank rest)
]

-- `nextDictEntry`: the key, the entry's scope, and the cursor behind the entry.
unfoldable pub next_entry : Bytes → Option (ℤ × Bytes × Bytes)
next_entry cursor = elim (drop_while is_separator cursor) [
  | [] ↦ none
  | c ∷ cs ↦ if not (c == b'"') then none else elim (strtol cs) [
    | none ↦ none
    | some (key, behind) ↦ elim (entry_object behind) [
      | none ↦ none
      | some (entry, rest) ↦ some (key, entry, drop 1 rest)
    ]
  ]
]

-- The entries that calls of `nextDictEntry` give until it returns false. Each takes a byte at
-- least, so the length of the scope is fuel enough.
unfoldable pub entries : ℕ → Bytes → List (ℤ × Bytes)
entries zero cursor = []
entries (suc fuel) cursor = elim (next_entry cursor) [
  | none ↦ []
  | some (key, entry, rest) ↦ (key, entry) ∷ entries fuel rest
]
