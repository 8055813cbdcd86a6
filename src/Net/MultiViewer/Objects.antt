-- ===== src/Net/MultiViewer/Objects.antt =====
-- src/net/multiviewer_parse.cpp: the end of an object and the text of a string are found.
use matrix_faces.Common.{
  ℕ, ◌+◌, ◌-◌, ◌<◌, ◌≡◌, ◌≢◌, refl, sym, ap, ◌∙◌, arith, false, ◌||◌, [], ◌∷◌, ◌++◌, append-nil,
  append_assoc, Option, some, ◌==◌, if◌then◌else◌, Bytes, take, Bool-cases, inl, inr,
}
use matrix_faces.Net.MultiViewer.Scan.{
  outside, in_string, before, object_end, find_object_end, byte_before, string_body, extract_string,
}

-- The inside of a string: a quote or a backslash in it stands behind a backslash.
pub data Quoted : Bytes → Type 0 where
  nothing : Quoted []
  plain : (c : ℕ) (cs : Bytes) → c ≢ b'"' → c ≢ 92 → Quoted cs → Quoted (c ∷ cs)
  escape : (c : ℕ) (cs : Bytes) → Quoted cs → Quoted (92 ∷ c ∷ cs)

-- Text whose braces match, those in its strings apart.
pub data Balanced : Bytes → Type 0 where
  empty : Balanced []
  other : (c : ℕ) (cs : Bytes) → c ≢ b'"' → c ≢ b'{' → c ≢ b'}' → Balanced cs → Balanced (c ∷ cs)
  string : (s cs : Bytes) → Quoted s → Balanced cs → Balanced (b'"' ∷ (s ++ b'"' ∷ cs))
  object :
      (inside cs : Bytes) → Balanced inside → Balanced cs → Balanced (b'{' ∷ (inside ++ b'}' ∷ cs))

-- The bytes that the scan passes.
abbrev before_all : Bytes → Option (Bytes × Bytes) → Option (Bytes × Bytes)
before_all [] found = found
before_all (c ∷ cs) found = before c (before_all cs found)

before_all-append :
    (xs ys : Bytes) (found : Option (Bytes × Bytes))
    → before_all (xs ++ ys) found ≡ before_all xs (before_all ys found)
before_all-append [] ys found = refl
before_all-append (x ∷ xs) ys found = ap (before x) (before_all-append xs ys found)

before_all-some : (xs ys rest : Bytes) → before_all xs (some (ys, rest)) ≡ some (xs ++ ys, rest)
unfolding before
before_all-some [] ys rest = refl
before_all-some (x ∷ xs) ys rest = ap (before x) (before_all-some xs ys rest)

object_end-Quoted :
    (s rest : Bytes) (depth : ℕ)
    → Quoted s
    → object_end (s ++ b'"' ∷ rest) depth in_string
      ≡ before_all s (before b'"' (object_end rest depth outside))
unfolding object_end
object_end-Quoted s rest depth nothing = refl
object_end-Quoted s rest depth (plain c cs h k q) =
    let ih = object_end-Quoted cs rest depth q in
    let not_backslash : (c == 92) ≡ false = ground arith in
    let not_quote : (c == b'"') ≡ false = ground arith in
    rw (not_backslash, not_quote, object_end) (ap (before c) ih)
object_end-Quoted s rest depth (escape c cs q) =
    ap (λ r. before 92 (before c r)) (object_end-Quoted cs rest depth q)

object_end-Balanced :
    (xs rest : Bytes) (depth : ℕ)
    → Balanced xs
    → 0 < depth
    → object_end (xs ++ rest) depth outside ≡ before_all xs (object_end rest depth outside)
unfolding object_end
object_end-Balanced xs rest depth empty deep = refl
object_end-Balanced xs rest depth (other c cs h k l b) deep =
    let ih = object_end-Balanced cs rest depth b deep in
    let not_quote : (c == b'"') ≡ false = ground arith in
    let not_open : (c == b'{') ≡ false = ground arith in
    let not_close : (c == b'}') ≡ false = ground arith in
    rw (not_quote, not_open, not_close, object_end) (ap (before c) ih)
object_end-Balanced xs rest depth (string s cs q b) deep =
    let ih = object_end-Balanced cs rest depth b deep in
    ap (before b'"') (
      ap (λ t. object_end t depth in_string) (append_assoc s (b'"' ∷ cs) rest)
      ∙ object_end-Quoted s (cs ++ rest) depth q
      ∙ ap (λ r. before_all s (before b'"' r)) ih
      ∙ sym (before_all-append s (b'"' ∷ cs) (object_end rest depth outside)))
object_end-Balanced xs rest depth (object inside cs b later) deep =
    let ih = object_end-Balanced cs rest depth later deep in
    let within = object_end-Balanced inside (b'}' ∷ (cs ++ rest)) (depth + 1) b (omega arith) in
    let closing : object_end (b'}' ∷ (cs ++ rest)) (depth + 1) outside
        ≡ before b'}' (object_end (cs ++ rest) depth outside) =
      ground (arith, deep) in
    ap (before b'{') (
      ap (λ t. object_end t (depth + 1) outside) (append_assoc inside (b'}' ∷ cs) rest)
      ∙ within
      ∙ ap (before_all inside) (closing ∙ ap (before b'}') ih)
      ∙ sym (before_all-append inside (b'}' ∷ cs) (object_end rest depth outside)))

-- Of an object whose braces match, those in its strings apart, the end is found, whatever stands
-- behind it: what is before its closing brace and what is from there on.
pub find_object_end-Balanced :
    (xs rest : Bytes)
    → Balanced xs
    → find_object_end (b'{' ∷ (xs ++ b'}' ∷ rest)) ≡ some (b'{' ∷ xs, b'}' ∷ rest)
unfolding find_object_end object_end before
find_object_end-Balanced xs rest b = ap (before b'{') (
    object_end-Balanced xs (b'}' ∷ rest) 1 b (omega arith)
    ∙ before_all-some xs [] (b'}' ∷ rest)
    ∙ ap (λ ys. some (ys, b'}' ∷ rest)) (append-nil xs))

-- A string as it is written between quotes.
unfoldable pub quoted : Bytes → Bytes
quoted [] = []
quoted (c ∷ cs) = if c == b'"' || c == 92 then 92 ∷ c ∷ quoted cs else c ∷ quoted cs

string_body-quoted : (s rest : Bytes) → string_body (quoted s ++ b'"' ∷ rest) false ≡ some s
unfolding string_body quoted byte_before
string_body-quoted [] rest = refl
string_body-quoted (c ∷ cs) rest =
    let ih = string_body-quoted cs rest in
    elim (Bool-cases (c == b'"' || c == 92)) [
      | inl special ↦ rw (special, quoted) (ap (byte_before c) ih)
      | inr usual ↦
          let not_backslash : (c == 92) ≡ false = ground arith in
          let not_quote : (c == b'"') ≡ false = ground arith in
          rw (usual, quoted) (rw (not_quote, not_backslash) (ap (byte_before c) ih))
    ]

-- A string that is written with its quotes and backslashes escaped is read back, as much of it as
-- the buffer holds with a terminator, whatever stands behind its closing quote.
pub extract_string-quoted :
    (s rest : Bytes) (cap : ℕ)
    → 0 < cap
    → extract_string (some (b'"' ∷ (quoted s ++ b'"' ∷ rest))) cap ≡ some (take (cap - 1) s)
unfolding extract_string
extract_string-quoted s rest cap room =
    let some_room : (cap == 0) ≡ false = ground arith in
    rw (some_room, string_body-quoted s rest, extract_string) refl
