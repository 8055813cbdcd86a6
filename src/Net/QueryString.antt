-- ===== src/Net/QueryString.antt =====
-- src/net/query_string.cpp: one parameter of a request target.
pub mod Split
use matrix_faces.Common.{
  ℕ, zero, suc, ◌+◌, Bool, true, false, not, ◌&&◌, List, [], ◌∷◌, Option, none, some, ltb, ◌==◌,
  if◌then◌else◌, Bytes, bytes_eq, length, take, drop, get_or, take_while, drop_while,
}

abbrev pub not_amp : ℕ → Bool
not_amp c = not (c == b'&')

abbrev pub not_question : ℕ → Bool
not_question c = not (c == b'?')

-- `strncmp(cursor, name, nameLen) == 0 && cursor[nameLen] == '='`.
unfoldable pub names_here : Bytes → Bytes → Bool
names_here name cursor =
    bytes_eq name (take (length name) cursor) && get_or cursor (length name) 0 == b'='

-- The value behind the `=`, if it fits with its terminator.
unfoldable pub value_here : Bytes → Bytes → ℕ → Option Bytes
value_here name cursor cap =
    let value = take_while not_amp (drop (length name + 1) cursor) in
    if ltb cap (length value + 1) then none else some value

-- `while (true)`. Each pass moves past an `&`, so one unit of fuel more than the length is enough.
unfoldable pub scan : ℕ → Bytes → Bytes → ℕ → Option Bytes
scan zero name cursor cap = none
scan (suc fuel) name cursor cap =
    let further = elim (drop_while not_amp cursor) as (λ _. Option Bytes) [
      | [] ↦ none
      | amp ∷ rest ↦ scan fuel name rest cap
    ] in
    if names_here name cursor then value_here name cursor cap else further

-- `queryParam` on strings; the null pointers are refused before. `none` is false, with an empty
-- `out` where there is room for one.
unfoldable pub query_param : Bytes → Bytes → ℕ → Option Bytes
query_param target name cap = if cap == 0 then none else elim (drop_while not_question target) [
  | [] ↦ none
  | question ∷ query ↦ scan (suc (length query)) name query cap
]
