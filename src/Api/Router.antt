-- ===== src/Api/Router.antt =====
-- src/api/router.cpp: paths against patterns, and the table of routes.
-- Strings are lists of bytes; what is written to `wildcardOut` is the result, and a refused match
-- leaves it empty. A handler is an argument that the router only passes on.
pub mod Match
use matrix_faces.Common.{
  ℕ, ◌+◌, Bool, true, false, not, List, [], ◌∷◌, Option, none, some, ltb, ◌==◌, if◌then◌else◌,
  Bytes, bytes_eq, length, take, drop, take_while, drop_while,
}

-- `captureWildcard`.
unfoldable pub capture_wildcard : Bytes → ℕ → Option Bytes
capture_wildcard text cap = if ltb cap (length text + 1) then none else some text

abbrev pub not_star : ℕ → Bool
not_star c = not (c == b'*')

abbrev pub not_slash : ℕ → Bool
not_slash c = not (c == b'/')

-- `matchPath` behind the prefix: on the rest of the path and of the pattern.
unfoldable pub match_rest : Bytes → Bytes → ℕ → Option Bytes
match_rest [] rest cap = capture_wildcard rest cap
match_rest (c ∷ suffix) rest cap = elim (drop_while not_slash rest) [
  | [] ↦ none
  | d ∷ segment_end ↦
      if not (bytes_eq (d ∷ segment_end) (c ∷ suffix))
      then none
      else capture_wildcard (take_while not_slash rest) cap
]

-- `matchPath`.
unfoldable pub match_path : Bytes → Bytes → ℕ → Option Bytes
match_path pattern path cap =
    let prefix = take_while not_star pattern in
    if cap == 0 then none else elim (drop_while not_star pattern) [
      | [] ↦ if bytes_eq pattern path then some [] else none
      | star ∷ suffix ↦
          if not (bytes_eq prefix (take (length prefix) path))
          then none
          else match_rest suffix (drop (length prefix) path) cap
    ]

pub record Route (H : Type 0) : Type 0 where
  pub method : Bytes
  pub pattern : Bytes
  pub handler : H
  pub requires_auth : Bool

-- `findRoute`, with the wildcard's text.
unfoldable pub find_route :
    {H : Type 0} → List (Route H) → Bytes → Bytes → ℕ → Option (Route H × Bytes)
find_route [] method path cap = none
find_route (r ∷ table) method path cap =
    let rest = find_route table method path cap in
    if not (bytes_eq r.method method)
    then rest
    else elim (match_path r.pattern path cap) [ none ↦ rest | some wildcard ↦ some (r, wildcard) ]
