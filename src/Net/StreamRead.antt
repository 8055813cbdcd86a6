-- ===== src/Net/StreamRead.antt =====
-- src/net/stream_read.cpp: reading a socket against a deadline.
-- A loop's passes are a list: the time since its start, what `read()` returned, and what
-- `waitForMore` answers. Every run is finite, since the clock goes on.
pub mod Body
pub mod Line
use matrix_faces.Common.{
  ℕ, ◌+◌, Bool, true, false, not, List, [], ◌∷◌, ◌++◌, Option, none, some, ltb, leb, ◌==◌,
  if◌then◌else◌, Bytes, length,
}

pub record Pass : Type 0 where
  pub elapsed : ℕ
  pub read : Option ℕ
  pub more : Bool

-- `LineStatus`.
pub data LineStatus : Type 0 where
  line_ok truncated timed_out : LineStatus

-- `while (n > 0 && out[n - 1] == '\r') --n`.
unfoldable pub strip_returns : Bytes → Bytes
strip_returns [] = []
strip_returns (c ∷ cs) = elim (strip_returns cs) [
  | [] ↦ if c == 13 then [] else c ∷ []
  | d ∷ ds ↦ c ∷ d ∷ ds
]

-- The loop of `readLine`: `out` is what has been stored. What the call leaves of the passes comes
-- with its result, for the calls that follow it, and each pass counts its time from the call it
-- serves.
unfoldable pub line_loop : List Pass → ℕ → ℕ → Bytes → Bool → LineStatus × Bytes × List Pass
line_loop [] cap timeout out overflowed = (timed_out, [], [])
line_loop (p ∷ ps) cap timeout out overflowed =
    let waited = line_loop ps cap timeout out overflowed in
    let full = line_loop ps cap timeout out true in
    if not (ltb p.elapsed timeout) then (timed_out, [], p ∷ ps) else elim p.read [
      | none ↦ if p.more then waited else (timed_out, [], ps)
      | some c ↦
          let stored = line_loop ps cap timeout (out ++ c ∷ []) overflowed in
          if c == b'\n'
          then (if overflowed then truncated else line_ok, strip_returns out, ps)
          else if ltb (length out + 1) cap
          then stored
          else full
    ]

-- `readLine`.
unfoldable pub read_line : List Pass → ℕ → ℕ → LineStatus × Bytes × List Pass
read_line passes cap timeout = line_loop passes cap timeout [] false

-- The loop of `readExactly`; `none` is false.
unfoldable pub exactly_loop : List Pass → ℕ → ℕ → Bytes → Option (Bytes × List Pass)
exactly_loop [] want timeout out = if ltb (length out) want then none else some (out, [])
exactly_loop (p ∷ ps) want timeout out =
    let waited = exactly_loop ps want timeout out in
    if not (ltb (length out) want) then some (out, p ∷ ps) else elim p.read [
      | none ↦ if leb timeout p.elapsed then none else if p.more then waited else none
      | some c ↦ exactly_loop ps want timeout (out ++ c ∷ [])
    ]

-- `readExactly`.
unfoldable pub read_exactly : List Pass → ℕ → ℕ → Option (Bytes × List Pass)
read_exactly passes want timeout = exactly_loop passes want timeout []

-- The loop of `readUntilClose`.
unfoldable pub until_close_loop : List Pass → ℕ → ℕ → Bytes → Bytes
until_close_loop [] cap timeout out = out
until_close_loop (p ∷ ps) cap timeout out =
    let waited = until_close_loop ps cap timeout out in
    if not (ltb (length out + 1) cap) then out else elim p.read [
      | none ↦ if leb timeout p.elapsed then out else if p.more then waited else out
      | some c ↦ until_close_loop ps cap timeout (out ++ c ∷ [])
    ]

-- `readUntilClose`.
unfoldable pub read_until_close : List Pass → ℕ → ℕ → Bytes
read_until_close passes cap timeout = until_close_loop passes cap timeout []

-- `drainBuffered`: something is available as long as `read()` gives a byte.
unfoldable pub drain_buffered : List Pass → ℕ → List Pass
drain_buffered [] timeout = []
drain_buffered (p ∷ ps) timeout =
    let drained = drain_buffered ps timeout in
    elim p.read [ none ↦ p ∷ ps | some c ↦ if ltb p.elapsed timeout then drained else p ∷ ps ]
