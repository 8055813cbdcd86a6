-- ===== src/Net/StreamRead/Line.antt =====
-- src/net/stream_read.cpp: a line that comes in time is read, whatever the pauses.
use matrix_faces.Common.{
  ℕ, ◌+◌, ◌-◌, ◌<◌, ◌≡◌, ◌≢◌, ap, ◌∙◌, arith, Bool, true, false, ◌||◌, List, [], ◌∷◌, ◌++◌, none,
  some, ltb, leb, if◌then◌else◌, Bytes, length, take, take_all, take-append, append_assoc,
  append-nil, length-append, Bool-cases, inl, inr, refl, suc, ap₂, replicate, ◌==◌,
}
use matrix_faces.Net.StreamRead.{
  Pass, LineStatus, line_ok, truncated, strip_returns, line_loop, read_line,
}

-- The bytes of a line come in time with pauses between them, and a newline behind them; the last
-- index is what the line leaves of the passes.
pub data Arrives (timeout : ℕ) : List Pass → Bytes → List Pass → Type 0 where
  newline :
      (p : Pass) (ps : List Pass)
      → p.elapsed < timeout
      → p.read ≡ some b'\n'
      → Arrives timeout (p ∷ ps) [] ps
  pause :
      (p : Pass) (ps rest : List Pass) (line : Bytes)
      → p.elapsed < timeout
      → p.read ≡ none
      → p.more ≡ true
      → Arrives timeout ps line rest
      → Arrives timeout (p ∷ ps) line rest
  byte :
      (p : Pass) (ps rest : List Pass) (c : ℕ) (line : Bytes)
      → p.elapsed < timeout
      → p.read ≡ some c
      → c ≢ b'\n'
      → Arrives timeout ps line rest
      → Arrives timeout (p ∷ ps) (c ∷ line) rest

abbrev status : Bool → LineStatus
status long = if long then truncated else line_ok

line_loop-Arrives :
    (timeout cap : ℕ) (ps rest : List Pass) (line out : Bytes) (overflowed : Bool)
    → Arrives timeout ps line rest
    → length out < cap
    → (overflowed ≡ true → length out + 1 ≡ cap)
    → line_loop ps cap timeout out overflowed ≡ (
      status (overflowed || leb cap (length out + length line)),
      strip_returns (take (cap - 1) (out ++ line)),
      rest,
    )
unfolding line_loop
line_loop-Arrives timeout cap ps r line out overflowed (newline p rest soon got) room full =
    let whole : take (cap - 1) (out ++ []) ≡ out =
      ap (take (cap - 1)) (append-nil out) ∙ take_all (cap - 1) out (omega (arith, room)) in
    rw whole (ground arith)
line_loop-Arrives timeout cap ps r line out overflowed (pause p rest r' l soon got more later) room
      full =
    let ih = line_loop-Arrives timeout cap rest r l out overflowed later room full in ground arith
line_loop-Arrives timeout cap ps r line out overflowed (byte p rest r' c l soon got other later)
      room full =
    elim (Bool-cases (ltb (length out + 1) cap)) [
      | inl fits ↦
          let longer = length-append out (c ∷ []) in
          let ih =
            line_loop-Arrives timeout cap rest r l (out ++ c ∷ []) overflowed later
              (ground (arith, longer)) (λ long. absurd (ground (arith, full long))) in
          let same = append_assoc out (c ∷ []) l in rw (← same) (ground (arith, longer, ih))
      | inr filled ↦
          let top : length out ≡ cap - 1 = ground (arith, room) in
          let ih =
            line_loop-Arrives timeout cap rest r l out true later room
              (λ _. omega (arith, top, room)) in
          let short : take (cap - 1) (out ++ l) ≡ out = rw (← top) (take-append out l) in
          let short' : take (cap - 1) (out ++ c ∷ l) ≡ out = rw (← top) (take-append out (c ∷ l)) in
          rw short' (ground (arith, ih, short))
    ]

pub read_line-strip_returns :
    (timeout cap : ℕ) (ps rest : List Pass) (line : Bytes)
    → Arrives timeout ps line rest
    → 0 < cap
    → read_line ps cap timeout ≡ (
      if leb cap (length line) then truncated else line_ok,
      strip_returns (take (cap - 1) line),
      rest,
    )
unfolding read_line
read_line-strip_returns timeout cap ps rest line comes room =
    line_loop-Arrives timeout cap ps rest line [] false comes room (λ e. cc) ∙ ground arith

-- A text without the carriage returns at its end, of which there may be none.
pub record IsStripped (whole text : Bytes) : Type 0 where
  pub returns : ℕ
  pub cut : whole ≡ text ++ replicate returns 13
  pub stops : (front : Bytes) → text ≢ front ++ 13 ∷ []

cons-stops :
    (c : ℕ) (text : Bytes)
    → ((front : Bytes) → text ≢ front ++ 13 ∷ [])
    → (text ≡ [] → c ≢ 13)
    → (front : Bytes) → c ∷ text ≢ front ++ 13 ∷ []
cons-stops c text stops alone [] e = alone (cc) (cc)
cons-stops c text stops alone (x ∷ front) e = stops front (cc)

no_stop : (front : Bytes) → [] ≢ front ++ 13 ∷ []
no_stop [] e = cc
no_stop (x ∷ front) e = cc

strip_returns-IsStripped : (whole : Bytes) → IsStripped whole (strip_returns whole)
unfolding strip_returns
strip_returns-IsStripped [] = record { returns = 0; cut = refl; stops = no_stop }
strip_returns-IsStripped (c ∷ cs) = split (strip_returns cs) refl (strip_returns-IsStripped cs)
  where
    split :
        (kept : Bytes)
        → strip_returns cs ≡ kept
        → IsStripped cs (strip_returns cs)
        → IsStripped (c ∷ cs) (strip_returns (c ∷ cs))
    split [] e ih = elim (Bool-cases (c == 13)) [
      | inl return ↦
          rw (e, return, strip_returns)
            (record {
              returns = suc ih.returns;
              cut = ap₂ ◌∷◌ (ground arith) (rw e at ih.cut);
              stops = no_stop;
            })
      | inr other ↦
          rw (e, other, strip_returns)
            (record {
              returns = ih.returns;
              cut = ap (◌∷◌ c) (rw e at ih.cut);
              stops = cons-stops c [] no_stop (λ _. ground arith);
            })
    ]
    split (d ∷ ds) e ih =
        rw (e, strip_returns)
          (record {
            returns = ih.returns;
            cut = ap (◌∷◌ c) (rw e at ih.cut);
            stops = cons-stops c (d ∷ ds) (rw e at ih.stops) (λ empty. cc);
          })

-- A line whose bytes come before the deadline, with pauses of an open connection between them and a
-- newline behind them, is read: whole without the carriage returns at its end if it fits the buffer
-- with a terminator, and else as much of it as fits, without such returns too, as truncated.
pub read_line-Arrives :
    (timeout cap : ℕ) (ps rest : List Pass) (line : Bytes)
    → Arrives timeout ps line rest
    → 0 < cap
    → (text : Bytes) × IsStripped (take (cap - 1) line) text
      × (read_line ps cap timeout
          ≡ (if leb cap (length line) then truncated else line_ok, text, rest))
read_line-Arrives timeout cap ps rest line comes room = (
  strip_returns (take (cap - 1) line),
  strip_returns-IsStripped (take (cap - 1) line),
  read_line-strip_returns timeout cap ps rest line comes room,
)
