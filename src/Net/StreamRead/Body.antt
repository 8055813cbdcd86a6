-- ===== src/Net/StreamRead/Body.antt =====
-- src/net/stream_read.cpp: a body that comes without a long silence is read whole.
use matrix_faces.Common.{
  ℕ, ◌+◌, ◌<◌, ◌≡◌, arith, true, List, [], ◌∷◌, ◌++◌, none, some, Bytes, length, append_assoc,
  length-append, append-nil, Option-cases, inl, inr,
}
use matrix_faces.Net.StreamRead.{Pass, exactly_loop, read_exactly}

-- The bytes of a body come one by one, at whatever time, with pauses of an open connection before
-- the deadline between them; the last index is what the body leaves of the passes.
pub data Comes (timeout : ℕ) : List Pass → Bytes → List Pass → Type 0 where
  done : (ps : List Pass) → Comes timeout ps [] ps
  starved :
      (p : Pass) (ps rest : List Pass) (c : ℕ) (body : Bytes)
      → p.elapsed < timeout
      → p.read ≡ none
      → p.more ≡ true
      → Comes timeout ps (c ∷ body) rest
      → Comes timeout (p ∷ ps) (c ∷ body) rest
  got :
      (p : Pass) (ps rest : List Pass) (c : ℕ) (body : Bytes)
      → p.read ≡ some c
      → Comes timeout ps body rest
      → Comes timeout (p ∷ ps) (c ∷ body) rest

exactly_loop-Comes :
    (timeout want : ℕ) (ps rest : List Pass) (body out : Bytes)
    → Comes timeout ps body rest
    → length out + length body ≡ want
    → exactly_loop ps want timeout out ≡ some (out ++ body, rest)
unfolding exactly_loop
exactly_loop-Comes timeout want ps rest body out (done []) fits = rw (append-nil out) (ground arith)
exactly_loop-Comes timeout want ps rest body out (done (p ∷ qs)) fits =
    rw (append-nil out) (ground arith)
exactly_loop-Comes timeout want ps rest body out (starved p qs r c b soon none_read more later)
      fits =
    let ih = exactly_loop-Comes timeout want qs rest (c ∷ b) out later fits in ground (arith, ih)
exactly_loop-Comes timeout want ps rest body out (got p qs r c b is_read later) fits =
    let longer = length-append out (c ∷ []) in
    let ih =
      exactly_loop-Comes timeout want qs rest b (out ++ c ∷ []) later (omega (arith, longer)) in
    let same = append_assoc out (c ∷ []) b in rw (← same) (ground (arith, ih))

-- A body of which every byte comes, with pauses of an open connection only before the deadline, is
-- read whole however long it takes, and nothing behind it is taken.
pub read_exactly-Comes :
    (timeout : ℕ) (ps rest : List Pass) (body : Bytes)
    → Comes timeout ps body rest
    → read_exactly ps (length body) timeout ≡ some (body, rest)
unfolding read_exactly
read_exactly-Comes timeout ps rest body comes =
    exactly_loop-Comes timeout (length body) ps rest body [] comes (omega arith)

exactly_loop-length :
    (ps rest : List Pass) (want timeout : ℕ) (out body : Bytes)
    → length out + 0 < want + 1
    → exactly_loop ps want timeout out ≡ some (body, rest)
    → length body ≡ want
unfolding exactly_loop
exactly_loop-length [] rest want timeout out body room e = ground arith
exactly_loop-length (p ∷ ps) rest want timeout out body room e = elim (Option-cases p.read) [
  | inl empty ↦
      let ih = exactly_loop-length ps rest want timeout out body room in ground (arith, ih)
  | inr (c, is_read) ↦
      let longer = length-append out (c ∷ []) in
      let ih = exactly_loop-length ps rest want timeout (out ++ c ∷ []) body in
      ground (arith, ih, longer)
]

pub read_exactly-length :
    (ps rest : List Pass) (want timeout : ℕ) (body : Bytes)
    → read_exactly ps want timeout ≡ some (body, rest)
    → length body ≡ want
unfolding read_exactly
read_exactly-length ps rest want timeout body e =
    exactly_loop-length ps rest want timeout [] body (omega arith) e
