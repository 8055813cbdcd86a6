-- ===== src/Storage/QuietTimer.antt =====
-- src/storage/quiet_timer.h: "write it once things go quiet". The state is one uint32_t, zero when
-- there is nothing to write; the clock is a uint32_t of milliseconds that wraps.
use matrix_faces.Common.{
  ℕ, ◌+◌, ◌-◌, ◌%◌, ◌^◌, ◌<◌, ◌≤◌, ◌≡◌, ◌↔◌, refl, arith, Bool, true, false, not, ◌&&◌, ltb, ◌==◌,
  if◌then◌else◌,
}

pub record QuietTimer : Type 0 where
  pub quiet_ms : ℕ
  pub due_at_ms : ℕ

abbrev pub fresh : ℕ → QuietTimer
fresh quiet_ms = record { quiet_ms = quiet_ms; due_at_ms = 0 }

-- `mark`.
unfoldable pub mark : QuietTimer → ℕ → QuietTimer
mark t now =
    let due_at = (now + t.quiet_ms) % 2 ^ 32 in
    record t { due_at_ms = if due_at == 0 then 1 else due_at }

-- `static_cast<int32_t>(nowMs - dueAt) >= 0`.
abbrev pub reached : ℕ → ℕ → Bool
reached now deadline = ltb ((now + 2 ^ 32 - deadline) % 2 ^ 32) (2 ^ 31)

-- `due`.
unfoldable pub due : QuietTimer → ℕ → Bool
due t now = not (t.due_at_ms == 0) && reached now t.due_at_ms

-- `pending`.
unfoldable pub pending : QuietTimer → Bool
pending t = not (t.due_at_ms == 0)

-- `clear`.
unfoldable pub clear : QuietTimer → QuietTimer
clear t = record t { due_at_ms = 0 }

-- The clock `elapsed` milliseconds after `now`.
abbrev pub later : ℕ → ℕ → ℕ
later now elapsed = (now + elapsed) % 2 ^ 32

-- The millisecond that the instant zero borrows.
abbrev pub borrowed : ℕ → ℕ → ℕ
borrowed now quiet_ms = if (now + quiet_ms) % 2 ^ 32 == 0 then 1 else 0

-- After a change at any instant, the wrap of the clock included, the write is pending, and it is
-- due exactly when the quiet period has passed (one millisecond later where it would end on the
-- clean marker), for a quiet period below 2^31 - 1 and the 2^31 milliseconds after the change.
pub due-mark :
    (t : QuietTimer) (now elapsed : ℕ)
    → now < 2 ^ 32
    → t.quiet_ms + 1 < 2 ^ 31
    → elapsed < 2 ^ 31
    → (pending (mark t now) ≡ true)
      × ((due (mark t now) (later now elapsed) ≡ true)
          ↔ (t.quiet_ms + borrowed now t.quiet_ms ≤ elapsed))
unfolding mark due pending
due-mark t now elapsed hn hq he = (ground arith, (λ e. ground arith, λ h. ground arith))

-- A burst of changes writes once, after the last of them: a second change puts the write off as
-- though it had been the only one.
pub mark-mark : (t : QuietTimer) (first second : ℕ) → mark (mark t first) second ≡ mark t second
unfolding mark
mark-mark t first second = refl

-- After `clear` nothing is pending or due at any instant, until the next change.
pub clear_lem :
    (t : QuietTimer) (now : ℕ) → (pending (clear t) ≡ false) × (due (clear t) now ≡ false)
unfolding clear pending due
clear_lem t now = (refl, refl)
