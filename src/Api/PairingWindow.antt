-- ===== src/Api/PairingWindow.antt =====
-- src/api/pairing_window.cpp: the 60 second window in which a client may pair. The state is one
-- uint32_t, zero when the window is closed. Each call of millis() is an argument.
use matrix_faces.Common.{
  ℕ, ◌+◌, ◌-◌, ◌/◌, ◌%◌, ◌^◌, ◌<◌, ◌≡◌, ◌↔◌, refl, arith, Bool, true, false, not, ◌&&◌, ◌||◌, ltb,
  ◌==◌, if◌then◌else◌,
}

-- `kWindowMs`.
abbrev pub window_ms : ℕ
window_ms = 60000

pub record PairingWindow : Type 0 where
  pub deadline_ms : ℕ

-- `reached`: the signed difference, on the reading `now`.
abbrev pub reached : ℕ → ℕ → Bool
reached now deadline = ltb ((now + 2 ^ 32 - deadline) % 2 ^ 32) (2 ^ 31)

-- `open`.
unfoldable pub open_at : PairingWindow → ℕ → PairingWindow
open_at w now =
    let deadline = (now + window_ms) % 2 ^ 32 in
    record { deadline_ms = if deadline == 0 then 1 else deadline }

-- `close`.
unfoldable pub close : PairingWindow → PairingWindow
close w = record { deadline_ms = 0 }

-- `isOpen`.
unfoldable pub is_open : PairingWindow → ℕ → Bool
is_open w now = not (w.deadline_ms == 0) && not (reached now w.deadline_ms)

-- `remainingSeconds`, which reads the clock twice.
unfoldable pub remaining_seconds : PairingWindow → ℕ → ℕ → ℕ
remaining_seconds w now again =
    if w.deadline_ms == 0 || reached now w.deadline_ms
    then 0
    else (((w.deadline_ms + 2 ^ 32 - again) % 2 ^ 32 + 999) % 2 ^ 32) / 1000

-- The clock `elapsed` milliseconds after `now`.
abbrev pub later : ℕ → ℕ → ℕ
later now elapsed = (now + elapsed) % 2 ^ 32

-- The length of a window opened at `now`: a deadline on the closed marker borrows a millisecond.
abbrev pub length_ms : ℕ → ℕ
length_ms now = window_ms + (if (now + window_ms) % 2 ^ 32 == 0 then 1 else 0)

-- A window opened at any instant, the wrap of the clock included, is open for exactly its length
-- of 60 seconds (and one millisecond where it would end on the closed marker), whatever its state
-- was before, as seen in the 2^31 milliseconds after; closing it closes it at once.
pub is_open-open_at :
    (w : PairingWindow) (now elapsed : ℕ)
    → now < 2 ^ 32
    → elapsed < 2 ^ 31
    → ((is_open (open_at w now) (later now elapsed) ≡ true) ↔ (elapsed < length_ms now))
      × (is_open (close (open_at w now)) (later now elapsed) ≡ false)
unfolding is_open open_at close
is_open-open_at w now elapsed hn he = ((λ e. ground arith, λ h. ground arith), refl)

-- The seconds left are those of the time left, rounded up, even if the clock passes the deadline
-- between the two readings by less than a second; and they are none when the window is closed.
pub remaining_seconds-open_at :
    (w : PairingWindow) (now elapsed delay : ℕ)
    → now < 2 ^ 32
    → elapsed + delay < 2 ^ 31
    → delay < 1000
    → remaining_seconds (open_at w now) (later now elapsed) (later now (elapsed + delay)) ≡ (
        if ltb elapsed (length_ms now) then (length_ms now - (elapsed + delay) + 999) / 1000 else 0)
unfolding remaining_seconds open_at
remaining_seconds-open_at w now elapsed delay hn he hd = ground arith
