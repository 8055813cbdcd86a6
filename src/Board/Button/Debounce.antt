-- ===== src/Board/Button/Debounce.antt =====
-- src/board/button.cpp: contact bounce is not a press, and a press is reported once.
use matrix_faces.Common.{
  ℕ, ◌+◌, ◌^◌, ◌<◌, ◌≤◌, ◌≡◌, refl, ◌∙◌, arith, Bool, not, ◌&&◌, List, [], ◌∷◌, if◌then◌else◌,
}
use matrix_faces.Board.Button.{Button, poll, take_press}

-- A call of `poll`: the level that it reads, and the time.
pub record Sample : Type 0 where
  pub level : Bool
  pub now : ℕ

unfoldable pub poll_all : Button → List Sample → Button
poll_all b [] = b
poll_all b (s ∷ ss) = poll_all (poll b s.level s.now) ss

-- The samples are in order, from a time on and before another.
pub data IsWithin : ℕ → ℕ → List Sample → Type 0 where
  done : {from to : ℕ} → IsWithin from to []
  next :
      {from to : ℕ} (s : Sample) (ss : List Sample)
      → from ≤ s.now
      → s.now < to
      → IsWithin s.now to ss
      → IsWithin from to (s ∷ ss)

poll-bounce :
    (start : ℕ) (b : Button) (level : Bool) (now : ℕ)
    → start ≤ b.last_change_ms
    → b.last_change_ms ≤ now
    → now < start + 30
    → now < 2 ^ 32
    → let b' = poll b level now in
      (b'.stable_down ≡ b.stable_down)
      × (b'.press_pending ≡ b.press_pending)
      × (start ≤ b'.last_change_ms)
      × (b'.last_change_ms ≤ now)
unfolding poll
poll-bounce start b level now low high before fits =
    (ground arith, ground arith, ground arith, ground arith)

poll_all-bounce :
    (start : ℕ) (ss : List Sample) (b : Button) {from : ℕ}
    → start ≤ b.last_change_ms
    → b.last_change_ms ≤ from
    → start + 30 < 2 ^ 32
    → IsWithin from (start + 30) ss
    → ((poll_all b ss).stable_down ≡ b.stable_down)
      × ((poll_all b ss).press_pending ≡ b.press_pending)
unfolding poll_all
poll_all-bounce start [] b low high fits within = (refl, refl)
poll_all-bounce start (s ∷ ss) b low high fits (next _ _ after before rest) =
    let (same, pending, low', high') =
      poll-bounce start b s.level s.now low (omega (arith, high, after)) before
        (omega (arith, before, fits)) in
    let (down, press) = poll_all-bounce start ss (poll b s.level s.now) low' high' fits rest in
    (down ∙ same, press ∙ pending)

-- Whatever the pin reads, in order, in the thirty milliseconds from a change of level on, the
-- button stays as it was and no press becomes pending, where the clock does not roll over in them.
pub poll_all-ignores_bounce :
    (b : Button) (ss : List Sample)
    → b.last_change_ms + 30 < 2 ^ 32
    → IsWithin b.last_change_ms (b.last_change_ms + 30) ss
    → ((poll_all b ss).stable_down ≡ b.stable_down)
      × ((poll_all b ss).press_pending ≡ b.press_pending)
poll_all-ignores_bounce b ss fits within =
    poll_all-bounce b.last_change_ms ss b (omega arith) (omega arith) fits within

-- What is done with a button.
pub data Use : Type 0 where
  polled : Bool → ℕ → Use
  press_taken : Use

abbrev pub one_if : Bool → ℕ
one_if b = if b then 1 else 0

-- The presses that are reported, and the times that the debounced button goes down.
pub reported : List Use → Button → ℕ
reported [] b = 0
reported (polled level now ∷ us) b = reported us (poll b level now)
reported (press_taken ∷ us) b = one_if (take_press b).0 + reported us (take_press b).1

pub went_down : List Use → Button → ℕ
went_down [] b = 0
went_down (polled level now ∷ us) b =
    let b' = poll b level now in one_if (not b.stable_down && b'.stable_down) + went_down us b'
went_down (press_taken ∷ us) b = went_down us (take_press b).1

-- A press is reported once at most: not more often than the debounced button goes down, but for a
-- press that was pending.
pub reported-le-went_down :
    (us : List Use) (b : Button) → reported us b ≤ went_down us b + one_if b.press_pending
unfolding reported went_down poll take_press
reported-le-went_down [] b = omega arith
reported-le-went_down (polled level now ∷ us) b =
    ground (arith, reported-le-went_down us (poll b level now))
reported-le-went_down (press_taken ∷ us) b =
    ground (arith, reported-le-went_down us (take_press b).1)
