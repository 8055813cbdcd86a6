-- ===== src/Tests/Board.antt =====
-- src/board on concrete inputs.
use matrix_faces.Common.{ℕ, ◌≡◌, refl, arith, true, false, not, List, [], ◌∷◌}
use matrix_faces.Board.Ring.{Ring, post, take}
use matrix_faces.Board.Ring.Queue.{IsValid, queue, posted, is_full, front, post-posted, take-queue}
use matrix_faces.Board.Button.{Button}
use matrix_faces.Board.Button.Debounce.{
  Sample, poll_all, done, next, Use, polled, press_taken, poll_all-ignores_bounce,
}

-- A full ring of three whose oldest element is the last of the array.
abbrev full : Ring ℕ
full = record { items = 20 ∷ 30 ∷ 10 ∷ []; head = 2; count = 3 }

post-posted_example :
    IsValid 3 (post 3 true full 40).1
    × (queue 3 (post 3 true full 40).1 ≡ posted 3 (is_full 3 full) true (queue 3 full) 40)
    × ((post 3 true full 40).0 ≡ not (is_full 3 full))
post-posted_example = post-posted 3 true full 40 (refl, omega arith, omega arith)

take-queue_example :
    let (out, r') = take 3 full in IsValid 3 r' × (queue 3 full ≡ front 3 out (queue 3 r'))
take-queue_example = take-queue 3 full (refl, omega arith, omega arith)

-- A button whose level went low at 1000 and that is up still.
abbrev up : Button
up = record {
  raw_level = false;
  stable_down = false;
  last_change_ms = 1000;
  pressed_at_ms = 0;
  press_pending = false;
  hold_consumed = false;
}

abbrev bounces : List Sample
bounces = record { level = true; now = 1004 } ∷ record { level = false; now = 1029 } ∷ []

poll_all-ignores_bounce_example :
    ((poll_all up bounces).stable_down ≡ false) × ((poll_all up bounces).press_pending ≡ false)
poll_all-ignores_bounce_example =
    poll_all-ignores_bounce up bounces (omega arith)
      (next _ _ (omega arith) (omega arith) (next _ _ (omega arith) (omega arith) done))

abbrev uses : List Use
uses = polled false 1030 ∷ press_taken ∷ press_taken ∷ []

abbrev durations : List ℕ
durations = 1500 ∷ 700 ∷ 900 ∷ []
