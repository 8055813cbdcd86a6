-- ===== src/Apps/Scheduler/Running.antt =====
-- src/apps/app_scheduler.cpp: one app runs at a time.
use matrix_faces.Common.{
  ℕ, ◌<◌, ◌≡◌, refl, ap, ◌∙◌, arith, List, [], ◌∷◌, ◌++◌, Option, none, some, ◌==◌, if◌then◌else◌,
  length, length-append, some_inj, Option-cases, inl, inr,
}
use matrix_faces.Apps.Scheduler.{
  AppScheduler, Event, begun, ended, updated, blanked, add, switch_to, update,
}

-- What the matrix shows: the drawing of the app that runs, what an ended app has left on it, or
-- nothing, as it has been blanked.
pub data Screen : Type 0 where
  running : ℕ → Screen
  left_over : Screen
  blank : Screen

-- The screen after an event: only the app that runs is updated or ended, the matrix is blanked when
-- an app has ended, and an app begins on a blank matrix only. `none` is a breach.
unfoldable pub after_event : Screen → Event → Option Screen
after_event (running r) (ended i) = if r == i then some left_over else none
after_event (running r) (updated i now) = if r == i then some (running r) else none
after_event left_over blanked = some blank
after_event blank (begun i) = some (running i)
after_event _ _ = none

unfoldable pub after_events : Screen → List Event → Option Screen
after_events screen [] = some screen
after_events screen (e ∷ es) = elim (after_event screen e) [
  | none ↦ none
  | some screen' ↦ after_events screen' es
]

after_events-append :
    (screen : Screen) (xs ys : List Event) {next : Screen}
    → after_events screen xs ≡ some next
    → after_events screen (xs ++ ys) ≡ after_events next ys
unfolding after_events
after_events-append screen [] ys e = ap (λ r. after_events r ys) (some_inj e)
after_events-append screen (x ∷ xs) ys e = elim (Option-cases (after_event screen x)) [
  | inl breach ↦ let refused = rw (breach, after_events) at e in cc
  | inr (middle, fine) ↦
      rw (fine, after_events) (after_events-append middle xs ys (rw (fine, after_events) at e))
]

-- What the main loop does with a scheduler that has begun.
pub data Call (A : Type 0) : Type 0 where
  registered : A → Call A
  switched : ℕ → Call A
  redrawn : ℕ → Call A

module _ {A : Type 0} where
  unfoldable pub call : Call A → AppScheduler A → List Event × AppScheduler A
  call (registered app) s = ([], (add app s).1)
  call (switched index) s = switch_to index s
  call (redrawn now) s = (update now s, s)

  unfoldable pub events : List (Call A) → AppScheduler A → List Event
  events [] s = []
  events (c ∷ cs) s = let (es, s') = call c s in es ++ events cs s'

  unfoldable pub calls : List (Call A) → AppScheduler A → AppScheduler A
  calls [] s = s
  calls (c ∷ cs) s = calls cs (call c s).1

  call-running :
      (c : Call A) (s : AppScheduler A)
      → s.active_index < length s.apps
      → let (es, s') = call c s in
        (after_events (running s.active_index) es ≡ some (running s'.active_index))
        × (s'.active_index < length s'.apps)
  unfolding call add switch_to update after_events after_event
  call-running (registered app) s h =
      (ground arith, ground (arith, length-append s.apps (app ∷ [])))
  call-running (switched index) s h = (ground arith, ground arith)
  call-running (redrawn now) s h = (ground arith, h)

  -- While a registered app runs, whatever is registered, switched to and redrawn: an app is ended,
  -- and the matrix is blanked after that, before the next begins, only the app that runs is updated,
  -- and the one that runs in the end is the active one, which is registered.
  pub calls-running :
      (cs : List (Call A)) (s : AppScheduler A)
      → s.active_index < length s.apps
      → (after_events (running s.active_index) (events cs s)
          ≡ some (running (calls cs s).active_index))
        × ((calls cs s).active_index < length (calls cs s).apps)
  unfolding events calls
  calls-running [] s h = (unfold after_events in refl, h)
  calls-running (c ∷ cs) s h =
      let (ran, active) = call-running c s h in
      let (rest, last) = calls-running cs (call c s).1 active in
      (
        after_events-append (running s.active_index) (call c s).0 (events cs (call c s).1) ran
            ∙ rest,
        last,
      )
