-- ===== src/Tests/Apps.antt =====
-- src/apps on concrete inputs.
use matrix_faces.Common.{ℕ, ◌<◌, ◌≡◌, arith, List, [], ◌∷◌, some, length}
use matrix_faces.Apps.Scheduler.{AppScheduler}
use matrix_faces.Apps.Scheduler.Running.{
  running, Call, registered, switched, redrawn, after_events, events, calls, calls-running,
}

abbrev two_apps : AppScheduler ℕ
two_apps = record { apps = 100 ∷ 200 ∷ []; active_index = 0 }

abbrev evening : List (Call ℕ)
evening = redrawn 5 ∷ switched 1 ∷ switched 7 ∷ redrawn 6 ∷ registered 300 ∷ switched 2 ∷ []

calls-running_example :
    (after_events (running 0) (events evening two_apps)
      ≡ some (running (calls evening two_apps).active_index))
    × ((calls evening two_apps).active_index < length (calls evening two_apps).apps)
calls-running_example = calls-running evening two_apps (omega arith)
