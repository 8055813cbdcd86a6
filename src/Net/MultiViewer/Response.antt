-- ===== src/Net/MultiViewer/Response.antt =====
-- src/net/multiviewer_parse.cpp: a whole response.
use matrix_faces.Common.{
  ℕ, ◌+◌, ◌%◌, ◌^◌, not, ◌&&◌, none, some, leb, if◌then◌else◌, Bytes, bytes_eq, codes, length, take,
}
use matrix_faces.Net.MultiViewer.Scan.{find_value, find_object_end, after_key}
use matrix_faces.Net.MultiViewer.Session.{
  SessionState, no_session_state, Counters, ParseResult, parse_ok, parse_no_session,
  parse_malformed, parse_truncated,
}
use matrix_faces.Net.MultiViewer.Topics.{parse_track_status, parse_lap_count, parse_driver_list}
use matrix_faces.Net.MultiViewer.RaceControl.{parse_race_control_messages}

-- `parse`, on the value of `f1LiveTimingState` that is found. A skip of blanks follows that finds
-- none, since `findValue` has skipped them.
unfoldable pub parse_state :
    Bytes → ℕ → SessionState → Counters → ParseResult × SessionState × Counters
parse_state value now st counters = elim (after_key (codes "null") value) [
  | some _ ↦ (
    parse_no_session,
    no_session_state,
    record counters { no_session = (counters.no_session + 1) % 2 ^ 32 },
  )
  | none ↦
      if not (leb 1 (length value) && bytes_eq (take 1 value) (codes "{"))
      then (parse_malformed, st, record counters { malformed = (counters.malformed + 1) % 2 ^ 32 })
      else elim (find_object_end value) [
        | none ↦
            (parse_truncated, st, record counters { truncated = (counters.truncated + 1) % 2 ^ 32 })
        | some (scope, rest) ↦ (
          parse_ok,
          parse_race_control_messages scope now
              (parse_driver_list scope (parse_lap_count scope (parse_track_status scope st))),
          record counters { parsed = (counters.parsed + 1) % 2 ^ 32 },
        )
      ]
]

-- `parse`.
unfoldable pub parse : Bytes → ℕ → SessionState → Counters → ParseResult × SessionState × Counters
parse buf now st counters = elim (find_value buf (codes "\"f1LiveTimingState\":")) [
  | none ↦ (parse_malformed, st, record counters { malformed = (counters.malformed + 1) % 2 ^ 32 })
  | some value ↦ parse_state value now st counters
]
