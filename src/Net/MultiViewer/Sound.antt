-- ===== src/Net/MultiViewer/Sound.antt =====
-- src/net/multiviewer_parse.cpp: a whole response, and a sequence of them.
use matrix_faces.Common.{
  ℕ, refl, arith, Bool, true, false, List, [], ◌∷◌, Option, none, some, Bytes, codes, length, drop,
  ℤ, Option-cases, inl, inr,
}
use matrix_faces.Net.MultiViewer.Scan.{find_value, entries, extract_long}
use matrix_faces.Net.MultiViewer.Session.{
  Flag, unknown, SessionState, Counters, ParseResult, no_drivers, no_session_state,
}
use matrix_faces.Net.MultiViewer.Topics.{
  find_object, string_field, parse_track_status, flag_of, take_laps, parse_lap_count,
  parse_driver_list, to_unsigned,
}
use matrix_faces.Net.MultiViewer.RaceControl.{parse_race_control_messages}
use matrix_faces.Net.MultiViewer.Response.{parse}
use matrix_faces.Net.MultiViewer.Endings.{
  topics, Ending, malformed_end, truncated_end, no_session_end, parsed_end, parse-Ending,
}
use matrix_faces.Net.MultiViewer.Bounds.{
  IsSound, take_messages-IsSound, drivers_loop-Fits, no_drivers-Fits,
}

track_flag-IsSound :
    (f : Flag) (st : SessionState) → IsSound st → IsSound (record st { track_flag = f })
track_flag-IsSound f st sound = record {
  driver_count = sound.driver_count;
  driver_names = sound.driver_names;
  flag_count = sound.flag_count;
  shown_name = sound.shown_name;
}

laps-IsSound :
    (has : Bool) (current total : ℕ) (st : SessionState)
    → IsSound st
    → IsSound (record st { has_lap_count = has; current_lap = current; total_laps = total })
laps-IsSound has current total st sound = record {
  driver_count = sound.driver_count;
  driver_names = sound.driver_names;
  flag_count = sound.flag_count;
  shown_name = sound.shown_name;
}

parse_track_status-IsSound :
    (scope : Bytes) (st : SessionState) → IsSound st → IsSound (parse_track_status scope st)
unfolding parse_track_status
parse_track_status-IsSound scope st sound =
    elim (Option-cases (find_object scope (codes "\"TrackStatus\":"))) [
      | inl absent ↦ rw (absent, parse_track_status) (track_flag-IsSound unknown st sound)
      | inr (object, found) ↦ elim (Option-cases (string_field object (codes "\"Message\":") 24)) [
        | inl silent ↦ rw (found, silent, parse_track_status) (track_flag-IsSound unknown st sound)
        | inr (message, said) ↦
            rw (found, said, parse_track_status) (track_flag-IsSound (flag_of message) st sound)
      ]
    ]

take_laps-IsSound :
    (current total : Option ℤ) (st : SessionState)
    → IsSound st
    → IsSound (take_laps current total st)
unfolding take_laps
take_laps-IsSound none none st sound = laps-IsSound false st.current_lap st.total_laps st sound
take_laps-IsSound (some c) none st sound =
    laps-IsSound true (to_unsigned 32 c) st.total_laps st sound
take_laps-IsSound none (some t) st sound =
    laps-IsSound true st.current_lap (to_unsigned 32 t) st sound
take_laps-IsSound (some c) (some t) st sound =
    laps-IsSound true (to_unsigned 32 c) (to_unsigned 32 t) st sound

parse_lap_count-IsSound :
    (scope : Bytes) (st : SessionState) → IsSound st → IsSound (parse_lap_count scope st)
unfolding parse_lap_count
parse_lap_count-IsSound scope st sound =
    elim (Option-cases (find_object scope (codes "\"LapCount\":"))) [
      | inl absent ↦
          rw (absent, parse_lap_count) (laps-IsSound false st.current_lap st.total_laps st sound)
      | inr (object, found) ↦
          rw (found, parse_lap_count)
            (take_laps-IsSound (extract_long (find_value object (codes "\"CurrentLap\":")))
              (extract_long (find_value object (codes "\"TotalLaps\":"))) st sound)
    ]

parse_driver_list-IsSound :
    (scope : Bytes) (st : SessionState) → IsSound st → IsSound (parse_driver_list scope st)
unfolding parse_driver_list
parse_driver_list-IsSound scope st sound =
    elim (Option-cases (find_object scope (codes "\"DriverList\":"))) [
      | inl absent ↦ rw (absent, parse_driver_list) sound
      | inr (object, found) ↦
          let (names, size) =
            drivers_loop-Fits (entries (length object) (drop 1 object)) 0 no_drivers no_drivers-Fits
              refl in
          rw (found, parse_driver_list)
            (record {
              driver_count = size;
              driver_names = names;
              flag_count = sound.flag_count;
              shown_name = sound.shown_name;
            })
    ]

parse_race_control_messages-IsSound :
    (scope : Bytes) (now : ℕ) (st : SessionState)
    → IsSound st
    → IsSound (parse_race_control_messages scope now st)
unfolding parse_race_control_messages
parse_race_control_messages-IsSound scope now st sound =
    elim (Option-cases (find_object scope (codes "\"RaceControlMessages\":"))) [
      | inl absent ↦ rw (absent, parse_race_control_messages) sound
      | inr (rcm, found) ↦ elim (Option-cases (find_object rcm (codes "\"Messages\":"))) [
        | inl silent ↦ rw (found, silent, parse_race_control_messages) sound
        | inr (messages, said) ↦
            rw (found, said, parse_race_control_messages)
              (take_messages-IsSound now (entries (length messages) (drop 1 messages)) st sound)
      ]
    ]

pub no_session_state-IsSound : IsSound no_session_state
no_session_state-IsSound = record {
  driver_count = refl;
  driver_names = no_drivers-Fits;
  flag_count = refl;
  shown_name = omega arith;
}

topics-IsSound :
    (scope : Bytes) (now : ℕ) (st : SessionState) → IsSound st → IsSound (topics scope now st)
topics-IsSound scope now st sound =
    let flagged : SessionState = parse_track_status scope st in
    let lapped : SessionState = parse_lap_count scope flagged in
    let listed : SessionState = parse_driver_list scope lapped in
    parse_race_control_messages-IsSound scope now listed (
      parse_driver_list-IsSound scope lapped
        (parse_lap_count-IsSound scope flagged (parse_track_status-IsSound scope st sound)))

Ending-IsSound :
    (buf : Bytes) (now : ℕ) (st : SessionState) (k : Counters)
    (result : ParseResult × SessionState × Counters)
    → IsSound st
    → Ending buf now st k result
    → IsSound result.1
Ending-IsSound buf now st k result sound (malformed_end neither) = sound
Ending-IsSound buf now st k result sound (truncated_end value found object cut) = sound
Ending-IsSound buf now st k result sound (no_session_end value found null) =
    no_session_state-IsSound
Ending-IsSound buf now st k result sound (parsed_end value scope rest found object ended) =
    topics-IsSound scope now st sound

-- The responses of one poll after another, each with its time.
unfoldable pub parse_all : List (Bytes × ℕ) → SessionState → Counters → SessionState
parse_all [] st k = st
parse_all (r ∷ rs) st k = let (result, st', k') = parse r.0 r.1 st k in parse_all rs st' k'

parse_all-IsSound_from :
    (rs : List (Bytes × ℕ)) (st : SessionState) (k : Counters)
    → IsSound st
    → IsSound (parse_all rs st k)
unfolding parse_all
parse_all-IsSound_from [] st k sound = sound
parse_all-IsSound_from (r ∷ rs) st k sound =
    parse_all-IsSound_from rs (parse r.0 r.1 st k).1 (parse r.0 r.1 st k).2
      (Ending-IsSound r.0 r.1 st k (parse r.0 r.1 st k) sound (parse-Ending r.0 r.1 st k))

-- Whatever responses come, no driver is written behind the 28 entries of its table, which a write
-- there would lengthen, the table of blue flags keeps its 28, and each driver's name and the name
-- that is shown fit their buffers with a terminator.
pub parse_all-IsSound :
    (rs : List (Bytes × ℕ)) (k : Counters) → IsSound (parse_all rs no_session_state k)
parse_all-IsSound rs k = parse_all-IsSound_from rs no_session_state k no_session_state-IsSound
