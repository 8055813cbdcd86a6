-- ===== src/Tests/MultiViewer.antt =====
-- src/net/multiviewer_parse.cpp on concrete inputs.
use matrix_faces.Common.{
  ◌≡◌, refl, arith, List, [], ◌∷◌, ◌++◌, some, Bytes, codes, map, ℤ, pos, negsuc,
}
use matrix_faces.Net.MultiViewer.Scan.{find_object_end, entries, digits_value}
use matrix_faces.Net.MultiViewer.Session.{SessionState, Counters, no_blue_flags, no_session_state}
use matrix_faces.Net.MultiViewer.RaceControl.{take_messages}
use matrix_faces.Net.MultiViewer.Response.{parse}
use matrix_faces.Net.MultiViewer.Restart.{any_below, take_messages-any_below}
use matrix_faces.Net.MultiViewer.Endings.{Ending, parse-Ending}
use matrix_faces.Net.MultiViewer.Sound.{parse_all, parse_all-IsSound}
use matrix_faces.Net.MultiViewer.Bounds.{IsSound}
use matrix_faces.Net.MultiViewer.Objects.{
  Balanced, empty, string, plain, nothing, find_object_end-Balanced,
}
use matrix_faces.Net.MultiViewer.Dict.{Entry, dict, key_digits, entries-dict}

abbrev counters : Counters
counters = record { parsed = 0; no_session = 0; malformed = 0; truncated = 0 }

-- Message 1 is known, and the same growing list comes again.
abbrev known : SessionState
known = record no_session_state {
  last_message_index = pos 1;
  blue_flags = record { racing_number = 44; last_seen = 900 } ∷ [];
}

abbrev messages : List (ℤ × Bytes)
messages = (pos 0, codes "{}") ∷ (pos 1, codes "{}") ∷ (pos 2, codes "{}") ∷ []

take_messages-any_below_example :
    take_messages 1000 messages known
    ≡ record known { last_message_index = negsuc 0; blue_flags = no_blue_flags; blue_flag_tla = [] }
unfolding any_below
take_messages-any_below_example = take_messages-any_below 1000 messages known refl

abbrev response : Bytes
response = codes "{\"data\":{\"f1LiveTimingState\": {\"LapCount\":{\"CurrentLap\":3}}}}"

parse-Ending_example :
    Ending response 1000 no_session_state counters (parse response 1000 no_session_state counters)
parse-Ending_example = parse-Ending response 1000 no_session_state counters

parse_all-IsSound_example :
    IsSound (parse_all ((response, 1000) ∷ (codes "cut off", 2000) ∷ []) no_session_state counters)
parse_all-IsSound_example =
    parse_all-IsSound ((response, 1000) ∷ (codes "cut off", 2000) ∷ []) counters

-- A brace in a string is none of the object's.
inside-Balanced : Balanced (codes "\"}\"")
inside-Balanced = string (codes "}") [] (plain b'}' [] (omega arith) (omega arith) nothing) empty

find_object_end-Balanced_example :
    find_object_end (b'{' ∷ (codes "\"}\"" ++ b'}' ∷ codes "}"))
    ≡ some (b'{' ∷ codes "\"}\"", b'}' ∷ codes "}")
find_object_end-Balanced_example =
    find_object_end-Balanced (codes "\"}\"") (codes "}") inside-Balanced

abbrev entry_list : List Entry
entry_list =
    record { gap = []; digit = b'4'; digits = codes "4"; inside = codes "\"}\"" }
    ∷ record { gap = codes ", "; digit = b'7'; digits = []; inside = [] }
    ∷ []

entries-dict_example :
    entries 3 (dict entry_list)
    ≡ map (λ (e : Entry). (pos (digits_value 0 (key_digits e)), b'{' ∷ e.inside)) entry_list
unfolding digits_value
entries-dict_example =
    entries-dict entry_list 3
      (
        record {
          gap = tt;
          digit = refl;
          digits = (refl, tt);
          small = omega arith;
          inside = inside-Balanced;
        },
        (
          record {
            gap = (refl, (refl, tt));
            digit = refl;
            digits = tt;
            small = omega arith;
            inside = empty;
          },
          tt,
        ),
      )
      (omega arith)
