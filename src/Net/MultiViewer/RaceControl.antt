-- ===== src/Net/MultiViewer/RaceControl.antt =====
-- src/net/multiviewer_parse.cpp: the messages of race control and the blue flags.
use matrix_faces.Common.{
  ℕ, ◌+◌, ◌-◌, ◌%◌, ◌^◌, Bool, false, not, ◌||◌, List, [], ◌∷◌, Option, none, some, leb, ◌==◌,
  if◌then◌else◌, Bytes, bytes_eq, codes, c_string, length, take, drop, ℤ, pos, negsuc, leb_ℤ, ltb_ℤ,
}
use matrix_faces.Net.MultiViewer.Scan.{find_value, extract_string, extract_long, strtol, entries}
use matrix_faces.Net.MultiViewer.Session.{
  DriverEntry, BlueFlagEntry, SessionState, no_blue_flags, tla_for, tla_cap, blue_flag_timeout,
}
use matrix_faces.Net.MultiViewer.Topics.{find_object, string_field, to_unsigned}

-- `RacingNumber`, a number or a quoted one; `none` when it is neither.
unfoldable pub racing_number : Bytes → Option ℤ
racing_number entry =
    let value = find_value entry (codes "\"RacingNumber\":") in
    elim (extract_long value) [
      | some n ↦ some n
      | none ↦ elim (extract_string value 8) [
        | none ↦ none
        | some text ↦ elim (strtol (c_string text)) [
          | none ↦ some (pos 0)
          | some (n, rest) ↦ some n
        ]
      ]
    ]

-- The driver of a message about a driver's flag, and the flag; `none` for other messages.
unfoldable pub driver_flag : Bytes → Option (ℕ × Bytes)
driver_flag entry = elim (string_field entry (codes "\"Category\":") 16) [
  | none ↦ none
  | some category ↦ elim (string_field entry (codes "\"Scope\":") 16) [
    | none ↦ none
    | some scope ↦ elim (racing_number entry) [
      | none ↦ none
      | some number ↦ elim (string_field entry (codes "\"Flag\":") 16) [
        | none ↦ none
        | some flag ↦
            if not (bytes_eq category (codes "Flag"))
            then none
            else if not (bytes_eq scope (codes "Driver"))
            then none
            else if leb_ℤ number (pos 0)
            then none
            else some (to_unsigned 16 number, flag)
      ]
    ]
  ]
]

-- The first entry with the number is seen now; `none` when there is no such entry.
unfoldable pub see_again : ℕ → ℕ → List BlueFlagEntry → Option (List BlueFlagEntry)
see_again number now [] = none
see_again number now (b ∷ bs) =
    let later = see_again number now bs in
    if b.racing_number == number
    then some (record b { last_seen = now } ∷ bs)
    else elim later [ none ↦ none | some bs' ↦ some (b ∷ bs') ]

-- The first free entry is taken, if there is one.
unfoldable pub fill_free : ℕ → ℕ → List BlueFlagEntry → List BlueFlagEntry
fill_free number now [] = []
fill_free number now (b ∷ bs) =
    let later = fill_free number now bs in
    if b.racing_number == 0
    then record { racing_number = number; last_seen = now } ∷ bs
    else b ∷ later

-- The first entry with the number is given up.
unfoldable pub rescind : ℕ → List BlueFlagEntry → List BlueFlagEntry
rescind number [] = []
rescind number (b ∷ bs) =
    let later = rescind number bs in
    if b.racing_number == number then record b { racing_number = 0 } ∷ bs else b ∷ later

-- What a driver's flag does to the blue flags.
unfoldable pub take_flag : ℕ → ℕ → Bytes → List BlueFlagEntry → List BlueFlagEntry
take_flag now number flag bs =
    if bytes_eq flag (codes "BLUE")
    then elim (see_again number now bs) [ none ↦ fill_free number now bs | some bs' ↦ bs' ]
    else rescind number bs

-- What the loop over the messages keeps.
pub record Messages : Type 0 where
  pub highest_index : ℤ
  pub saw_lower_index : Bool
  pub blue_flags : List BlueFlagEntry

-- One message, given the index up to which the messages are known.
unfoldable pub take_message : ℤ → ℕ → ℤ × Bytes → Messages → Messages
take_message last now e ms =
    if leb_ℤ e.0 last
    then record ms { saw_lower_index = ms.saw_lower_index || ltb_ℤ e.0 last }
    else (let highest = if ltb_ℤ ms.highest_index e.0 then e.0 else ms.highest_index in
        elim (driver_flag e.1) [
          | none ↦ record ms { highest_index = highest }
          | some (number, flag) ↦ record ms {
            highest_index = highest;
            blue_flags = take_flag now number flag ms.blue_flags;
          }
        ])

unfoldable pub messages_loop : ℤ → ℕ → List (ℤ × Bytes) → Messages → Messages
messages_loop last now [] ms = ms
messages_loop last now (e ∷ es) ms = messages_loop last now es (take_message last now e ms)

-- A flag that is older than the timeout.
unfoldable pub is_stale : ℕ → BlueFlagEntry → Bool
is_stale now b = leb blue_flag_timeout ((now + 2 ^ 32 - b.last_seen) % 2 ^ 32)

-- The last loop: stale flags are given up, and the first that stays and has a name is shown.
unfoldable pub age_out : ℕ → List BlueFlagEntry → List BlueFlagEntry
age_out now [] = []
age_out now (b ∷ bs) =
    let rest = age_out now bs in
    (if b.racing_number == 0
      then b
      else if is_stale now b
      then record b { racing_number = 0 }
      else b)
    ∷ rest

unfoldable pub shown_tla : ℕ → List DriverEntry → List BlueFlagEntry → Bytes
shown_tla now drivers [] = []
shown_tla now drivers (b ∷ bs) =
    let rest = shown_tla now drivers bs in
    if b.racing_number == 0 || is_stale now b
    then rest
    else elim (tla_for drivers b.racing_number) [
      | none ↦ rest
      | some [] ↦ rest
      | some (c ∷ cs) ↦ take (tla_cap - 1) (c ∷ cs)
    ]

-- The messages that have been found.
unfoldable pub take_messages : ℕ → List (ℤ × Bytes) → SessionState → SessionState
take_messages now es st =
    let start : Messages = record {
      highest_index = st.last_message_index;
      saw_lower_index = false;
      blue_flags = st.blue_flags;
    } in
    let ms = messages_loop st.last_message_index now es start in
    let flags = if ms.saw_lower_index then no_blue_flags else ms.blue_flags in
    record st {
      last_message_index = if ms.saw_lower_index then negsuc 0 else ms.highest_index;
      blue_flags = age_out now flags;
      blue_flag_tla = shown_tla now st.drivers flags;
    }

-- `parseRaceControlMessages`.
unfoldable pub parse_race_control_messages : Bytes → ℕ → SessionState → SessionState
parse_race_control_messages scope now st =
    elim (find_object scope (codes "\"RaceControlMessages\":")) [
      | none ↦ st
      | some rcm ↦ elim (find_object rcm (codes "\"Messages\":")) [
        | none ↦ st
        | some messages ↦ take_messages now (entries (length messages) (drop 1 messages)) st
      ]
    ]
