-- ===== src/Net/MultiViewer/Topics.antt =====
-- src/net/multiviewer_parse.cpp: the topics of a response.
use matrix_faces.Common.{
  ℕ, ◌+◌, ◌-◌, ◌%◌, ◌^◌, true, false, not, ◌||◌, List, [], ◌∷◌, Option, none, some, ltb,
  if◌then◌else◌, Bytes, bytes_eq, codes, c_string, length, drop, zero, suc, ℤ, pos, negsuc,
}
use matrix_faces.Net.MultiViewer.Scan.{
  find_value, find_object_end, extract_string, extract_long, entries,
}
use matrix_faces.Net.MultiViewer.Session.{
  Flag, unknown, all_clear, yellow, safety_car, virtual_safety_car, red, DriverEntry, SessionState,
  no_drivers, tla_cap, max_drivers,
}

-- A key that is found with an object behind it: the object's scope, without its closing brace.
unfoldable pub find_object : Bytes → Bytes → Option Bytes
find_object scope key = elim (find_value scope key) [
  | none ↦ none
  | some value ↦ elim (find_object_end value) [ none ↦ none | some (object, rest) ↦ some object ]
]

-- The message of the track status, as the string that is compared.
unfoldable pub flag_of : Bytes → Flag
flag_of message =
    if bytes_eq message (codes "AllClear")
    then all_clear
    else if bytes_eq message (codes "Yellow") || bytes_eq message (codes "DoubleYellow")
    then yellow
    else if bytes_eq message (codes "SCDeployed")
    then safety_car
    else if bytes_eq message (codes "VSCDeployed") || bytes_eq message (codes "VSCEnding")
    then virtual_safety_car
    else if bytes_eq message (codes "Red")
    then red
    else unknown

-- `extractString` of a key in the scope, as the string that is compared or copied.
unfoldable pub string_field : Bytes → Bytes → ℕ → Option Bytes
string_field scope key cap = elim (extract_string (find_value scope key) cap) [
  | none ↦ none
  | some s ↦ some (c_string s)
]

-- `parseTrackStatus`.
unfoldable pub parse_track_status : Bytes → SessionState → SessionState
parse_track_status scope st = elim (find_object scope (codes "\"TrackStatus\":")) [
  | none ↦ record st { track_flag = unknown }
  | some object ↦ elim (string_field object (codes "\"Message\":") 24) [
    | none ↦ record st { track_flag = unknown }
    | some message ↦ record st { track_flag = flag_of message }
  ]
]

-- The cast of a `long` to an unsigned integer of `w` bits.
unfoldable pub to_unsigned : ℕ → ℤ → ℕ
to_unsigned w (pos n) = n % 2 ^ w
to_unsigned w (negsuc n) = 2 ^ w - 1 - n % 2 ^ w

-- The fields of the lap count, each kept when it is missing.
unfoldable pub take_laps : Option ℤ → Option ℤ → SessionState → SessionState
take_laps none none st = record st { has_lap_count = false }
take_laps (some current) none st = record st {
  current_lap = to_unsigned 32 current;
  has_lap_count = true;
}
take_laps none (some total) st = record st {
  total_laps = to_unsigned 32 total;
  has_lap_count = true;
}
take_laps (some current) (some total) st = record st {
  current_lap = to_unsigned 32 current;
  total_laps = to_unsigned 32 total;
  has_lap_count = true;
}

-- `parseLapCount`.
unfoldable pub parse_lap_count : Bytes → SessionState → SessionState
parse_lap_count scope st = elim (find_object scope (codes "\"LapCount\":")) [
  | none ↦ record st { has_lap_count = false }
  | some object ↦
      take_laps (extract_long (find_value object (codes "\"CurrentLap\":")))
        (extract_long (find_value object (codes "\"TotalLaps\":"))) st
]

-- A write to the array of drivers. Behind its end, where the code would write over other memory, it
-- makes the list longer, so that such a write shows in the length.
unfoldable pub write_entry : List DriverEntry → ℕ → DriverEntry → List DriverEntry
write_entry [] i d = d ∷ []
write_entry (x ∷ xs) zero d = d ∷ xs
write_entry (x ∷ xs) (suc i) d = x ∷ write_entry xs i d

-- The loop of `parseDriverList`, on the entries that are left.
unfoldable pub drivers_loop : List (ℤ × Bytes) → ℕ → List DriverEntry → List DriverEntry
drivers_loop [] count drivers = drivers
drivers_loop (e ∷ es) count drivers =
    let passed = drivers_loop es count drivers in
    if not (ltb count max_drivers)
    then drivers
    else elim (string_field e.1 (codes "\"Tla\":") tla_cap) [
      | none ↦ passed
      | some tla ↦
          drivers_loop es (count + 1)
            (write_entry drivers count (record { racing_number = to_unsigned 16 e.0; tla = tla }))
    ]

-- `parseDriverList`.
unfoldable pub parse_driver_list : Bytes → SessionState → SessionState
parse_driver_list scope st = elim (find_object scope (codes "\"DriverList\":")) [
  | none ↦ st
  | some object ↦ record st {
    drivers = drivers_loop (entries (length object) (drop 1 object)) 0 no_drivers;
  }
]
