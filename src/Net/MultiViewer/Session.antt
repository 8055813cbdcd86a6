-- ===== src/Net/MultiViewer/Session.antt =====
-- src/net/multiviewer_parse.h: what is derived from the feed.
use matrix_faces.Common.{
  ℕ, Bool, false, List, [], ◌∷◌, Option, none, some, ◌==◌, if◌then◌else◌, Bytes, replicate, ℤ,
  negsuc,
}

pub data Flag : Type 0 where
  unknown all_clear yellow safety_car virtual_safety_car red : Flag

-- `kTlaCap`.
abbrev pub tla_cap : ℕ
tla_cap = 4

-- `kMaxDrivers`.
abbrev pub max_drivers : ℕ
max_drivers = 28

-- `kBlueFlagTimeoutMs`.
abbrev pub blue_flag_timeout : ℕ
blue_flag_timeout = 20000

pub record DriverEntry : Type 0 where
  pub racing_number : ℕ
  pub tla : Bytes

pub record BlueFlagEntry : Type 0 where
  pub racing_number : ℕ
  pub last_seen : ℕ

pub record SessionState : Type 0 where
  pub track_flag : Flag
  pub has_lap_count : Bool
  pub current_lap : ℕ
  pub total_laps : ℕ
  pub drivers : List DriverEntry
  pub last_message_index : ℤ
  pub blue_flags : List BlueFlagEntry
  pub blue_flag_tla : Bytes

abbrev pub no_drivers : List DriverEntry
no_drivers = replicate max_drivers (record { racing_number = 0; tla = [] })

abbrev pub no_blue_flags : List BlueFlagEntry
no_blue_flags = replicate max_drivers (record { racing_number = 0; last_seen = 0 })

-- `SessionState::reset`, which is the state that is constructed, too.
abbrev pub no_session_state : SessionState
no_session_state = record {
  track_flag = unknown;
  has_lap_count = false;
  current_lap = 0;
  total_laps = 0;
  drivers = no_drivers;
  last_message_index = negsuc 0;
  blue_flags = no_blue_flags;
  blue_flag_tla = [];
}

-- `tlaForRacingNumber`; `none` is `nullptr`.
unfoldable pub tla_for : List DriverEntry → ℕ → Option Bytes
tla_for [] number = none
tla_for (d ∷ ds) number =
    let rest = tla_for ds number in if d.racing_number == number then some d.tla else rest

-- The counters that parsing maintains.
pub record Counters : Type 0 where
  pub parsed : ℕ
  pub no_session : ℕ
  pub malformed : ℕ
  pub truncated : ℕ

pub data ParseResult : Type 0 where
  parse_ok parse_no_session parse_malformed parse_truncated : ParseResult
