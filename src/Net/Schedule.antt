-- ===== src/Net/Schedule.antt =====
-- src/net/mv_schedule.cpp: when to poll, and the query to send.
pub mod Rollover
pub mod Query
use matrix_faces.Common.{
  ℕ, ◌+◌, ◌-◌, ◌%◌, ◌^◌, bit_and, bit_or, Bool, true, false, not, ◌&&◌, ◌||◌, List, [], ◌∷◌, ◌++◌,
  Option, none, some, ltb, leb, ◌==◌, if◌then◌else◌, Bytes, codes, length,
}

-- `Topic`, and all of them.
abbrev pub all_topics : ℕ
all_topics = 15

pub record PollTiming : Type 0 where
  pub fast_interval_ms : ℕ
  pub slow_interval_ms : ℕ
  pub backoff_ms : ℕ
  pub fast_topics : ℕ
  pub slow_topics : ℕ

pub record PollState : Type 0 where
  pub ever_polled : Bool
  pub connected : Bool
  pub last_poll_ms : ℕ
  pub last_slow_poll_ms : ℕ

pub record PollPlan : Type 0 where
  pub due : Bool
  pub topics : ℕ

-- `now - then` on uint32_t.
abbrev pub elapsed : ℕ → ℕ → ℕ
elapsed now since = (now + 2 ^ 32 - since) % 2 ^ 32

-- `planPoll`.
unfoldable pub plan_poll : PollTiming → PollState → ℕ → PollPlan
plan_poll timing state now =
    let interval = if state.connected then timing.fast_interval_ms else timing.backoff_ms in
    if state.ever_polled && ltb (elapsed now state.last_poll_ms) interval
    then record { due = false; topics = 0 }
    else if not state.ever_polled || not state.connected
    then record { due = true; topics = all_topics }
    else if timing.slow_topics == 0
    then record { due = true; topics = timing.fast_topics }
    else if leb timing.slow_interval_ms (elapsed now state.last_slow_poll_ms)
    then record { due = true; topics = bit_or timing.fast_topics timing.slow_topics % 256 }
    else record { due = true; topics = timing.fast_topics }

pub record TopicName : Type 0 where
  pub bit : ℕ
  pub field : Bytes

-- `kTopicNames`.
abbrev pub topic_names : List TopicName
topic_names =
    record { bit = 1; field = codes "TrackStatus" }
    ∷ record { bit = 2; field = codes "LapCount" }
    ∷ record { bit = 4; field = codes "DriverList" }
    ∷ record { bit = 8; field = codes "RaceControlMessages" }
    ∷ []

-- `kPrefix` and `kSuffix`.
abbrev pub prefix : Bytes
prefix = codes "{\"query\":\"{f1LiveTimingState{"

abbrev pub suffix : Bytes
suffix = codes "}}\"}"

-- The loop of `buildQuery`: `out` is what has been written.
unfoldable pub add_fields : List TopicName → ℕ → ℕ → Bool → Bytes → Option Bytes
add_fields [] topics cap first out = some out
add_fields (t ∷ ts) topics cap first out =
    let needed = length t.field + (if first then 0 else 1) in
    let skipped = add_fields ts topics cap first out in
    let added =
      add_fields ts topics cap false (out ++ ((if first then [] else b' ' ∷ []) ++ t.field)) in
    if bit_and topics t.bit == 0
    then skipped
    else if ltb cap (length out + needed + length suffix + 1)
    then none
    else added

-- `buildQuery`: the text without its terminator; `none` is 0. The null pointer is refused before.
unfoldable pub build_query : ℕ → ℕ → Option Bytes
build_query topics cap =
    if topics == 0
    then none
    else if ltb cap (length prefix + length suffix + 1)
    then none
    else elim (add_fields topic_names topics cap true prefix) [
      | none ↦ none
      | some out ↦ some (out ++ suffix)
    ]
