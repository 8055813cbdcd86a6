-- ===== src/Net/Schedule/Rollover.antt =====
-- src/net/mv_schedule.cpp: the schedule does not notice that the clock rolls over.
use matrix_faces.Common.{
  ℕ, ◌+◌, ◌-◌, ◌%◌, ◌^◌, ◌<◌, ◌≤◌, ◌≡◌, arith, true, false, not, ◌&&◌, bit_or, ltb, leb, ◌==◌,
  if◌then◌else◌,
}
use matrix_faces.Net.Schedule.{PollTiming, PollState, PollPlan, plan_poll, all_topics}

-- The schedule on a clock that never rolls over.
abbrev pub plan_at : PollTiming → PollState → ℕ → PollPlan
plan_at timing state now =
    let interval = if state.connected then timing.fast_interval_ms else timing.backoff_ms in
    let slow = timing.slow_topics in
    if state.ever_polled && ltb (now - state.last_poll_ms) interval
    then record { due = false; topics = 0 }
    else if state.ever_polled && state.connected
    then record {
      due = true;
      topics =
          if not (slow == 0) && leb timing.slow_interval_ms (now - state.last_slow_poll_ms)
          then bit_or timing.fast_topics slow % 256
          else timing.fast_topics;
    }
    else record { due = true; topics = all_topics }

-- The state as the code keeps it: times modulo 2^32.
abbrev pub wrapped : PollState → PollState
wrapped state = record state {
  last_poll_ms = state.last_poll_ms % 2 ^ 32;
  last_slow_poll_ms = state.last_slow_poll_ms % 2 ^ 32;
}

-- On the times modulo 2^32, `planPoll` decides as a schedule on the true times does, while the last
-- polls lie less than 2^32 milliseconds back.
pub plan_poll-wrapped :
    (timing : PollTiming) (state : PollState) (now : ℕ)
    → state.last_poll_ms ≤ now
    → now - state.last_poll_ms < 2 ^ 32
    → state.last_slow_poll_ms ≤ now
    → now - state.last_slow_poll_ms < 2 ^ 32
    → plan_poll timing (wrapped state) (now % 2 ^ 32) ≡ plan_at timing state now
unfolding plan_poll
plan_poll-wrapped timing state now after near slow_after slow_near =
    let fast : (now % 2 ^ 32 + 2 ^ 32 - state.last_poll_ms % 2 ^ 32) % 2 ^ 32
        ≡ now - state.last_poll_ms =
      omega (arith, after, near) in
    let slow : (now % 2 ^ 32 + 2 ^ 32 - state.last_slow_poll_ms % 2 ^ 32) % 2 ^ 32
        ≡ now - state.last_slow_poll_ms =
      omega (arith, slow_after, slow_near) in
    rw (fast, slow) (ground arith)
