-- ===== src/Board/Metrics.antt =====
-- src/board/metrics_counters.h: the timing counters, on uint32_t.
pub mod Average
use matrix_faces.Common.{
  ℕ, ◌+◌, ◌-◌, ◌*◌, ◌/◌, ◌%◌, ◌^◌, max, Bool, true, false, not, ltb, ◌==◌, if◌then◌else◌,
}

pub record Counters : Type 0 where
  pub window_start_micros : ℕ
  pub loops : ℕ
  pub busy_micros : ℕ
  pub loop_hz : ℕ
  pub busy_permille : ℕ
  pub requests : ℕ
  pub request_total_micros : ℕ
  pub request_max_micros : ℕ
  pub auths : ℕ
  pub auth_total_micros : ℕ
  pub auth_max_micros : ℕ

-- As constructed.
abbrev pub fresh : Counters
fresh = record {
  window_start_micros = 0;
  loops = 0;
  busy_micros = 0;
  loop_hz = 0;
  busy_permille = 0;
  requests = 0;
  request_total_micros = 0;
  request_max_micros = 0;
  auths = 0;
  auth_total_micros = 0;
  auth_max_micros = 0;
}

-- `kWindowMicros`.
abbrev pub window_micros : ℕ
window_micros = 1000000

unfoldable pub begin : ℕ → Counters → Counters
begin now c = record c { window_start_micros = now }

unfoldable pub mark_loop : Counters → Counters
mark_loop c = record c { loops = (c.loops + 1) % 2 ^ 32 }

unfoldable pub record_request : ℕ → Counters → Counters
record_request elapsed c = record c {
  requests = (c.requests + 1) % 2 ^ 32;
  request_total_micros = (c.request_total_micros + elapsed) % 2 ^ 32;
  busy_micros = (c.busy_micros + elapsed) % 2 ^ 32;
  request_max_micros = max c.request_max_micros elapsed;
}

unfoldable pub record_auth : ℕ → Counters → Counters
record_auth elapsed c = record c {
  auths = (c.auths + 1) % 2 ^ 32;
  auth_total_micros = (c.auth_total_micros + elapsed) % 2 ^ 32;
  auth_max_micros = max c.auth_max_micros elapsed;
}

-- `tick`: the products are on uint64_t and the quotients are cut to uint32_t.
unfoldable pub tick : ℕ → Counters → Counters
tick now c =
    let elapsed = (now + 2 ^ 32 - c.window_start_micros) % 2 ^ 32 in
    if ltb elapsed window_micros then c else record c {
      loop_hz = c.loops * 1000000 / elapsed % 2 ^ 32;
      busy_permille = c.busy_micros * 1000 / elapsed % 2 ^ 32;
      loops = 0;
      busy_micros = 0;
      window_start_micros = now;
    }

-- What `fill` computes for the averages.
unfoldable pub request_avg_micros : Counters → ℕ
request_avg_micros c = if not (c.requests == 0) then c.request_total_micros / c.requests else 0

unfoldable pub auth_avg_micros : Counters → ℕ
auth_avg_micros c = if not (c.auths == 0) then c.auth_total_micros / c.auths else 0
