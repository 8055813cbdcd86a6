-- ===== src/Board/Metrics/Average.antt =====
-- src/board/metrics_counters.h: the averages and the maxima are those of what was recorded.
use matrix_faces.Common.{
  ℕ, ◌+◌, ◌/◌, ◌^◌, ◌<◌, ◌≡◌, arith, max, List, [], ◌∷◌, ◌==◌, if◌then◌else◌, length,
}
use matrix_faces.Board.Metrics.{Counters, fresh, record_request, request_avg_micros}

abbrev pub total : List ℕ → ℕ
total [] = 0
total (x ∷ xs) = x + total xs

abbrev pub longest : List ℕ → ℕ
longest [] = 0
longest (x ∷ xs) = max x (longest xs)

pub record_requests : List ℕ → Counters → Counters
record_requests [] c = c
record_requests (x ∷ xs) c = record_requests xs (record_request x c)

record_requests-sums :
    (xs : List ℕ) (c : Counters)
    → c.request_total_micros + total xs < 2 ^ 32
    → c.requests + length xs < 2 ^ 32
    → let c' = record_requests xs c in
      (c'.requests ≡ c.requests + length xs)
      × (c'.request_total_micros ≡ c.request_total_micros + total xs)
      × (c'.request_max_micros ≡ max c.request_max_micros (longest xs))
unfolding record_requests record_request
record_requests-sums [] c fits few = (omega arith, omega arith, omega arith)
record_requests-sums (x ∷ xs) c fits few =
    let (n, sum, top) =
      record_requests-sums xs (record_request x c) (omega (arith, fits, few))
        (omega (arith, fits, few)) in
    (omega (arith, n, fits, few), omega (arith, sum, fits, few), omega (arith, top))

-- The average and the maximum of the requests since the start are exact, while fewer than 2^32 of
-- them took less than 2^32 microseconds in all.
pub request_avg_micros_lem :
    (xs : List ℕ)
    → total xs < 2 ^ 32
    → length xs < 2 ^ 32
    → let c = record_requests xs fresh in
      (request_avg_micros c ≡ (if length xs == 0 then 0 else total xs / length xs))
      × (c.request_max_micros ≡ longest xs)
unfolding request_avg_micros
request_avg_micros_lem xs fits few =
    let (n, sum, top) = record_requests-sums xs fresh (omega (arith, fits)) (omega (arith, few)) in
    let n0 : (record_requests xs fresh).requests ≡ length xs = omega (arith, n) in
    let sum0 : (record_requests xs fresh).request_total_micros ≡ total xs = omega (arith, sum) in
    (rw (n0, sum0, request_avg_micros) (ground arith), omega (arith, top))
