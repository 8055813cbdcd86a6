-- ===== src/Tests/Net.antt =====
-- src/net on concrete inputs.
use matrix_faces.Common.{
  Bytes, refl, Option, ◌-◌, leb, take, ℕ, ◌%◌, ◌^◌, ◌≡◌, arith, true, false, List, [], ◌∷◌, ◌++◌,
  none, some, if◌then◌else◌, codes, length,
}
use matrix_faces.Net.Schedule.{PollTiming, PollState, plan_poll}
use matrix_faces.Net.Schedule.Rollover.{plan_at, wrapped, plan_poll-wrapped}
use matrix_faces.Net.QueryString.{query_param}
use matrix_faces.Net.QueryString.Split.{joined, lookup, query_param-lookup}
use matrix_faces.Net.StreamRead.{Pass, truncated, line_ok, read_line}
use matrix_faces.Net.StreamRead.Line.{Arrives, newline, pause, byte, IsStripped, read_line-Arrives}
use matrix_faces.Net.MvLink.{MvLink}
use matrix_faces.Net.MvLink.Mailbox.{
  Call, published, snapshot_read, host_requested, change_taken, answers, served, mailbox,
  answers-served,
}

-- The clock rolls over between the last poll and now.
abbrev timing : PollTiming
timing = record {
  fast_interval_ms = 2000;
  slow_interval_ms = 30000;
  backoff_ms = 15000;
  fast_topics = 3;
  slow_topics = 12;
}

abbrev state : PollState
state = record {
  ever_polled = true;
  connected = true;
  last_poll_ms = 4294966000;
  last_slow_poll_ms = 4294930000;
}

plan_poll-wrapped_example :
    plan_poll timing (wrapped state) (4294968200 % 2 ^ 32) ≡ plan_at timing state 4294968200
plan_poll-wrapped_example =
    plan_poll-wrapped timing state 4294968200 (omega arith) (omega arith) (omega arith)
      (omega arith)

query_param-lookup_example :
    query_param
      (codes "/ws" ++ b'?' ∷ joined (codes "clientid=1") (codes "id=22" ∷ []))
      (codes "id")
      8
    ≡ lookup (codes "id") 8 (codes "clientid=1" ∷ codes "id=22" ∷ [])
query_param-lookup_example =
    query_param-lookup (codes "/ws") (codes "id") (codes "clientid=1") (codes "id=22" ∷ []) 8
      (ground arith) (ground arith) (ground arith) (ground arith) (omega arith)

abbrev link : MvLink ℕ
link = record { snapshot = 0; host = []; host_changed = false; poll_enabled = false }

abbrev calls : List (Call ℕ)
calls =
    published 5
    ∷ host_requested (some (codes "pi.local"))
    ∷ change_taken 32
    ∷ change_taken 32
    ∷ snapshot_read
    ∷ []

answers-served_example : answers calls link ≡ served calls (mailbox link)
answers-served_example = answers-served calls link

-- A pause, a byte, a carriage return and a newline.
abbrev pass : ℕ → Option ℕ → Pass
pass elapsed read = record { elapsed = elapsed; read = read; more = true }

abbrev line_text : Bytes
line_text = 65 ∷ 13 ∷ []

abbrev passes : List Pass
passes = pass 0 none ∷ pass 7 (some 65) ∷ pass 8 (some 13) ∷ pass 9 (some 10) ∷ []

comes : Arrives 100 passes line_text []
comes = pause (pass 0 none) _ _ _ (omega arith) refl refl (
    byte (pass 7 (some 65)) _ _ _ _ (omega arith) refl (omega arith) (
      byte (pass 8 (some 13)) _ _ _ _ (omega arith) refl (omega arith)
        (newline (pass 9 (some 10)) _ (omega arith) refl)))

read_line-Arrives_example :
    (text : Bytes) × IsStripped (take (16 - 1) line_text) text
    × (read_line passes 16 100
        ≡ (if leb 16 (length line_text) then truncated else line_ok, text, []))
read_line-Arrives_example = read_line-Arrives 100 16 passes [] line_text comes (omega arith)
