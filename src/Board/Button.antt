-- ===== src/Board/Button.antt =====
-- src/board/button.cpp: the debounced buttons. The pin's level and `millis()` are arguments.
pub mod Debounce
use matrix_faces.Common.{
  ℕ, ◌+◌, ◌-◌, ◌%◌, ◌^◌, Bool, true, false, not, ◌&&◌, ◌||◌, ltb, if◌then◌else◌,
}

-- `kDebounceMs`.
abbrev pub debounce_ms : ℕ
debounce_ms = 30

pub record Button : Type 0 where
  pub raw_level : Bool
  pub stable_down : Bool
  pub last_change_ms : ℕ
  pub pressed_at_ms : ℕ
  pub press_pending : Bool
  pub hold_consumed : Bool

abbrev pub same_level : Bool → Bool → Bool
same_level a b = if a then b else not b

-- `now - then` on uint32_t.
abbrev pub since : ℕ → ℕ → ℕ
since now past = (now + 2 ^ 32 - past) % 2 ^ 32

-- `begin`, which leaves the press and the hold as they are.
unfoldable pub begin : Button → Bool → ℕ → Button
begin b level now = record b { raw_level = level; stable_down = not level; last_change_ms = now }

-- `poll`.
unfoldable pub poll : Button → Bool → ℕ → Button
poll b level now =
    let down = not level in
    if not (same_level level b.raw_level)
    then record b { raw_level = level; last_change_ms = now }
    else if ltb (since now b.last_change_ms) debounce_ms
    then b
    else if same_level down b.stable_down
    then b
    else if down
    then record b {
      stable_down = true;
      pressed_at_ms = now;
      press_pending = true;
      hold_consumed = false;
    }
    else record b { stable_down = false }

-- `takePress`.
unfoldable pub take_press : Button → Bool × Button
take_press b =
    if not b.press_pending then (false, b) else (true, record b { press_pending = false })

-- `takeHold`, at `millis()`.
unfoldable pub take_hold : Button → ℕ → ℕ → Bool × Button
take_hold b ms now =
    if not b.stable_down || b.hold_consumed
    then (false, b)
    else if ltb (since now b.pressed_at_ms) ms
    then (false, b)
    else (true, record b { hold_consumed = true })
