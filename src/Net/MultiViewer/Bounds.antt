-- ===== src/Net/MultiViewer/Bounds.antt =====
-- src/net/multiviewer_parse.cpp: whatever responses come, the tables keep their size and the names
-- fit.
use matrix_faces.Common.{
  ℕ, zero, suc, ◌+◌, ◌-◌, ◌<◌, ◌≤◌, ◌≡◌, refl, sym, ap, ◌∙◌, arith, Bool, true, false, not, ◌||◌,
  List, [], ◌∷◌, Option, none, some, some_inj, ltb, ◌==◌, if◌then◌else◌, Bytes, bytes_eq, codes,
  leb_ℤ, c_string, length, take, take_while, length-take, All, ℤ, Bool-cases, Option-cases, inl,
  inr, subst, replicate,
}
use matrix_faces.Net.MultiViewer.Scan.{find_value, extract_string, string_body}
use matrix_faces.Net.MultiViewer.Session.{
  SessionState, DriverEntry, BlueFlagEntry, tla_cap, max_drivers, no_drivers, no_blue_flags,
  tla_for,
}
use matrix_faces.Net.MultiViewer.Topics.{string_field, drivers_loop, write_entry, to_unsigned}
use matrix_faces.Net.MultiViewer.RaceControl.{
  see_again, fill_free, rescind, take_flag, Messages, take_message, messages_loop, is_stale,
  age_out, shown_tla, take_messages, driver_flag,
}

abbrev pub Fits : DriverEntry → Type 0
Fits d = length d.tla < tla_cap

pub record IsSound (st : SessionState) : Type 0 where
  pub driver_count : length st.drivers ≡ max_drivers
  pub driver_names : All Fits st.drivers
  pub flag_count : length st.blue_flags ≡ max_drivers
  pub shown_name : length st.blue_flag_tla < tla_cap

length-take_while : (p : ℕ → Bool) (xs : Bytes) → length (take_while p xs) ≤ length xs
unfolding take_while
length-take_while p [] = omega arith
length-take_while p (x ∷ xs) = elim (Bool-cases (p x)) [
  | inl passed ↦ rw (passed, take_while) (omega (arith, length-take_while p xs))
  | inr stopped ↦ rw (stopped, take_while) (omega arith)
]

write_entry-Fits :
    (xs : List DriverEntry) (i : ℕ) (d : DriverEntry)
    → All Fits xs
    → Fits d
    → All Fits (write_entry xs i d)
unfolding write_entry
write_entry-Fits [] i d h hd = (hd, tt)
write_entry-Fits (x ∷ xs) zero d (first, later) hd = (hd, later)
write_entry-Fits (x ∷ xs) (suc i) d (first, later) hd = (first, write_entry-Fits xs i d later hd)

length-write_entry :
    (xs : List DriverEntry) (i : ℕ) (d : DriverEntry)
    → i < length xs
    → length (write_entry xs i d) ≡ length xs
unfolding write_entry
length-write_entry [] i d h = absurd (omega arith)
length-write_entry (x ∷ xs) zero d h = refl
length-write_entry (x ∷ xs) (suc i) d h = ap suc (length-write_entry xs i d (omega arith))

-- What is extracted has room for its terminator.
pub extract_string-lt :
    (value : Option Bytes) (cap : ℕ) {s : Bytes}
    → extract_string value cap ≡ some s
    → length s < cap
unfolding extract_string
extract_string-lt none cap e = cc
extract_string-lt (some []) cap e = cc
extract_string-lt (some (c ∷ cs)) cap {s} e = elim (Bool-cases (not (c == b'"') || cap == 0)) [
  | inl bad ↦ let refused = rw (bad, extract_string) at e in cc
  | inr good ↦ elim (Option-cases (string_body cs false)) [
    | inl unclosed ↦ let refused = rw (good, unclosed, extract_string) at e in cc
    | inr (body, closed) ↦
        let reached : some (take (cap - 1) body) ≡ some s =
          rw (good, closed, extract_string) at e in
        let size = length-take (cap - 1) body in
        let some_room : 0 < cap = ground arith in
        subst (λ q. length q < cap) (some_inj reached) (omega (arith, size, some_room))
  ]
]

string_field-lt :
    (scope key : Bytes) (cap : ℕ) {s : Bytes} → string_field scope key cap ≡ some s → length s < cap
unfolding string_field c_string
string_field-lt scope key cap {s} e =
    elim (Option-cases (extract_string (find_value scope key) cap)) [
      | inl absent ↦ let refused = rw (absent, string_field) at e in cc
      | inr (raw, found) ↦
          let reached : some (c_string raw) ≡ some s = rw (found, string_field) at e in
          let short = extract_string-lt (find_value scope key) cap found in
          let less = length-take_while (λ c. not (c == 0)) raw in
          subst (λ q. length q < cap) (some_inj reached) (omega (arith, short, less))
    ]

pub drivers_loop-Fits :
    (es : List (ℤ × Bytes)) (count : ℕ) (ds : List DriverEntry)
    → All Fits ds
    → length ds ≡ max_drivers
    → All Fits (drivers_loop es count ds) × (length (drivers_loop es count ds) ≡ max_drivers)
unfolding drivers_loop
drivers_loop-Fits [] count ds fits size = (fits, size)
drivers_loop-Fits (e ∷ es) count ds fits size = elim (Bool-cases (ltb count max_drivers)) [
  | inr full ↦ rw (full, drivers_loop) (fits, size)
  | inl room ↦ elim (Option-cases (string_field e.1 (codes "\"Tla\":") tla_cap)) [
    | inl absent ↦ rw (room, absent, drivers_loop) (drivers_loop-Fits es count ds fits size)
    | inr (tla, found) ↦
        let d : DriverEntry = record { racing_number = to_unsigned 16 e.0; tla = tla } in
        let short = string_field-lt e.1 (codes "\"Tla\":") tla_cap found in
        let inside : count < length ds = ground arith in
        rw (room, found, drivers_loop)
          (drivers_loop-Fits es (count + 1) (write_entry ds count d)
            (write_entry-Fits ds count d fits short) (length-write_entry ds count d inside ∙ size))
  ]
]

shown_tla-lt :
    (now : ℕ) (ds : List DriverEntry) (bs : List BlueFlagEntry)
    → length (shown_tla now ds bs) < tla_cap
unfolding shown_tla
shown_tla-lt now ds [] = omega arith
shown_tla-lt now ds (b ∷ bs) = elim (Bool-cases (b.racing_number == 0 || is_stale now b)) [
  | inl skipped ↦ rw (skipped, shown_tla) (shown_tla-lt now ds bs)
  | inr live ↦ elim (Option-cases (tla_for ds b.racing_number)) [
    | inl unnamed ↦ rw (live, unnamed, shown_tla) (shown_tla-lt now ds bs)
    | inr ([], found) ↦ rw (live, found, shown_tla) (shown_tla-lt now ds bs)
    | inr (c ∷ cs, found) ↦
        rw (live, found, shown_tla) (omega (arith, length-take (tla_cap - 1) (c ∷ cs)))
  ]
]

length-see_again :
    (number now : ℕ) (bs : List BlueFlagEntry) {bs' : List BlueFlagEntry}
    → see_again number now bs ≡ some bs'
    → length bs' ≡ length bs
unfolding see_again
length-see_again number now [] e = cc
length-see_again number now (b ∷ bs) {bs'} e = elim (Bool-cases (b.racing_number == number)) [
  | inl here ↦
      let reached : some (record b { last_seen = now } ∷ bs) ≡ some bs' =
        rw (here, see_again) at e in
      ap length (sym (some_inj reached))
  | inr there ↦ elim (Option-cases (see_again number now bs)) [
    | inl absent ↦ let refused = rw (there, absent, see_again) at e in cc
    | inr (later, found) ↦
        let reached : some (b ∷ later) ≡ some bs' = rw (there, found, see_again) at e in
        ap length (sym (some_inj reached)) ∙ ap suc (length-see_again number now bs found)
  ]
]

length-fill_free :
    (number now : ℕ) (bs : List BlueFlagEntry) → length (fill_free number now bs) ≡ length bs
unfolding fill_free
length-fill_free number now [] = refl
length-fill_free number now (b ∷ bs) = ground (arith, length-fill_free number now bs)

length-rescind : (number : ℕ) (bs : List BlueFlagEntry) → length (rescind number bs) ≡ length bs
unfolding rescind
length-rescind number [] = refl
length-rescind number (b ∷ bs) = ground (arith, length-rescind number bs)

length-age_out : (now : ℕ) (bs : List BlueFlagEntry) → length (age_out now bs) ≡ length bs
unfolding age_out
length-age_out now [] = refl
length-age_out now (b ∷ bs) = ap suc (length-age_out now bs)

length-take_flag :
    (now number : ℕ) (flag : Bytes) (bs : List BlueFlagEntry)
    → length (take_flag now number flag bs) ≡ length bs
unfolding take_flag
length-take_flag now number flag bs = elim (Bool-cases (bytes_eq flag (codes "BLUE"))) [
  | inl blue ↦ elim (Option-cases (see_again number now bs)) [
    | inl new ↦ rw (blue, new, take_flag) (length-fill_free number now bs)
    | inr (again, found) ↦ rw (blue, found, take_flag) (length-see_again number now bs found)
  ]
  | inr other ↦ rw (other, take_flag) (length-rescind number bs)
]

length-take_message :
    (last : ℤ) (now : ℕ) (e : ℤ × Bytes) (ms : Messages)
    → length (take_message last now e ms).blue_flags ≡ length ms.blue_flags
unfolding take_message
length-take_message last now e ms = elim (Bool-cases (leb_ℤ e.0 last)) [
  | inl known ↦ rw (known, take_message) refl
  | inr new ↦ elim (Option-cases (driver_flag e.1)) [
    | inl none_of ↦ rw (new, none_of, take_message) refl
    | inr ((number, flag), found) ↦
        rw (new, found, take_message) (length-take_flag now number flag ms.blue_flags)
  ]
]

length-messages_loop :
    (last : ℤ) (now : ℕ) (es : List (ℤ × Bytes)) (ms : Messages)
    → length (messages_loop last now es ms).blue_flags ≡ length ms.blue_flags
unfolding messages_loop
length-messages_loop last now [] ms = refl
length-messages_loop last now (e ∷ es) ms =
    length-messages_loop last now es (take_message last now e ms)
    ∙ length-take_message last now e ms

pub take_messages-IsSound :
    (now : ℕ) (es : List (ℤ × Bytes)) (st : SessionState)
    → IsSound st
    → IsSound (take_messages now es st)
unfolding take_messages
take_messages-IsSound now es st sound =
    let start : Messages = record {
      highest_index = st.last_message_index;
      saw_lower_index = false;
      blue_flags = st.blue_flags;
    } in
    let ms : Messages = messages_loop st.last_message_index now es start in
    let flags : List BlueFlagEntry = if ms.saw_lower_index then no_blue_flags else ms.blue_flags in
    let size : length ms.blue_flags ≡ max_drivers =
      length-messages_loop st.last_message_index now es start ∙ sound.flag_count in
    record {
      driver_count = sound.driver_count;
      driver_names = sound.driver_names;
      flag_count = length-age_out now flags ∙ length-flags ms.saw_lower_index ms.blue_flags size;
      shown_name = shown_tla-lt now st.drivers flags;
    }
  where
    length-flags :
        (restarted : Bool) (bs : List BlueFlagEntry)
        → length bs ≡ max_drivers
        → length (if restarted then no_blue_flags else bs) ≡ max_drivers
    length-flags true bs h = refl
    length-flags false bs h = h

pub no_drivers-Fits : All Fits no_drivers
no_drivers-Fits = replicate-All max_drivers
  where
    replicate-All : (n : ℕ) → All Fits (replicate n (record { racing_number = 0; tla = [] }))
    replicate-All zero = tt
    replicate-All (suc n) = (omega arith, replicate-All n)
