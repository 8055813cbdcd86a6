-- ===== src/Net/MultiViewer/Restart.antt =====
-- src/net/multiviewer_parse.cpp: what a message list that was read before does to the state.
use matrix_faces.Common.{
  ℕ, ◌≡◌, refl, sym, ap, ◌∙◌, arith, Bool, true, false, ◌||◌, List, [], ◌∷◌, if◌then◌else◌, Bytes,
  All, ℤ, pos, negsuc, leb_ℤ, ltb_ℤ, Bool-cases, Option-cases, inl, inr,
}
use matrix_faces.Net.MultiViewer.Session.{SessionState, DriverEntry, no_blue_flags}
use matrix_faces.Net.MultiViewer.RaceControl.{
  Messages, take_message, messages_loop, age_out, shown_tla, take_messages, driver_flag,
}

-- Messages that are known already, up to the last index.
abbrev pub AreKnown : ℤ → List (ℤ × Bytes) → Type 0
AreKnown last es = All (λ (e : ℤ × Bytes). leb_ℤ e.0 last ≡ true) es

-- Whether one of them lies below it.
unfoldable pub any_below : ℤ → List (ℤ × Bytes) → Bool
any_below last [] = false
any_below last (e ∷ es) = ltb_ℤ e.0 last || any_below last es

or_assoc : (a b c : Bool) → ((a || b) || c) ≡ (a || (b || c))
or_assoc true b c = refl
or_assoc false b c = refl

or_false : (a : Bool) → (a || false) ≡ a
or_false true = refl
or_false false = refl

-- Known messages change nothing but the flag.
messages_loop-AreKnown :
    (last : ℤ) (now : ℕ) (es : List (ℤ × Bytes)) (ms : Messages)
    → AreKnown last es
    → messages_loop last now es ms
      ≡ record ms { saw_lower_index = ms.saw_lower_index || any_below last es }
unfolding messages_loop take_message any_below
messages_loop-AreKnown last now [] ms known =
    ap (λ b. record ms { saw_lower_index = b }) (sym (or_false ms.saw_lower_index))
messages_loop-AreKnown last now (e ∷ es) ms (first, later) =
    let next : Messages = record ms { saw_lower_index = ms.saw_lower_index || ltb_ℤ e.0 last } in
    let taken : take_message last now e ms ≡ next = rw (first, take_message) refl in
    ap (messages_loop last now es) taken
    ∙ messages_loop-AreKnown last now es next later
    ∙ ap (λ b. record ms { saw_lower_index = b })
        (or_assoc ms.saw_lower_index (ltb_ℤ e.0 last) (any_below last es))

age_out-no_blue_flags : (now : ℕ) → age_out now no_blue_flags ≡ no_blue_flags
unfolding age_out
age_out-no_blue_flags now = refl

shown_tla-no_blue_flags :
    (now : ℕ) (drivers : List DriverEntry) → shown_tla now drivers no_blue_flags ≡ []
unfolding shown_tla
shown_tla-no_blue_flags now drivers = refl

-- A list of messages that are all known already, as a feed gives it again that has nothing new.
-- When one of its indices lies below the last known one, the poll forgets the last index and every
-- blue flag, and no driver is shown; when none does, the last index and the flags stay, less those
-- past the timeout.
pub take_messages-AreKnown :
    (now : ℕ) (es : List (ℤ × Bytes)) (st : SessionState)
    → AreKnown st.last_message_index es
    → take_messages now es st ≡ (
        if any_below st.last_message_index es
        then record st {
          last_message_index = negsuc 0;
          blue_flags = no_blue_flags;
          blue_flag_tla = [];
        }
        else record st {
          blue_flags = age_out now st.blue_flags;
          blue_flag_tla = shown_tla now st.drivers st.blue_flags;
        })
unfolding take_messages
take_messages-AreKnown now es st known =
    let start : Messages = record {
      highest_index = st.last_message_index;
      saw_lower_index = false;
      blue_flags = st.blue_flags;
    } in
    let loop = messages_loop-AreKnown st.last_message_index now es start known in
    elim (Bool-cases (any_below st.last_message_index es)) [
      | inl below ↦
          rw
            (
              loop,
              below,
              take_messages,
              age_out-no_blue_flags now,
              shown_tla-no_blue_flags now st.drivers,
            )
            refl
      | inr none_below ↦ rw (loop, none_below, take_messages) refl
    ]

leb_ℤ_total : (a b : ℤ) → leb_ℤ a b ≡ false → ltb_ℤ a b ≡ false
leb_ℤ_total (pos a) (pos b) h = ground arith
leb_ℤ_total (pos a) (negsuc b) h = refl
leb_ℤ_total (negsuc a) (pos b) h = cc
leb_ℤ_total (negsuc a) (negsuc b) h = ground arith

take_message-saw :
    (last : ℤ) (now : ℕ) (e : ℤ × Bytes) (ms : Messages)
    → (take_message last now e ms).saw_lower_index ≡ (ms.saw_lower_index || ltb_ℤ e.0 last)
unfolding take_message
take_message-saw last now e ms = elim (Bool-cases (leb_ℤ e.0 last)) [
  | inl known ↦ rw (known, take_message) refl
  | inr new ↦
      let not_below = leb_ℤ_total e.0 last new in
      let same : (ms.saw_lower_index || ltb_ℤ e.0 last) ≡ ms.saw_lower_index =
        rw not_below (or_false ms.saw_lower_index) in
      elim (Option-cases (driver_flag e.1)) [
        | inl none_of ↦ rw (new, none_of, take_message) (sym same)
        | inr (flag, found) ↦ rw (new, found, take_message) (sym same)
      ]
]

messages_loop-saw :
    (last : ℤ) (now : ℕ) (es : List (ℤ × Bytes)) (ms : Messages)
    → (messages_loop last now es ms).saw_lower_index ≡ (ms.saw_lower_index || any_below last es)
unfolding messages_loop any_below
messages_loop-saw last now [] ms = sym (or_false ms.saw_lower_index)
messages_loop-saw last now (e ∷ es) ms =
    messages_loop-saw last now es (take_message last now e ms)
    ∙ ap (λ b. b || any_below last es) (take_message-saw last now e ms)
    ∙ or_assoc ms.saw_lower_index (ltb_ℤ e.0 last) (any_below last es)

-- Whatever else a message list says, one index below the last known one makes the poll forget the
-- last index and every blue flag, those that the same list raises included, and show no driver.
pub take_messages-any_below :
    (now : ℕ) (es : List (ℤ × Bytes)) (st : SessionState)
    → any_below st.last_message_index es ≡ true
    → take_messages now es st
      ≡ record st { last_message_index = negsuc 0; blue_flags = no_blue_flags; blue_flag_tla = [] }
unfolding take_messages
take_messages-any_below now es st below =
    let start : Messages = record {
      highest_index = st.last_message_index;
      saw_lower_index = false;
      blue_flags = st.blue_flags;
    } in
    let saw : (messages_loop st.last_message_index now es start).saw_lower_index ≡ true =
      messages_loop-saw st.last_message_index now es start ∙ below in
    rw (saw, take_messages, age_out-no_blue_flags now, shown_tla-no_blue_flags now st.drivers) refl
