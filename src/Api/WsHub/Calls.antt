-- ===== src/Api/WsHub/Calls.antt =====
-- src/api/ws_hub.cpp: the table through any sequence of calls.
use matrix_faces.Common.{
  ℕ, suc, ◌+◌, ◌<◌, ◌≡◌, refl, sym, ap, ap₂, ◌∙◌, subst, some_inj, arith, Bool, true, List, [], ◌∷◌,
  map, Option, none, some, ltb, if◌then◌else◌, Bytes, length, Bool-cases, Option-cases, inl, inr,
  ◌==◌,
}
use matrix_faces.Api.WebSocket.Frame.{encode_header}
use matrix_faces.Api.WsHub.{WsHub, Connection, Peer, max_connections, max_server_header}
use matrix_faces.Api.WsHub.Table.{
  poll, adopt_first, initialise, adopt, broadcast, fresh_hub, count_open, count,
}
use matrix_faces.Api.WsHub.Settled.{
  AllSettled, freed-IsSettled, poll_loop-AllSettled, broadcast_loop-AllSettled,
}

-- The calls of the two tasks, in the order in which they take the lock.
pub data Call : Type 0 where
  adopting : Option ℕ → Call
  polling : (ℕ → Option Peer) → Call
  sending : (ℕ → Option Peer) → Bytes → Call

unfoldable pub perform : Call → WsHub → WsHub
perform (adopting slot) hub = (adopt slot hub).1
perform (polling retained) hub = (poll retained hub).0
perform (sending retained text) hub = (broadcast retained text hub).0

unfoldable pub perform_all : List Call → WsHub → WsHub
perform_all [] hub = hub
perform_all (call ∷ calls) hub = perform_all calls (perform call hub)

pub record IsSound (hub : WsHub) : Type 0 where
  pub size : length hub.connections ≡ max_connections
  pub settled : AllSettled hub.connections

adopt_first-AllSettled :
    (slot : ℕ) (cs : List Connection) {cs' : List Connection}
    → adopt_first slot cs ≡ some cs'
    → AllSettled cs
    → AllSettled cs' × (length cs' ≡ length cs)
unfolding adopt_first
adopt_first-AllSettled slot [] e settled = cc
adopt_first-AllSettled slot (c ∷ cs) {cs'} e (first, later) = elim (Option-cases c.slot) [
  | inl free ↦
      let taken : some (record { slot = some slot; buf = [] } ∷ cs) ≡ some cs' =
        rw (free, adopt_first) at e in
      subst (λ q. AllSettled q × (length q ≡ suc (length cs))) (some_inj taken)
        ((freed-IsSettled, later), refl)
  | inr (other, taken) ↦ elim (Option-cases (adopt_first slot cs)) [
    | inl full ↦ let refused = rw (taken, full, adopt_first) at e in cc
    | inr (rest, found) ↦
        let (settled, size) = adopt_first-AllSettled slot cs found later in
        let reached : some (c ∷ rest) ≡ some cs' = rw (taken, found, adopt_first) at e in
        subst (λ q. AllSettled q × (length q ≡ suc (length cs))) (some_inj reached)
          ((first, settled), ap suc size)
  ]
]

freeing-AllSettled :
    (cs : List Connection)
    → AllSettled cs
    → AllSettled (map (λ (c : Connection). record c { slot = none }) cs)
      × (length (map (λ (c : Connection). record c { slot = none }) cs) ≡ length cs)
freeing-AllSettled [] settled = (tt, refl)
freeing-AllSettled (c ∷ cs) (first, later) =
    let (rest, size) = freeing-AllSettled cs later in ((first, rest), ap suc size)

initialise-IsSound : (hub : WsHub) → IsSound hub → IsSound (initialise hub)
unfolding initialise
initialise-IsSound hub sound = elim (Bool-cases hub.initialised) [
  | inl ready ↦ rw (ready, initialise) (record { size = sound.size; settled = sound.settled })
  | inr fresh ↦
      let (settled, size) = freeing-AllSettled hub.connections sound.settled in
      rw (fresh, initialise) (record { size = size ∙ sound.size; settled = settled })
]

adopt-IsSound : (slot : Option ℕ) (hub : WsHub) → IsSound hub → IsSound (adopt slot hub).1
unfolding adopt
adopt-IsSound none hub sound = sound
adopt-IsSound (some slot) hub sound =
    let ready = initialise hub in
    let ready_sound = initialise-IsSound hub sound in
    elim (Option-cases (adopt_first slot ready.connections)) [
      | inl full ↦ rw (full, adopt) ready_sound
      | inr (cs, found) ↦
          let (settled, size) =
            adopt_first-AllSettled slot ready.connections found ready_sound.settled in
          rw (found, adopt) (record { size = size ∙ ready_sound.size; settled = settled })
    ]

poll-IsSound :
    (retained : ℕ → Option Peer) (hub : WsHub) → IsSound hub → IsSound (poll retained hub).0
unfolding poll
poll-IsSound retained hub sound =
    let (settled, size) =
      poll_loop-AllSettled hub.has_handler retained hub.connections hub.messages_received
        sound.settled in
    record { size = size ∙ sound.size; settled = settled }

broadcast-IsSound :
    (retained : ℕ → Option Peer) (text : Bytes) (hub : WsHub)
    → IsSound hub
    → IsSound (broadcast retained text hub).0
unfolding broadcast
broadcast-IsSound retained text hub sound = elim (Bool-cases (length text == 0)) [
  | inl empty ↦ rw (empty, broadcast) sound
  | inr some_text ↦ elim (Option-cases (encode_header max_server_header 1 (length text))) [
    | inl long ↦ rw (some_text, long, broadcast) sound
    | inr (header, fits) ↦
        let (settled, size) =
          broadcast_loop-AllSettled retained header text hub.connections sound.settled in
        rw (some_text, fits, broadcast) (record { size = size ∙ sound.size; settled = settled })
  ]
]

perform-IsSound : (call : Call) (hub : WsHub) → IsSound hub → IsSound (perform call hub)
unfolding perform
perform-IsSound (adopting slot) hub sound = adopt-IsSound slot hub sound
perform-IsSound (polling retained) hub sound = poll-IsSound retained hub sound
perform-IsSound (sending retained text) hub sound = broadcast-IsSound retained text hub sound

fresh_hub-IsSound : (has_handler : Bool) → IsSound (fresh_hub has_handler)
unfolding fresh_hub
fresh_hub-IsSound has_handler = record {
  size = refl;
  settled = (freed-IsSettled, (freed-IsSettled, (freed-IsSettled, (freed-IsSettled, tt))));
}

perform_all-IsSound_from :
    (calls : List Call) (hub : WsHub) → IsSound hub → IsSound (perform_all calls hub)
unfolding perform_all
perform_all-IsSound_from [] hub sound = sound
perform_all-IsSound_from (call ∷ calls) hub sound =
    perform_all-IsSound_from calls (perform call hub) (perform-IsSound call hub sound)

-- After any sequence of adoptions, polls and broadcasts from the construction on, whatever the
-- clients send and however their sockets behave, the table has its four entries, each buffer holds
-- less than its 256 bytes, and none holds a frame that could still be taken out of it.
pub perform_all-IsSound :
    (calls : List Call) (has_handler : Bool) → IsSound (perform_all calls (fresh_hub has_handler))
perform_all-IsSound calls has_handler =
    perform_all-IsSound_from calls (fresh_hub has_handler) (fresh_hub-IsSound has_handler)

-- The entries that are taken, and what taking one more does to their number.
abbrev Adopted : List Connection → Option (List Connection) → Type 0
Adopted cs none = count_open cs ≡ length cs
Adopted cs (some cs') = (count_open cs < length cs) × (count_open cs' ≡ count_open cs + 1)

count_open-le : (cs : List Connection) → count_open cs < length cs + 1
unfolding count_open
count_open-le [] = omega arith
count_open-le (c ∷ cs) = ground (arith, count_open-le cs)

count_open-taken :
    (c : Connection) (cs : List Connection) {slot : ℕ}
    → c.slot ≡ some slot
    → count_open (c ∷ cs) ≡ count_open cs + 1
unfolding count_open
count_open-taken c cs taken = rw (taken, count_open) refl

adopt_first-Adopted : (slot : ℕ) (cs : List Connection) → Adopted cs (adopt_first slot cs)
unfolding adopt_first count_open
adopt_first-Adopted slot [] = refl
adopt_first-Adopted slot (c ∷ cs) =
    let before = count_open-le cs in
    let ih = adopt_first-Adopted slot cs in
    elim (Option-cases c.slot) [
      | inl free ↦ rw (free, adopt_first, count_open) (omega (arith, before), refl)
      | inr (other, taken) ↦ elim (Option-cases (adopt_first slot cs)) [
        | inl full ↦
            let all : count_open cs ≡ length cs = rw full at ih in
            rw (taken, full, adopt_first, count_open) (omega (arith, all))
        | inr (cs', found) ↦
            let (room, more) : Adopted cs (some cs') = rw found at ih in
            let result : adopt_first slot (c ∷ cs) ≡ some (c ∷ cs') =
              ap₂
                (λ (s : Option ℕ) (o : Option (List Connection)).
                  elim s as (λ _. Option (List Connection)) [
                    | none ↦ some (record { slot = some slot; buf = [] } ∷ cs)
                    | some _ ↦ elim o as (λ _. Option (List Connection)) [
                      | none ↦ none
                      | some later ↦ some (c ∷ later)
                    ]
                  ])
                taken found in
            let here = count_open-taken c cs taken in
            let there = count_open-taken c cs' taken in
            subst (Adopted (c ∷ cs)) (sym result)
              (omega (arith, room, here), omega (arith, more, here, there))
      ]
    ]

-- Once the table is initialised, a slot is adopted exactly when an entry is free; then one more
-- entry is taken, and else none.
pub adopt-count :
    (slot : ℕ) (hub : WsHub)
    → hub.initialised ≡ true
    → ((adopt (some slot) hub).0 ≡ ltb (count hub) (length hub.connections))
      × (count (adopt (some slot) hub).1
          ≡ (if ltb (count hub) (length hub.connections) then count hub + 1 else count hub))
unfolding adopt initialise count
adopt-count slot hub ready =
    let ih = adopt_first-Adopted slot hub.connections in
    elim (Option-cases (adopt_first slot hub.connections)) [
      | inl full ↦
          let all : count_open hub.connections ≡ length hub.connections = rw full at ih in
          rw (ready, full, adopt, initialise) (ground (arith, all), ground (arith, all))
      | inr (cs, found) ↦
          let (room, more) : Adopted hub.connections (some cs) = rw found at ih in
          rw (ready, found, adopt, initialise) (ground (arith, room), ground (arith, room, more))
    ]
