-- ===== src/Api/WsHub/Settled.antt =====
-- src/api/ws_hub.cpp: no call overruns a buffer, and none leaves a whole frame in one.
use matrix_faces.Common.{
  ℕ, zero, suc, ◌+◌, ◌%◌, ◌^◌, ◌<◌, ◌≤◌, ◌≡◌, refl, ap, arith, Bool, true, false, not, List, [],
  ◌∷◌, Option, none, some, leb, if◌then◌else◌, Bytes, length, drop, length-drop, All, Bool-cases,
  Option-cases, inl, inr, ◌⊎◌,
}
use matrix_faces.Api.WebSocket.Frame.{parse_header}
use matrix_faces.Api.WsHub.{
  Connection, Peer, Event, FrameStep, wait, close, consume, frame_step, step_on, closing, going_on,
  dispatch, Drained, after, close_connection, drain_frames, inbound_cap, fill, serve,
  poll_connection,
}
use matrix_faces.Api.WsHub.Table.{
  slots_behind, slots_sent, kept, poll_loop, send, send_to, broadcast_loop,
}
use matrix_faces.Api.WsHub.Progress.{frame_step_bounds}

-- Less than the buffer holds, and no frame that could be taken out of it.
pub record IsSettled (buf : Bytes) : Type 0 where
  pub room : length buf < inbound_cap
  pub waiting : frame_step buf ≡ wait

abbrev Left : Option Bytes → Type 0
Left none = Unit
Left (some buf) = IsSettled buf

-- The three results of `frame_step`.
frame_step-cases :
    (buf : Bytes)
    → (frame_step buf ≡ wait)
      ⊎ ((code : ℕ) × (frame_step buf ≡ close code))
      ⊎ ((total opcode : ℕ) × (payload : Bytes) × (frame_step buf ≡ consume total opcode payload))
frame_step-cases buf = by_value (frame_step buf) refl
  where
    by_value :
        (s : FrameStep)
        → frame_step buf ≡ s
        → (frame_step buf ≡ wait)
          ⊎ ((code : ℕ) × (frame_step buf ≡ close code))
          ⊎ ((total opcode : ℕ) × (payload : Bytes) × (frame_step buf
                ≡ consume total opcode payload))
    by_value wait e = inl e
    by_value (close code) e = inr (inl (code, e))
    by_value (consume total opcode payload) e = inr (inr (total, opcode, payload, e))

drain_frames-IsSettled :
    (fuel : ℕ) (has_handler : Bool) (client : Option Peer) (slot : ℕ) (buf : Bytes) (messages : ℕ)
    → length buf < fuel
    → length buf < inbound_cap
    → Left (drain_frames fuel has_handler client slot buf messages).left
unfolding drain_frames after
drain_frames-IsSettled zero has_handler client slot buf messages enough room = absurd (omega arith)
drain_frames-IsSettled (suc fuel) has_handler client slot buf messages enough room =
    elim (frame_step-cases buf) [
      | inl e ↦ rw (e, drain_frames) (record { room = room; waiting = e })
      | inr (inl (code, e)) ↦ rw (e, drain_frames) tt
      | inr (inr (total, opcode, payload, e)) ↦
          let bounds = frame_step_bounds buf in
          let low : 2 ≤ total = rw e at bounds.0 in
          let high : total ≤ length buf = rw e at bounds.1 in
          let less = length-drop total buf in
          rw (e, drain_frames)
            (elim (dispatch has_handler client slot opcode payload)
              as (λ o.
                Left
                  (elim o as (λ _. Drained) [
                    | closing code ↦ record {
                      left = none;
                      events = close_connection client slot code;
                      messages = messages;
                    }
                    | going_on events more ↦ after events (
                        drain_frames fuel has_handler client slot (drop total buf)
                          ((messages + more) % 2 ^ 32))
                  ]).left) [
                    | closing code ↦ tt
                    | going_on events more ↦
                        drain_frames-IsSettled fuel has_handler client slot (drop total buf)
                          ((messages + more) % 2 ^ 32) (omega (arith, low, high, less, enough))
                          (omega (arith, less, room))
                  ])
    ]

serve-IsSettled :
    (has_handler : Bool) (peer : Peer) (slot : ℕ) (buf : Bytes) (messages : ℕ)
    → Left (serve has_handler peer slot buf messages).left
unfolding serve
serve-IsSettled has_handler peer slot buf messages =
    let filled : Bytes = fill buf peer.arrived in
    elim (Bool-cases (leb inbound_cap (length filled))) [
      | inl full ↦ rw (full, serve) tt
      | inr room ↦
          rw (room, serve)
            (drain_frames-IsSettled (suc (length filled)) has_handler (some peer) slot filled
              messages (omega arith) (ground arith))
    ]

Left-if : (b : Bool) (x y : Drained) → Left x.left → Left y.left → Left (if b then x else y).left
Left-if true x y hx hy = hx
Left-if false x y hx hy = hy

IsSettled-if :
    (b : Bool) (x y : Connection × List Event)
    → IsSettled x.0.buf
    → IsSettled y.0.buf
    → IsSettled (if b then x else y).0.buf
IsSettled-if true x y hx hy = hx
IsSettled-if false x y hx hy = hy

poll_connection-IsSettled :
    (has_handler : Bool) (retained : ℕ → Option Peer) (c : Connection) (messages : ℕ)
    → Left (poll_connection has_handler retained c messages).left
unfolding poll_connection
poll_connection-IsSettled has_handler retained c messages = elim (Option-cases c.slot) [
  | inl free ↦ rw (free, poll_connection) tt
  | inr (slot, taken) ↦ elim (Option-cases (retained slot)) [
    | inl gone ↦ rw (taken, gone, poll_connection) tt
    | inr (peer, found) ↦
        rw (taken, found, poll_connection)
          (Left-if (not peer.connected) _ _ tt
            (serve-IsSettled has_handler peer slot c.buf messages))
  ]
]

pub freed-IsSettled : IsSettled []
unfolding frame_step step_on parse_header
freed-IsSettled = record { room = omega arith; waiting = refl }

kept-IsSettled :
    (c : Connection) (left : Option Bytes)
    → IsSettled c.buf
    → Left left
    → IsSettled (kept c left).buf
unfolding kept
kept-IsSettled c none before after_call = elim (Option-cases c.slot) [
  | inl free ↦ rw (free, kept) before
  | inr (slot, taken) ↦ rw (taken, kept) freed-IsSettled
]
kept-IsSettled c (some buf) before after_call = elim (Option-cases c.slot) [
  | inl free ↦ rw (free, kept) before
  | inr (slot, taken) ↦ rw (taken, kept) after_call
]

abbrev pub AllSettled : List Connection → Type 0
AllSettled cs = All (λ (c : Connection). IsSettled c.buf) cs

pub poll_loop-AllSettled :
    (has_handler : Bool) (retained : ℕ → Option Peer) (cs : List Connection) (messages : ℕ)
    → AllSettled cs
    → AllSettled (poll_loop has_handler retained cs messages).0
      × (length (poll_loop has_handler retained cs messages).0 ≡ length cs)
unfolding poll_loop
poll_loop-AllSettled has_handler retained [] messages settled = (tt, refl)
poll_loop-AllSettled has_handler retained (c ∷ cs) messages (first, later) =
    let d = poll_connection has_handler retained c messages in
    let held = slots_behind c d.left retained in
    let (rest, size) = poll_loop-AllSettled has_handler held cs d.messages later in
    (
      (
        kept-IsSettled c d.left first (poll_connection-IsSettled has_handler retained c messages),
        rest,
      ),
      ap suc size,
    )

send_to-IsSettled :
    (retained : ℕ → Option Peer) (header text : Bytes) (c : Connection)
    → IsSettled c.buf
    → IsSettled (send_to retained header text c).0.buf
unfolding send_to
send_to-IsSettled retained header text c settled = elim (Option-cases c.slot) [
  | inl free ↦ rw (free, send_to) settled
  | inr (slot, taken) ↦ elim (Option-cases (retained slot)) [
    | inl gone ↦ rw (taken, gone, send_to) freed-IsSettled
    | inr (peer, found) ↦
        rw (taken, found, send_to)
          (IsSettled-if (not peer.connected) _ _ freed-IsSettled
            (IsSettled-if (send peer slot header text).0 _ _ settled freed-IsSettled))
  ]
]

pub broadcast_loop-AllSettled :
    (retained : ℕ → Option Peer) (header text : Bytes) (cs : List Connection)
    → AllSettled cs
    → AllSettled (broadcast_loop retained header text cs).0
      × (length (broadcast_loop retained header text cs).0 ≡ length cs)
unfolding broadcast_loop
broadcast_loop-AllSettled retained header text [] settled = (tt, refl)
broadcast_loop-AllSettled retained header text (c ∷ cs) (first, later) =
    let held = slots_sent c (send_to retained header text c).0 retained in
    let (rest, size) = broadcast_loop-AllSettled held header text cs later in
    ((send_to-IsSettled retained header text c first, rest), ap suc size)
