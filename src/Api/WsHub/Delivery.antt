-- ===== src/Api/WsHub/Delivery.antt =====
-- src/api/ws_hub.cpp: whatever pieces a client's frames arrive in, each is answered once, in order.
use matrix_faces.Common.{
  ℕ, suc, ◌+◌, ◌-◌, ◌%◌, ◌^◌, ◌<◌, ◌≤◌, ◌≡◌, refl, sym, ap, ap₂, ◌∙◌, subst, arith, true, List, [],
  ◌∷◌, ◌++◌, append_assoc, none, some, Bytes, length, take, take_all, length-append, All,
  All-append_right,
}
use matrix_faces.Api.WsHub.{
  Peer, Connection, Drained, after, drain_frames, inbound_cap, fill, serve, poll_connection,
}
use matrix_faces.Api.WsHub.Frames.{ClientFrame, IsFrame, frame_bytes, stream}
use matrix_faces.Api.WsHub.Answers.{
  answer, answers, new_messages, counted, Partial, drain_frames-stream,
}

-- What later polls make of one that leaves the connection open.
unfoldable pub followed_by : (Bytes → ℕ → Drained) → Drained → Drained
followed_by later d = elim d.left [ none ↦ d | some buf ↦ after d.events (later buf d.messages) ]

-- Polls of one connection after another, as long as it is open.
unfoldable pub polls : ℕ → List Peer → Bytes → ℕ → Drained
polls slot [] buf messages = record { left = some buf; events = []; messages = messages }
polls slot (peer ∷ peers) buf messages =
    let c : Connection = record { slot = some slot; buf = buf } in
    followed_by (λ buf' total. polls slot peers buf' total)
      (poll_connection true (λ _. some peer) c messages)

-- The bytes of all polls.
abbrev pub arrived_all : List Peer → Bytes
arrived_all [] = []
arrived_all (p ∷ ps) = p.arrived ++ arrived_all ps

abbrev pub IsPiece : Peer → Type 0
IsPiece p = (p.connected ≡ true) × (length p.arrived ≤ 124)

poll_connection-IsPiece :
    (peer : Peer) (slot : ℕ) (buf : Bytes) (messages : ℕ)
    → IsPiece peer
    → length buf < 132
    → poll_connection true (λ _. some peer) (record { slot = some slot; buf = buf }) messages
      ≡ drain_frames
          (suc (length (buf ++ peer.arrived)))
          true
          (some peer)
          slot
          (buf ++ peer.arrived)
          messages
unfolding poll_connection serve fill
poll_connection-IsPiece peer slot buf messages (open_now, piece) short =
    let long = length-append buf peer.arrived in
    let whole : take (inbound_cap - length buf) peer.arrived ≡ peer.arrived =
      take_all (inbound_cap - length buf) peer.arrived (omega (arith, piece, short)) in
    rw (open_now, whole, poll_connection, serve) (ground (arith, long))

answers-append :
    (slot : ℕ) (fs gs : List ClientFrame)
    → answers slot (fs ++ gs) ≡ answers slot fs ++ answers slot gs
unfolding answers
answers-append slot [] gs = refl
answers-append slot (f ∷ fs) gs =
    ap (◌++◌ (answer slot f)) (answers-append slot fs gs)
    ∙ sym (append_assoc (answer slot f) (answers slot fs) (answers slot gs))

counted-append :
    (messages : ℕ) (fs gs : List ClientFrame)
    → counted messages (fs ++ gs) ≡ counted (counted messages fs) gs
unfolding counted
counted-append messages [] gs = refl
counted-append messages (f ∷ fs) gs = counted-append ((messages + new_messages f) % 2 ^ 32) fs gs

-- Nothing is left when nothing more comes.
nothing_left :
    (fs : List ClientFrame) (buf : Bytes)
    → buf ++ [] ≡ stream fs
    → Partial buf fs
    → (buf ≡ []) × (fs ≡ [])
nothing_left [] [] e part = (refl, refl)
nothing_left [] (c ∷ buf) e part = cc
nothing_left (f ∷ fs) buf e part =
    let size = ap length e in
    let left = length-append buf [] in
    let right = length-append (frame_bytes f) (stream fs) in
    absurd (omega (arith, size, left, right, part))

polls-Partial :
    (peers : List Peer) (slot : ℕ) (fs : List ClientFrame) (buf : Bytes) (messages : ℕ)
    → All IsFrame fs
    → All IsPiece peers
    → buf ++ arrived_all peers ≡ stream fs
    → Partial buf fs
    → length buf < 132
    → polls slot peers buf messages
      ≡ record { left = some []; events = answers slot fs; messages = counted messages fs }
unfolding polls followed_by after answers counted
polls-Partial [] slot fs buf messages forms pieces e part short =
    let (empty, over) = nothing_left fs buf e part in rw (empty, over) refl
polls-Partial (peer ∷ peers) slot fs buf messages forms (piece, pieces) e part short =
    let s : Bytes = buf ++ peer.arrived in
    let whole = append_assoc buf peer.arrived (arrived_all peers) in
    let got = poll_connection-IsPiece peer slot buf messages piece short in
    let p =
      drain_frames-stream (suc (length s)) peer slot fs s (arrived_all peers) messages forms
        (whole ∙ e) (omega arith) in
    let future_forms : All IsFrame p.future =
      All-append_right IsFrame p.past p.future (subst (All IsFrame) p.cut forms) in
    let ih =
      polls-Partial peers slot p.future p.left (counted messages p.past) future_forms pieces p.ahead
        p.part p.short in
    ap (followed_by (λ buf' total. polls slot peers buf' total)) (got ∙ p.drained)
    ∙ ap (after (answers slot p.past)) ih
    ∙ ap₂ (λ events total. record { left = some []; events = events; messages = total })
        (sym (answers-append slot p.past p.future)) (sym (counted-append messages p.past p.future))
    ∙ ap (λ gs. record { left = some []; events = answers slot gs; messages = counted messages gs })
        (sym p.cut)

-- Frames of a client arrive in whatever pieces, one at each poll, each of 124 bytes at most, and
-- all of them in the end. Then the connection stays open with nothing left over, every text has
-- gone to the handler unmasked, once and in order, every ping has been answered with a pong of its
-- payload, and the counter has the number of texts. A frame here is a whole text, ping or pong with
-- a payload of 125 bytes at most.
pub polls-stream :
    (slot : ℕ) (peers : List Peer) (fs : List ClientFrame) (messages : ℕ)
    → All IsFrame fs
    → All IsPiece peers
    → arrived_all peers ≡ stream fs
    → polls slot peers [] messages
      ≡ record { left = some []; events = answers slot fs; messages = counted messages fs }
polls-stream slot peers [] messages forms pieces e =
    polls-Partial peers slot [] [] messages forms pieces e tt (omega arith)
polls-stream slot peers (f ∷ fs) messages forms pieces e =
    polls-Partial peers slot (f ∷ fs) [] messages forms pieces e (omega arith) (omega arith)
