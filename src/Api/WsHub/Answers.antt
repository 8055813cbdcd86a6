-- ===== src/Api/WsHub/Answers.antt =====
-- src/api/ws_hub.cpp: what the loop over a buffer makes of a part of a stream of frames.
use matrix_faces.Common.{
  ℕ, zero, suc, ◌+◌, ◌%◌, ◌^◌, ◌<◌, ◌≡◌, refl, ap, ◌∙◌, arith, true, List, [], ◌∷◌, ◌++◌, some, ltb,
  ◌==◌, if◌then◌else◌, Bytes, length, length-append, drop-append, All, Bool-cases, inl, inr,
}
use matrix_faces.Api.WebSocket.Frame.{encode_pong, parse_header}
use matrix_faces.Api.WsHub.{
  Peer, Event, handled, wrote, write, wait, frame_step, step_on, going_on, dispatch, Drained, after,
  drain_frames,
}
use matrix_faces.Api.WsHub.Frames.{
  ClientFrame, IsFrame, frame_bytes, stream, frame_step-whole, frame_step-part, append-split,
  length-masked,
}

-- What the board owes a frame: a text goes to the handler, a ping is answered with a pong of its
-- payload, a pong with nothing.
unfoldable pub answer : ℕ → ClientFrame → List Event
answer slot f =
    if f.opcode == 1
    then handled f.payload ∷ []
    else if f.opcode == 9
    then wrote slot (0x8A ∷ length f.payload ∷ f.payload) ∷ []
    else []

unfoldable pub answers : ℕ → List ClientFrame → List Event
answers slot [] = []
answers slot (f ∷ fs) = answer slot f ++ answers slot fs

abbrev pub new_messages : ClientFrame → ℕ
new_messages f = if f.opcode == 1 then 1 else 0

-- The 32-bit counter after the frames.
unfoldable pub counted : ℕ → List ClientFrame → ℕ
counted messages [] = messages
counted messages (f ∷ fs) = counted ((messages + new_messages f) % 2 ^ 32) fs

pub dispatch-IsFrame :
    (peer : Peer) (slot : ℕ) (f : ClientFrame)
    → IsFrame f
    → dispatch true (some peer) slot f.opcode f.payload ≡ going_on (answer slot f) (new_messages f)
unfolding dispatch answer write encode_pong
dispatch-IsFrame peer slot f form =
    let short = form.short in
    elim form.known [
      | inl e ↦ rw e refl
      | inr (inl e) ↦ rw e (ground arith)
      | inr (inr e) ↦ rw e refl
    ]

pub drain_frames-wait :
    (fuel : ℕ) (peer : Peer) (slot : ℕ) (buf : Bytes) (messages : ℕ)
    → frame_step buf ≡ wait
    → drain_frames (suc fuel) true (some peer) slot buf messages
      ≡ record { left = some buf; events = []; messages = messages }
unfolding drain_frames
drain_frames-wait fuel peer slot buf messages e = rw (e, drain_frames) refl

pub drain_frames-frame :
    (fuel : ℕ) (peer : Peer) (slot : ℕ) (f : ClientFrame) (rest : Bytes) (messages : ℕ)
    → IsFrame f
    → drain_frames (suc fuel) true (some peer) slot (frame_bytes f ++ rest) messages
      ≡ after
          (answer slot f)
          (drain_frames fuel true (some peer) slot rest ((messages + new_messages f) % 2 ^ 32))
unfolding drain_frames
drain_frames-frame fuel peer slot f rest messages form =
    rw (frame_step-whole f rest form, dispatch-IsFrame peer slot f form, drain_frames)
      (ap
        (λ q.
          after (answer slot f)
            (drain_frames fuel true (some peer) slot q ((messages + new_messages f) % 2 ^ 32)))
        (drop-append (frame_bytes f) rest))

-- Less than the first frame.
abbrev pub Partial : Bytes → List ClientFrame → Type 0
Partial buf [] = Unit
Partial buf (f ∷ fs) = length buf < length (frame_bytes f)

-- What draining a part of the stream does: it answers the frames that are whole, and leaves less
-- than a frame.
pub record Progress (slot : ℕ) (fs : List ClientFrame) (rest : Bytes) (messages : ℕ) (d : Drained)
    : Type 0 where
  pub left : Bytes
  pub past : List ClientFrame
  pub future : List ClientFrame
  pub cut : fs ≡ past ++ future
  pub drained :
      d ≡ record { left = some left; events = answers slot past; messages = counted messages past }
  pub ahead : left ++ rest ≡ stream future
  pub part : Partial left future
  pub short : length left < 132

pub drain_frames-stream :
    (fuel : ℕ) (peer : Peer) (slot : ℕ) (fs : List ClientFrame) (s rest : Bytes) (messages : ℕ)
    → All IsFrame fs
    → s ++ rest ≡ stream fs
    → length s < fuel
    → Progress slot fs rest messages (drain_frames fuel true (some peer) slot s messages)
unfolding answers counted after frame_step step_on parse_header
drain_frames-stream zero peer slot fs s rest messages forms e room = absurd (omega arith)
drain_frames-stream (suc fuel) peer slot [] (c ∷ s) rest messages forms e room = cc
drain_frames-stream (suc fuel) peer slot [] [] rest messages forms e room = record {
  left = [];
  past = [];
  future = [];
  cut = refl;
  drained = drain_frames-wait fuel peer slot [] messages refl;
  ahead = e;
  part = tt;
  short = omega arith;
}
drain_frames-stream (suc fuel) peer slot (f ∷ fs) s rest messages (form, forms) e room =
    elim (Bool-cases (ltb (length s) (length (frame_bytes f)))) [
      | inl part ↦
          let part' : length s < length (frame_bytes f) = ground arith in
          let size = length-masked f in
          let small = form.short in
          record {
            left = s;
            past = [];
            future = f ∷ fs;
            cut = refl;
            drained =
                drain_frames-wait fuel peer slot s messages
                  (frame_step-part f s rest (stream fs) form e part');
            ahead = e;
            part = part';
            short = omega (arith, part', size, small);
          }
      | inr whole ↦
          let (t, same, behind) =
            append-split s rest (frame_bytes f) (stream fs) e (ground arith) in
          let size = ap length same in
          let long = length-append (frame_bytes f) t in
          let next : ℕ = (messages + new_messages f) % 2 ^ 32 in
          let ih =
            drain_frames-stream fuel peer slot fs t rest next forms behind
              (omega (arith, room, size, long)) in
          record {
            left = ih.left;
            past = f ∷ ih.past;
            future = ih.future;
            cut = ap (◌∷◌ f) ih.cut;
            drained =
                ap (λ q. drain_frames (suc fuel) true (some peer) slot q messages) same
                ∙ drain_frames-frame fuel peer slot f t messages form
                ∙ ap (after (answer slot f)) ih.drained;
            ahead = ih.ahead;
            part = ih.part;
            short = ih.short;
          }
    ]
