-- ===== src/Api/WsHub.antt =====
-- src/api/ws_hub.cpp: the open WebSocket connections.
-- `net_link::retained` and the sockets behind it are what a call finds: a Peer per slot. The lock
-- makes each call one step.
pub mod Answers
pub mod Calls
pub mod Delivery
pub mod Frames
pub mod Settled
pub mod Progress
pub mod Table
use matrix_faces.Common.{
  ℕ, zero, suc, ◌+◌, ◌-◌, ◌%◌, ◌^◌, Bool, true, false, not, ◌&&◌, ◌||◌, List, [], ◌∷◌, ◌++◌, Option,
  none, some, ltb, leb, ◌==◌, if◌then◌else◌, Bytes, length, take, drop, replicate, map,
}
use matrix_faces.Api.WebSocket.Frame.{
  FrameHeader, ParseResult, ok, incomplete, unsupported, parse_header, unmask, encode_header,
  encode_close, encode_pong,
}

-- `kMaxConnections`.
abbrev pub max_connections : ℕ
max_connections = 4

-- `kInboundCap`.
abbrev pub inbound_cap : ℕ
inbound_cap = 256

abbrev pub close_normal : ℕ
close_normal = 1000

abbrev pub close_protocol_error : ℕ
close_protocol_error = 1002

abbrev pub close_too_big : ℕ
close_too_big = 1009

-- `kMaxControlFrame` and `kMaxServerHeader`.
abbrev pub max_control_frame : ℕ
max_control_frame = 127

abbrev pub max_server_header : ℕ
max_server_header = 4

-- `slot` is none for -1. The first `len` bytes of the buffer are `buf`.
pub record Connection : Type 0 where
  pub slot : Option ℕ
  pub buf : Bytes

pub record WsHub : Type 0 where
  pub has_handler : Bool
  pub connections : List Connection
  pub initialised : Bool
  pub messages_received : ℕ

-- What a retained client does in this call: whether it is connected, the bytes that `read` gives
-- while `available` is not zero, and how many bytes of a frame `write` takes.
pub record Peer : Type 0 where
  pub connected : Bool
  pub arrived : Bytes
  pub takes : Bytes → ℕ

-- What a call does to the world: the handler is called, a client is written to, a slot given back.
pub data Event : Type 0 where
  handled : Bytes → Event
  wrote : ℕ → Bytes → Event
  released : ℕ → Event

abbrev pub freed : Connection
freed = record { slot = none; buf = [] }

-- A write to a client, if there is one and a frame to write.
unfoldable pub write : Option Peer → ℕ → Option Bytes → List Event
write none slot frame = []
write (some client) slot none = []
write (some client) slot (some frame) = wrote slot frame ∷ []

-- `closeConnection`: the events; the connection is `freed` then.
unfoldable pub close_connection : Option Peer → ℕ → ℕ → List Event
close_connection client slot code =
    write client slot (encode_close max_control_frame code) ++ released slot ∷ []

-- What the frame at the front of the buffer leads to.
pub data FrameStep : Type 0 where
  wait : FrameStep
  close : ℕ → FrameStep
  consume : ℕ → ℕ → Bytes → FrameStep

-- The tests of `drainFrames` before the switch, on what the header says; `consume` has the frame's
-- length, its opcode and its unmasked payload.
unfoldable pub step_on : Bytes → ParseResult → FrameStep
step_on buf incomplete = wait
step_on buf unsupported = close close_protocol_error
step_on buf (ok h) =
    if not h.masked
    then close close_protocol_error
    else if ltb (inbound_cap - h.header_len) h.payload_len
    then close close_too_big
    else if ltb (length buf) (h.header_len + h.payload_len)
    then wait
    else consume (h.header_len + h.payload_len) h.opcode
        (unmask (take h.payload_len (drop h.header_len buf)) h.mask_key 0)

unfoldable pub frame_step : Bytes → FrameStep
frame_step buf = step_on buf (parse_header buf)

-- The switch on the opcode: the connection is closed with a code, or the loop goes on after some
-- events, with one more message or not.
pub data Outcome : Type 0 where
  closing : ℕ → Outcome
  going_on : List Event → ℕ → Outcome

unfoldable pub dispatch : Bool → Option Peer → ℕ → ℕ → Bytes → Outcome
dispatch has_handler client slot opcode payload =
    if opcode == 1
    then going_on (if has_handler then handled payload ∷ [] else []) 1
    else if opcode == 9
    then going_on (write client slot (encode_pong max_control_frame payload)) 0
    else if opcode == 8
    then closing close_normal
    else if opcode == 2 || opcode == 0
    then closing close_protocol_error
    else going_on [] 0

-- What is left of the connection's buffer (`none` when it was closed), what was done, and
-- `messagesReceived_`.
pub record Drained : Type 0 where
  pub left : Option Bytes
  pub events : List Event
  pub messages : ℕ

unfoldable pub after : List Event → Drained → Drained
after events d = record d { events = events ++ d.events }

-- `drainFrames`. A frame takes a byte at least, so that one unit of fuel more than the length is
-- enough.
unfoldable pub drain_frames : ℕ → Bool → Option Peer → ℕ → Bytes → ℕ → Drained
drain_frames zero has_handler client slot buf messages = record {
  left = some buf;
  events = [];
  messages = messages;
}
drain_frames (suc fuel) has_handler client slot buf messages = elim (frame_step buf) [
  | wait ↦ record { left = some buf; events = []; messages = messages }
  | close code ↦ record {
    left = none;
    events = close_connection client slot code;
    messages = messages;
  }
  | consume total opcode payload ↦ elim (dispatch has_handler client slot opcode payload) [
    | closing code ↦ record {
      left = none;
      events = close_connection client slot code;
      messages = messages;
    }
    | going_on events more ↦
        after events
          (drain_frames fuel has_handler client slot (drop total buf) ((messages + more) % 2 ^ 32))
  ]
]

-- The bytes that the read loop of `poll` adds.
unfoldable pub fill : Bytes → Bytes → Bytes
fill buf arrived = buf ++ take (inbound_cap - length buf) arrived

-- `poll` behind the test of the client.
unfoldable pub serve : Bool → Peer → ℕ → Bytes → ℕ → Drained
serve has_handler peer slot buf messages =
    let filled = fill buf peer.arrived in
    if leb inbound_cap (length filled)
    then record {
      left = none;
      events = close_connection (some peer) slot close_too_big;
      messages = messages;
    }
    else drain_frames (suc (length filled)) has_handler (some peer) slot filled messages

-- One connection of the loop in `poll`.
unfoldable pub poll_connection : Bool → (ℕ → Option Peer) → Connection → ℕ → Drained
poll_connection has_handler retained c messages = elim c.slot [
  | none ↦ record { left = none; events = []; messages = messages }
  | some slot ↦ elim (retained slot) [
    | none ↦ record { left = none; events = released slot ∷ []; messages = messages }
    | some peer ↦
        if not peer.connected
        then record { left = none; events = released slot ∷ []; messages = messages }
        else serve has_handler peer slot c.buf messages
  ]
]
