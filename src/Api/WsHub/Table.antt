-- ===== src/Api/WsHub/Table.antt =====
-- src/api/ws_hub.cpp: the operations on the table of connections.
use matrix_faces.Common.{
  ℕ, ◌+◌, ◌-◌, drop, Bool, true, false, not, List, [], ◌∷◌, ◌++◌, Option, none, some, ◌==◌,
  if◌then◌else◌, Bytes, length, replicate, map,
}
use matrix_faces.Api.WebSocket.Frame.{encode_header}
use matrix_faces.Api.WsHub.{
  max_connections, max_server_header, inbound_cap, Connection, WsHub, Peer, Event, freed,
  poll_connection, wrote, released,
}

-- The connection with what was left of its buffer; a free entry is passed over.
unfoldable pub kept : Connection → Option Bytes → Connection
kept c left = elim c.slot [
  | none ↦ c
  | some _ ↦ elim left [ none ↦ freed | some buf ↦ record c { buf = buf } ]
]

-- What the slots hold once one is released.
unfoldable pub without : ℕ → (ℕ → Option Peer) → ℕ → Option Peer
without slot retained other = if other == slot then none else retained other

-- What the slots hold once the bytes that the read loop of `poll` took are gone.
unfoldable pub read_off : ℕ → Bytes → (ℕ → Option Peer) → ℕ → Option Peer
read_off slot buf retained other =
    if not (other == slot) then retained other else elim (retained slot) [
      | none ↦ none
      | some peer ↦ some (record peer { arrived = drop (inbound_cap - length buf) peer.arrived })
    ]

-- What the slots hold when a connection has been polled, given what was left of it.
unfoldable pub slots_behind : Connection → Option Bytes → (ℕ → Option Peer) → ℕ → Option Peer
slots_behind c left retained = elim c.slot [
  | none ↦ retained
  | some slot ↦ elim left [ none ↦ without slot retained | some _ ↦ read_off slot c.buf retained ]
]

unfoldable pub poll_loop :
    Bool → (ℕ → Option Peer) → List Connection → ℕ → List Connection × List Event × ℕ
poll_loop has_handler retained [] messages = ([], [], messages)
poll_loop has_handler retained (c ∷ cs) messages =
    let d = poll_connection has_handler retained c messages in
    let held = slots_behind c d.left retained in
    let (rest, events, total) = poll_loop has_handler held cs d.messages in
    (kept c d.left ∷ rest, d.events ++ events, total)

-- `poll`.
unfoldable pub poll : (ℕ → Option Peer) → WsHub → WsHub × List Event
poll retained hub =
    let (connections, events, messages) =
      poll_loop hub.has_handler retained hub.connections hub.messages_received in
    (record hub { connections = connections; messages_received = messages }, events)

-- The first entry that is free takes the slot.
unfoldable pub adopt_first : ℕ → List Connection → Option (List Connection)
adopt_first slot [] = none
adopt_first slot (c ∷ cs) =
    let later = adopt_first slot cs in
    elim c.slot [
      | none ↦ some (record { slot = some slot; buf = [] } ∷ cs)
      | some _ ↦ elim later [ none ↦ none | some cs' ↦ some (c ∷ cs') ]
    ]

-- The free marker, written at the first call.
unfoldable pub initialise : WsHub → WsHub
initialise hub = if hub.initialised then hub else record hub {
  connections = map (λ (c : Connection). record c { slot = none }) hub.connections;
  initialised = true;
}

-- `adopt`; no slot is a negative one.
unfoldable pub adopt : Option ℕ → WsHub → Bool × WsHub
adopt none hub = (false, hub)
adopt (some slot) hub =
    let ready = initialise hub in
    elim (adopt_first slot ready.connections) [
      | none ↦ (false, ready)
      | some connections ↦ (true, record ready { connections = connections })
    ]

-- `count`.
unfoldable pub count_open : List Connection → ℕ
count_open [] = 0
count_open (c ∷ cs) = elim c.slot [ none ↦ count_open cs | some _ ↦ count_open cs + 1 ]

unfoldable pub count : WsHub → ℕ
count hub = count_open hub.connections

-- The two writes of `broadcast`: the second only when the first took it all. The flag says whether
-- both did.
unfoldable pub send : Peer → ℕ → Bytes → Bytes → Bool × List Event
send peer slot header text =
    if not (peer.takes header == length header)
    then (false, wrote slot header ∷ [])
    else if not (peer.takes text == length text)
    then (false, wrote slot header ∷ wrote slot text ∷ [])
    else (true, wrote slot header ∷ wrote slot text ∷ [])

unfoldable pub send_to : (ℕ → Option Peer) → Bytes → Bytes → Connection → Connection × List Event
send_to retained header text c = elim c.slot [
  | none ↦ (c, [])
  | some slot ↦ elim (retained slot) [
    | none ↦ (freed, released slot ∷ [])
    | some peer ↦
        if not peer.connected
        then (freed, released slot ∷ [])
        else (let (sent, events) = send peer slot header text in
            if sent then (c, events) else (freed, events ++ released slot ∷ []))
  ]
]

-- What the slots hold when a connection has been written to, given the entry behind it.
unfoldable pub slots_sent : Connection → Connection → (ℕ → Option Peer) → ℕ → Option Peer
slots_sent c c' retained = elim c.slot [
  | none ↦ retained
  | some slot ↦ elim c'.slot [ none ↦ without slot retained | some _ ↦ retained ]
]

unfoldable pub broadcast_loop :
    (ℕ → Option Peer) → Bytes → Bytes → List Connection → List Connection × List Event
broadcast_loop retained header text [] = ([], [])
broadcast_loop retained header text (c ∷ cs) =
    let (c', events) = send_to retained header text c in
    let held = slots_sent c c' retained in
    let (rest, more) = broadcast_loop held header text cs in (c' ∷ rest, events ++ more)

-- `broadcast`.
unfoldable pub broadcast : (ℕ → Option Peer) → Bytes → WsHub → WsHub × List Event
broadcast retained text hub =
    if length text == 0 then (hub, []) else elim (encode_header max_server_header 1 (length text)) [
      | none ↦ (hub, [])
      | some header ↦
          let (connections, events) = broadcast_loop retained header text hub.connections in
          (record hub { connections = connections }, events)
    ]

-- The hub as it is constructed: the table is zero-initialised, and zero is a slot.
unfoldable pub fresh_hub : Bool → WsHub
fresh_hub has_handler = record {
  has_handler = has_handler;
  connections = replicate max_connections (record { slot = some 0; buf = [] });
  initialised = false;
  messages_received = 0;
}
