-- ===== src/Tests/WsHub.antt =====
-- src/api/ws_hub.cpp on two frames that arrive in three pieces, and on a short run.
use matrix_faces.Common.{
  ◌+◌, ◌≡◌, refl, arith, true, List, [], ◌∷◌, none, some, ltb, if◌then◌else◌, Bytes, codes, length,
  inl, inr,
}
use matrix_faces.Api.WsHub.{WsHub, Peer, freed}
use matrix_faces.Api.WsHub.Table.{adopt, count, fresh_hub}
use matrix_faces.Api.WsHub.Frames.{ClientFrame, stream}
use matrix_faces.Api.WsHub.Answers.{answers, counted}
use matrix_faces.Api.WsHub.Delivery.{polls, polls-stream, arrived_all}
use matrix_faces.Api.WsHub.Calls.{
  adopting, polling, sending, perform_all, IsSound, perform_all-IsSound, adopt-count,
}

abbrev peer : Bytes → Peer
peer bytes = record { connected = true; arrived = bytes; takes = length }

abbrev text_frame : ClientFrame
text_frame = record { opcode = 1; key0 = 1; key1 = 2; key2 = 4; key3 = 8; payload = codes "abcde" }

abbrev ping_frame : ClientFrame
ping_frame = record { opcode = 9; key0 = 1; key1 = 2; key2 = 3; key3 = 4; payload = [] }

abbrev frames : List ClientFrame
frames = text_frame ∷ ping_frame ∷ []

abbrev pieces : List Peer
pieces =
    peer (0x81 ∷ 0x85 ∷ 1 ∷ [])
    ∷ peer (2 ∷ 4 ∷ 8 ∷ 96 ∷ 96 ∷ 103 ∷ 108 ∷ 100 ∷ 0x89 ∷ [])
    ∷ peer (0x80 ∷ 1 ∷ 2 ∷ 3 ∷ 4 ∷ [])
    ∷ []

pieces-stream : arrived_all pieces ≡ stream frames
pieces-stream = refl

polls-stream_example :
    polls 3 pieces [] 7
    ≡ record { left = some []; events = answers 3 frames; messages = counted 7 frames }
polls-stream_example =
    polls-stream 3 pieces frames 7
      (
        record { known = inl refl; short = omega arith },
        (record { known = inr (inl refl); short = omega arith }, tt),
      )
      ((refl, omega arith), ((refl, omega arith), ((refl, omega arith), tt))) pieces-stream

perform_all-IsSound_example : IsSound (
    perform_all
      (adopting (some 2) ∷ polling (λ _. some (peer (codes "x"))) ∷ sending (λ _. none) [] ∷ [])
      (fresh_hub true))
perform_all-IsSound_example =
    perform_all-IsSound
      (adopting (some 2) ∷ polling (λ _. some (peer (codes "x"))) ∷ sending (λ _. none) [] ∷ [])
      true

-- A table with one entry taken.
abbrev hub : WsHub
hub = record {
  has_handler = true;
  connections = record { slot = some 1; buf = [] } ∷ freed ∷ freed ∷ freed ∷ [];
  initialised = true;
  messages_received = 0;
}

adopt-count_example :
    ((adopt (some 2) hub).0 ≡ ltb (count hub) (length hub.connections))
    × (count (adopt (some 2) hub).1
        ≡ (if ltb (count hub) (length hub.connections) then count hub + 1 else count hub))
adopt-count_example = adopt-count 2 hub refl
