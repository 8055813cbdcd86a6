-- ===== src/Api/WsTicket.antt =====
-- src/api/ws_ticket.cpp: short-lived tickets, each good for one WebSocket.
pub mod SingleUse
pub mod Redeem
use matrix_faces.Common.{
  ℕ, ◌+◌, ◌-◌, ◌%◌, ◌^◌, Bool, true, false, not, ◌&&◌, ◌||◌, List, [], ◌∷◌, none, some, ltb, ◌==◌,
  if◌then◌else◌, Bytes, bytes_eq, length, set,
}
use matrix_faces.ApiAuth.Hex.{to_hex, from_hex}

abbrev pub ticket_bytes : ℕ
ticket_bytes = 8

abbrev pub ticket_hex_len : ℕ
ticket_hex_len = 16

abbrev pub lifetime_seconds : ℕ
lifetime_seconds = 10

abbrev pub max_tickets : ℕ
max_tickets = 4

pub record Ticket : Type 0 where
  pub bytes : Bytes
  pub issued_at_s : ℕ
  pub used : Bool
  pub live : Bool

pub record WsTicketStore : Type 0 where
  pub tickets : List Ticket
  pub next : ℕ

abbrev no_ticket : Ticket
no_ticket = record { bytes = []; issued_at_s = 0; used = false; live = false }

-- A store as it is constructed.
abbrev pub empty_store : WsTicketStore
empty_store = record { tickets = no_ticket ∷ no_ticket ∷ no_ticket ∷ no_ticket ∷ []; next = 0 }

abbrev pub new_ticket : Bytes → ℕ → Ticket
new_ticket bytes now = record { bytes = bytes; issued_at_s = now; used = false; live = true }

-- `issue`: the new store and what is written to `hexOut`.
unfoldable pub issue : WsTicketStore → Bytes → ℕ → WsTicketStore × Bytes
issue s bytes now = (
  record {
    tickets = set s.tickets s.next (new_ticket bytes now);
    next = (s.next + 1) % max_tickets;
  },
  to_hex bytes,
)

-- `static_cast<int32_t>(nowS - issuedAtS) > kLifetimeSeconds`.
abbrev pub expired : ℕ → ℕ → Bool
expired now issued_at =
    let age = (now + 2 ^ 32 - issued_at) % 2 ^ 32 in ltb lifetime_seconds age && ltb age (2 ^ 31)

-- A ticket that `consume` passes over.
abbrev pub skips : Bytes → Ticket → Bool
skips bytes t = not t.live || t.used || not (bytes_eq t.bytes bytes)

-- The loop of `consume`.
unfoldable pub consume_slots : Bytes → ℕ → List Ticket → Bool × List Ticket
consume_slots bytes now [] = (false, [])
consume_slots bytes now (t ∷ ts) =
    let (found, ts') = consume_slots bytes now ts in
    if skips bytes t
    then (found, t ∷ ts')
    else if expired now t.issued_at_s
    then (false, t ∷ ts)
    else (true, record t { used = true } ∷ ts)

-- `consume` on a string; `nullptr` is refused before.
unfoldable pub consume : WsTicketStore → Bytes → ℕ → Bool × WsTicketStore
consume s hex now =
    if not (length hex == ticket_hex_len) then (false, s) else elim (from_hex hex ticket_bytes) [
      | none ↦ (false, s)
      | some bytes ↦
          let (found, slots) = consume_slots bytes now s.tickets in
          (found, record s { tickets = slots })
    ]
