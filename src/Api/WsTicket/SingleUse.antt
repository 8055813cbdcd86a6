-- ===== src/Api/WsTicket/SingleUse.antt =====
-- src/api/ws_ticket.cpp: no ticket opens two sockets.
use matrix_faces.Common.{
  ℕ, zero, suc, ◌+◌, ◌≤◌, ◌≡◌, refl, arith, Bool, false, not, ◌&&◌, Option-cases, inl, inr, List,
  [], ◌∷◌, none, some, if◌then◌else◌, Bytes, bytes_eq, bytes_eq_iff, set,
}
use matrix_faces.ApiAuth.Hex.{from_hex}
use matrix_faces.Api.WsTicket.{
  Ticket, WsTicketStore, empty_store, ticket_bytes, new_ticket, skips, issue, consume_slots,
  consume,
}

abbrev pub one_if : Bool → ℕ
one_if b = if b then 1 else 0

-- The slots that hold a live, unused ticket with these bytes.
unfoldable pub redeemable : Bytes → List Ticket → ℕ
redeemable bytes [] = 0
redeemable bytes (t ∷ ts) = one_if (not (skips bytes t)) + redeemable bytes ts

redeemable-set :
    (bytes new : Bytes) (now i : ℕ) (ts : List Ticket)
    → redeemable bytes (set ts i (new_ticket new now))
      ≤ redeemable bytes ts + one_if (bytes_eq new bytes)
unfolding redeemable
redeemable-set bytes new now i [] = omega arith
redeemable-set bytes new now zero (t ∷ ts) = ground arith
redeemable-set bytes new now (suc i) (t ∷ ts) = ground (arith, redeemable-set bytes new now i ts)

-- A redemption uses up one ticket, of its own bytes and no other; a refusal uses up none.
redeemable-consume_slots :
    (bytes wanted : Bytes) (now : ℕ) (ts : List Ticket)
    → let (found, ts') = consume_slots wanted now ts in
      redeemable bytes ts' + one_if (found && bytes_eq wanted bytes) ≡ redeemable bytes ts
unfolding redeemable consume_slots
redeemable-consume_slots bytes wanted now [] = refl
redeemable-consume_slots bytes wanted now (t ∷ ts) = ground (
  arith,
  redeemable-consume_slots bytes wanted now ts,
  bytes_eq_iff t.bytes wanted,
  bytes_eq_iff t.bytes bytes,
  bytes_eq_iff wanted bytes,
)

-- The string `hex` is the ticket with these bytes.
pub denotes : Bytes → Bytes → Bool
denotes hex bytes = elim (from_hex hex ticket_bytes) [
  | none ↦ false
  | some wanted ↦ bytes_eq wanted bytes
]

redeemable-consume :
    (bytes hex : Bytes) (now : ℕ) (s : WsTicketStore)
    → let (found, s') = consume s hex now in
      redeemable bytes s'.tickets + one_if (found && denotes hex bytes) ≡ redeemable bytes s.tickets
unfolding consume denotes
redeemable-consume bytes hex now s = elim (Option-cases (from_hex hex ticket_bytes)) [
  | inl refused ↦ ground (arith, refused)
  | inr (wanted, parsed) ↦
      ground (arith, parsed, redeemable-consume_slots bytes wanted now s.tickets)
]

-- What a store is asked for: `issue` with random bytes, or `consume` with a string.
pub data Request : Type 0 where
  issued : Bytes → ℕ → Request
  consumed : Bytes → ℕ → Request

-- Sockets that the requests open with the ticket `bytes`, and the times it is issued.
pub opened : Bytes → List Request → WsTicketStore → ℕ
opened bytes [] s = 0
opened bytes (issued new now ∷ rs) s = opened bytes rs (issue s new now).0
opened bytes (consumed hex now ∷ rs) s =
    let (found, s') = consume s hex now in one_if (found && denotes hex bytes) + opened bytes rs s'

pub times_issued : Bytes → List Request → ℕ
times_issued bytes [] = 0
times_issued bytes (issued new now ∷ rs) = one_if (bytes_eq new bytes) + times_issued bytes rs
times_issued bytes (consumed hex now ∷ rs) = times_issued bytes rs

opened-bound :
    (bytes : Bytes) (rs : List Request) (s : WsTicketStore)
    → opened bytes rs s ≤ redeemable bytes s.tickets + times_issued bytes rs
unfolding opened times_issued issue
opened-bound bytes [] s = omega arith
opened-bound bytes (issued new now ∷ rs) s = omega (
  arith,
  opened-bound bytes rs (issue s new now).0,
  redeemable-set bytes new now s.next s.tickets,
)
opened-bound bytes (consumed hex now ∷ rs) s =
    omega (arith, opened-bound bytes rs (consume s hex now).1, redeemable-consume bytes hex now s)

-- From an empty store, whatever is issued and presented in whatever order and at whatever times,
-- a ticket opens no more sockets than the times that its bytes were issued.
pub opened-le-issued :
    (bytes : Bytes) (rs : List Request) → opened bytes rs empty_store ≤ times_issued bytes rs
unfolding redeemable
opened-le-issued bytes rs = omega (arith, opened-bound bytes rs empty_store)
