-- ===== src/Api/WsTicket/Redeem.antt =====
-- src/api/ws_ticket.cpp: a fresh ticket opens a socket, and a stale one does not.
use matrix_faces.Common.{
  ℕ, zero, suc, ◌-◌, ◌^◌, ◌<◌, ◌≤◌, ◌≡◌, arith, not, List, [], ◌∷◌, some, leb, subst, ◌∙◌, Bytes,
  AllBytes, bytes_eq_refl, length, set,
}
use matrix_faces.ApiAuth.Hex.{to_hex, from_hex}
use matrix_faces.ApiAuth.Hex.RoundTrip.{length-to_hex, from_hex-to_hex}
use matrix_faces.Api.WsTicket.{
  Ticket, WsTicketStore, new_ticket, expired, issue, consume_slots, consume,
}
use matrix_faces.Api.WsTicket.SingleUse.{redeemable}

-- The only redeemable ticket with its bytes decides, wherever it stands.
consume_slots-set :
    (bytes : Bytes) (now issued i : ℕ) (ts : List Ticket)
    → i < length ts
    → redeemable bytes ts ≡ 0
    → (consume_slots bytes now (set ts i (new_ticket bytes issued))).0 ≡ not (expired now issued)
unfolding redeemable consume_slots
consume_slots-set bytes now issued i [] h unused = elim h [ ]
consume_slots-set bytes now issued zero (t ∷ ts) h unused = ground (arith, bytes_eq_refl bytes)
consume_slots-set bytes now issued (suc i) (t ∷ ts) h unused =
    ground (arith, consume_slots-set bytes now issued i ts (omega arith) (omega arith))

consume-string :
    (bytes : Bytes) (now : ℕ) (s : WsTicketStore)
    → length bytes ≡ 8
    → AllBytes bytes
    → (consume s (to_hex bytes) now).0 ≡ (consume_slots bytes now s.tickets).0
unfolding consume
consume-string bytes now s eight valid =
    let parsed : from_hex (to_hex bytes) 8 ≡ some bytes =
      subst (λ n. from_hex (to_hex bytes) n ≡ some bytes) eight (from_hex-to_hex bytes valid) in
    ground (arith, length-to_hex bytes, parsed)

-- A ticket of eight bytes that no redeemable ticket has yet, issued into an existing slot, is good
-- for the ten seconds after its issue and for no longer, while the clock has not rolled over since
-- and less than 2^31 seconds have passed.
pub consume-issue :
    (s : WsTicketStore) (bytes : Bytes) (issued_at now : ℕ)
    → s.next < length s.tickets
    → redeemable bytes s.tickets ≡ 0
    → length bytes ≡ 8
    → AllBytes bytes
    → issued_at ≤ now
    → now < 2 ^ 32
    → now - issued_at < 2 ^ 31
    → let (s', hex) = issue s bytes issued_at in (consume s' hex now).0 ≡ leb (now - issued_at) 10
unfolding issue
consume-issue s bytes issued_at now slot unused eight valid after fits near =
    consume-string bytes now (issue s bytes issued_at).0 eight valid
    ∙ consume_slots-set bytes now issued_at s.next s.tickets slot unused
    ∙ ground arith
