-- ===== src/Net/MvLink/Mailbox.antt =====
-- src/net/mv_link.cpp: the link is a mailbox, however the steps of the two tasks interleave.
use matrix_faces.Common.{
  ℕ, ◌-◌, ◌≡◌, refl, ap, ap₂, ◌∙◌, Bool, List, [], ◌∷◌, Option, none, some, ltb, if◌then◌else◌,
  Bytes, take, Bool-cases, inl, inr,
}
use matrix_faces.Net.MvLink.{
  MvLink, publish, read, request_host, take_host_change, set_poll_enabled,
}

-- A step of either task, and what it returns.
pub data Call (S : Type 0) : Type 0 where
  published : S → Call S
  snapshot_read : Call S
  host_requested : Option Bytes → Call S
  change_taken : ℕ → Call S
  poll_set : Bool → Call S
  poll_read : Call S

pub data Answer (S : Type 0) : Type 0 where
  nothing : Answer S
  snapshot : S → Answer S
  change : Option (Option Bytes) → Answer S
  enabled : Bool → Answer S

-- The mailbox: the last snapshot, the last host that nobody has taken, and the switch.
pub record Mailbox (S : Type 0) : Type 0 where
  pub latest : S
  pub waiting : Option Bytes
  pub switch : Bool

-- A host as the link can hold it, and as a buffer of `cap` bytes can take it.
abbrev pub clipped : Option Bytes → Bytes
clipped none = []
clipped (some host) = take 31 host

abbrev pub handed : ℕ → Bytes → Option Bytes
handed cap host = if ltb 0 cap then some (take (cap - 1) host) else none

module _ {S : Type 0} where
  unfoldable pub call : Call S → MvLink S → Answer S × MvLink S
  call (published s) link = (nothing, publish s link)
  call snapshot_read link = (snapshot (read link), link)
  call (host_requested host) link = (nothing, request_host host link)
  call (change_taken cap) link =
      let (taken, link') = take_host_change cap link in (change taken, link')
  call (poll_set b) link = (nothing, set_poll_enabled b link)
  call poll_read link = (enabled link.poll_enabled, link)

  unfoldable pub answers : List (Call S) → MvLink S → List (Answer S)
  answers [] link = []
  answers (c ∷ cs) link = (call c link).0 ∷ answers cs (call c link).1

  unfoldable pub serve : Call S → Mailbox S → Answer S × Mailbox S
  serve (published s) box = (nothing, record box { latest = s })
  serve snapshot_read box = (snapshot box.latest, box)
  serve (host_requested host) box = (nothing, record box { waiting = some (clipped host) })
  serve (change_taken cap) box = elim box.waiting [
    | none ↦ (change none, box)
    | some host ↦ (change (some (handed cap host)), record box { waiting = none })
  ]
  serve (poll_set b) box = (nothing, record box { switch = b })
  serve poll_read box = (enabled box.switch, box)

  unfoldable pub served : List (Call S) → Mailbox S → List (Answer S)
  served [] box = []
  served (c ∷ cs) box = (serve c box).0 ∷ served cs (serve c box).1

  -- What the link is, as a mailbox: a host that has been taken is forgotten.
  abbrev pub mailbox : MvLink S → Mailbox S
  mailbox link = record {
    latest = link.snapshot;
    waiting = if link.host_changed then some link.host else none;
    switch = link.poll_enabled;
  }

  call-serve :
      (c : Call S) (link : MvLink S)
      → ((call c link).0 ≡ (serve c (mailbox link)).0)
        × (mailbox (call c link).1 ≡ (serve c (mailbox link)).1)
  unfolding call serve publish read request_host take_host_change set_poll_enabled
  call-serve (published s) link = (refl, refl)
  call-serve snapshot_read link = (refl, refl)
  call-serve (host_requested none) link = (refl, refl)
  call-serve (host_requested (some host)) link = (refl, refl)
  call-serve (change_taken cap) link = elim (Bool-cases link.host_changed) [
    | inl waits ↦ rw (waits, serve, take_host_change) (refl, refl)
    | inr empty ↦ rw (empty, serve, take_host_change) (refl, rw empty refl)
  ]
  call-serve (poll_set b) link = (refl, refl)
  call-serve poll_read link = (refl, refl)

  -- However the steps of the two tasks interleave, they are answered as a mailbox answers them: a
  -- read returns the last snapshot, and a change of host is taken once, with the last host.
  pub answers-served :
      (cs : List (Call S)) (link : MvLink S) → answers cs link ≡ served cs (mailbox link)
  unfolding answers served
  answers-served [] link = refl
  answers-served (c ∷ cs) link =
      let (same, next) = call-serve c link in
      ap₂ ◌∷◌ same (answers-served cs (call c link).1 ∙ ap (served cs) next)
