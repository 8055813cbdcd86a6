-- ===== src/Api/Authenticator/Marks.antt =====
-- src/api/authenticator.cpp: which mark `highWaterMark` finds, and what `nonceSeen` looks for.
use matrix_faces.Common.{
  ℕ, suc, ◌≤◌, ◌≡◌, ◌↔◌, refl, subst, arith, Bool, true, false, not, ◌&&◌, List, [], ◌∷◌, none,
  some, some_inj, Bytes, bytes_eq, bytes_eq_iff, get_or, All, Bool-cases, Option-cases, inl, inr,
}
use matrix_faces.Api.Authenticator.{
  Authenticator, NonceEntry, HighWaterMark, nonce_seen, is_nonce, own_mark, free_mark,
  high_water_mark, is_older, no_mark,
}

-- The request is older than the mark that the code finds for it.
unfoldable pub outdated : Bytes → ℕ → Authenticator → Bool
outdated client_id timestamp a = elim (high_water_mark client_id a.marks) [
  | none ↦ false
  | some i ↦ is_older timestamp (get_or a.marks i no_mark)
]

-- A mark in use with the client's id.
abbrev pub IsOwn : Bytes → HighWaterMark → Type 0
IsOwn client_id m = (m.used ≡ true) × (m.client_id ≡ client_id)

-- The client's mark: the first in the table that is in use with its id.
pub data OwnMark (client_id : Bytes) : List HighWaterMark → HighWaterMark → Type 0 where
  here :
      (m : HighWaterMark) (ms : List HighWaterMark)
      → IsOwn client_id m
      → OwnMark client_id (m ∷ ms) m
  later :
      (other m : HighWaterMark) (ms : List HighWaterMark)
      → (IsOwn client_id other → ⊥)
      → OwnMark client_id ms m
      → OwnMark client_id (other ∷ ms) m

-- The nonce is in use with the client's id.
abbrev pub IsRemembered : Bytes → Bytes → NonceEntry → Type 0
IsRemembered client_id nonce e = (e.used ≡ true) × (e.client_id ≡ client_id) × (e.nonce ≡ nonce)

IsOwn-test :
    (client_id : Bytes) (m : HighWaterMark)
    → ((m.used && bytes_eq m.client_id client_id) ≡ true) ↔ IsOwn client_id m
IsOwn-test client_id m =
    let same = bytes_eq_iff m.client_id client_id in
    (λ e. (ground arith, same.0 (ground arith)), λ (used, own). ground (arith, same.1 own))

OwnMark-own_mark :
    (client_id : Bytes) (ms : List HighWaterMark) (m : HighWaterMark)
    → OwnMark client_id ms m
    → (i : ℕ) × (own_mark client_id ms ≡ some i) × (get_or ms i no_mark ≡ m)
unfolding own_mark
OwnMark-own_mark client_id ms m (here _ rest own) =
    let found = (IsOwn-test client_id m).1 own in (0, rw (found, own_mark) refl, refl)
OwnMark-own_mark client_id ms m (later other _ rest apart own) =
    let (i, found, at_i) = OwnMark-own_mark client_id rest m own in
    elim (Bool-cases (other.used && bytes_eq other.client_id client_id)) [
      | inl its ↦ absurd (apart ((IsOwn-test client_id other).0 its))
      | inr passed ↦ (suc i, rw (passed, found, own_mark) refl, at_i)
    ]

own_mark-OwnMark :
    (client_id : Bytes) (ms : List HighWaterMark) (i : ℕ)
    → own_mark client_id ms ≡ some i
    → OwnMark client_id ms (get_or ms i no_mark)
unfolding own_mark
own_mark-OwnMark client_id [] i e = cc
own_mark-OwnMark client_id (m ∷ ms) i e =
    elim (Bool-cases (m.used && bytes_eq m.client_id client_id)) [
      | inl its ↦
          let first : some 0 ≡ some i = rw (its, own_mark) at e in
          subst (λ j. OwnMark client_id (m ∷ ms) (get_or (m ∷ ms) j no_mark)) (some_inj first)
            (here m ms ((IsOwn-test client_id m).0 its))
      | inr passed ↦ elim (Option-cases (own_mark client_id ms)) [
        | inl absent ↦ let refused = rw (passed, absent, own_mark) at e in cc
        | inr (j, found) ↦
            let reached : some (suc j) ≡ some i = rw (passed, found, own_mark) at e in
            subst (λ n. OwnMark client_id (m ∷ ms) (get_or (m ∷ ms) n no_mark)) (some_inj reached)
              (later m _ ms (λ own. cc ((IsOwn-test client_id m).1 own))
                (own_mark-OwnMark client_id ms j found))
      ]
    ]

free_mark-unused :
    (ms : List HighWaterMark) (i : ℕ) → free_mark ms ≡ some i → (get_or ms i no_mark).used ≡ false
unfolding free_mark
free_mark-unused [] i e = cc
free_mark-unused (m ∷ ms) i e = elim (Bool-cases (not m.used)) [
  | inl free ↦
      let first : some 0 ≡ some i = rw (free, free_mark) at e in
      subst (λ j. (get_or (m ∷ ms) j no_mark).used ≡ false) (some_inj first) (ground arith)
  | inr taken ↦ elim (Option-cases (free_mark ms)) [
    | inl absent ↦ let refused = rw (taken, absent, free_mark) at e in cc
    | inr (j, found) ↦
        let reached : some (suc j) ≡ some i = rw (taken, found, free_mark) at e in
        subst (λ n. (get_or (m ∷ ms) n no_mark).used ≡ false) (some_inj reached)
          (free_mark-unused ms j found)
  ]
]

OwnMark-used :
    (client_id : Bytes) (ms : List HighWaterMark) (m : HighWaterMark)
    → OwnMark client_id ms m
    → m.used ≡ true
OwnMark-used client_id ms m (here _ rest own) = own.0
OwnMark-used client_id ms m (later other _ rest apart own) = OwnMark-used client_id rest m own

-- The request is not older than the client's mark, if it has one.
abbrev pub IsCurrent : Bytes → ℕ → List HighWaterMark → Type 0
IsCurrent client_id timestamp ms =
    (m : HighWaterMark) → OwnMark client_id ms m → m.timestamp ≤ timestamp

pub outdated_iff :
    (client_id : Bytes) (timestamp : ℕ) (a : Authenticator)
    → (outdated client_id timestamp a ≡ false) ↔ IsCurrent client_id timestamp a.marks
unfolding outdated high_water_mark
outdated_iff client_id timestamp a = (forth, back)
  where
    forth : outdated client_id timestamp a ≡ false → IsCurrent client_id timestamp a.marks
    forth e m own =
        let (i, found, at_i) = OwnMark-own_mark client_id a.marks m own in
        let used = OwnMark-used client_id a.marks m own in
        let tested : is_older timestamp (get_or a.marks i no_mark) ≡ false =
          rw (found, outdated, high_water_mark) at e in
        let tested' : is_older timestamp m ≡ false = rw at_i at tested in ground arith

    back : IsCurrent client_id timestamp a.marks → outdated client_id timestamp a ≡ false
    back current = elim (Option-cases (own_mark client_id a.marks)) [
      | inr (i, found) ↦
          let bound =
            current (get_or a.marks i no_mark) (own_mark-OwnMark client_id a.marks i found) in
          rw (found, outdated, high_water_mark) (ground arith)
      | inl absent ↦ elim (Option-cases (free_mark a.marks)) [
        | inl full ↦ rw (absent, full, outdated, high_water_mark) refl
        | inr (i, found) ↦
            let unused = free_mark-unused a.marks i found in
            rw (absent, found, outdated, high_water_mark) (ground arith)
      ]
    ]

pub nonce_seen_iff :
    (client_id nonce : Bytes) (es : List NonceEntry)
    → (nonce_seen client_id nonce es ≡ false) ↔ All (λ e. IsRemembered client_id nonce e → ⊥) es
unfolding nonce_seen
nonce_seen_iff client_id nonce [] = (λ e. tt, λ u. refl)
nonce_seen_iff client_id nonce (e ∷ es) =
    let ih = nonce_seen_iff client_id nonce es in
    let same_id = bytes_eq_iff e.client_id client_id in
    let same_nonce = bytes_eq_iff e.nonce nonce in
    (
      λ unseen. (
        λ (used, own, known).
            let own' = same_id.1 own in let known' = same_nonce.1 known in ground arith,
        ih.0 (ground arith),
      ),
      λ (apart, others).
          let rest = ih.1 others in
          elim (Bool-cases (is_nonce client_id nonce e)) [
            | inl its ↦
                absurd (apart (ground arith, same_id.0 (ground arith), same_nonce.0 (ground arith)))
            | inr passed ↦ rw (passed, rest, nonce_seen) refl
          ],
    )
