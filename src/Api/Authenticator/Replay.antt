-- ===== src/Api/Authenticator/Replay.antt =====
-- src/api/authenticator.cpp: an accepted request is not accepted again.
use matrix_faces.Common.{
  ℕ, zero, suc, ◌+◌, ◌%◌, ◌<◌, ◌≡◌, ◌≢◌, refl, sym, ap, subst, ◌∙◌, arith, Bool, true, false, List,
  [], ◌∷◌, some, some_inj, if◌then◌else◌, Bytes, bytes_eq_refl, Bool-cases, inl, inr, length,
  get_elem?, length-set, get_elem?-set_self, get_elem?-set_ne,
}
use matrix_faces.ApiAuth.Hex.{from_hex}
use matrix_faces.ApiAuth.AuthHeader.{AuthHeader, parse_auth_header}
use matrix_faces.Api.CredentialStore.{StoredClient}
use matrix_faces.Api.Authenticator.{
  AuthResult, auth_ok, Authenticator, Clock, Request, NonceEntry, admit, authenticate, nonce_seen,
  is_nonce, remember_nonce,
}
use matrix_faces.Api.Authenticator.Accept.{
  is_ok, IsAuthentic, authenticate_iff, authenticate-refused, authenticate-state, IsAuthentic-admit,
}
use matrix_faces.Api.Authenticator.Marks.{nonce_seen_iff}

-- A cache as the class keeps it.
abbrev pub IsCache : Authenticator → Type 0
IsCache a = (length a.nonces ≡ 24) × (a.nonce_next < 24)

-- The nonce stands in the cache, and `k` others were written behind it.
record Holds (id nonce : Bytes) (k : ℕ) (a : Authenticator) : Type 0 where
  at : ℕ
  entry : NonceEntry
  size : length a.nonces ≡ 24
  at_fits : at < 24
  stored : get_elem? a.nonces at ≡ some entry
  is_its : is_nonce id nonce entry ≡ true
  next : a.nonce_next ≡ (at + 1 + k) % 24

nonce_seen_stored :
    (id nonce : Bytes) (es : List NonceEntry) (i : ℕ) (e : NonceEntry)
    → get_elem? es i ≡ some e
    → is_nonce id nonce e ≡ true
    → nonce_seen id nonce es ≡ true
unfolding nonce_seen
nonce_seen_stored id nonce [] i e h is_its = cc
nonce_seen_stored id nonce (x ∷ es) zero e h is_its =
    rw (ap (is_nonce id nonce) (some_inj h) ∙ is_its) refl
nonce_seen_stored id nonce (x ∷ es) (suc i) e h is_its =
    let rest = nonce_seen_stored id nonce es i e h is_its in ground (arith, rest)

Holds-nonce_seen :
    (id nonce : Bytes) (k : ℕ) (a : Authenticator)
    → Holds id nonce k a
    → nonce_seen id nonce a.nonces ≡ true
Holds-nonce_seen id nonce k a h = nonce_seen_stored id nonce a.nonces h.at h.entry h.stored h.is_its

Holds-written :
    (id nonce : Bytes) (timestamp : ℕ) (a : Authenticator)
    → IsCache a
    → Holds id nonce 0 (remember_nonce id nonce timestamp a)
unfolding remember_nonce
Holds-written id nonce timestamp a (size, fits) = record {
  at = a.nonce_next;
  entry = record { client_id = id; nonce = nonce; timestamp = timestamp; used = true };
  size = length-set a.nonces a.nonce_next _ ∙ size;
  at_fits = fits;
  stored = get_elem?-set_self a.nonces a.nonce_next _ (omega (arith, size, fits));
  is_its = rw (bytes_eq_refl id, bytes_eq_refl nonce) refl;
  next = omega arith;
}

Holds-remember_nonce :
    (id nonce id' nonce' : Bytes) (timestamp k : ℕ) (a : Authenticator)
    → k < 23
    → Holds id nonce k a
    → Holds id nonce (k + 1) (remember_nonce id' nonce' timestamp a)
unfolding remember_nonce
Holds-remember_nonce id nonce id' nonce' timestamp k a room h = record {
  at = h.at;
  entry = h.entry;
  size = length-set a.nonces a.nonce_next _ ∙ h.size;
  at_fits = h.at_fits;
  stored =
      get_elem?-set_ne a.nonces a.nonce_next h.at _
        (λ same. omega (arith, h.next, h.at_fits, room, same))
      ∙ h.stored;
  is_its = h.is_its;
  next = omega (arith, h.next, h.at_fits, room);
}

-- An accepted request leaves the cache that `remember_nonce` makes.
admit-cache :
    (id nonce : Bytes) (timestamp : ℕ) (a : Authenticator)
    → is_ok (admit id nonce timestamp a).0.result ≡ true
    → ((admit id nonce timestamp a).1.nonces ≡ (remember_nonce id nonce timestamp a).nonces)
      × ((admit id nonce timestamp a).1.nonce_next
          ≡ (remember_nonce id nonce timestamp a).nonce_next)
unfolding admit
admit-cache id nonce timestamp a h = (ground arith, ground arith)

Holds-of :
    (id nonce : Bytes) (k : ℕ) (a b : Authenticator)
    → b.nonces ≡ a.nonces
    → b.nonce_next ≡ a.nonce_next
    → Holds id nonce k a
    → Holds id nonce k b
Holds-of id nonce k a b same next h = record {
  at = h.at;
  entry = h.entry;
  size = ap length same ∙ h.size;
  at_fits = h.at_fits;
  stored = ap (λ es. get_elem? es h.at) same ∙ h.stored;
  is_its = h.is_its;
  next = next ∙ h.next;
}

-- A request, with the clients and the clock that it meets.
pub record Step : Type 0 where
  pub clients : List StoredClient
  pub time : Clock
  pub request : Request

abbrev pub step : Step → Authenticator → Authenticator
step s a = (authenticate s.clients s.time s.request a).1

abbrev pub accepts : Step → Authenticator → Bool
accepts s a = is_ok (authenticate s.clients s.time s.request a).0.result

unfoldable pub run : List Step → Authenticator → Authenticator
run [] a = a
run (s ∷ ss) a = run ss (step s a)

-- The accepted requests of a run.
unfoldable pub acceptances : List Step → Authenticator → ℕ
acceptances [] a = 0
acceptances (s ∷ ss) a = (if accepts s a then 1 else 0) + acceptances ss (step s a)

is_ok_iff : (x : AuthResult) → is_ok x ≡ true → x ≡ auth_ok
is_ok_iff auth_ok h = refl
is_ok_iff _ h = cc

not_ok : (x : AuthResult) → is_ok x ≡ false → x ≢ auth_ok
not_ok x h e = let bad = ap is_ok e in cc

module _ (id nonce : Bytes) where
  Holds-accepted :
      (k : ℕ) (s : Step) (a : Authenticator)
      → k < 23
      → accepts s a ≡ true
      → Holds id nonce k a
      → Holds id nonce (k + 1) (step s a)
  Holds-accepted k s a room ok h =
      let p = (authenticate_iff s.clients s.time s.request a).0 (is_ok_iff _ ok) in
      let state = authenticate-state s.clients s.time s.request a p in
      let (nonces, next) =
        admit-cache p.id p.nonce p.header.timestamp a
          (IsAuthentic-admit s.clients s.time s.request a p) in
      subst (Holds id nonce (k + 1)) (sym state) (
        Holds-of id nonce (k + 1) _ (admit p.id p.nonce p.header.timestamp a).1 nonces next
          (Holds-remember_nonce id nonce p.id p.nonce p.header.timestamp k a room h))

  Holds-refused :
      (k : ℕ) (s : Step) (a : Authenticator)
      → accepts s a ≡ false
      → Holds id nonce k a
      → Holds id nonce k (step s a)
  Holds-refused k s a bad h =
      let (written, same) = authenticate-refused s.clients s.time s.request a (not_ok _ bad) in
      subst (Holds id nonce k) (sym same) h

  Holds-run :
      (k : ℕ) (ss : List Step) (a : Authenticator)
      → k + acceptances ss a < 24
      → Holds id nonce k a
      → Holds id nonce (k + acceptances ss a) (run ss a)
  unfolding run acceptances
  Holds-run k [] a room h = subst (λ n. Holds id nonce n a) (omega arith) h
  Holds-run k (s ∷ ss) a room h = elim (Bool-cases (accepts s a)) [
    | inl ok ↦
        let few : (k + 1) + acceptances ss (step s a) < 24 = ground arith in
        subst (λ n. Holds id nonce n (run ss (step s a))) (ground arith)
          (Holds-run (k + 1) ss (step s a) few (Holds-accepted k s a (ground arith) ok h))
    | inr bad ↦
        let few : k + acceptances ss (step s a) < 24 = ground arith in
        subst (λ n. Holds id nonce n (run ss (step s a))) (ground arith)
          (Holds-run k ss (step s a) few (Holds-refused k s a bad h))
  ]

Holds-first :
    (s : Step) (a : Authenticator) (cache : IsCache a)
    (p : IsAuthentic s.clients s.time s.request a)
    → Holds p.id p.nonce 0 (step s a)
Holds-first s a cache p =
    let (nonces, next) =
      admit-cache p.id p.nonce p.header.timestamp a
        (IsAuthentic-admit s.clients s.time s.request a p) in
    subst (Holds p.id p.nonce 0) (sym (authenticate-state s.clients s.time s.request a p)) (
      Holds-of p.id p.nonce 0 _ (admit p.id p.nonce p.header.timestamp a).1 nonces next
        (Holds-written p.id p.nonce p.header.timestamp a cache))

-- With a cache of 24 slots and its index in them: once a request has been accepted, the same `Authorization` header is refused while fewer than 24
-- further requests have been accepted: whatever else was asked for in between, by whom and when,
-- and whatever the clients, the clock and the rest of the request are by then.
pub replay-refused :
    (first : Step) (a : Authenticator) (ss : List Step) (again : Step)
    → IsCache a
    → (authenticate first.clients first.time first.request a).0.result ≡ auth_ok
    → acceptances ss (step first a) < 24
    → again.request.authorization ≡ first.request.authorization
    → (authenticate again.clients again.time again.request (run ss (step first a))).0.result
      ≢ auth_ok
replay-refused first a ss again cache ok few same again_ok =
    let p = (authenticate_iff first.clients first.time first.request a).0 ok in
    let q =
      (authenticate_iff again.clients again.time again.request (run ss (step first a))).0
        again_ok in
    let header : p.header ≡ q.header =
      some_inj (sym p.parsed ∙ ap parse_auth_header (sym same) ∙ q.parsed) in
    let id : p.id ≡ q.id =
      some_inj (sym p.id_is ∙ ap (λ (h : AuthHeader). from_hex h.id 8) header ∙ q.id_is) in
    let nonce : p.nonce ≡ q.nonce =
      some_inj (sym p.nonce_is ∙ ap (λ (h : AuthHeader). from_hex h.nonce 8) header ∙ q.nonce_is) in
    let seen = Holds-nonce_seen p.id p.nonce _ _ (
      Holds-run p.id p.nonce 0 ss (step first a) (omega (arith, few))
        (Holds-first first a cache p)) in
    let unseen = (nonce_seen_iff q.id q.nonce _).1 q.unseen in cc
