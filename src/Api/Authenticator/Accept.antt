-- ===== src/Api/Authenticator/Accept.antt =====
-- src/api/authenticator.cpp: which requests are accepted, and what a refused one changes.
use matrix_faces.Common.{
  ℕ, ◌+◌, ◌≤◌, ◌≡◌, ◌≢◌, ◌↔◌, refl, ap, arith, Bool, true, false, not, ◌&&◌, none, some, Bytes,
  Option-cases, inl, inr, length, List, All,
}
use matrix_faces.ApiAuth.Hex.{from_hex}
use matrix_faces.ApiAuth.AuthHeader.{AuthHeader, parse_auth_header}
use matrix_faces.ApiAuth.RequestSig.{verify_request_signature}
use matrix_faces.Api.CredentialStore.{StoredClient, find}
use matrix_faces.Api.Authenticator.{
  AuthResult, auth_ok, Authenticator, Clock, Request, admit, check, authenticate, nonce_seen,
}
use matrix_faces.Api.Authenticator.Marks.{
  outdated, IsCurrent, IsRemembered, outdated_iff, nonce_seen_iff,
}

abbrev pub is_ok : AuthResult → Bool
is_ok auth_ok = true
is_ok _ = false

admit-ok :
    (client_id nonce : Bytes) (timestamp : ℕ) (a : Authenticator)
    → is_ok (admit client_id nonce timestamp a).0.result
      ≡ (not (outdated client_id timestamp a) && not (nonce_seen client_id nonce a.nonces))
unfolding admit outdated
admit-ok client_id nonce timestamp a = ground arith

admit-refused :
    (client_id nonce : Bytes) (timestamp : ℕ) (a : Authenticator)
    → is_ok (admit client_id nonce timestamp a).0.result ≡ false
    → ((admit client_id nonce timestamp a).0.client_id ≡ none)
      × ((admit client_id nonce timestamp a).1 ≡ a)
unfolding admit
admit-refused client_id nonce timestamp a h = (ground arith, ground arith)

-- What makes a request authentic, fresh and new.
pub record IsAuthentic (clients : List StoredClient) (time : Clock) (r : Request)
    (a : Authenticator) : Type 0 where
  pub header : AuthHeader
  pub id : Bytes
  pub nonce : Bytes
  pub client : StoredClient
  pub nonempty : length r.authorization ≢ 0
  pub parsed : parse_auth_header r.authorization ≡ some header
  pub id_is : from_hex header.id 8 ≡ some id
  pub nonce_is : from_hex header.nonce 8 ≡ some nonce
  pub clock : time.is_valid ≡ true
  pub paired : find clients id ≡ some client
  pub not_early : header.timestamp ≤ time.now + 60
  pub not_late : time.now ≤ header.timestamp + 60
  pub signed :
      verify_request_signature client.secret r.method r.path header.ts header.nonce r.body
        header.sig
      ≡ true
  pub current : IsCurrent id header.timestamp a.marks
  pub unseen : All (λ e. IsRemembered id nonce e → ⊥) a.nonces

module _ (clients : List StoredClient) (time : Clock) (r : Request) (a : Authenticator) where
  -- `check` accepts what passes its four tests and `admit`.
  check-ok :
      (header : AuthHeader) (id nonce : Bytes)
      → is_ok (check clients time r header id nonce a).0.result ≡ true
      → (client : StoredClient) × (find clients id ≡ some client)
        × (time.is_valid ≡ true)
        × (header.timestamp ≤ time.now + 60)
        × (time.now ≤ header.timestamp + 60)
        × (verify_request_signature client.secret r.method r.path header.ts header.nonce r.body
              header.sig
            ≡ true)
        × (outdated id header.timestamp a ≡ false)
        × (nonce_seen id nonce a.nonces ≡ false)
  unfolding check
  check-ok header id nonce h = elim (Option-cases (find clients id)) [
    | inl unknown ↦ absurd (ground arith)
    | inr (client, known) ↦ (
      client,
      known,
      ground (arith, known),
      ground (arith, known),
      ground (arith, known),
      ground (arith, known),
      ground (arith, known, admit-ok id nonce header.timestamp a),
      ground (arith, known, admit-ok id nonce header.timestamp a),
    )
  ]

  authenticate-IsAuthentic :
      is_ok (authenticate clients time r a).0.result ≡ true → IsAuthentic clients time r a
  unfolding authenticate
  authenticate-IsAuthentic h = elim (Option-cases (parse_auth_header r.authorization)) [
    | inl malformed ↦ absurd (ground arith)
    | inr (header, parsed) ↦ elim (Option-cases (from_hex header.id 8)) [
      | inl odd ↦ absurd (ground arith)
      | inr (id, id_is) ↦ elim (Option-cases (from_hex header.nonce 8)) [
        | inl odd ↦ absurd (ground arith)
        | inr (nonce, nonce_is) ↦
            let checked : is_ok (check clients time r header id nonce a).0.result ≡ true =
              ground arith in
            let (client, paired, clock, not_early, not_late, signed, current, unseen) =
              check-ok header id nonce checked in
            record {
              header = header;
              id = id;
              nonce = nonce;
              client = client;
              nonempty = ground arith;
              parsed = parsed;
              id_is = id_is;
              nonce_is = nonce_is;
              clock = clock;
              paired = paired;
              not_early = not_early;
              not_late = not_late;
              signed = signed;
              current = (outdated_iff id header.timestamp a).0 current;
              unseen = (nonce_seen_iff id nonce a.nonces).0 unseen;
            }
      ]
    ]
  ]

  check_ok :
      (p : IsAuthentic clients time r a)
      → is_ok (check clients time r p.header p.id p.nonce a).0.result ≡ true
  unfolding check
  check_ok p =
      let current = (outdated_iff p.id p.header.timestamp a).1 p.current in
      let unseen = (nonce_seen_iff p.id p.nonce a.nonces).1 p.unseen in
      ground (arith, admit-ok p.id p.nonce p.header.timestamp a)

  IsAuthentic-authenticate :
      IsAuthentic clients time r a → is_ok (authenticate clients time r a).0.result ≡ true
  unfolding authenticate
  IsAuthentic-authenticate p = ground (arith, check_ok p)

  -- The state behind an accepted request.
  check-state :
      (p : IsAuthentic clients time r a)
      → (check clients time r p.header p.id p.nonce a).1
        ≡ (admit p.id p.nonce p.header.timestamp a).1
  unfolding check
  check-state p = ground arith

  pub authenticate-state :
      (p : IsAuthentic clients time r a)
      → (authenticate clients time r a).1 ≡ (admit p.id p.nonce p.header.timestamp a).1
  unfolding authenticate
  authenticate-state p = ground (arith, check-state p)

  pub IsAuthentic-admit :
      (p : IsAuthentic clients time r a)
      → is_ok (admit p.id p.nonce p.header.timestamp a).0.result ≡ true
  IsAuthentic-admit p =
      let current = (outdated_iff p.id p.header.timestamp a).1 p.current in
      let unseen = (nonce_seen_iff p.id p.nonce a.nonces).1 p.unseen in
      ground (arith, admit-ok p.id p.nonce p.header.timestamp a)

  -- A request is accepted exactly when its header parses, the clock is set, the client is paired,
  -- its time is within a minute of the clock's and not before the client's mark, which is the first
  -- in use with the client's id, it is signed with the client's secret, and no entry in use with the
  -- client's id has its nonce.
  pub authenticate_iff :
      ((authenticate clients time r a).0.result ≡ auth_ok) ↔ IsAuthentic clients time r a
  authenticate_iff =
      (λ e. authenticate-IsAuthentic (ap is_ok e), λ p. ok_of _ (IsAuthentic-authenticate p))
    where
      ok_of : (x : AuthResult) → is_ok x ≡ true → x ≡ auth_ok
      ok_of auth_ok h = refl
      ok_of _ h = cc

  check-refused :
      (header : AuthHeader) (id nonce : Bytes)
      → is_ok (check clients time r header id nonce a).0.result ≡ false
      → ((check clients time r header id nonce a).0.client_id ≡ none)
        × ((check clients time r header id nonce a).1 ≡ a)
  unfolding check
  check-refused header id nonce h = elim (Option-cases (find clients id)) [
    | inl unknown ↦ (ground arith, ground arith)
    | inr (client, known) ↦ (
      ground (arith, admit-refused id nonce header.timestamp a),
      ground (arith, admit-refused id nonce header.timestamp a),
    )
  ]

  authenticate-not_ok :
      is_ok (authenticate clients time r a).0.result ≡ false
      → ((authenticate clients time r a).0.client_id ≡ none)
        × ((authenticate clients time r a).1 ≡ a)
  unfolding authenticate
  authenticate-not_ok h = elim (Option-cases (parse_auth_header r.authorization)) [
    | inl malformed ↦ (ground arith, ground arith)
    | inr (header, parsed) ↦ elim (Option-cases (from_hex header.id 8)) [
      | inl odd ↦ (ground arith, ground arith)
      | inr (id, id_is) ↦ elim (Option-cases (from_hex header.nonce 8)) [
        | inl odd ↦ (ground arith, ground arith)
        | inr (nonce, nonce_is) ↦ (
          ground (arith, check-refused header id nonce),
          ground (arith, check-refused header id nonce),
        )
      ]
    ]
  ]

  -- A refused request changes nothing: no nonce is remembered, no mark is raised, no id is written.
  pub authenticate-refused :
      (authenticate clients time r a).0.result ≢ auth_ok
      → ((authenticate clients time r a).0.client_id ≡ none)
        × ((authenticate clients time r a).1 ≡ a)
  authenticate-refused h = authenticate-not_ok (not_ok_of _ h)
    where
      not_ok_of : (x : AuthResult) → x ≢ auth_ok → is_ok x ≡ false
      not_ok_of auth_ok h = absurd (h refl)
      not_ok_of _ h = refl
