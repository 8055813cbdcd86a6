-- ===== src/Tests/Replay.antt =====
-- src/api/authenticator.cpp: a signed request, and its replay.
use matrix_faces.Common.{
  ℕ, ◌<◌, ◌≡◌, ◌≢◌, ◌↔◌, refl, arith, true, [], ◌∷◌, ◌++◌, none, Bytes, AllBytes, codes, length,
  map, ap, sym, bit_xor, ◌∙◌, ◌≤◌, some, bytes_eq, take_while, drop_while,
}
use matrix_faces.Digest.Chain.{flush}
use matrix_faces.Digest.Words.{length_bytes}
use matrix_faces.ApiAuth.Hex.{to_hex, from_hex, constant_time_equals}
use matrix_faces.ApiAuth.Sha256.{compress, update_loop, update, zero_pad, emit, finish, hash}
use matrix_faces.ApiAuth.Hmac.{
  hmac_sha256, key_block, xor_pad, hmac_sha256-key_block, rfc_key, hmac_sha256-hash,
}
use matrix_faces.ApiAuth.RequestSig.{verify_request_signature}
use matrix_faces.ApiAuth.AuthHeader.{
  AuthHeader, take_hex, parse_digits, parse_ts, apply_param, param_value, param, params,
  scheme_params, parse_auth_header,
}
use matrix_faces.ApiAuth.Hex.RoundTrip.{lower}
use matrix_faces.ApiAuth.RequestSig.Canonical.{canonical}
use matrix_faces.ApiAuth.RequestSig.Verify.{verify_request_signature_iff}
use matrix_faces.Api.CredentialStore.{StoredClient, find}
use matrix_faces.Api.Authenticator.{
  auth_ok, Clock, Request, forget_all, nonce_seen, own_mark, free_mark, high_water_mark,
  authenticate,
}
use matrix_faces.Api.Authenticator.Accept.{IsAuthentic, authenticate_iff, authenticate-refused}
use matrix_faces.Api.Authenticator.Marks.{outdated, outdated_iff, nonce_seen_iff}
use matrix_faces.Api.Authenticator.Replay.{Step, step, run, acceptances, replay-refused}

abbrev client : StoredClient
client = record {
  id = 1 ∷ 2 ∷ 3 ∷ 4 ∷ 5 ∷ 6 ∷ 7 ∷ 8 ∷ [];
  secret =
      0 ∷ 1 ∷ 2 ∷ 3 ∷ 4 ∷ 5 ∷ 6 ∷ 7 ∷ 8 ∷ 9 ∷ 10 ∷ 11 ∷ 12 ∷ 13 ∷ 14 ∷ 15 ∷ 16 ∷ 17 ∷ 18 ∷ 19 ∷ 20
      ∷ 21 ∷ 22 ∷ 23 ∷ 24 ∷ 25 ∷ 26 ∷ 27 ∷ 28 ∷ 29 ∷ 30 ∷ 31 ∷ [];
  paired_at = 900;
}

abbrev request : Request
request = record {
  authorization =
      codes
        "HMAC id=0102030405060708, ts=1000, nonce=1112131415161718, sig=e356b4564f8c9b4824f0fc9dbed9f53e9878a9984cb24a9e2525eb02bc98346c";
  method = codes "POST";
  path = codes "/api/x";
  body = codes "hi";
}

abbrev clock : ℕ → Clock
clock now = record { is_valid = true; now = now }

abbrev first : Step
first = record { clients = client ∷ []; time = clock 1010; request = request }

hash_body :
    hash (codes "hi")
    ≡ 143 ∷ 67 ∷ 67 ∷ 70 ∷ 100 ∷ 143 ∷ 107 ∷ 150 ∷ 223 ∷ 137 ∷ 221 ∷ 169 ∷ 1 ∷ 197 ∷ 23 ∷ 107 ∷ 16
      ∷ 166 ∷ 216 ∷ 57 ∷ 97 ∷ 221 ∷ 60 ∷ 26 ∷ 200 ∷ 139 ∷ 89 ∷ 178 ∷ 220 ∷ 50 ∷ 122 ∷ 164 ∷ []
unfolding hash finish zero_pad emit update update_loop flush compress length_bytes
hash_body = refl

abbrev mac : Bytes
mac =
    227 ∷ 86 ∷ 180 ∷ 86 ∷ 79 ∷ 140 ∷ 155 ∷ 72 ∷ 36 ∷ 240 ∷ 252 ∷ 157 ∷ 190 ∷ 217 ∷ 245 ∷ 62 ∷ 152
    ∷ 120 ∷ 169 ∷ 152 ∷ 76 ∷ 178 ∷ 74 ∷ 158 ∷ 37 ∷ 37 ∷ 235 ∷ 2 ∷ 188 ∷ 152 ∷ 52 ∷ 108 ∷ []

abbrev signed_text : Bytes
signed_text =
    codes
      "POST\n/api/x\n1000\n1112131415161718\n8f434346648f6b96df89dda901c5176b10a6d83961dd3c1ac88b59b2dc327aa4"

inner :
    hash (xor_pad 0x36 (key_block client.secret) ++ signed_text)
    ≡ 82 ∷ 73 ∷ 55 ∷ 5 ∷ 169 ∷ 163 ∷ 163 ∷ 227 ∷ 155 ∷ 239 ∷ 212 ∷ 166 ∷ 225 ∷ 85 ∷ 247 ∷ 173 ∷ 244
      ∷ 162 ∷ 115 ∷ 64 ∷ 55 ∷ 170 ∷ 120 ∷ 108 ∷ 126 ∷ 244 ∷ 129 ∷ 230 ∷ 153 ∷ 141 ∷ 248 ∷ 15 ∷ []
unfolding key_block hash finish zero_pad emit update update_loop flush compress length_bytes
inner = refl

outer :
    hash (
      xor_pad 0x5c (key_block client.secret)
      ++ 82 ∷ 73 ∷ 55 ∷ 5 ∷ 169 ∷ 163 ∷ 163 ∷ 227 ∷ 155 ∷ 239 ∷ 212 ∷ 166 ∷ 225 ∷ 85 ∷ 247 ∷ 173
        ∷ 244 ∷ 162 ∷ 115 ∷ 64 ∷ 55 ∷ 170 ∷ 120 ∷ 108 ∷ 126 ∷ 244 ∷ 129 ∷ 230 ∷ 153 ∷ 141 ∷ 248 ∷ 15
        ∷ [])
    ≡ mac
unfolding key_block hash finish zero_pad emit update update_loop flush compress length_bytes
outer = refl

text_is :
    canonical
      (codes "POST")
      (codes "/api/x")
      (codes "1000")
      (codes "1112131415161718")
      (hash (codes "hi"))
    ≡ signed_text
unfolding to_hex canonical
text_is =
    ap (canonical (codes "POST") (codes "/api/x") (codes "1000") (codes "1112131415161718"))
      hash_body

mac_is :
    hmac_sha256 client.secret (
      canonical
        (codes "POST")
        (codes "/api/x")
        (codes "1000")
        (codes "1112131415161718")
        (hash (codes "hi")))
    ≡ mac
mac_is =
    ap (hmac_sha256 client.secret) text_is
    ∙ hmac_sha256-key_block client.secret signed_text
    ∙ ap (λ i. hash (xor_pad 0x5c (key_block client.secret) ++ i)) inner
    ∙ outer

abbrev signature : Bytes
signature = codes "e356b4564f8c9b4824f0fc9dbed9f53e9878a9984cb24a9e2525eb02bc98346c"

signature_bytes : AllBytes signature
signature_bytes = ground arith

-- The signature check on the request.
verify_request_signature_iff_example :
    (verify_request_signature client.secret
        (codes "POST")
        (codes "/api/x")
        (codes "1000")
        (codes "1112131415161718")
        (codes "hi")
        signature
      ≡ true)
    ↔ ((length (
            canonical
              (codes "POST")
              (codes "/api/x")
              (codes "1000")
              (codes "1112131415161718")
              (hash (codes "hi")))
          < 320)
        × (map lower signature
            ≡ to_hex (
                hmac_sha256 client.secret (
                  canonical
                    (codes "POST")
                    (codes "/api/x")
                    (codes "1000")
                    (codes "1112131415161718")
                    (hash (codes "hi"))))))
verify_request_signature_iff_example =
    verify_request_signature_iff client.secret (codes "POST") (codes "/api/x") (codes "1000")
      (codes "1112131415161718") (codes "hi") signature signature_bytes

verified :
    verify_request_signature client.secret
      (codes "POST")
      (codes "/api/x")
      (codes "1000")
      (codes "1112131415161718")
      (codes "hi")
      signature
    ≡ true
unfolding to_hex
verified =
    verify_request_signature_iff_example.1
      (omega (arith, ap length text_is), sym (ap to_hex mac_is))

abbrev header : AuthHeader
header = record {
  id = codes "0102030405060708";
  nonce = codes "1112131415161718";
  sig = signature;
  ts = codes "1000";
  timestamp = 1000;
}

parsed : parse_auth_header request.authorization ≡ some header
unfolding parse_auth_header scheme_params params param param_value apply_param take_hex parse_digits
    parse_ts take_while drop_while bytes_eq
parsed = refl

authentic :
    (now : ℕ) → 940 ≤ now → now ≤ 1060 → IsAuthentic (client ∷ []) (clock now) request forget_all
unfolding from_hex find constant_time_equals forget_all nonce_seen own_mark free_mark
    high_water_mark outdated
authentic now early late = record {
  header = header;
  id = client.id;
  nonce = 0x11 ∷ 0x12 ∷ 0x13 ∷ 0x14 ∷ 0x15 ∷ 0x16 ∷ 0x17 ∷ 0x18 ∷ [];
  client = client;
  nonempty = λ e. cc;
  parsed = parsed;
  id_is = refl;
  nonce_is = refl;
  clock = refl;
  paired = refl;
  not_early = omega (arith, early);
  not_late = omega (arith, late);
  signed = verified;
  current = (outdated_iff _ _ forget_all).0 refl;
  unseen = (nonce_seen_iff _ _ forget_all.nonces).0 refl;
}

-- Ten seconds after it was signed, the request is accepted as the first.
authenticate_iff_example :
    ((authenticate (client ∷ []) (clock 1010) request forget_all).0.result ≡ auth_ok)
    ↔ IsAuthentic (client ∷ []) (clock 1010) request forget_all
authenticate_iff_example = authenticate_iff (client ∷ []) (clock 1010) request forget_all

accepted : (authenticate (client ∷ []) (clock 1010) request forget_all).0.result ≡ auth_ok
accepted = authenticate_iff_example.1 (authentic 1010 (omega arith) (omega arith))

-- Twenty seconds later the same request is a replay.
replay-refused_example :
    (authenticate (client ∷ []) (clock 1030) request (step first forget_all)).0.result ≢ auth_ok
unfolding forget_all run acceptances
replay-refused_example =
    replay-refused first forget_all []
      (record { clients = client ∷ []; time = clock 1030; request = request }) (refl, omega arith)
      accepted (omega arith) refl

-- An empty header is refused without a trace.
abbrev nobody : Request
nobody = record request { authorization = [] }

not_accepted : (authenticate (client ∷ []) (clock 1010) nobody forget_all).0.result ≢ auth_ok
unfolding authenticate
not_accepted e = cc

authenticate-refused_example :
    ((authenticate (client ∷ []) (clock 1010) nobody forget_all).0.client_id ≡ none)
    × ((authenticate (client ∷ []) (clock 1010) nobody forget_all).1 ≡ forget_all)
authenticate-refused_example =
    authenticate-refused (client ∷ []) (clock 1010) nobody forget_all not_accepted

-- The digest of the canonical request under the client's secret.
hmac_sha256-hash_example :
    hmac_sha256 client.secret signed_text
    ≡ hash (
        map (λ b. bit_xor b 0x5c) (rfc_key client.secret)
        ++ hash (map (λ b. bit_xor b 0x36) (rfc_key client.secret) ++ signed_text))
hmac_sha256-hash_example = hmac_sha256-hash client.secret signed_text
