-- ===== src/ApiAuth/RequestSig/Verify.antt =====
-- lib/apiauth/request_sig.cpp: which signatures are accepted.
use matrix_faces.Common.{
  ◌<◌, ◌≡◌, ◌↔◌, refl, sym, ap, ap₂, ◌∙◌, arith, true, false, some, none, map, ltb, ltb→lt,
  if◌then◌else◌, Bool-cases, inl, inr, Option-cases, Bytes, AllBytes, length,
}
use matrix_faces.ApiAuth.Hex.{to_hex, from_hex, constant_time_equals}
use matrix_faces.ApiAuth.Hex.Equality.{constant_time_equals_iff}
use matrix_faces.ApiAuth.Hex.RoundTrip.{lower, from_hex_lem, from_hex-to_hex, from_hex-map-lower}
use matrix_faces.ApiAuth.Sha256.{hash}
use matrix_faces.ApiAuth.Hmac.{hmac_sha256, hmac_bytes}
use matrix_faces.ApiAuth.RequestSig.{sign_request, verify_request_signature, canonical_request_max}
use matrix_faces.ApiAuth.RequestSig.Canonical.{canonical, build-canonical}

module _ (secret method path ts nonce body : Bytes) where
  -- The text that the signature covers, and its code.
  abbrev text : Bytes
  text = canonical method path ts nonce (hash body)

  abbrev mac : Bytes
  mac = hmac_sha256 secret text

  sign_request-mac :
      sign_request secret method path ts nonce body
      ≡ (if ltb (length text) canonical_request_max then some mac else none)
  unfolding sign_request
  sign_request-mac =
      ground (arith, build-canonical method path ts nonce (hash body) canonical_request_max)

  -- The three ways through `verifyRequestSignature`.
  verify_malformed :
      (sig_hex : Bytes)
      → from_hex sig_hex 32 ≡ none
      → verify_request_signature secret method path ts nonce body sig_hex ≡ false
  unfolding verify_request_signature
  verify_malformed sig_hex e = ground arith

  verify_too_long :
      (sig_hex : Bytes) {provided : Bytes}
      → from_hex sig_hex 32 ≡ some provided
      → sign_request secret method path ts nonce body ≡ none
      → verify_request_signature secret method path ts nonce body sig_hex ≡ false
  unfolding verify_request_signature
  verify_too_long sig_hex e s = ground arith

  verify_compare :
      (sig_hex : Bytes) {provided expected : Bytes}
      → from_hex sig_hex 32 ≡ some provided
      → sign_request secret method path ts nonce body ≡ some expected
      → verify_request_signature secret method path ts nonce body sig_hex
        ≡ constant_time_equals expected provided
  unfolding verify_request_signature
  verify_compare sig_hex e s = ground arith

  verify_of_some :
      (sig_hex : Bytes) {provided : Bytes}
      → AllBytes sig_hex
      → from_hex sig_hex 32 ≡ some provided
      → verify_request_signature secret method path ts nonce body sig_hex ≡ true
      → (length text < canonical_request_max) × (map lower sig_hex ≡ to_hex mac)
  verify_of_some sig_hex {provided} h e v =
      elim (Bool-cases (ltb (length text) canonical_request_max)) [
        | inl fits ↦
            let signed = rw fits at sign_request-mac in
            let equal = sym (verify_compare sig_hex e signed) ∙ v in
            let (written, len, bytes) = from_hex_lem sig_hex 32 h e in
            let (mac_all, mac_len) = hmac_bytes secret text in
            let same =
              (constant_time_equals_iff mac provided mac_all bytes (omega (arith, len, mac_len))).0
                equal in
            (ltb→lt _ _ fits, sym written ∙ ap to_hex (sym same))
        | inr long ↦
            let unsigned = rw long at sign_request-mac in
            let refused = sym (verify_too_long sig_hex e unsigned) ∙ v in cc
      ]

  -- A signature of bytes is accepted exactly when the canonical request fits its buffer and the signature
  -- is the hexadecimal text, in either case, of its HMAC under the client's secret.
  pub verify_request_signature_iff :
      (sig_hex : Bytes)
      → AllBytes sig_hex
      → (verify_request_signature secret method path ts nonce body sig_hex ≡ true)
        ↔ ((length text < canonical_request_max) × (map lower sig_hex ≡ to_hex mac))
  verify_request_signature_iff sig_hex h = (accepted, accepts)
    where
      accepted :
          verify_request_signature secret method path ts nonce body sig_hex ≡ true
          → (length text < canonical_request_max) × (map lower sig_hex ≡ to_hex mac)
      accepted v = elim (Option-cases (from_hex sig_hex 32)) [
        | inl e ↦ let refused = sym (verify_malformed sig_hex e) ∙ v in cc
        | inr (provided, e) ↦ verify_of_some sig_hex h e v
      ]

      accepts :
          (length text < canonical_request_max) × (map lower sig_hex ≡ to_hex mac)
          → verify_request_signature secret method path ts nonce body sig_hex ≡ true
      accepts (fits, written) =
          let (mac_all, mac_len) = hmac_bytes secret text in
          let reads : from_hex sig_hex 32 ≡ some mac =
            sym (from_hex-map-lower sig_hex 32 h)
            ∙ ap₂ from_hex written (sym mac_len)
            ∙ from_hex-to_hex mac mac_all in
          let signed : sign_request secret method path ts nonce body ≡ some mac =
            ground (arith, sign_request-mac) in
          verify_compare sig_hex reads signed
          ∙ (constant_time_equals_iff mac mac mac_all mac_all refl).1 refl
