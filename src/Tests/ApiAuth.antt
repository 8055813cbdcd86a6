-- ===== src/Tests/ApiAuth.antt =====
-- lib/apiauth on concrete inputs.
use matrix_faces.Common.{
  ◌/◌, ◌≡◌, refl, arith, [], ◌∷◌, some, Bytes, codes, bytes_eq, length, take_while, drop_while,
}
use matrix_faces.Digest.Chain.{compress_all}
use matrix_faces.ApiAuth.Hex.{to_hex, from_hex}
use matrix_faces.ApiAuth.Sha256.{compress, initial_state, reset, emit, hash}
use matrix_faces.ApiAuth.Sha256.Stream.{IsValid, padded, hash-compress_all}
use matrix_faces.ApiAuth.RequestSig.{build_canonical_request}
use matrix_faces.ApiAuth.RequestSig.Canonical.{
  Signed, IsSafe, build_of, build_canonical_request-injective,
}
use matrix_faces.ApiAuth.AuthHeader.{
  AuthHeader, take_hex, parse_digits, parse_ts, apply_param, param_value, param, params,
  scheme_params, parse_auth_header, fresh,
}
use matrix_faces.ApiAuth.AuthHeader.Fields.{parse_auth_header-IsWellFormed}
use matrix_faces.ApiAuth.AuthHeader.Accepted.{IsAccepted, parse_auth_header-IsAccepted}
use matrix_faces.ApiAuth.AuthHeader.RoundTrip.{format_header, parse-format_header}
use matrix_faces.ApiAuth.AuthHeader.Loop.{Terminates, params_fuel}

abbrev three : Bytes
three = 0x00 ∷ 0xAB ∷ 0xFF ∷ []

mixed : from_hex (codes "00aBFf") 3 ≡ some three
unfolding from_hex
mixed = refl

hash-compress_all_example :
    hash (codes "abc")
    ≡ emit (
        compress_all compress
          (length (padded (codes "abc")) / 64)
          initial_state
          (padded (codes "abc")))
hash-compress_all_example = hash-compress_all (codes "abc")

reset-IsValid : IsValid reset
reset-IsValid = omega arith

abbrev signed : Signed
signed = record {
  method = codes "GET";
  path = codes "/";
  ts = codes "1";
  nonce = codes "a";
  body_hash = three;
}

signed-IsSafe : IsSafe signed
signed-IsSafe = record {
  method = ground arith;
  path = ground arith;
  ts = ground arith;
  nonce = ground arith;
  body_hash = omega arith;
}

built : build_of 320 signed ≡ some (codes "GET\n/\n1\na\n00abff")
unfolding build_canonical_request to_hex
built = refl

build_canonical_request-injective_example : signed ≡ signed
build_canonical_request-injective_example =
    build_canonical_request-injective signed signed 320 signed-IsSafe signed-IsSafe built built

abbrev header : AuthHeader
header = record {
  id = codes "0102030405060708";
  nonce = codes "1112131415161718";
  sig = codes "e356b4564f8c9b4824f0fc9dbed9f53e9878a9984cb24a9e2525eb02bc98346c";
  ts = codes "1000";
  timestamp = 1000;
}

abbrev written : Bytes
written =
    codes
      "HMAC sig=e356b4564f8c9b4824f0fc9dbed9f53e9878a9984cb24a9e2525eb02bc98346c,nonce=1112131415161718, ts=1000,id=0102030405060708"

read : parse_auth_header written ≡ some header
unfolding parse_auth_header scheme_params params param param_value apply_param take_hex parse_digits
    parse_ts take_while drop_while bytes_eq
read = refl

parse_auth_header-IsAccepted_example : IsAccepted written header
parse_auth_header-IsAccepted_example = parse_auth_header-IsAccepted written header read

parse-format_header_example : parse_auth_header (format_header header) ≡ some header
parse-format_header_example =
    parse-format_header header (parse_auth_header-IsWellFormed written read)

params_fuel_example : Terminates (codes " ts=5, x=1") fresh (params 12 (codes " ts=5, x=1") fresh)
params_fuel_example = params_fuel 12 (codes " ts=5, x=1") fresh (omega arith)
