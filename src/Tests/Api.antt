-- ===== src/Tests/Api.antt =====
-- src/api on concrete inputs.
use matrix_faces.Common.{
  ℕ, ◌-◌, ◌/◌, ◌<◌, ◌≤◌, ◌≡◌, ◌↔◌, refl, ap, subst, arith, true, List, [], ◌∷◌, ◌++◌, some, leb,
  Bytes, All, codes, bytes_eq, length, take, drop, replicate, take-append, take_while, drop_while,
}
use matrix_faces.Digest.Chain.{compress_all}
use matrix_faces.Storage.RecordBlob.{parse, read_u32}
use matrix_faces.Api.CredentialStore.{StoredClient, BlobStore, blob_size, load, parse_clients}
use matrix_faces.Api.CredentialStore.Persist.{
  Change, added, revoked, IsSynced, apply_all, apply_all-IsSynced,
}
use matrix_faces.Api.WsTicket.{empty_store, issue, consume}
use matrix_faces.Api.WsTicket.SingleUse.{
  Request, issued, consumed, opened, times_issued, redeemable, opened-le-issued,
}
use matrix_faces.Api.WsTicket.Redeem.{consume-issue}
use matrix_faces.Api.Router.{not_slash, match_path, match_rest, capture_wildcard, Route, find_route}
use matrix_faces.Api.Router.Match.{match_path-interior, IsFirst, find_route-IsFirst}
use matrix_faces.Api.WebSocket.Frame.{ok, parse_header, encode_header, encode_pong}
use matrix_faces.Api.WebSocket.Frame.RoundTrip.{plain, parse_header-encode_header}
use matrix_faces.Api.WebSocket.Sha1.{
  sha1_transform, initial_state, sha1_init, sha1_update, sha1_final, emit,
}
use matrix_faces.Api.WebSocket.Sha1.Stream.{padded, sha1_final-compress_all}
use matrix_faces.Api.PairingWindow.{PairingWindow}

-- Raw flash, read as much as is asked for, and written from its start.
abbrev flash_store : BlobStore Bytes
flash_store = record {
  load = λ flash size. some (take size flash);
  save = λ flash blob. blob ++ drop (length blob) flash;
}

flash_reads_back :
    (flash blob : Bytes)
    → length blob ≡ blob_size
    → some (take blob_size (blob ++ drop (length blob) flash)) ≡ some blob
flash_reads_back flash blob size = ap some (
    subst (λ n. take n (blob ++ drop (length blob) flash) ≡ blob) size
      (take-append blob (drop (length blob) flash)))

abbrev erased : Bytes
erased = replicate 256 0xFF

erased_empty : load flash_store erased ≡ []
unfolding load parse_clients parse read_u32
erased_empty = refl

abbrev client : StoredClient
client = record { id = replicate 8 1; secret = replicate 32 2; paired_at = 900 }

abbrev changes : List Change
changes = added client ∷ added (record client { id = replicate 8 3 }) ∷ revoked (replicate 8 1) ∷ []

apply_all-IsSynced_example :
    IsSynced flash_store flash_reads_back
      (apply_all flash_store flash_reads_back changes ([], erased))
apply_all-IsSynced_example =
    apply_all-IsSynced flash_store flash_reads_back changes ([], erased) (omega arith)
      ((tt, omega arith), erased_empty)

abbrev random : Bytes
random = 1 ∷ 2 ∷ 3 ∷ 4 ∷ 5 ∷ 6 ∷ 7 ∷ 8 ∷ []

abbrev ticket : Bytes
ticket = codes "0102030405060708"

abbrev requests : List Request
requests = issued random 100 ∷ consumed ticket 105 ∷ consumed ticket 106 ∷ []

opened-le-issued_example : opened random requests empty_store ≤ times_issued random requests
opened-le-issued_example = opened-le-issued random requests

consume-issue_example :
    let (s', hex) = issue empty_store random 100 in (consume s' hex 111).0 ≡ leb (111 - 100) 10
unfolding redeemable
consume-issue_example =
    consume-issue empty_store random 100 111 (omega arith) refl refl (omega arith) (omega arith)
      (omega arith) (omega arith)

match_path-interior_example :
    (match_path (codes "/api/apps/*/settings") (codes "/api/apps/0/settings") 8 ≡ some (codes "0"))
    ↔ ((codes "/api/apps/0/settings" ≡ codes "/api/apps/" ++ (codes "0" ++ codes "/settings"))
        × (length (codes "0") < 8)
        × All (λ c. not_slash c ≡ true) (codes "0"))
match_path-interior_example =
    match_path-interior (codes "/api/apps/") (ground arith) (codes "settings")
      (codes "/api/apps/0/settings") 8 (codes "0") (omega arith)

abbrev delete_client : Route ℕ
delete_client = record {
  method = codes "DELETE";
  pattern = codes "/api/clients/*";
  handler = 1;
  requires_auth = true;
}

abbrev table : List (Route ℕ)
table = record delete_client { method = codes "GET" } ∷ delete_client ∷ []

found :
    find_route table (codes "DELETE") (codes "/api/clients/a") 8 ≡ some (delete_client, codes "a")
unfolding find_route match_path match_rest capture_wildcard bytes_eq take_while drop_while
found = refl

find_route-IsFirst_example :
    IsFirst table (codes "DELETE") (codes "/api/clients/a") 8 delete_client (codes "a")
find_route-IsFirst_example =
    find_route-IsFirst (codes "DELETE") (codes "/api/clients/a") 8 table found

long_text : encode_header 4 1 300 ≡ some (0x81 ∷ 126 ∷ 1 ∷ 44 ∷ [])
unfolding encode_header
long_text = refl

parse_header-encode_header_example :
    parse_header (0x81 ∷ 126 ∷ 1 ∷ 44 ∷ 7 ∷ []) ≡ ok (plain 1 300 4)
parse_header-encode_header_example =
    parse_header-encode_header 4 1 300 (7 ∷ []) (omega arith) (λ h. omega (arith, h)) long_text

abbrev pong_frame : Bytes
pong_frame = 0x8A ∷ 2 ∷ 5 ∷ 6 ∷ []

pong : encode_pong 127 (5 ∷ 6 ∷ []) ≡ some pong_frame
unfolding encode_pong
pong = refl

abbrev key : Bytes
key = 0x37 ∷ 0xfa ∷ 0x21 ∷ 0x3d ∷ []

sha1_final-compress_all_example :
    sha1_final (sha1_update sha1_init (codes "abc"))
    ≡ emit (
        compress_all sha1_transform
          (length (padded (codes "abc")) / 64)
          initial_state
          (padded (codes "abc")))
sha1_final-compress_all_example = sha1_final-compress_all (codes "abc")

abbrev shut : PairingWindow
shut = record { deadline_ms = 0 }
