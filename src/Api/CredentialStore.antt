-- ===== src/Api/CredentialStore.antt =====
-- src/api/credential_store.cpp: the paired clients, and what of them survives a reboot.
-- The entries of `clients_` below `count_` are a list; `count_` is its length.
pub mod Persist
use matrix_faces.Common.{
  ℕ, zero, suc, ◌+◌, ◌*◌, Bool, true, false, List, [], ◌∷◌, ◌++◌, Option, none, some, leb, ◌==◌,
  if◌then◌else◌, Bytes, length, take, drop,
}
use matrix_faces.ApiAuth.Hex.{constant_time_equals}
use matrix_faces.Storage.RecordBlob.{
  read_u32, write_u32, framed_size, serialize, parse, ParseResult, ok, too_short, no_data,
  bad_checksum, bad_count,
}

abbrev pub max_clients : ℕ
max_clients = 4

abbrev magic : ℕ
magic = 0x4d345753

abbrev version : ℕ
version = 1

-- `sizeof(StoredClient)`.
abbrev pub client_size : ℕ
client_size = 44

pub record StoredClient : Type 0 where
  pub id : Bytes
  pub secret : Bytes
  pub paired_at : ℕ

-- src/board/blob_store.h for the name `creds`: each board has its own.
pub record BlobStore (F : Type 0) : Type 1 where
  pub load : F → ℕ → Option Bytes
  pub save : F → Bytes → F

-- A record as it lies in memory.
unfoldable pub client_bytes : StoredClient → Bytes
client_bytes c = c.id ++ (c.secret ++ write_u32 c.paired_at)

unfoldable pub clients_bytes : List StoredClient → Bytes
clients_bytes [] = []
clients_bytes (c ∷ cs) = client_bytes c ++ clients_bytes cs

unfoldable pub read_client : Bytes → StoredClient
read_client p = record {
  id = take 8 p;
  secret = take 32 (drop 8 p);
  paired_at = read_u32 (drop 40 p) 0;
}

unfoldable pub read_clients : ℕ → Bytes → List StoredClient
read_clients zero p = []
read_clients (suc n) p = read_client (take client_size p) ∷ read_clients n (drop client_size p)

-- `kBlobSize`.
abbrev pub blob_size : ℕ
blob_size = framed_size client_size max_clients

-- What `load` makes of the bytes that it has read.
unfoldable pub parse_clients : Bytes → List StoredClient
parse_clients blob = elim (parse blob magic version client_size max_clients) [
  | ok records count ↦ read_clients count records
  | too_short ↦ []
  | no_data ↦ []
  | bad_checksum ↦ []
  | bad_count ↦ []
]

-- `serialize` as `save` calls it.
unfoldable pub serialize_clients : List StoredClient → Option Bytes
serialize_clients cs =
    serialize blob_size magic version (clients_bytes cs) client_size max_clients (length cs)

-- `find`.
unfoldable pub find : List StoredClient → Bytes → Option StoredClient
find [] id = none
find (c ∷ cs) id = if constant_time_equals c.id id then some c else find cs id

-- The loops of `remove`: `none` if no client has the id.
unfoldable pub removed : List StoredClient → Bytes → Option (List StoredClient)
removed [] id = none
removed (c ∷ cs) id =
    let rest = removed cs id in
    if constant_time_equals c.id id
    then some cs
    else elim rest [ none ↦ none | some cs' ↦ some (c ∷ cs') ]

module _ {F : Type 0} (blobs : BlobStore F) where
  -- `load`, which `begin` ends with.
  unfoldable pub load : F → List StoredClient
  load flash = elim (blobs.load flash blob_size) [ none ↦ [] | some blob ↦ parse_clients blob ]

  -- `save`.
  unfoldable pub save : List StoredClient → F → F
  save cs flash = elim (serialize_clients cs) [ none ↦ flash | some blob ↦ blobs.save flash blob ]

  -- `add`, `remove` and `clear`: the result, the clients, and the storage.
  unfoldable pub add : List StoredClient → F → StoredClient → Bool × List StoredClient × F
  add cs flash client =
      if leb max_clients (length cs)
      then (false, cs, flash)
      else (true, cs ++ client ∷ [], save (cs ++ client ∷ []) flash)

  unfoldable pub remove : List StoredClient → F → Bytes → Bool × List StoredClient × F
  remove cs flash id = elim (removed cs id) [
    | none ↦ (false, cs, flash)
    | some cs' ↦ (true, cs', save cs' flash)
  ]

  unfoldable pub clear : List StoredClient → F → Bool × List StoredClient × F
  clear cs flash = if length cs == 0 then (false, cs, flash) else (true, [], save [] flash)
