-- ===== src/Api/CredentialStore/Persist.antt =====
-- src/api/credential_store.cpp: a reboot finds the clients that were there before it.
use matrix_faces.Common.{
  ℕ, suc, ◌+◌, ◌*◌, ◌^◌, ◌<◌, ◌≤◌, ◌≡◌, refl, ap, ap₂, subst, ◌∙◌, arith, Bool, List, [], ◌∷◌, ◌++◌,
  none, some, leb, ◌==◌, Bytes, length, take, drop, All, All-append, length-append, take-append,
  drop-append, append-nil, append_assoc, inl, inr, Option-cases, Bool-cases, some_inj,
}
use matrix_faces.ApiAuth.Hex.{constant_time_equals}
use matrix_faces.Storage.RecordBlob.{write_u32, read_u32, parse, ok, serialize}
use matrix_faces.Storage.RecordBlob.RoundTrip.{parse-serialize, length-serialize}
use matrix_faces.Api.CredentialStore.{
  StoredClient, BlobStore, client_bytes, clients_bytes, read_client, read_clients, blob_size,
  client_size, max_clients, parse_clients, serialize_clients, removed, load, save, add, remove,
  clear,
}

-- A client as pairing makes it.
abbrev pub IsClient : StoredClient → Type 0
IsClient c = (length c.id ≡ 8) × (length c.secret ≡ 32) × (c.paired_at < 2 ^ 32)

abbrev pub IsValid : List StoredClient → Type 0
IsValid cs = All IsClient cs × (length cs ≤ max_clients)

length-client_bytes : (c : StoredClient) → IsClient c → length (client_bytes c) ≡ 44
unfolding client_bytes write_u32
length-client_bytes c (eight, rest, fits) = omega (
  arith,
  eight,
  rest,
  length-append c.id (c.secret ++ write_u32 c.paired_at),
  length-append c.secret (write_u32 c.paired_at),
)

length-clients_bytes :
    (cs : List StoredClient) → All IsClient cs → length (clients_bytes cs) ≡ 44 * length cs
unfolding clients_bytes
length-clients_bytes [] h = refl
length-clients_bytes (c ∷ cs) (hc, hs) = omega (
  arith,
  length-append (client_bytes c) (clients_bytes cs),
  length-client_bytes c hc,
  length-clients_bytes cs hs,
)

read_u32-written : (v : ℕ) → v < 2 ^ 32 → read_u32 (write_u32 v) 0 ≡ v
unfolding read_u32 write_u32
read_u32-written v h = omega arith

take_exactly : (n : ℕ) (xs ys : Bytes) → length xs ≡ n → take n (xs ++ ys) ≡ xs
take_exactly n xs ys e = rw (← e) (take-append xs ys)

drop_exactly : (n : ℕ) (xs ys : Bytes) → length xs ≡ n → drop n (xs ++ ys) ≡ ys
drop_exactly n xs ys e = rw (← e) (drop-append xs ys)

read_client-client_bytes : (c : StoredClient) → IsClient c → read_client (client_bytes c) ≡ c
unfolding read_client client_bytes
read_client-client_bytes c (eight, rest, fits) =
    let behind = drop_exactly 8 c.id (c.secret ++ write_u32 c.paired_at) eight in
    let last : drop 40 (c.id ++ (c.secret ++ write_u32 c.paired_at)) ≡ write_u32 c.paired_at =
      subst (λ b. drop 40 b ≡ write_u32 c.paired_at)
        (append_assoc c.id c.secret (write_u32 c.paired_at))
        (drop_exactly 40 (c.id ++ c.secret) (write_u32 c.paired_at)
          (omega (arith, eight, rest, length-append c.id c.secret))) in
    λ i. record {
      id = take_exactly 8 c.id (c.secret ++ write_u32 c.paired_at) eight i;
      secret = (ap (take 32) behind ∙ take_exactly 32 c.secret (write_u32 c.paired_at) rest) i;
      paired_at = (ap (λ b. read_u32 b 0) last ∙ read_u32-written c.paired_at fits) i;
    }

read_clients-clients_bytes :
    (cs : List StoredClient) → All IsClient cs → read_clients (length cs) (clients_bytes cs) ≡ cs
unfolding read_clients clients_bytes
read_clients-clients_bytes [] h = refl
read_clients-clients_bytes (c ∷ cs) (hc, hs) =
    ap₂ ◌∷◌
      (ap read_client
          (take_exactly 44 (client_bytes c) (clients_bytes cs) (length-client_bytes c hc))
        ∙ read_client-client_bytes c hc)
      (ap (read_clients (length cs))
          (drop_exactly 44 (client_bytes c) (clients_bytes cs) (length-client_bytes c hc))
        ∙ read_clients-clients_bytes cs hs)

-- What `save` serialises, `load` reads back.
pub parse_clients-serialize_clients :
    (cs : List StoredClient) {blob : Bytes}
    → IsValid cs
    → serialize_clients cs ≡ some blob
    → parse_clients blob ≡ cs
unfolding serialize_clients parse_clients
parse_clients-serialize_clients cs {blob} (valid, few) e =
    let parsed : parse blob 0x4d345753 1 client_size max_clients
        ≡ ok (clients_bytes cs) (length cs) =
      subst (λ b. parse b 0x4d345753 1 client_size max_clients ≡ ok (clients_bytes cs) (length cs))
        (append-nil blob)
        (parse-serialize 0x4d345753 1 client_size max_clients (length cs) (clients_bytes cs)
          (omega arith) (omega arith) (omega arith) few (length-clients_bytes cs valid) blob_size []
          e) in
    rw (parsed, parse_clients) (read_clients-clients_bytes cs valid)

serialize_clients-never_none :
    (cs : List StoredClient) → IsValid cs → ¬ (serialize_clients cs ≡ none)
unfolding serialize_clients serialize
serialize_clients-never_none cs (valid, few) refused = ground (arith, few)

serialize_clients-some :
    (cs : List StoredClient) → IsValid cs → (blob : Bytes) × (serialize_clients cs ≡ some blob)
serialize_clients-some cs h = elim (Option-cases (serialize_clients cs)) [
  | inl refused ↦ absurd (serialize_clients-never_none cs h refused)
  | inr written ↦ written
]

length-serialize_clients :
    (cs : List StoredClient) {blob : Bytes}
    → IsValid cs
    → serialize_clients cs ≡ some blob
    → length blob ≡ blob_size
unfolding serialize_clients
length-serialize_clients cs (valid, few) e =
    length-serialize 0x4d345753 1 client_size max_clients (length cs) (clients_bytes cs)
      (omega arith) (omega arith) (omega arith) few (length-clients_bytes cs valid) blob_size e

-- `remove` takes out one client.
removed-IsValid :
    (cs : List StoredClient) (id : Bytes) {cs' : List StoredClient}
    → All IsClient cs
    → removed cs id ≡ some cs'
    → All IsClient cs' × (length cs' + 1 ≡ length cs)
unfolding removed
removed-IsValid [] id h e = cc
removed-IsValid (c ∷ cs) id {cs'} (hc, hs) e = elim (Bool-cases (constant_time_equals c.id id)) [
  | inl here ↦
      let same : cs ≡ cs' = some_inj (rw here at e) in
      subst (λ xs. All IsClient xs × (length xs + 1 ≡ suc (length cs))) same (hs, omega arith)
  | inr elsewhere ↦ elim (Option-cases (removed cs id)) [
    | inl missing ↦ let nothing = rw (elsewhere, missing) at e in cc
    | inr (rest, found) ↦
        let same : (c ∷ rest) ≡ cs' = some_inj (rw (elsewhere, found) at e) in
        let (valid, less) = removed-IsValid cs id hs found in
        subst (λ xs. All IsClient xs × (length xs + 1 ≡ suc (length cs))) same
          ((hc, valid), omega (arith, less))
  ]
]

-- The requests that change the clients.
pub data Change : Type 0 where
  added : StoredClient → Change
  revoked : Bytes → Change
  reset : Change

abbrev pub IsChange : Change → Type 0
IsChange (added c) = IsClient c
IsChange _ = Unit

abbrev pub after : {F : Type 0} → Bool × List StoredClient × F → List StoredClient × F
after (changed, cs, flash) = (cs, flash)

-- Storage that gives back a blob of the size that is asked for, once it has been written.
module _ {F : Type 0} (blobs : BlobStore F)
    (reads_back : (flash : F) (blob : Bytes)
      → length blob ≡ blob_size
      → blobs.load (blobs.save flash blob) blob_size ≡ some blob) where
  load-save :
      (cs : List StoredClient) (flash : F) → IsValid cs → load blobs (save blobs cs flash) ≡ cs
  unfolding load save
  load-save cs flash h =
      let (blob, written) = serialize_clients-some cs h in
      rw (written, save, reads_back flash blob (length-serialize_clients cs h written), load)
        (parse_clients-serialize_clients cs h written)

  -- A change, on the clients and the storage.
  unfoldable pub apply : Change → List StoredClient × F → List StoredClient × F
  apply (added c) (cs, flash) = after (add blobs cs flash c)
  apply (revoked id) (cs, flash) = after (remove blobs cs flash id)
  apply reset (cs, flash) = after (clear blobs cs flash)

  unfoldable pub apply_all : List Change → List StoredClient × F → List StoredClient × F
  apply_all [] s = s
  apply_all (c ∷ changes) s = apply_all changes (apply c s)

  -- The clients are well-formed, and a reboot would find them.
  abbrev pub IsSynced : List StoredClient × F → Type 0
  IsSynced s = IsValid s.0 × (load blobs s.1 ≡ s.0)

  saved-IsSynced :
      (cs : List StoredClient) (flash : F) → IsValid cs → IsSynced (cs, save blobs cs flash)
  saved-IsSynced cs flash h = (h, load-save cs flash h)

  add-IsSynced :
      (c : StoredClient) (cs : List StoredClient) (flash : F)
      → IsClient c
      → IsSynced (cs, flash)
      → IsSynced (after (add blobs cs flash c))
  unfolding add
  add-IsSynced c cs flash hc (valid, synced) = elim (Bool-cases (leb max_clients (length cs))) [
    | inl full ↦ rw (full, add) (valid, synced)
    | inr room ↦
        rw (room, add)
          (saved-IsSynced (cs ++ c ∷ []) flash (
            All-append IsClient cs (c ∷ []) valid.0 (hc, tt),
            ground (arith, length-append cs (c ∷ [])),
          ))
  ]

  remove-IsSynced :
      (id : Bytes) (cs : List StoredClient) (flash : F)
      → IsSynced (cs, flash)
      → IsSynced (after (remove blobs cs flash id))
  unfolding remove
  remove-IsSynced id cs flash (valid, synced) = elim (Option-cases (removed cs id)) [
    | inl missing ↦ rw (missing, remove) (valid, synced)
    | inr (cs', found) ↦
        let (valid', less) = removed-IsValid cs id valid.0 found in
        rw (found, remove) (saved-IsSynced cs' flash (valid', omega (arith, less, valid.1)))
  ]

  clear-IsSynced :
      (cs : List StoredClient) (flash : F)
      → IsSynced (cs, flash)
      → IsSynced (after (clear blobs cs flash))
  unfolding clear
  clear-IsSynced cs flash (valid, synced) = elim (Bool-cases (length cs == 0)) [
    | inl none_left ↦ rw (none_left, clear) (valid, synced)
    | inr some_left ↦ rw (some_left, clear) (saved-IsSynced [] flash (tt, omega arith))
  ]

  apply-IsSynced :
      (c : Change) (s : List StoredClient × F) → IsChange c → IsSynced s → IsSynced (apply c s)
  unfolding apply
  apply-IsSynced (added c) s hc h = add-IsSynced c s.0 s.1 hc h
  apply-IsSynced (revoked id) s hc h = remove-IsSynced id s.0 s.1 h
  apply-IsSynced reset s hc h = clear-IsSynced s.0 s.1 h

  -- Over storage that reads back what was written, from well-formed clients that a reboot would load:
  -- whatever well-formed clients are paired, and whatever is revoked and reset, there are at most
  -- four clients, they are well-formed, and a reboot loads exactly those that are in memory.
  pub apply_all-IsSynced :
      (changes : List Change) (s : List StoredClient × F)
      → All IsChange changes
      → IsSynced s
      → IsSynced (apply_all changes s)
  unfolding apply_all
  apply_all-IsSynced [] s hc h = h
  apply_all-IsSynced (c ∷ changes) s (hc, hs) h =
      apply_all-IsSynced changes (apply c s) hs (apply-IsSynced c s hc h)
