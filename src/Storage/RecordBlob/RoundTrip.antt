-- ===== src/Storage/RecordBlob/RoundTrip.antt =====
-- src/storage/record_blob.cpp: what `serialize` writes, `parse` reads back, and `parse` guards what
-- it returns.
use matrix_faces.Common.{
  ℕ, ◌+◌, ◌-◌, ◌*◌, ◌^◌, ◌<◌, ◌≤◌, ◌≡◌, ap, ◌∙◌, arith, false, inl, inr, Bool-cases, ◌||◌, List,
  ◌++◌, some, some_inj, ltb, Bytes, length, take, drop, replicate, subst, length-append,
  length-take, length-drop, length-replicate, take-append, take-length, append_assoc, get_or-append,
}
use matrix_faces.Storage.RecordBlob.{
  read_u32, read_u16, write_u32, write_u16, crc32, framed_size, frame, serialize, parse, ok,
}
use native.Mathlib.Nat.{add-zero}
use matrix_faces.Storage.RecordBlob.Checksum.{crc32-lt}

-- Words are read where they were written.
read_u32-write_u32 : (v : ℕ) (rest : Bytes) → v < 2 ^ 32 → read_u32 (write_u32 v ++ rest) 0 ≡ v
unfolding read_u32 write_u32
read_u32-write_u32 v rest h = omega arith

read_u32-append : (xs ys : Bytes) → read_u32 (xs ++ ys) (length xs) ≡ read_u32 ys 0
unfolding read_u32
read_u32-append xs ys =
    rw (get_or-append xs ys 1 0, get_or-append xs ys 2 0, get_or-append xs ys 3 0)
      (omega (arith, rw add-zero at (get_or-append xs ys 0 0)))

take_exact {ℓ} : {A : Type ℓ} (n : ℕ) (xs ys : List A) → length xs ≡ n → take n (xs ++ ys) ≡ xs
take_exact n xs ys e = rw (← e) (take-append xs ys)

module _ (magic version record_size max_records count : ℕ) (records : Bytes)
    (magic_fits : magic < 2 ^ 32) (version_fits : version < 2 ^ 16)
    (max_fits : max_records < 2 ^ 16) (count_fits : count ≤ max_records)
    (length_is : length records ≡ record_size * count) where
  abbrev body : Bytes
  body = frame magic version records record_size max_records count

  size_fits : record_size * count ≤ record_size * max_records
  size_fits = grind arith

  length-take-records : length (take (record_size * count) records) ≡ record_size * count
  length-take-records = omega (arith, length-take (record_size * count) records)

  length-body : length body ≡ 8 + record_size * max_records
  unfolding write_u32 write_u16
  length-body = omega (
    arith,
    length-append (take (record_size * count) records)
        (replicate {A = ℕ} (record_size * max_records - record_size * count) 0),
    length-take-records,
    length-replicate {A = ℕ} (record_size * max_records - record_size * count) 0,
    size_fits,
  )

  -- The fields of the header, and the records behind it, whatever follows them.
  magic_read : (rest : Bytes) → read_u32 (body ++ rest) 0 ≡ magic
  unfolding read_u32 write_u32
  magic_read rest = omega arith

  version_read : (rest : Bytes) → read_u16 (body ++ rest) 4 ≡ version
  unfolding read_u16 write_u32 write_u16
  version_read rest = omega arith

  count_read : (rest : Bytes) → read_u16 (body ++ rest) 6 ≡ count
  unfolding read_u16 write_u32 write_u16
  count_read rest = omega arith

  records_read : (rest : Bytes) → take (record_size * count) (drop 8 (body ++ rest)) ≡ records
  unfolding write_u32 write_u16
  records_read rest =
      ap (take (record_size * count)) (append_assoc (take (record_size * count) records) _ rest)
      ∙ take_exact (record_size * count) (take (record_size * count) records) _ length-take-records
      ∙ rw (← length_is) (take-length records)

  -- The checksum stands behind the frame.
  abbrev tail : Bytes → Bytes
  tail rest = write_u32 (crc32 body) ++ rest

  length-tail : (rest : Bytes) → length (tail rest) ≡ 4 + length rest
  unfolding write_u32
  length-tail rest = omega arith

  checksum_read : (rest : Bytes) → read_u32 (body ++ tail rest) (length body) ≡ crc32 body
  checksum_read rest =
      read_u32-append body (tail rest) ∙ read_u32-write_u32 (crc32 body) rest (crc32-lt body)

  parse_frame :
      (rest : Bytes)
      → parse (body ++ tail rest) magic version record_size max_records ≡ ok records count
  unfolding parse
  parse_frame rest =
      let offset : framed_size record_size max_records - 4 ≡ length body =
        omega (arith, length-body) in
      let long : ltb (length (body ++ tail rest)) (framed_size record_size max_records) ≡ false =
        ground (arith, length-append body (tail rest), length-tail rest, length-body) in
      rw
        (
          long,
          offset,
          magic_read (tail rest),
          version_read (tail rest),
          checksum_read rest,
          take-append body (tail rest),
          count_read (tail rest),
          records_read (tail rest),
        )
        (ground arith)

  -- A blob that was written is read back as the records and the count that went in, whatever bytes
  -- follow it, for a magic, a version and a capacity that fit their fields.
  pub parse-serialize :
      (out_cap : ℕ) (rest : Bytes) {blob : Bytes}
      → serialize out_cap magic version records record_size max_records count ≡ some blob
      → parse (blob ++ rest) magic version record_size max_records ≡ ok records count
  unfolding serialize
  parse-serialize out_cap rest e =
      elim (Bool-cases
        (ltb out_cap (framed_size record_size max_records) || ltb max_records count)) [
          | inl refused ↦ let nothing = rw refused at e in cc
          | inr written ↦
              let blob_is = some_inj (rw written at e) in
              subst
                (λ b. parse (b ++ rest) magic version record_size max_records ≡ ok records count)
                blob_is (rw (append_assoc body (write_u32 (crc32 body)) rest) (parse_frame rest))
        ]

  pub length-serialize :
      (out_cap : ℕ) {blob : Bytes}
      → serialize out_cap magic version records record_size max_records count ≡ some blob
      → length blob ≡ framed_size record_size max_records
  unfolding serialize write_u32
  length-serialize out_cap e =
      elim (Bool-cases
        (ltb out_cap (framed_size record_size max_records) || ltb max_records count)) [
          | inl refused ↦ let nothing = rw refused at e in cc
          | inr written ↦
              let blob_is = some_inj (rw written at e) in
              subst (λ (b : Bytes). length b ≡ framed_size record_size max_records) blob_is
                (omega (arith, length-append body (write_u32 (crc32 body)), length-body))
        ]

-- Accepted input is long enough for its framing, carries the magic, the version and a matching
-- checksum, and yields no more records than the capacity: exactly `count` of them.
pub parse_ok :
    (input : Bytes) (magic version record_size max_records : ℕ) {records : Bytes} {count : ℕ}
    → parse input magic version record_size max_records ≡ ok records count
    → (framed_size record_size max_records ≤ length input)
      × (read_u32 input 0 ≡ magic)
      × (read_u16 input 4 ≡ version)
      × (read_u32 input (framed_size record_size max_records - 4)
          ≡ crc32 (take (framed_size record_size max_records - 4) input))
      × (count ≤ max_records)
      × (length records ≡ record_size * count)
unfolding parse
parse_ok input magic version record_size max_records {records} {count} e =
    let bound : count ≤ max_records = ground arith in
    let size : record_size * count ≤ record_size * max_records = grind arith in
    (
      ground arith,
      ground arith,
      ground arith,
      ground arith,
      bound,
      ground (
        arith,
        size,
        length-take (record_size * read_u16 input 6) (drop 8 input),
        length-drop 8 input,
      ),
    )
