-- ===== src/Digest/Chain.antt =====
-- A block buffer in front of a compression function, and the chain of whole blocks that it
-- computes.
use matrix_faces.Common.{
  ap₂, sym, ℕ, zero, suc, ◌+◌, ◌/◌, ◌%◌, ◌<◌, ◌≤◌, ◌≡◌, refl, ap, arith, inl, inr, List, [], ◌∷◌,
  ◌++◌, ◌==◌, if◌then◌else◌, Bytes, length, take, drop, length-append, take-append, drop-append,
  append_assoc, Bool-cases, ◌∙◌,
}

-- The chaining value and the bytes of the block that is not full yet. Bytes of the source's buffer
-- past its length are never read, and are not kept.
pub record Chain : Type 0 where
  pub state : List ℕ
  pub buffer : Bytes

abbrev pub IsOpen : Chain → Type 0
IsOpen c = length c.buffer < 64

module _ (compress : List ℕ → Bytes → List ℕ) where
  -- The block that has just been written into: compressed when it is full.
  unfoldable pub flush : List ℕ → Bytes → Chain
  flush state buffer =
      if length buffer == 64
      then record { state = compress state buffer; buffer = [] }
      else record { state = state; buffer = buffer }

  -- One byte at a time.
  unfoldable pub feed : Chain → Bytes → Chain
  feed c [] = c
  feed c (b ∷ bs) = feed (flush c.state (c.buffer ++ b ∷ [])) bs

  -- The chaining value after `n` whole blocks of a message.
  unfoldable pub compress_all : ℕ → List ℕ → Bytes → List ℕ
  compress_all zero state message = state
  compress_all (suc n) state message =
      compress_all n (compress state (take 64 message)) (drop 64 message)

  pub feed-append : (c : Chain) (xs ys : Bytes) → feed c (xs ++ ys) ≡ feed (feed c xs) ys
  unfolding feed
  feed-append c [] ys = refl
  feed-append c (x ∷ xs) ys = feed-append (flush c.state (c.buffer ++ x ∷ [])) xs ys

  flush_open :
      (state : List ℕ) (buffer : Bytes)
      → length buffer < 64
      → flush state buffer ≡ record { state = state; buffer = buffer }
  unfolding flush
  flush_open state buffer h = ground arith

  flush_full :
      (state : List ℕ) (buffer : Bytes)
      → length buffer ≡ 64
      → flush state buffer ≡ record { state = compress state buffer; buffer = [] }
  unfolding flush
  flush_full state buffer h = ground arith

  pub flush-IsOpen :
      (state : List ℕ) (buffer : Bytes) → length buffer ≤ 64 → IsOpen (flush state buffer)
  unfolding flush
  flush-IsOpen state buffer h = ground arith

  pub feed-IsOpen : (xs : Bytes) (c : Chain) → IsOpen c → IsOpen (feed c xs)
  unfolding feed
  feed-IsOpen [] c h = h
  feed-IsOpen (x ∷ xs) c h =
      feed-IsOpen xs _
        (flush-IsOpen c.state (c.buffer ++ x ∷ []) (omega (arith, length-append c.buffer (x ∷ []))))

  -- Bytes that do not overfill the block may be written at once.
  pub feed-flush :
      (x : ℕ) (xs : Bytes) (c : Chain)
      → length c.buffer + length xs < 64
      → feed c (x ∷ xs) ≡ flush c.state (c.buffer ++ x ∷ xs)
  unfolding feed
  feed-flush x [] c fits = refl
  feed-flush x (y ∷ ys) c fits =
      let longer = length-append c.buffer (x ∷ []) in
      rw (flush_open c.state (c.buffer ++ x ∷ []) (omega arith)) (
        feed-flush y ys (record c { buffer = c.buffer ++ x ∷ [] }) (omega arith)
        ∙ ap (flush c.state) (append_assoc c.buffer (x ∷ []) (y ∷ ys)))

  -- Bytes that fill the block are compressed with those before them.
  pub feed_block :
      (x : ℕ) (xs : Bytes) (c : Chain)
      → length c.buffer + length xs ≡ 63
      → (feed c (x ∷ xs)).state ≡ compress c.state (c.buffer ++ x ∷ xs)
  feed_block x xs c fills = rw (feed-flush x xs c (omega arith)) (
      rw (flush_full c.state (c.buffer ++ x ∷ xs) (omega (arith, length-append c.buffer (x ∷ xs)))))

  compress_all_block :
      (n : ℕ) (state : List ℕ) (block rest : Bytes)
      → length block ≡ 64
      → compress_all (suc n) state (block ++ rest) ≡ compress_all n (compress state block) rest
  unfolding compress_all
  compress_all_block n state block rest h =
      let first : take 64 (block ++ rest) ≡ block = rw (← h) (take-append block rest) in
      let later : drop 64 (block ++ rest) ≡ rest = rw (← h) (drop-append block rest) in
      ap₂ (λ b r. compress_all n (compress state b) r) first later

  -- The length of the open block counts the bytes modulo 64, and the state has seen every whole
  -- block.
  pub feed-compress_all :
      (xs : Bytes) (c : Chain)
      → IsOpen c
      → ((feed c xs).state
          ≡ compress_all ((length c.buffer + length xs) / 64) c.state (c.buffer ++ xs))
        × (length (feed c xs).buffer ≡ (length c.buffer + length xs) % 64)
  unfolding feed
  feed-compress_all [] c h =
      let none_left : (length c.buffer + 0) / 64 ≡ 0 = omega arith in
      (rw none_left (unfold compress_all in refl), omega arith)
  feed-compress_all (x ∷ xs) c h = elim (Bool-cases (length c.buffer == 63)) [
    | inl full ↦
        let len = length-append c.buffer (x ∷ []) in
        let ih =
          feed-compress_all xs
            (record { state = compress c.state (c.buffer ++ x ∷ []); buffer = [] }) (omega arith) in
        rw (flush_full c.state (c.buffer ++ x ∷ []) (ground (arith, len)), feed)
          (
            ih.0
                ∙ sym (
                    compress_all_block ((0 + length xs) / 64) c.state (c.buffer ++ x ∷ []) xs
                      (ground (arith, len)))
                ∙ ap₂ (λ n m. compress_all n c.state m) (ground (arith, len))
                    (append_assoc c.buffer (x ∷ []) xs),
            ground (arith, ih.1),
          )
    | inr part ↦
        let len = length-append c.buffer (x ∷ []) in
        let ih =
          feed-compress_all xs (record c { buffer = c.buffer ++ x ∷ [] }) (ground (arith, len)) in
        rw (flush_open c.state (c.buffer ++ x ∷ []) (ground (arith, len)), feed)
          (
            ih.0
                ∙ ap₂ (λ n m. compress_all n c.state m) (ground (arith, len))
                    (append_assoc c.buffer (x ∷ []) xs),
            ground (arith, len, ih.1),
          )
  ]
