-- ===== src/Digest/Padding.antt =====
-- The end of a message: a one bit, zeros up to byte 56 of a block, and the length in bits.
use matrix_faces.Common.{
  ℕ, zero, suc, ◌+◌, ◌-◌, ◌/◌, ◌%◌, ◌<◌, ◌≤◌, ◌≡◌, refl, sym, ap, ◌∙◌, arith, Bool-cases, inl, inr,
  List, [], ◌∷◌, ◌++◌, ◌==◌, Bytes, length, replicate, length-append, length-replicate,
  if◌then◌else◌,
}
use matrix_faces.Digest.Chain.{
  Chain, IsOpen, feed, compress_all, feed-append, feed-IsOpen, feed_block, feed-compress_all,
}
use matrix_faces.Digest.Words.{length_bytes}

-- The zeros that bring `n` bytes to byte 56 of a block.
abbrev pub zeros : ℕ → ℕ
zeros n = (120 - n) % 64

-- What stands behind a message of `n` bytes, `n` below 64, and `bits` bits.
abbrev pub padding : ℕ → ℕ → Bytes
padding n bits = 0x80 ∷ (replicate (zeros (n + 1)) 0 ++ length_bytes bits)

module _ (compress : List ℕ → Bytes → List ℕ) where
  -- `while (blockLen != 56)` feed a zero byte.
  unfoldable pub zero_pad : ℕ → Chain → Chain
  zero_pad zero c = c
  zero_pad (suc fuel) c =
      let rest = zero_pad fuel (feed compress c (0 ∷ [])) in
      if length c.buffer == 56 then c else rest

  -- The state after the padding of a message of `bits` bits; 64 rounds reach byte 56.
  unfoldable pub finish : Chain → ℕ → List ℕ
  unfolding zero_pad
  finish c bits =
      let padded = zero_pad 64 (feed compress c (0x80 ∷ [])) in
      compress padded.state (padded.buffer ++ length_bytes bits)

  pub length-feed_one :
      (c : Chain) (b : ℕ)
      → IsOpen c
      → length (feed compress c (b ∷ [])).buffer ≡ (length c.buffer + 1) % 64
  length-feed_one c b h = (feed-compress_all compress (b ∷ []) c h).1

  pub zero_pad-replicate :
      (fuel : ℕ) (c : Chain)
      → IsOpen c
      → zeros (length c.buffer) ≤ fuel
      → zero_pad fuel c ≡ feed compress c (replicate (zeros (length c.buffer)) 0)
  unfolding zero_pad
  zero_pad-replicate zero c h enough =
      let all_there : zeros (length c.buffer) ≡ 0 = omega arith in
      rw all_there (unfold feed in refl)
  zero_pad-replicate (suc fuel) c h enough = elim (Bool-cases (length c.buffer == 56)) [
    | inl done ↦
        let all_there : zeros (length c.buffer) ≡ 0 = ground arith in
        rw (done, all_there) (unfold feed in refl)
    | inr more ↦
        let longer = length-feed_one c 0 h in
        let fewer : zeros (length c.buffer)
            ≡ suc (zeros (length (feed compress c (0 ∷ [])).buffer)) =
          ground (arith, longer) in
        rw (more, fewer)
          (zero_pad-replicate fuel (feed compress c (0 ∷ [])) (feed-IsOpen compress (0 ∷ []) c h)
              (omega (arith, fewer))
            ∙ sym (feed-append compress c (0 ∷ []) _))
  ]

  -- Padding ends at a block boundary.
  length-padding : (n bits : ℕ) → n < 64 → (n + length (padding n bits)) % 64 ≡ 0
  unfolding length_bytes
  length-padding n bits h = omega (
    arith,
    length-append (replicate {A = ℕ} (zeros (n + 1)) 0) (length_bytes bits),
    length-replicate {A = ℕ} (zeros (n + 1)) 0,
  )

  -- The length bytes fill the block whose first 56 bytes are there.
  feed-length_bytes :
      (c : Chain) (bits : ℕ)
      → length c.buffer ≡ 56
      → (feed compress c (length_bytes bits)).state
        ≡ compress c.state (c.buffer ++ length_bytes bits)
  unfolding length_bytes
  feed-length_bytes c bits h =
      let fills : length c.buffer + 7 ≡ 63 = omega arith in feed_block compress _ _ c fills

  -- The padding loop and the last block are the padding fed byte by byte.
  pub finish-feed :
      (c : Chain) (bits : ℕ)
      → IsOpen c
      → finish c bits ≡ (feed compress c (padding (length c.buffer) bits)).state
  unfolding finish
  finish-feed c bits h =
      let n = length c.buffer in
      let one = feed compress c (0x80 ∷ []) in
      let one_open = feed-IsOpen compress (0x80 ∷ []) c h in
      let one_len = length-feed_one c 0x80 h in
      let same : zeros (length one.buffer) ≡ zeros (n + 1) = omega (arith, one_len) in
      let p = replicate {A = ℕ} (zeros (n + 1)) 0 in
      let padded : zero_pad 64 one ≡ feed compress one p =
        rw same at (zero_pad-replicate 64 one one_open (omega arith)) in
      let len56 : length (feed compress one p).buffer ≡ 56 = omega (
        arith,
        (feed-compress_all compress p one one_open).1,
        length-replicate {A = ℕ} (zeros (n + 1)) 0,
        one_len,
      ) in
      rw padded (
        sym (feed-length_bytes (feed compress one p) bits len56)
        ∙ ap (λ (d : Chain). d.state) (sym (feed-append compress one p (length_bytes bits)))
        ∙ ap (λ (d : Chain). d.state)
            (sym (feed-append compress c (0x80 ∷ []) (p ++ length_bytes bits))))

  -- A message fed to an empty block and finished gives the chain of the whole blocks of the message
  -- followed by its padding.
  pub finish-compress_all :
      (state : List ℕ) (message : Bytes) (bits : ℕ)
      → let padded = message ++ padding (length message % 64) bits in
        finish (feed compress (record { state = state; buffer = [] }) message) bits
        ≡ compress_all compress (length padded / 64) state padded
  finish-compress_all state message bits =
      let c0 : Chain = record { state = state; buffer = [] } in
      let c = feed compress c0 message in
      let counted = (feed-compress_all compress message c0 (omega arith)).1 in
      let len : length c.buffer ≡ length message % 64 = omega (arith, counted) in
      let all = message ++ padding (length message % 64) bits in
      finish-feed c bits (feed-IsOpen compress message c0 (omega arith))
      ∙ ap (λ k. (feed compress c (padding k bits)).state) len
      ∙ ap (λ (d : Chain). d.state)
          (sym (feed-append compress c0 message (padding (length message % 64) bits)))
      ∙ (feed-compress_all compress all c0 (omega arith)).0
      ∙ ap (λ k. compress_all compress (k / 64) state all) (omega arith)
