-- ===== src/ApiAuth/Sha256/Stream.antt =====
-- lib/apiauth/sha256.cpp: the streaming object computes the digest of the whole message.
use matrix_faces.Common.{
  ℕ, zero, suc, ◌+◌, ◌-◌, ◌*◌, ◌/◌, ◌%◌, ◌^◌, ◌<◌, ◌≤◌, ◌≡◌, refl, sym, ap, ap₂, ◌∙◌, arith, min,
  [], ◌∷◌, ◌++◌, ◌==◌, Bool-cases, inl, inr, Bytes, length, take, drop, length-append, length-take,
  take-append-drop,
}
use matrix_faces.Digest.Chain.{
  Chain, IsOpen, feed, compress_all, feed-append, feed-IsOpen, feed-flush,
}
use matrix_faces.Digest.Padding
use matrix_faces.Digest.Words.{length_bytes}
use matrix_faces.Digest.Padding.{padding}
use matrix_faces.ApiAuth.Sha256.{
  Sha256, compress, initial_state, reset, update_loop, update, zero_pad, emit, finish, hash,
}

update_loop-feed :
    (fuel : ℕ) (c : Chain) (input : Bytes)
    → IsOpen c
    → length input ≤ fuel
    → update_loop fuel c input ≡ feed compress c input
unfolding update_loop
update_loop-feed zero c [] h enough = unfold feed in refl
update_loop-feed zero c (x ∷ xs) h enough = elim enough [ ]
update_loop-feed (suc fuel) c [] h enough = unfold feed in refl
update_loop-feed (suc fuel) c (x ∷ xs) h enough =
    let k = min (length xs) (63 - length c.buffer) in
    let some_taken : min (suc (length xs)) (64 - length c.buffer) ≡ suc k = omega arith in
    let fits : length c.buffer + length (take k xs) < 64 = omega (arith, length-take k xs) in
    let written = feed-flush compress x (take k xs) c fits in
    let open_c = feed-IsOpen compress (x ∷ take k xs) c h in
    rw some_taken (
      rw (← written) (
        update_loop-feed fuel (feed compress c (x ∷ take k xs)) (drop k xs) open_c (
          omega (
            arith,
            length-take k xs,
            length-append (take k xs) (drop k xs),
            ap (length {A = ℕ}) (take-append-drop k xs),
          ))
        ∙ sym (feed-append compress c (x ∷ take k xs) (drop k xs))
        ∙ ap (λ (ys : Bytes). feed compress c (x ∷ ys)) (take-append-drop k xs)))

-- A context that can be written to: the open block is not full, and the count is a uint64_t.
pub record IsValid (s : Sha256) : Type 0 where
  pub room : IsOpen s.chain
  pub count : s.bit_length < 2 ^ 64

-- `update` is the byte-by-byte feed of its input.
update-feed :
    (s : Sha256) (input : Bytes)
    → IsOpen s.chain
    → (update s input).chain ≡ feed compress s.chain input
unfolding update
update-feed s input h = update_loop-feed (length input) s.chain input h (omega arith)

-- `update` leaves the block with room for a byte and the count below 2^64.
pub update-IsValid : (s : Sha256) (input : Bytes) → IsValid s → IsValid (update s input)
update-IsValid s input v = record {
  room = rw (update-feed s input v.room) (feed-IsOpen compress input s.chain v.room);
  count = unfold update in omega arith;
}

-- From a context with room in its block and a count below 2^64, however a message is cut into
-- pieces, feeding the pieces one after the other gives the context that feeding all of it gives.
pub update-append :
    (s : Sha256) (xs ys : Bytes) → IsValid s → update (update s xs) ys ≡ update s (xs ++ ys)
update-append s xs ys v = λ i. record { chain = chains i; bit_length = counts i }
  where
    next : IsValid (update s xs)
    next = update-IsValid s xs v

    chains : (update (update s xs) ys).chain ≡ (update s (xs ++ ys)).chain
    chains =
        update-feed (update s xs) ys next.room
        ∙ ap (λ c. feed compress c ys) (update-feed s xs v.room)
        ∙ sym (feed-append compress s.chain xs ys)
        ∙ sym (update-feed s (xs ++ ys) v.room)

    counts : (update (update s xs) ys).bit_length ≡ (update s (xs ++ ys)).bit_length
    counts = unfold update in omega (arith, length-append xs ys)

-- The loop of `finish` is the padding loop of the block chain.
zero_pad-chain :
    (fuel : ℕ) (s : Sha256)
    → IsValid s
    → (zero_pad fuel s).chain ≡ Padding.zero_pad compress fuel s.chain
unfolding zero_pad Padding.zero_pad
zero_pad-chain zero s v = refl
zero_pad-chain (suc fuel) s v = elim (Bool-cases (length s.chain.buffer == 56)) [
  | inl done ↦ rw done
  | inr more ↦
      let ih = zero_pad-chain fuel (update s (0 ∷ [])) (update-IsValid s (0 ∷ []) v) in
      rw more (ih ∙ ap (Padding.zero_pad compress fuel) (update-feed s (0 ∷ []) v.room))
]

-- `finish` writes the state that the padding of the block chain ends in.
finish-chain :
    (s : Sha256) → IsValid s → finish s ≡ emit (Padding.finish compress s.chain s.bit_length)
unfolding finish Padding.finish
finish-chain s v =
    ap (λ (c : Chain). emit (compress c.state (c.buffer ++ length_bytes s.bit_length)))
      (zero_pad-chain 64 (update s (0x80 ∷ [])) (update-IsValid s (0x80 ∷ []) v)
        ∙ ap (Padding.zero_pad compress 64) (update-feed s (0x80 ∷ []) v.room))

-- The message as FIPS 180-4 pads it: a one bit, zeros, and the length in bits as 64 bits.
abbrev pub padded : Bytes → Bytes
padded message = message ++ padding (length message % 64) (length message * 8 % 2 ^ 64)

-- `hash` is the digest of FIPS 180-4, with the compression function of the code: the chain of the
-- whole blocks of the padded message. The buffering and the loop of `finish` change nothing.
pub hash-compress_all :
    (message : Bytes)
    → hash message
      ≡ emit (compress_all compress (length (padded message) / 64) initial_state (padded message))
unfolding hash
hash-compress_all message =
    finish-chain (update reset message) (update-IsValid reset message fresh)
    ∙ ap₂ (λ c bits. emit (Padding.finish compress c bits)) (update-feed reset message fresh.room)
        count
    ∙ ap emit
        (Padding.finish-compress_all compress initial_state message (length message * 8 % 2 ^ 64))
  where
    fresh : IsValid reset
    fresh = omega arith

    count : (update reset message).bit_length ≡ length message * 8 % 2 ^ 64
    count = unfold update in omega arith
