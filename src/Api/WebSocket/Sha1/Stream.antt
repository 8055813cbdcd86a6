-- ===== src/Api/WebSocket/Sha1/Stream.antt =====
-- src/api/websocket.cpp: the padding loop of SHA-1.
use matrix_faces.Common.{
  ℕ, zero, suc, ◌+◌, ◌*◌, ◌/◌, ◌%◌, ◌^◌, ◌<◌, ◌≡◌, refl, ap, ap₂, ◌∙◌, arith, [], ◌∷◌, ◌++◌, ◌==◌,
  Bool-cases, inl, inr, Bytes, length,
}
use matrix_faces.Digest.Chain.{Chain, feed, compress_all}
use matrix_faces.Digest.Padding
use matrix_faces.Digest.Padding.{padding}
use matrix_faces.Digest.Words.{length_bytes}
use matrix_faces.Api.WebSocket.Sha1.{
  Sha1, sha1_transform, initial_state, sha1_init, sha1_update, pad_zeros, emit, sha1_final,
}

sha1_update-feed :
    (input : Bytes) (ctx : Sha1)
    → (sha1_update ctx input).chain ≡ feed sha1_transform ctx.chain input
unfolding sha1_update feed
sha1_update-feed [] ctx = refl
sha1_update-feed (b ∷ bs) ctx = sha1_update-feed bs _

sha1_update-count :
    (input : Bytes) (ctx : Sha1)
    → ctx.bit_count < 2 ^ 64
    → (sha1_update ctx input).bit_count ≡ (ctx.bit_count + length input * 8) % 2 ^ 64
unfolding sha1_update
sha1_update-count [] ctx h = omega arith
sha1_update-count (b ∷ bs) ctx h = sha1_update-count bs _ (omega arith) ∙ omega arith

pad_zeros-chain :
    (fuel : ℕ) (ctx : Sha1)
    → (pad_zeros fuel ctx).chain ≡ Padding.zero_pad sha1_transform fuel ctx.chain
unfolding pad_zeros Padding.zero_pad
pad_zeros-chain zero ctx = refl
pad_zeros-chain (suc fuel) ctx = elim (Bool-cases (length ctx.chain.buffer == 56)) [
  | inl done ↦ rw done
  | inr more ↦ rw more (
      pad_zeros-chain fuel (sha1_update ctx (0 ∷ []))
      ∙ ap (Padding.zero_pad sha1_transform fuel) (sha1_update-feed (0 ∷ []) ctx))
]

sha1_final-chain :
    (ctx : Sha1) → sha1_final ctx ≡ emit (Padding.finish sha1_transform ctx.chain ctx.bit_count)
unfolding sha1_final Padding.finish
sha1_final-chain ctx =
    ap (λ (c : Chain). emit (sha1_transform c.state (c.buffer ++ length_bytes ctx.bit_count)))
      (pad_zeros-chain 64 (sha1_update ctx (0x80 ∷ []))
        ∙ ap (Padding.zero_pad sha1_transform 64) (sha1_update-feed (0x80 ∷ []) ctx))

-- The message as RFC 3174 pads it.
abbrev pub padded : Bytes → Bytes
padded message = message ++ padding (length message % 64) (length message * 8 % 2 ^ 64)

-- The three functions one after the other give the chain of the whole blocks of the padded
-- message, with the transform of the code.
pub sha1_final-compress_all :
    (message : Bytes)
    → sha1_final (sha1_update sha1_init message)
      ≡ emit (
          compress_all sha1_transform (length (padded message) / 64) initial_state (padded message))
sha1_final-compress_all message =
    sha1_final-chain (sha1_update sha1_init message)
    ∙ ap₂ (λ c bits. emit (Padding.finish sha1_transform c bits))
        (sha1_update-feed message sha1_init)
        (sha1_update-count message sha1_init (omega arith) ∙ omega arith)
    ∙ ap emit (
        Padding.finish-compress_all sha1_transform initial_state message
          (length message * 8 % 2 ^ 64))
