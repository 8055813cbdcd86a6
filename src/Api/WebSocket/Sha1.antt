-- ===== src/Api/WebSocket/Sha1.antt =====
-- src/api/websocket.cpp: SHA-1. `Sha1` keeps the chaining value with the bytes of the open block.
pub mod Stream
use matrix_faces.Common.{
  ℕ, zero, suc, ◌+◌, ◌-◌, ◌/◌, ◌%◌, ◌^◌, bit_and, bit_or, bit_xor, List, [], ◌∷◌, ◌++◌, ltb, ◌==◌,
  if◌then◌else◌, Bytes, length, get_or,
}
use matrix_faces.Digest.Chain.{Chain, flush}
use matrix_faces.Digest.Words.{add32, not32, shl32, words_from, word_bytes, length_bytes}

-- `rol`.
pub rol : ℕ → ℕ → ℕ
unfolding shl32
rol value bits = bit_or (shl32 value bits) (value / 2 ^ (32 - bits))

-- `for (i = 16; i < 80; ++i)`, with the rounds left.
pub extend : ℕ → ℕ → List ℕ → List ℕ
unfolding rol
extend zero i w = w
extend (suc n) i w =
    let at = λ (back : ℕ). get_or w (i - back) 0 in
    let next = rol (bit_xor (bit_xor (bit_xor (at 3) (at 8)) (at 14)) (at 16)) 1 in
    extend n (i + 1) (w ++ next ∷ [])

pub record Round : Type 0 where
  pub a : ℕ
  pub b : ℕ
  pub c : ℕ
  pub d : ℕ
  pub e : ℕ

-- `f` and `k` of round `i`.
pub choose : ℕ → Round → ℕ
unfolding not32
choose i r =
    if ltb i 20
    then bit_or (bit_and r.b r.c) (bit_and (not32 r.b) r.d)
    else if ltb i 40
    then bit_xor (bit_xor r.b r.c) r.d
    else if ltb i 60
    then bit_or (bit_or (bit_and r.b r.c) (bit_and r.b r.d)) (bit_and r.c r.d)
    else bit_xor (bit_xor r.b r.c) r.d

abbrev pub round_constant : ℕ → ℕ
round_constant i =
    if ltb i 20
    then 0x5A827999
    else if ltb i 40
    then 0x6ED9EBA1
    else if ltb i 60
    then 0x8F1BBCDC
    else 0xCA62C1D6

-- The 80 rounds, over the schedule.
pub rounds : ℕ → List ℕ → Round → Round
unfolding add32 rol choose
rounds i [] r = r
rounds i (w ∷ ws) r =
    let temp = add32 (add32 (add32 (add32 (rol r.a 5) (choose i r)) r.e) (round_constant i)) w in
    rounds (i + 1) ws (record { a = temp; b = r.a; c = rol r.b 30; d = r.c; e = r.d })

-- `sha1Transform`.
unfoldable pub sha1_transform : List ℕ → Bytes → List ℕ
unfolding add32 words_from extend rounds
sha1_transform state block =
    let at = λ (i : ℕ). get_or state i 0 in
    let start : Round = record { a = at 0; b = at 1; c = at 2; d = at 3; e = at 4 } in
    let r = rounds 0 (extend 64 16 (words_from 16 block 0)) start in
    add32 (at 0) r.a
    ∷ add32 (at 1) r.b
    ∷ add32 (at 2) r.c
    ∷ add32 (at 3) r.d
    ∷ add32 (at 4) r.e
    ∷ []

pub record Sha1 : Type 0 where
  pub chain : Chain
  pub bit_count : ℕ

abbrev pub initial_state : List ℕ
initial_state = 0x67452301 ∷ 0xEFCDAB89 ∷ 0x98BADCFE ∷ 0x10325476 ∷ 0xC3D2E1F0 ∷ []

-- `sha1Init`.
abbrev pub sha1_init : Sha1
sha1_init = record { chain = record { state = initial_state; buffer = [] }; bit_count = 0 }

-- `sha1Update`, a byte at a time.
unfoldable pub sha1_update : Sha1 → Bytes → Sha1
sha1_update ctx [] = ctx
sha1_update ctx (b ∷ bs) =
    let written : Sha1 = record {
      chain = flush sha1_transform ctx.chain.state (ctx.chain.buffer ++ b ∷ []);
      bit_count = (ctx.bit_count + 8) % 2 ^ 64;
    } in
    sha1_update written bs

-- `while (ctx.blockLen != 56)` of `sha1Final`; fewer than 64 rounds reach byte 56.
unfoldable pub pad_zeros : ℕ → Sha1 → Sha1
pad_zeros zero ctx = ctx
pad_zeros (suc fuel) ctx =
    let rest = pad_zeros fuel (sha1_update ctx (0 ∷ [])) in
    if length ctx.chain.buffer == 56 then ctx else rest

unfoldable pub emit : List ℕ → Bytes
unfolding word_bytes
emit [] = []
emit (x ∷ xs) = word_bytes x ++ emit xs

-- `sha1Final`: the count is read before the padding adds to it.
unfoldable pub sha1_final : Sha1 → Bytes
sha1_final ctx =
    let padded = pad_zeros 64 (sha1_update ctx (0x80 ∷ [])) in
    emit (sha1_transform padded.chain.state (padded.chain.buffer ++ length_bytes ctx.bit_count))
