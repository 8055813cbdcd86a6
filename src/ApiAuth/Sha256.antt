-- ===== src/ApiAuth/Sha256.antt =====
-- lib/apiauth/sha256.cpp: SHA-256 over a stream of bytes.
-- `Sha256` keeps the chaining value with the bytes of the open block (`Digest.Chain`) and the bit
-- count; `bufferLen_` is the length of the open block. Words are numbers below 2^32.
pub mod Stream
mod Tests
use matrix_faces.Common.{
  ℕ, zero, suc, ◌+◌, ◌-◌, ◌*◌, ◌/◌, ◌%◌, ◌^◌, min, bit_and, bit_or, bit_xor, List, [], ◌∷◌, ◌++◌,
  ◌==◌, if◌then◌else◌, Bytes, length, get_or, take, drop,
}
use matrix_faces.Digest.Chain.{Chain, flush}
use matrix_faces.Digest.Words.{add32, not32, shl32, words_from, word_bytes, length_bytes}

-- `kK`.
abbrev round_constants : List ℕ
round_constants =
    0x428a2f98 ∷ 0x71374491 ∷ 0xb5c0fbcf ∷ 0xe9b5dba5 ∷ 0x3956c25b ∷ 0x59f111f1 ∷ 0x923f82a4
    ∷ 0xab1c5ed5 ∷ 0xd807aa98 ∷ 0x12835b01 ∷ 0x243185be ∷ 0x550c7dc3 ∷ 0x72be5d74 ∷ 0x80deb1fe
    ∷ 0x9bdc06a7 ∷ 0xc19bf174 ∷ 0xe49b69c1 ∷ 0xefbe4786 ∷ 0x0fc19dc6 ∷ 0x240ca1cc ∷ 0x2de92c6f
    ∷ 0x4a7484aa ∷ 0x5cb0a9dc ∷ 0x76f988da ∷ 0x983e5152 ∷ 0xa831c66d ∷ 0xb00327c8 ∷ 0xbf597fc7
    ∷ 0xc6e00bf3 ∷ 0xd5a79147 ∷ 0x06ca6351 ∷ 0x14292967 ∷ 0x27b70a85 ∷ 0x2e1b2138 ∷ 0x4d2c6dfc
    ∷ 0x53380d13 ∷ 0x650a7354 ∷ 0x766a0abb ∷ 0x81c2c92e ∷ 0x92722c85 ∷ 0xa2bfe8a1 ∷ 0xa81a664b
    ∷ 0xc24b8b70 ∷ 0xc76c51a3 ∷ 0xd192e819 ∷ 0xd6990624 ∷ 0xf40e3585 ∷ 0x106aa070 ∷ 0x19a4c116
    ∷ 0x1e376c08 ∷ 0x2748774c ∷ 0x34b0bcb5 ∷ 0x391c0cb3 ∷ 0x4ed8aa4a ∷ 0x5b9cca4f ∷ 0x682e6ff3
    ∷ 0x748f82ee ∷ 0x78a5636f ∷ 0x84c87814 ∷ 0x8cc70208 ∷ 0x90befffa ∷ 0xa4506ceb ∷ 0xbef9a3f7
    ∷ 0xc67178f2 ∷ []

-- `rotr`.
rotr : ℕ → ℕ → ℕ
unfolding shl32
rotr x n = bit_or (x / 2 ^ n) (shl32 x (32 - n))

-- One pass of the loop that extends the schedule: `w[i]` from the words before it.
pub schedule_word : List ℕ → ℕ → ℕ
unfolding add32 rotr
schedule_word w i =
    let w15 = get_or w (i - 15) 0 in
    let w2 = get_or w (i - 2) 0 in
    let s0 = bit_xor (bit_xor (rotr w15 7) (rotr w15 18)) (w15 / 2 ^ 3) in
    let s1 = bit_xor (bit_xor (rotr w2 17) (rotr w2 19)) (w2 / 2 ^ 10) in
    add32 (add32 (add32 (get_or w (i - 16) 0) s0) (get_or w (i - 7) 0)) s1

-- `for (i = 16; i < 64; ++i)`, with the rounds left.
pub extend : ℕ → ℕ → List ℕ → List ℕ
unfolding schedule_word
extend zero i w = w
extend (suc n) i w = extend n (i + 1) (w ++ schedule_word w i ∷ [])

-- The working variables of `compress`.
pub record Round : Type 0 where
  pub a : ℕ
  pub b : ℕ
  pub c : ℕ
  pub d : ℕ
  pub e : ℕ
  pub f : ℕ
  pub g : ℕ
  pub h : ℕ

-- One round, on the constant `k` and the schedule word `w`.
pub round : Round → ℕ → ℕ → Round
unfolding add32 not32 rotr
round r k w =
    let s1 = bit_xor (bit_xor (rotr r.e 6) (rotr r.e 11)) (rotr r.e 25) in
    let ch = bit_xor (bit_and r.e r.f) (bit_and (not32 r.e) r.g) in
    let temp1 = add32 (add32 (add32 (add32 r.h s1) ch) k) w in
    let s0 = bit_xor (bit_xor (rotr r.a 2) (rotr r.a 13)) (rotr r.a 22) in
    let maj = bit_xor (bit_xor (bit_and r.a r.b) (bit_and r.a r.c)) (bit_and r.b r.c) in
    let temp2 = add32 s0 maj in
    record {
      a = add32 temp1 temp2;
      b = r.a;
      c = r.b;
      d = r.c;
      e = add32 r.d temp1;
      f = r.e;
      g = r.f;
      h = r.g;
    }

-- The 64 rounds, over the constants and the schedule side by side.
pub rounds : List ℕ → List ℕ → Round → Round
unfolding round
rounds (k ∷ ks) (w ∷ ws) r = rounds ks ws (round r k w)
rounds _ _ r = r

-- `compress`, on `state_` and a block of 64 bytes.
unfoldable pub compress : List ℕ → Bytes → List ℕ
unfolding add32 words_from extend rounds
compress state block =
    let at = λ (i : ℕ). get_or state i 0 in
    let w = extend 48 16 (words_from 16 block 0) in
    let start : Round = record {
      a = at 0;
      b = at 1;
      c = at 2;
      d = at 3;
      e = at 4;
      f = at 5;
      g = at 6;
      h = at 7;
    } in
    let r = rounds round_constants w start in
    add32 (at 0) r.a
    ∷ add32 (at 1) r.b
    ∷ add32 (at 2) r.c
    ∷ add32 (at 3) r.d
    ∷ add32 (at 4) r.e
    ∷ add32 (at 5) r.f
    ∷ add32 (at 6) r.g
    ∷ add32 (at 7) r.h
    ∷ []

pub record Sha256 : Type 0 where
  pub chain : Chain
  pub bit_length : ℕ

-- The state that `reset` writes.
abbrev pub initial_state : List ℕ
initial_state =
    0x6a09e667 ∷ 0xbb67ae85 ∷ 0x3c6ef372 ∷ 0xa54ff53a ∷ 0x510e527f ∷ 0x9b05688c ∷ 0x1f83d9ab
    ∷ 0x5be0cd19 ∷ []

-- `reset`, which the constructor calls too.
abbrev pub reset : Sha256
reset = record { chain = record { state = initial_state; buffer = [] }; bit_length = 0 }

-- `while (len > 0)` of `update`: as much as the block has room for, then a compression if it is
-- full. Every pass takes a byte at least, so the length of the input is fuel enough.
unfoldable pub update_loop : ℕ → Chain → Bytes → Chain
update_loop zero c input = c
update_loop (suc fuel) c [] = c
update_loop (suc fuel) c input =
    let room = 64 - length c.buffer in
    let taken = min (length input) room in
    update_loop fuel (flush compress c.state (c.buffer ++ take taken input)) (drop taken input)

unfoldable pub update : Sha256 → Bytes → Sha256
update s input = record {
  chain = update_loop (length input) s.chain input;
  bit_length = (s.bit_length + length input * 8) % 2 ^ 64;
}

-- `while (bufferLen_ != 56)` of `finish`; fewer than 64 rounds reach byte 56.
unfoldable pub zero_pad : ℕ → Sha256 → Sha256
zero_pad zero s = s
zero_pad (suc fuel) s =
    let rest = zero_pad fuel (update s (0 ∷ [])) in if length s.chain.buffer == 56 then s else rest

-- The bytes that `finish` writes to `out`, from the eight words of the state.
unfoldable pub emit : List ℕ → Bytes
unfolding word_bytes
emit [] = []
emit (x ∷ xs) = word_bytes x ++ emit xs

-- `finish`. The object is not used again before `reset`.
unfoldable pub finish : Sha256 → Bytes
finish s =
    let padded = zero_pad 64 (update s (0x80 ∷ [])) in
    emit (compress padded.chain.state (padded.chain.buffer ++ length_bytes s.bit_length))

-- `hash`.
unfoldable pub hash : Bytes → Bytes
hash input = finish (update reset input)
