-- ===== src/Api/WebSocket/Frame/RoundTrip.antt =====
-- src/api/websocket.cpp: what the board writes parses back, and masking undoes itself.
use matrix_faces.Common.{
  ℕ, ◌+◌, ◌/◌, ◌%◌, ◌^◌, ◌<◌, ◌≤◌, ◌≡◌, refl, ap, ap₂, ◌∙◌, arith, true, false, [], ◌∷◌, ◌++◌, some,
  ltb, ltb→lt, Bool-cases, inl, inr, leb, leb→le, min, Bytes, length, get_or, drop, bit_xor, subst,
}
use matrix_faces.Common.Bits.{bit_xor-cancel}
use matrix_faces.Api.WebSocket.Frame.{
  FrameHeader, ok, payload_length, parse_rest, parse_header, unmask, encode_header, encode_pong,
}

-- The header of a whole, unmasked frame.
abbrev pub plain : ℕ → ℕ → ℕ → FrameHeader
plain opcode payload_len header_len = record {
  fin = true;
  opcode = opcode;
  masked = false;
  payload_len = payload_len;
  mask_key = 0 ∷ 0 ∷ 0 ∷ 0 ∷ [];
  header_len = header_len;
}

parse_short :
    (opcode payload_len : ℕ) (rest : Bytes)
    → opcode < 16
    → (8 ≤ opcode → payload_len ≤ 125)
    → payload_len < 126
    → parse_header ((0x80 + opcode) ∷ payload_len ∷ rest) ≡ ok (plain opcode payload_len 2)
unfolding parse_header payload_length parse_rest
parse_short opcode payload_len rest four control short = ground arith

parse_long :
    (opcode payload_len : ℕ) (rest : Bytes)
    → opcode < 8
    → 126 ≤ payload_len
    → payload_len < 2 ^ 16
    → parse_header ((0x80 + opcode) ∷ 126 ∷ payload_len / 2 ^ 8 % 256 ∷ payload_len % 256 ∷ rest)
      ≡ ok (plain opcode payload_len 4)
unfolding parse_header payload_length parse_rest
parse_long opcode payload_len rest low long fits = ground arith

-- `parseHeader` reads what `encodeHeader` writes, whatever follows it: a final, unmasked frame of
-- the opcode and the length, for an opcode of four bits and a control frame of 125 bytes at most.
pub parse_header-encode_header :
    (cap opcode payload_len : ℕ) (rest : Bytes) {header : Bytes}
    → opcode < 16
    → (8 ≤ opcode → payload_len ≤ 125)
    → encode_header cap opcode payload_len ≡ some header
    → parse_header (header ++ rest) ≡ ok (plain opcode payload_len (length header))
unfolding encode_header
parse_header-encode_header cap opcode payload_len rest {header} four control e =
    elim (Bool-cases (ltb payload_len 126)) [
      | inl short ↦
          let same : (0x80 + opcode) ∷ payload_len ∷ [] ≡ header = ground arith in
          subst (λ h. parse_header (h ++ rest) ≡ ok (plain opcode payload_len (length h))) same
            (parse_short opcode payload_len rest four control (ltb→lt payload_len 126 short))
      | inr long ↦
          let low : opcode < 8 = elim (Bool-cases (leb 8 opcode)) [
            | inl high ↦ let few = control (leb→le 8 opcode high) in absurd (ground arith)
            | inr low ↦ ground arith
          ] in
          let same : (0x80 + opcode) ∷ 126 ∷ payload_len / 2 ^ 8 % 256 ∷ payload_len % 256 ∷ []
              ≡ header =
            ground arith in
          subst (λ h. parse_header (h ++ rest) ≡ ok (plain opcode payload_len (length h))) same
            (parse_long opcode payload_len rest low (ground arith) (ground arith))
    ]

-- A pong that is written parses back with the payload of its ping behind the header, and fits the
-- buffer and a control frame.
pub parse_header-encode_pong :
    (cap : ℕ) (payload : Bytes) {frame : Bytes}
    → encode_pong cap payload ≡ some frame
    → (parse_header frame ≡ ok (plain 0xA (length payload) 2))
      × (drop 2 frame ≡ payload)
      × (length frame ≤ min cap 127)
unfolding encode_pong
parse_header-encode_pong cap payload {frame} e =
    let short : length payload < 126 = ground arith in
    let same : 0x8A ∷ length payload ∷ payload ≡ frame = ground arith in
    let room : 2 + length payload ≤ cap = ground arith in
    subst
      (λ f.
        (parse_header f ≡ ok (plain 0xA (length payload) 2))
        × (drop 2 f ≡ payload)
        × (length f ≤ min cap 127))
      same
      (
        parse_short 0xA (length payload) payload (omega arith) (λ _. omega (arith, short)) short,
        refl,
        omega (arith, short, room),
      )

-- Unmasking twice with one key is the identity.
pub unmask-unmask :
    (payload mask_key : Bytes) (offset : ℕ)
    → unmask (unmask payload mask_key offset) mask_key offset ≡ payload
unfolding unmask
unmask-unmask [] mask_key offset = refl
unmask-unmask (b ∷ payload) mask_key offset =
    ap₂ ◌∷◌ (bit_xor-cancel b (get_or mask_key (offset % 4) 0))
      (unmask-unmask payload mask_key (offset + 1))

-- A payload that arrives in pieces is unmasked as it is in one piece, when the offset says how much
-- of it went before.
pub unmask-append :
    (xs ys mask_key : Bytes) (offset : ℕ)
    → unmask (xs ++ ys) mask_key offset
      ≡ unmask xs mask_key offset ++ unmask ys mask_key (offset + length xs)
unfolding unmask
unmask-append [] ys mask_key offset = ap (unmask ys mask_key) (omega arith)
unmask-append (x ∷ xs) ys mask_key offset = ap (◌∷◌ (bit_xor x (get_or mask_key (offset % 4) 0))) (
    unmask-append xs ys mask_key (offset + 1)
    ∙ ap (λ n. unmask xs mask_key (offset + 1) ++ unmask ys mask_key n) (omega arith))
