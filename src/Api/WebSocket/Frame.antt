-- ===== src/Api/WebSocket/Frame.antt =====
-- src/api/websocket.cpp: frame headers and masking.
-- An opcode is its four bits. A FrameHeader is written as far as the parsing got; only what
-- stands in it on `kOk` is modelled, since the callers read it then only.
pub mod RoundTrip
use matrix_faces.Common.{
  ℕ, zero, suc, ◌+◌, ◌-◌, ◌*◌, ◌/◌, ◌%◌, ◌^◌, bit_xor, Bool, true, false, not, ◌&&◌, ◌||◌, List, [],
  ◌∷◌, ◌++◌, Option, none, some, ltb, leb, ◌==◌, if◌then◌else◌, Bytes, length, get_or, take, drop,
}

-- `Opcode`.
abbrev pub op_close : ℕ
op_close = 0x8

abbrev pub op_pong : ℕ
op_pong = 0xA

pub record FrameHeader : Type 0 where
  pub fin : Bool
  pub opcode : ℕ
  pub masked : Bool
  pub payload_len : ℕ
  pub mask_key : Bytes
  pub header_len : ℕ

-- `ParseResult`; `ok` carries what is written to `out`.
pub data ParseResult : Type 0 where
  ok : FrameHeader → ParseResult
  incomplete unsupported : ParseResult

-- `value = (value << 8) | data[cursor + i]` on uint64_t, for the bytes of the field.
unfoldable pub big_endian : ℕ → Bytes → ℕ
big_endian value [] = value
big_endian value (b ∷ bs) = big_endian ((value * 2 ^ 8 + b) % 2 ^ 64) bs

-- What the extended length says: its value, and where the cursor stands behind it.
pub data Length : Type 0 where
  known : ℕ → ℕ → Length
  more_needed too_long : Length

unfoldable pub payload_length : Bytes → ℕ → Length
payload_length frame len_field =
    let value = big_endian 0 (take 8 (drop 2 frame)) in
    if ltb len_field 126
    then known len_field 2
    else if len_field == 126
    then (if ltb (length frame) 4
        then more_needed
        else known (get_or frame 2 0 * 2 ^ 8 + get_or frame 3 0) 4)
    else if ltb (length frame) 10
    then more_needed
    else if not (value / 2 ^ 63 == 0)
    then too_long
    else known value 10

-- `parseHeader` behind the length: control frames, the key, the header's end.
unfoldable pub parse_rest : Bytes → ℕ → ℕ → ParseResult
parse_rest frame payload_len cursor =
    let first = get_or frame 0 0 in
    let fin = leb 0x80 first in
    let opcode = first % 16 in
    let masked = leb 0x80 (get_or frame 1 0) in
    if leb 8 opcode && (ltb 125 payload_len || not fin)
    then unsupported
    else if masked
    then (if ltb (length frame) (cursor + 4)
        then incomplete
        else ok (record {
          fin = fin;
          opcode = opcode;
          masked = true;
          payload_len = payload_len;
          mask_key = take 4 (drop cursor frame);
          header_len = cursor + 4;
        }))
    else ok (record {
      fin = fin;
      opcode = opcode;
      masked = false;
      payload_len = payload_len;
      mask_key = 0 ∷ 0 ∷ 0 ∷ 0 ∷ [];
      header_len = cursor;
    })

-- `parseHeader`, on bytes: `first & 0x70` is `first / 16 % 8`.
unfoldable pub parse_header : Bytes → ParseResult
parse_header frame =
    if ltb (length frame) 2
    then incomplete
    else if not (get_or frame 0 0 / 16 % 8 == 0)
    then unsupported
    else elim (payload_length frame (get_or frame 1 0 % 128)) [
      | more_needed ↦ incomplete
      | too_long ↦ unsupported
      | known payload_len cursor ↦ parse_rest frame payload_len cursor
    ]

-- `unmask`, from a payload byte on.
unfoldable pub unmask : Bytes → Bytes → ℕ → Bytes
unmask [] mask_key offset = []
unmask (b ∷ payload) mask_key offset =
    bit_xor b (get_or mask_key (offset % 4) 0) ∷ unmask payload mask_key (offset + 1)

-- `encodeHeader`; `none` is 0. The null pointer is refused before.
unfoldable pub encode_header : ℕ → ℕ → ℕ → Option Bytes
encode_header cap opcode payload_len =
    if ltb payload_len 126
    then (if ltb cap 2 then none else some ((0x80 + opcode) ∷ payload_len ∷ []))
    else if leb payload_len 0xFFFF
    then (if ltb cap 4
        then none
        else some ((0x80 + opcode) ∷ 126 ∷ payload_len / 2 ^ 8 % 256 ∷ payload_len % 256 ∷ []))
    else none

-- `encodeClose`.
unfoldable pub encode_close : ℕ → ℕ → Option Bytes
encode_close cap code =
    if ltb cap 4 then none else some ((0x80 + op_close) ∷ 2 ∷ code / 2 ^ 8 % 256 ∷ code % 256 ∷ [])

-- `encodePong`.
unfoldable pub encode_pong : ℕ → Bytes → Option Bytes
encode_pong cap payload =
    if ltb 125 (length payload)
    then none
    else if ltb cap (2 + length payload)
    then none
    else some ((0x80 + op_pong) ∷ length payload ∷ payload)
