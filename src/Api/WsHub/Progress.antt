-- ===== src/Api/WsHub/Progress.antt =====
-- src/api/ws_hub.cpp: each frame that is consumed takes bytes that are there.
use matrix_faces.Common.{
  ℕ, ◌%◌, ◌≤◌, arith, ltb, ◌==◌, Bytes, length, get_or, ◌/◌, Bool-cases, inl, inr,
}
use matrix_faces.Api.WebSocket.Frame.{
  ParseResult, ok, incomplete, unsupported, Length, known, more_needed, too_long, parse_header,
  payload_length, parse_rest,
}
use matrix_faces.Api.WsHub.{FrameStep, consume, frame_step, step_on}

-- The length of the header that was read, or two.
abbrev pub header_len_of : ParseResult → ℕ
header_len_of (ok h) = h.header_len
header_len_of _ = 2

pub parse_rest-header_len :
    (frame : Bytes) (n cursor : ℕ) → 2 ≤ cursor → 2 ≤ header_len_of (parse_rest frame n cursor)
unfolding parse_rest
parse_rest-header_len frame n cursor two = ground arith

-- The cursor stands behind the two bytes at least.
abbrev pub OnKnown : Length → Type 0
OnKnown (known n cursor) = 2 ≤ cursor
OnKnown _ = Unit

pub payload_length-OnKnown :
    (frame : Bytes) (len_field : ℕ) → OnKnown (payload_length frame len_field)
unfolding payload_length
payload_length-OnKnown frame len_field = ground arith

pub behind_length :
    (frame : Bytes) (l : Length)
    → OnKnown l
    → 2
      ≤ header_len_of (elim l [
        | more_needed ↦ incomplete
        | too_long ↦ unsupported
        | known payload_len cursor ↦ parse_rest frame payload_len cursor
      ])
behind_length frame more_needed two = omega arith
behind_length frame too_long two = omega arith
behind_length frame (known n cursor) two = parse_rest-header_len frame n cursor two

pub parse_header-header_len : (frame : Bytes) → 2 ≤ header_len_of (parse_header frame)
unfolding parse_header
parse_header-header_len frame =
    let field : ℕ = get_or frame 1 0 % 128 in
    let known_case =
      behind_length frame (payload_length frame field) (payload_length-OnKnown frame field) in
    elim (Bool-cases (ltb (length frame) 2)) [
      | inl few ↦ rw (few, parse_header) (omega arith)
      | inr enough ↦ elim (Bool-cases (get_or frame 0 0 / 16 % 8 == 0)) [
        | inl clear ↦ rw (enough, clear, parse_header) known_case
        | inr reserved ↦ rw (enough, reserved, parse_header) (omega arith)
      ]
    ]

-- The length of the frame that is consumed, for a bound from below and for one from above.
abbrev pub at_least : FrameStep → ℕ
at_least (consume total opcode payload) = total
at_least _ = 2

abbrev pub at_most : FrameStep → ℕ
at_most (consume total opcode payload) = total
at_most _ = 0

pub step_on_bounds :
    (buf : Bytes) (r : ParseResult)
    → 2 ≤ header_len_of r
    → (2 ≤ at_least (step_on buf r)) × (at_most (step_on buf r) ≤ length buf)
unfolding step_on
step_on_bounds buf incomplete two = (omega arith, omega arith)
step_on_bounds buf unsupported two = (omega arith, omega arith)
step_on_bounds buf (ok h) two = (ground arith, ground arith)

-- A frame that is consumed has two bytes at least, and all of them stand in the buffer.
pub frame_step_bounds :
    (buf : Bytes) → (2 ≤ at_least (frame_step buf)) × (at_most (frame_step buf) ≤ length buf)
unfolding frame_step
frame_step_bounds buf = step_on_bounds buf (parse_header buf) (parse_header-header_len buf)
