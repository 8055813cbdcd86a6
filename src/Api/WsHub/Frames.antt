-- ===== src/Api/WsHub/Frames.antt =====
-- src/api/ws_hub.cpp: every frame that a client sends is answered, however its bytes are cut.
use matrix_faces.Common.{
  ℕ, suc, ◌+◌, ◌<◌, ◌≤◌, ◌≡◌, refl, sym, ap, ap₂, subst, arith, true, List, [], ◌∷◌, ◌++◌, ltb,
  Bytes, length, take, length-append, take-append, Bool-cases, inl, inr, ◌⊎◌, ◌*◌, ◌%◌, ◌∙◌,
  bit_xor, get_or,
}
use matrix_faces.Api.WebSocket.Frame.{
  FrameHeader, ok, incomplete, parse_header, payload_length, parse_rest, unmask,
}
use matrix_faces.Api.WebSocket.Frame.RoundTrip.{unmask-unmask}
use matrix_faces.Api.WsHub.{wait, consume, frame_step, step_on, step_on}

-- A frame that a client sends, as this board expects it: text, a ping or a pong, with a short
-- payload and the four bytes of its mask key.
pub record ClientFrame : Type 0 where
  pub opcode : ℕ
  pub key0 : ℕ
  pub key1 : ℕ
  pub key2 : ℕ
  pub key3 : ℕ
  pub payload : Bytes

abbrev pub key : ClientFrame → Bytes
key f = f.key0 ∷ f.key1 ∷ f.key2 ∷ f.key3 ∷ []

pub record IsFrame (f : ClientFrame) : Type 0 where
  pub known : (f.opcode ≡ 1) ⊎ (f.opcode ≡ 9) ⊎ (f.opcode ≡ 10)
  pub short : length f.payload ≤ 125

-- Each byte of a payload with the byte of the key whose turn it is, the four in rotation.
abbrev pub masked : ℕ → ℕ → ℕ → ℕ → Bytes → Bytes
masked a b c d [] = []
masked a b c d (x ∷ payload) = bit_xor x a ∷ masked b c d a payload

abbrev pub frame_bytes : ClientFrame → Bytes
frame_bytes f =
    (0x80 + f.opcode)
    ∷ (0x80 + length f.payload)
    ∷ f.key0
    ∷ f.key1
    ∷ f.key2
    ∷ f.key3
    ∷ masked f.key0 f.key1 f.key2 f.key3 f.payload

abbrev pub stream : List ClientFrame → Bytes
stream [] = []
stream (f ∷ fs) = frame_bytes f ++ stream fs

length_masked : (a b c d : ℕ) (payload : Bytes) → length (masked a b c d payload) ≡ length payload
length_masked a b c d [] = refl
length_masked a b c d (x ∷ payload) = ap suc (length_masked b c d a payload)

pub length-masked :
    (f : ClientFrame) → length (masked f.key0 f.key1 f.key2 f.key3 f.payload) ≡ length f.payload
length-masked f = length_masked f.key0 f.key1 f.key2 f.key3 f.payload

-- The code's index into the key is the turn of its byte, at each of the four offsets.
module _ (a b c d : ℕ) where
  unmask-masked_turns :
      (payload : Bytes) (n : ℕ)
      → let k : Bytes = a ∷ b ∷ c ∷ d ∷ [] in
        (unmask payload k (4 * n) ≡ masked a b c d payload)
        × (unmask payload k (4 * n + 1) ≡ masked b c d a payload)
        × (unmask payload k (4 * n + 2) ≡ masked c d a b payload)
        × (unmask payload k (4 * n + 3) ≡ masked d a b c payload)
  unfolding unmask
  unmask-masked_turns [] n = (refl, refl, refl, refl)
  unmask-masked_turns (x ∷ payload) n =
      let k : Bytes = a ∷ b ∷ c ∷ d ∷ [] in
      let turn0 : 4 * n % 4 ≡ 0 = omega arith in
      let turn1 : (4 * n + 1) % 4 ≡ 1 = omega arith in
      let turn2 : (4 * n + 2) % 4 ≡ 2 = omega arith in
      let turn3 : (4 * n + 3) % 4 ≡ 3 = omega arith in
      let next2 : 4 * n + 1 + 1 ≡ 4 * n + 2 = omega arith in
      let next3 : 4 * n + 2 + 1 ≡ 4 * n + 3 = omega arith in
      let next4 : 4 * n + 3 + 1 ≡ 4 * suc n = omega arith in
      let now = unmask-masked_turns payload n in
      let later = unmask-masked_turns payload (suc n) in
      (
        ap₂ (λ i q. bit_xor x (get_or k i 0) ∷ q) turn0 now.1,
        ap₂ (λ i q. bit_xor x (get_or k i 0) ∷ q) turn1 (ap (unmask payload k) next2 ∙ now.2),
        ap₂ (λ i q. bit_xor x (get_or k i 0) ∷ q) turn2 (ap (unmask payload k) next3 ∙ now.3),
        ap₂ (λ i q. bit_xor x (get_or k i 0) ∷ q) turn3 (ap (unmask payload k) next4 ∙ later.0),
      )

unmask-masked :
    (f : ClientFrame) → unmask (masked f.key0 f.key1 f.key2 f.key3 f.payload) (key f) 0 ≡ f.payload
unmask-masked f =
    ap (λ m. unmask m (key f) 0)
      (sym (unmask-masked_turns f.key0 f.key1 f.key2 f.key3 f.payload 0).0)
    ∙ unmask-unmask f.payload (key f) 0

-- The header of the frame, once its six bytes are there.
abbrev client_header : ℕ → Bytes → ℕ → FrameHeader
client_header opcode key n = record {
  fin = true;
  opcode = opcode;
  masked = true;
  payload_len = n;
  mask_key = key;
  header_len = 6;
}

parse_header-client :
    (opcode n a b c d : ℕ) (rest : Bytes)
    → opcode < 16
    → n ≤ 125
    → parse_header ((0x80 + opcode) ∷ (0x80 + n) ∷ a ∷ b ∷ c ∷ d ∷ rest)
      ≡ ok (client_header opcode (a ∷ b ∷ c ∷ d ∷ []) n)
unfolding parse_header payload_length parse_rest
parse_header-client opcode n a b c d rest four short = ground arith

-- Fewer bytes than a header has.
parse_header-few :
    (opcode n : ℕ) (rest : Bytes)
    → opcode < 16
    → n ≤ 125
    → length rest < 4
    → parse_header ((0x80 + opcode) ∷ (0x80 + n) ∷ rest) ≡ incomplete
unfolding parse_header payload_length parse_rest
parse_header-few opcode n rest four short few = ground arith

four_bytes :
    (s : Bytes) → 4 ≤ length s → (a b c d : ℕ) × (rest : Bytes) × (s ≡ a ∷ b ∷ c ∷ d ∷ rest)
four_bytes [] h = absurd (omega arith)
four_bytes (a ∷ []) h = absurd (omega arith)
four_bytes (a ∷ b ∷ []) h = absurd (omega arith)
four_bytes (a ∷ b ∷ c ∷ []) h = absurd (omega arith)
four_bytes (a ∷ b ∷ c ∷ d ∷ rest) h = (a, b, c, d, rest, refl)

opcode_bound : (f : ClientFrame) → IsFrame f → f.opcode < 16
opcode_bound f form = elim form.known [
  | inl e ↦ omega (arith, e)
  | inr (inl e) ↦ omega (arith, e)
  | inr (inr e) ↦ omega (arith, e)
]

-- Too few bytes for the header, or for the payload.
frame_step-short :
    (opcode n : ℕ) (s : Bytes)
    → opcode < 16
    → n ≤ 125
    → length s < 4 + n
    → frame_step ((0x80 + opcode) ∷ (0x80 + n) ∷ s) ≡ wait
unfolding frame_step step_on
frame_step-short opcode n s four short part = elim (Bool-cases (ltb (length s) 4)) [
  | inl few ↦ rw (parse_header-few opcode n s four short (ground arith), frame_step) refl
  | inr many ↦
      let (a, b, c, d, rest, same) = four_bytes s (ground arith) in
      let size : length s ≡ 4 + length rest = rw same (omega arith) in
      subst (λ q. frame_step ((0x80 + opcode) ∷ (0x80 + n) ∷ q) ≡ wait) (sym same)
        (rw (parse_header-client opcode n a b c d rest four short, frame_step)
          (ground (arith, size)))
]

pub frame_step-whole :
    (f : ClientFrame) (rest : Bytes)
    → IsFrame f
    → frame_step (frame_bytes f ++ rest) ≡ consume (length (frame_bytes f)) f.opcode f.payload
unfolding frame_step step_on
frame_step-whole f rest form =
    let n : ℕ = length f.payload in
    let text : Bytes = masked f.key0 f.key1 f.key2 f.key3 f.payload in
    let size : length text ≡ n = length-masked f in
    let all = length-append text rest in
    let taken : take n (text ++ rest) ≡ text =
      subst (λ m. take m (text ++ rest) ≡ text) size (take-append text rest) in
    let plain : unmask text (key f) 0 ≡ f.payload = unmask-masked f in
    let short = form.short in
    rw
      (
        parse_header-client f.opcode n f.key0 f.key1 f.key2 f.key3 (text ++ rest)
            (opcode_bound f form) short,
        frame_step,
        taken,
        plain,
      )
      (ground (arith, size, all, short))

-- What one list is a part of, cut at another.
pub append-split :
    (xs ys us vs : Bytes)
    → xs ++ ys ≡ us ++ vs
    → length us ≤ length xs
    → (t : Bytes) × (xs ≡ us ++ t) × (t ++ ys ≡ vs)
append-split xs ys [] vs e h = (xs, refl, e)
append-split [] ys (u ∷ us) vs e h = absurd (omega arith)
append-split (x ∷ xs) ys (u ∷ us) vs e h =
    let behind : xs ++ ys ≡ us ++ vs = cc in
    let shorter : length us ≤ length xs = omega arith in
    let (t, same, rest) = append-split xs ys us vs behind shorter in
    let head : x ≡ u = cc in (t, ap₂ ◌∷◌ head same, rest)

frame_step-few : (s : Bytes) → length s < 2 → frame_step s ≡ wait
unfolding frame_step step_on parse_header
frame_step-few [] few = refl
frame_step-few (x ∷ []) few = refl
frame_step-few (x ∷ y ∷ s) few = absurd (omega arith)

pub frame_step-part :
    (f : ClientFrame) (s rest vs : Bytes)
    → IsFrame f
    → s ++ rest ≡ frame_bytes f ++ vs
    → length s < length (frame_bytes f)
    → frame_step s ≡ wait
frame_step-part f [] rest vs form e part = frame_step-few [] (omega arith)
frame_step-part f (x ∷ []) rest vs form e part = frame_step-few (x ∷ []) (omega arith)
frame_step-part f (x ∷ y ∷ s) rest vs form e part =
    let first : 0x80 + f.opcode ≡ x = cc in
    let second : 0x80 + length f.payload ≡ y = cc in
    let size = length-masked f in
    rw (← first, ← second)
      (frame_step-short f.opcode (length f.payload) s (opcode_bound f form) form.short
        (omega (arith, part, size)))
