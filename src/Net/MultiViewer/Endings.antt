-- ===== src/Net/MultiViewer/Endings.antt =====
-- src/net/multiviewer_parse.cpp: how a parse of a response ends.
use matrix_faces.Common.{
  ℕ, ◌+◌, ◌%◌, ◌^◌, ◌≡◌, ◌↔◌, sym, ap, arith, true, ◌&&◌, [], ◌∷◌, ◌++◌, none, some, some_inj, leb,
  ◌==◌, Bytes, bytes_eq, codes, length, take, Bool-cases, Option-cases, inl, inr, ◌∙◌,
}
use matrix_faces.Net.MultiViewer.Scan.{find_value, find_object_end, after_key}
use matrix_faces.Net.MultiViewer.Session.{
  SessionState, Counters, ParseResult, parse_ok, parse_no_session, parse_malformed, parse_truncated,
  no_session_state,
}
use matrix_faces.Net.MultiViewer.Topics.{parse_track_status, parse_lap_count, parse_driver_list}
use matrix_faces.Net.MultiViewer.RaceControl.{parse_race_control_messages}
use matrix_faces.Net.MultiViewer.Response.{parse_state, parse}

-- The four topics of a live session.
abbrev pub topics : Bytes → ℕ → SessionState → SessionState
topics scope now st =
    parse_race_control_messages scope now
      (parse_driver_list scope (parse_lap_count scope (parse_track_status scope st)))

-- What stands behind the key of the session: `null`, or an object.
abbrev pub IsNull : Bytes → Type 0
IsNull value = (rest : Bytes) × (value ≡ codes "null" ++ rest)

abbrev pub IsObject : Bytes → Type 0
IsObject value = (rest : Bytes) × (value ≡ b'{' ∷ rest)

-- The value of the session in a response.
abbrev pub IsSession : Bytes → Bytes → Type 0
IsSession buf value = find_value buf (codes "\"f1LiveTimingState\":") ≡ some value

-- The four ends of a parse: when each comes, what is returned, the state and the one counter that
-- moves.
pub data Ending (buf : Bytes) (now : ℕ) (st : SessionState) (k : Counters)
    : ParseResult × SessionState × Counters → Type 0 where
  malformed_end :
      ((value : Bytes) → IsSession buf value → (IsNull value → ⊥) × (IsObject value → ⊥))
      → Ending buf now st k
          (parse_malformed, st, record k { malformed = (k.malformed + 1) % 2 ^ 32 })
  truncated_end :
      (value : Bytes)
      → IsSession buf value
      → IsObject value
      → find_object_end value ≡ none
      → Ending buf now st k
          (parse_truncated, st, record k { truncated = (k.truncated + 1) % 2 ^ 32 })
  no_session_end :
      (value : Bytes)
      → IsSession buf value
      → IsNull value
      → Ending buf now st k (
        parse_no_session,
        no_session_state,
        record k { no_session = (k.no_session + 1) % 2 ^ 32 },
      )
  parsed_end :
      (value scope rest : Bytes)
      → IsSession buf value
      → IsObject value
      → find_object_end value ≡ some (scope, rest)
      → Ending buf now st k
          (parse_ok, topics scope now st, record k { parsed = (k.parsed + 1) % 2 ^ 32 })

after_key_iff : (key text rest : Bytes) → (after_key key text ≡ some rest) ↔ (text ≡ key ++ rest)
unfolding after_key
after_key_iff [] text rest = (λ e. some_inj e, λ e. ap some e)
after_key_iff (k ∷ key) [] rest = (λ e. cc, λ e. cc)
after_key_iff (k ∷ key) (c ∷ text) rest =
    let ih = after_key_iff key text rest in
    elim (Bool-cases (c == k)) [
      | inl same ↦
          let equal : c ≡ k = ground arith in
          (
            λ e.
                let behind : after_key key text ≡ some rest = rw (same, after_key) at e in
                let tail = ih.0 behind in cc,
            λ e.
                let tail : text ≡ key ++ rest = cc in
                let behind = ih.1 tail in rw (same, after_key) behind,
          )
      | inr apart ↦ (
        λ e. let refused = rw (apart, after_key) at e in cc,
        λ e. let equal : c ≡ k = cc in absurd (ground arith),
      )
    ]

IsObject-iff :
    (value : Bytes)
    → ((leb 1 (length value) && bytes_eq (take 1 value) (codes "{")) ≡ true) ↔ IsObject value
unfolding bytes_eq
IsObject-iff [] = (λ e. cc, λ (rest, e). cc)
IsObject-iff (c ∷ value) = (
  λ e. let brace : c ≡ b'{' = ground arith in (value, ap (λ d. d ∷ value) brace),
  λ (rest, e). let brace : c ≡ b'{' = cc in ground arith,
)

parse_state-Ending :
    (buf value : Bytes) (now : ℕ) (st : SessionState) (k : Counters)
    → IsSession buf value
    → Ending buf now st k (parse_state value now st k)
unfolding parse_state
parse_state-Ending buf value now st k found = elim (Option-cases (after_key (codes "null") value)) [
  | inr (rest, is_null) ↦
      let null = (after_key_iff (codes "null") value rest).0 is_null in
      rw (is_null, parse_state) (no_session_end value found (rest, null))
  | inl other ↦ elim (Bool-cases (leb 1 (length value) && bytes_eq (take 1 value) (codes "{"))) [
    | inr no_object ↦
        rw (other, no_object, parse_state)
          (malformed_end λ v session.
            let same : value ≡ v = some_inj (sym found ∙ session) in
            (
              λ (rest, null).
                  let read = (after_key_iff (codes "null") value rest).1 (same ∙ null) in cc,
              λ (rest, brace). let read = (IsObject-iff value).1 (rest, same ∙ brace) in cc,
            ))
    | inl object ↦
        let brace = (IsObject-iff value).0 object in
        elim (Option-cases (find_object_end value)) [
          | inl cut ↦ rw (other, object, cut, parse_state) (truncated_end value found brace cut)
          | inr ((scope, rest), ended) ↦
              rw (other, object, ended, parse_state) (parsed_end value scope rest found brace ended)
        ]
  ]
]

-- A parse ends in one of four ways. Where the session's key is missing or its value is neither
-- `null` nor an object, or where the object is cut off, the state stays as it was; `null` resets
-- it; an object goes through the four topics, on the scope of the object that begins there. In each case one counter goes on by one, that of the result.
pub parse-Ending :
    (buf : Bytes) (now : ℕ) (st : SessionState) (k : Counters)
    → Ending buf now st k (parse buf now st k)
unfolding parse
parse-Ending buf now st k = elim (Option-cases (find_value buf (codes "\"f1LiveTimingState\":"))) [
  | inl absent ↦ rw (absent, parse) (malformed_end λ v session. absurd (cc))
  | inr (value, found) ↦ rw (found, parse) (parse_state-Ending buf value now st k found)
]
