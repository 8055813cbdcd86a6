-- ===== src/Net/Schedule/Query.antt =====
-- src/net/mv_schedule.cpp: the query asks for the topics of the mask, and fits its buffer.
use matrix_faces.Common.{
  ℕ, ◌+◌, ◌<◌, ◌≡◌, refl, ap, arith, Bool, true, false, List, [], ◌∷◌, ◌++◌, Option, none, some,
  ltb, ◌==◌, if◌then◌else◌, bit_and, Bytes, length, length-append, append-nil, append_assoc,
  Bool-cases, inl, inr, ◌∙◌,
}
use matrix_faces.Net.Schedule.{TopicName, topic_names, prefix, suffix, add_fields, build_query}

-- The fields of the mask, in the order of the table, with a space before each but the first.
unfoldable pub fields : List TopicName → ℕ → Bool → Bytes
fields [] topics first = []
fields (t ∷ ts) topics first =
    if bit_and topics t.bit == 0
    then fields ts topics first
    else (if first then [] else b' ' ∷ []) ++ (t.field ++ fields ts topics false)

abbrev separator : Bool → Bytes
separator first = if first then [] else b' ' ∷ []

abbrev fitting : ℕ → Bytes → Option Bytes
fitting cap text = if ltb (length text + length suffix) cap then some text else none

add_fields-fields :
    (ts : List TopicName) (topics cap : ℕ) (first : Bool) (out : Bytes)
    → length out + length suffix < cap
    → add_fields ts topics cap first out ≡ fitting cap (out ++ fields ts topics first)
unfolding add_fields fields
add_fields-fields [] topics cap first out room = rw (append-nil out) (ground arith)
add_fields-fields (t ∷ ts) topics cap first out room =
    elim (Bool-cases (bit_and topics t.bit == 0)) [
      | inl skipped ↦ rw (skipped, add_fields) (add_fields-fields ts topics cap first out room)
      | inr asked ↦
          let text = separator first ++ t.field in
          let grown : length (out ++ text)
              ≡ length out + (length t.field + (if first then 0 else 1)) =
            ground (arith, length-append out text, length-append (separator first) t.field) in
          let whole : (out ++ text) ++ fields ts topics false
              ≡ out ++ (separator first ++ (t.field ++ fields ts topics false)) =
            append_assoc out text (fields ts topics false)
            ∙ ap (λ b. out ++ b)
                (append_assoc (separator first) t.field (fields ts topics false)) in
          let longer = length-append (out ++ text) (fields ts topics false) in
          elim (Bool-cases (
            ltb cap
              (length out + (length t.field + (if first then 0 else 1)) + length suffix + 1))) [
                | inl full ↦
                    rw (asked, full, add_fields) (rw (← whole) (ground (arith, longer, grown)))
                | inr fits ↦
                    rw (asked, fits, add_fields)
                      (rw (← whole) (
                        add_fields-fields ts topics cap false (out ++ text)
                          (ground (arith, grown))))
              ]
    ]

-- `buildQuery` behind its first test, for any table and any opening.
build_whole :
    (ts : List TopicName) (opening : Bytes) (topics cap : ℕ)
    → (if ltb cap (length opening + length suffix + 1)
        then none
        else elim (add_fields ts topics cap true opening) [
          | none ↦ none
          | some out ↦ some (out ++ suffix)
        ])
      ≡ (if ltb (length (opening ++ (fields ts topics true ++ suffix))) cap
          then some (opening ++ (fields ts topics true ++ suffix))
          else none)
build_whole ts opening topics cap =
    let assoc = append_assoc opening (fields ts topics true) suffix in
    let size = length-append (opening ++ fields ts topics true) suffix in
    let longer = length-append opening (fields ts topics true) in
    rw (← assoc) (elim (Bool-cases (ltb cap (length opening + length suffix + 1))) [
      | inl full ↦ rw full (ground (arith, size, longer))
      | inr room ↦
          rw (room, add_fields-fields ts topics cap true opening (ground arith))
            (ground (arith, size))
    ])

-- The whole query.
abbrev pub query : ℕ → Bytes
query topics = prefix ++ (fields topic_names topics true ++ suffix)

-- `buildQuery` writes the query for the topics of the mask, in the order of the table, exactly when
-- a topic is asked for and the query fits with its terminator; otherwise it writes none of it.
pub build_query-query :
    (topics cap : ℕ)
    → build_query topics cap ≡ (
        if topics == 0
        then none
        else if ltb (length (query topics)) cap
        then some (query topics)
        else none)
unfolding build_query
build_query-query topics cap = elim (Bool-cases (topics == 0)) [
  | inl nothing ↦ rw (nothing, build_query) refl
  | inr asked ↦ rw (asked, build_query) (build_whole topic_names prefix topics cap)
]
