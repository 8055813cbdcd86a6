-- ===== src/Api/Router/Match.antt =====
-- src/api/router.cpp: what a pattern matches, and which route is found.
use matrix_faces.Common.{
  ℕ, ◌<◌, ◌≡◌, ◌↔◌, refl, sym, ap, ap₂, subst, ◌∙◌, arith, true, false, not, List, [], ◌∷◌, ◌++◌,
  none, some, some_inj, ◌==◌, if◌then◌else◌, Bytes, bytes_eq, bytes_eq_iff, bytes_eq_refl, length,
  take, drop, take_while, drop_while, take_while-stop, take_while-append-drop_while, take_while-All,
  take-append, drop-append, take-append-drop, All, Bool-cases, Option-cases, inl, inr,
}
use matrix_faces.Api.Router.{
  capture_wildcard, not_star, not_slash, match_rest, match_path, Route, find_route,
}

capture_wildcard_iff :
    (text : Bytes) (cap : ℕ) (w : Bytes)
    → (capture_wildcard text cap ≡ some w) ↔ ((text ≡ w) × (length w < cap))
unfolding capture_wildcard
capture_wildcard_iff text cap w = ground arith

match_rest-segment :
    (suffix rest : Bytes) (cap : ℕ) (w : Bytes)
    → match_rest (b'/' ∷ suffix) rest cap ≡ some w
    → (rest ≡ w ++ b'/' ∷ suffix) × (length w < cap) × All (λ c. not_slash c ≡ true) w
unfolding match_rest
match_rest-segment suffix rest cap w found = split (drop_while not_slash rest) refl
  where
    split :
        (end : Bytes)
        → drop_while not_slash rest ≡ end
        → (rest ≡ w ++ b'/' ∷ suffix) × (length w < cap) × All (λ c. not_slash c ≡ true) w
    split [] e = let refused = rw (e, match_rest) at found in cc
    split (d ∷ end) e = elim (Bool-cases (bytes_eq (d ∷ end) (b'/' ∷ suffix))) [
      | inl same ↦
          let captured = rw (e, same, match_rest) at found in
          let (taken, fits) = (capture_wildcard_iff (take_while not_slash rest) cap w).0 captured in
          (
            sym (take_while-append-drop_while not_slash rest)
                ∙ ap₂ (λ a b. a ++ b) taken (e ∙ (bytes_eq_iff (d ∷ end) (b'/' ∷ suffix)).0 same),
            fits,
            subst (All (λ c. not_slash c ≡ true)) taken (take_while-All not_slash rest),
          )
      | inr apart ↦ let refused = rw (e, apart, match_rest) at found in cc
    ]

segment-match_rest :
    (suffix : Bytes) (cap : ℕ) (w : Bytes)
    → length w < cap
    → All (λ c. not_slash c ≡ true) w
    → match_rest (b'/' ∷ suffix) (w ++ b'/' ∷ suffix) cap ≡ some w
unfolding match_rest
segment-match_rest suffix cap w fits segment =
    let (before, behind) = take_while-stop not_slash w suffix b'/' segment refl in
    rw (behind, match_rest)
      (rw (bytes_eq_refl (b'/' ∷ suffix))
        (rw before ((capture_wildcard_iff w cap w).1 (refl, fits))))

module _ (prefix : Bytes) (plain : All (λ c. not_star c ≡ true) prefix) where
  -- A pattern whose prefix has no star: the path must start with the prefix.
  match_path-prefix :
      (suffix path : Bytes) (cap : ℕ)
      → 0 < cap
      → match_path (prefix ++ b'*' ∷ suffix) path cap ≡ (
          if not (bytes_eq prefix (take (length prefix) path))
          then none
          else match_rest suffix (drop (length prefix) path) cap)
  unfolding match_path
  match_path-prefix suffix path cap room =
      let (before, behind) = take_while-stop not_star prefix suffix b'*' plain refl in
      let positive : (cap == 0) ≡ false = ground arith in
      rw (positive, behind, before, match_path) refl

  match_path_rest :
      (suffix path : Bytes) (cap : ℕ) (w : Bytes)
      → 0 < cap
      → match_path (prefix ++ b'*' ∷ suffix) path cap ≡ some w
      → (rest : Bytes) × (path ≡ prefix ++ rest) × (match_rest suffix rest cap ≡ some w)
  match_path_rest suffix path cap w room found =
      let step = sym (match_path-prefix suffix path cap room) ∙ found in
      elim (Bool-cases (bytes_eq prefix (take (length prefix) path))) [
        | inl same ↦ (
          drop (length prefix) path,
          sym (take-append-drop (length prefix) path)
              ∙ ap (λ t. t ++ drop (length prefix) path)
                  (sym ((bytes_eq_iff prefix (take (length prefix) path)).0 same)),
          rw same at step,
        )
        | inr apart ↦ let refused = rw apart at step in cc
      ]

  rest_match_path :
      (suffix rest : Bytes) (cap : ℕ) (w : Bytes)
      → 0 < cap
      → match_rest suffix rest cap ≡ some w
      → match_path (prefix ++ b'*' ∷ suffix) (prefix ++ rest) cap ≡ some w
  rest_match_path suffix rest cap w room found =
      match_path-prefix suffix (prefix ++ rest) cap room
      ∙ rw (take-append prefix rest, bytes_eq_refl prefix, drop-append prefix rest) found

  -- Behind a prefix with no star, and with room in the buffer for the terminator at least: a star at
  -- the end of a pattern stands for the whole remainder of the path, slashes included,
  -- when it fits the buffer.
  pub match_path-trailing :
      (path : Bytes) (cap : ℕ) (w : Bytes)
      → 0 < cap
      → (match_path (prefix ++ b'*' ∷ []) path cap ≡ some w)
        ↔ ((path ≡ prefix ++ w) × (length w < cap))
  unfolding match_rest
  match_path-trailing path cap w room = (
    λ found.
        let (rest, split, captured) = match_path_rest [] path cap w room found in
        let (same, fits) = (capture_wildcard_iff rest cap w).0 captured in
        (split ∙ ap (λ r. prefix ++ r) same, fits),
    λ (split, fits).
        rw split (rest_match_path [] w cap w room ((capture_wildcard_iff w cap w).1 (refl, fits))),
  )

  -- Behind a prefix with no star, and with room in the buffer for the terminator at least: a star
  -- that a slash follows stands for one segment of the path, which fits the buffer and has no slash, and
  -- the rest of the path is the rest of the pattern.
  pub match_path-interior :
      (suffix path : Bytes) (cap : ℕ) (w : Bytes)
      → 0 < cap
      → (match_path (prefix ++ b'*' ∷ b'/' ∷ suffix) path cap ≡ some w) ↔ (
          (path ≡ prefix ++ (w ++ b'/' ∷ suffix))
          × (length w < cap)
          × All (λ c. not_slash c ≡ true) w)
  match_path-interior suffix path cap w room = (
    λ found.
        let (rest, split, captured) = match_path_rest (b'/' ∷ suffix) path cap w room found in
        let (same, fits, segment) = match_rest-segment suffix rest cap w captured in
        (split ∙ ap (λ r. prefix ++ r) same, fits, segment),
    λ (split, fits, segment). rw split (
        rest_match_path (b'/' ∷ suffix) (w ++ b'/' ∷ suffix) cap w room
          (segment-match_rest suffix cap w fits segment)),
  )

-- A route is the first of a table for a request: its method is the request's and its pattern
-- matches the path, and no route before it has both.
pub record IsFirst {H : Type 0} (table : List (Route H)) (method path : Bytes) (cap : ℕ)
    (route : Route H) (wildcard : Bytes) : Type 0 where
  pub before : List (Route H)
  pub behind : List (Route H)
  pub split : table ≡ before ++ route ∷ behind
  pub same_method : route.method ≡ method
  pub matches : match_path route.pattern path cap ≡ some wildcard
  pub none_before :
      All (λ (r : Route H). r.method ≡ method → match_path r.pattern path cap ≡ none) before

module _ {H : Type 0} (method path : Bytes) (cap : ℕ) where
  skip-IsFirst :
      (r : Route H) (table : List (Route H)) {route : Route H} {wildcard : Bytes}
      → (r.method ≡ method → match_path r.pattern path cap ≡ none)
      → IsFirst table method path cap route wildcard
      → IsFirst (r ∷ table) method path cap route wildcard
  skip-IsFirst r table passed found = record {
    before = r ∷ found.before;
    behind = found.behind;
    split = ap (◌∷◌ r) found.split;
    same_method = found.same_method;
    matches = found.matches;
    none_before = (passed, found.none_before);
  }

  -- The route that `findRoute` returns is the first of the table for the request, with the text of
  -- its wildcard.
  pub find_route-IsFirst :
      (table : List (Route H)) {route : Route H} {wildcard : Bytes}
      → find_route table method path cap ≡ some (route, wildcard)
      → IsFirst table method path cap route wildcard
  unfolding find_route
  find_route-IsFirst [] found = cc
  find_route-IsFirst (r ∷ table) {route} {wildcard} found =
      elim (Bool-cases (bytes_eq r.method method)) [
        | inr other ↦
            skip-IsFirst r table
              (λ same. absurd (ground (arith, bytes_eq_iff r.method method, same)))
              (find_route-IsFirst table (rw other at found))
        | inl same ↦ elim (Option-cases (match_path r.pattern path cap)) [
          | inl unmatched ↦
              skip-IsFirst r table (λ _. unmatched)
                (find_route-IsFirst table (rw (same, unmatched) at found))
          | inr (text, matched) ↦
              let pair : (r, text) ≡ (route, wildcard) = some_inj (rw (same, matched) at found) in
              record {
                before = [];
                behind = table;
                split = λ i. (pair i).0 ∷ table;
                same_method =
                    ap (λ (p : Route H × Bytes). p.0.method) (sym pair)
                    ∙ (bytes_eq_iff r.method method).0 same;
                matches =
                    subst (λ (p : Route H × Bytes). match_path p.0.pattern path cap ≡ some p.1) pair
                      matched;
                none_before = tt;
              }
        ]
      ]
