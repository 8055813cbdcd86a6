-- ===== src/Apps/Settings/ReadBack.antt =====
-- src/apps/settings_bag.cpp: what is applied is what is read, and nothing else changes.
use matrix_faces.Common.{
  ℕ, suc, ◌-◌, ◌<◌, ◌≡◌, ◌≢◌, refl, sym, ap, ◌∙◌, subst, arith, Bool, true, not, List, [], ◌∷◌,
  ◌++◌, some, some_inj, ◌==◌, Bytes, bytes_eq, bytes_eq_iff, length, take, take_all, take_while,
  take_while-stop, take_while-All, replicate, length-append, length-replicate, All, ℤ, Bool-cases,
  Option-cases, inl, inr, ◌⊎◌,
}
use matrix_faces.Apps.Settings.{
  SettingType, bool_type, int_type, string_type, color_type, SettingDescriptor, SettingValue,
  Binding, Memory, find, string_of, string_cap, string_array, read_storage, get, is_valid, validate,
  write_storage, apply,
}
use matrix_faces.Apps.Settings.Ranges.{
  Allows, AreSeparate, write_at_self, write_at_other, is_valid-Allows, find-All, find-AreSeparate,
  apply-cases,
}

-- What a value says, which is the field that its type names.
pub data Content : Type 0 where
  flag : Bool → Content
  number : ℤ → Content
  words : Bytes → Content

unfoldable pub content : SettingType → SettingValue → Content
content bool_type v = flag v.bool_value
content int_type v = number v.int_value
content color_type v = number v.int_value
content string_type v = words (string_of v)

-- A string of at most 31 bytes is read out of the array that it was copied to.
string_array_lem :
    (s : Bytes)
    → length s < string_cap
    → All (λ c. not (c == 0) ≡ true) s
    → take_while (λ c. not (c == 0)) (take string_cap (string_array s)) ≡ s
unfolding string_array
string_array_lem s short plain =
    let rest : Bytes = replicate (string_cap - 1 - length s) 0 in
    let zeros : length rest ≡ string_cap - 1 - length s =
      length-replicate (string_cap - 1 - length s) 0 in
    let count : string_cap - length s ≡ suc (string_cap - 1 - length s) = omega (arith, short) in
    let copied : take (string_cap - 1) s ≡ s = take_all (string_cap - 1) s (omega (arith, short)) in
    let array : string_array s ≡ s ++ 0 ∷ rest = rw copied (ap (λ n. s ++ replicate n 0) count) in
    let size = length-append s (0 ∷ rest) in
    let whole : take string_cap (s ++ 0 ∷ rest) ≡ s ++ 0 ∷ rest =
      take_all string_cap (s ++ 0 ∷ rest) (omega (arith, size, zeros, short)) in
    ap (λ a. take_while (λ c. not (c == 0)) (take string_cap a)) array
    ∙ ap (take_while (λ c. not (c == 0))) whole
    ∙ (take_while-stop (λ c. not (c == 0)) s rest 0 plain refl).0

-- What a write to a member leaves there to read.
read_storage_self :
    (t : SettingType) (d : SettingDescriptor) (a : ℕ) (v : SettingValue) (m : Memory)
    → Allows t d v
    → d.max_len < string_cap
    → content t (read_storage t a (write_storage t a v m)) ≡ content t v
unfolding content read_storage write_storage Allows string_of
read_storage_self bool_type d a v m h short = ap flag (write_at_self m.bools a v.bool_value)
read_storage_self int_type d a v m h short = ap number (write_at_self m.ints a v.int_value)
read_storage_self color_type d a v m h short = ap number (write_at_self m.ints a v.int_value)
read_storage_self string_type d a v m h short =
    let s : Bytes = take_while (λ c. not (c == 0)) (take string_cap v.string_value) in
    ap words (
      ap (λ q. take_while (λ c. not (c == 0)) (take string_cap (string_array q)))
        (write_at_self m.texts a s)
      ∙ string_array_lem s (omega (arith, h, short))
          (take_while-All (λ c. not (c == 0)) (take string_cap v.string_value)))

read_storage_other :
    (t s : SettingType) (a b : ℕ) (v : SettingValue) (m : Memory)
    → b ≢ a
    → read_storage t b (write_storage s a v m) ≡ read_storage t b m
unfolding read_storage write_storage
read_storage_other bool_type bool_type a b v m h =
    rw (write_at_other m.bools a b v.bool_value h) refl
read_storage_other bool_type int_type a b v m h = refl
read_storage_other bool_type color_type a b v m h = refl
read_storage_other bool_type string_type a b v m h = refl
read_storage_other int_type bool_type a b v m h = refl
read_storage_other int_type int_type a b v m h = rw (write_at_other m.ints a b v.int_value h) refl
read_storage_other int_type color_type a b v m h = rw (write_at_other m.ints a b v.int_value h) refl
read_storage_other int_type string_type a b v m h = refl
read_storage_other color_type bool_type a b v m h = refl
read_storage_other color_type int_type a b v m h = rw (write_at_other m.ints a b v.int_value h) refl
read_storage_other color_type color_type a b v m h =
    rw (write_at_other m.ints a b v.int_value h) refl
read_storage_other color_type string_type a b v m h = refl
read_storage_other string_type bool_type a b v m h = refl
read_storage_other string_type int_type a b v m h = refl
read_storage_other string_type color_type a b v m h = refl
read_storage_other string_type string_type a b v m h =
    rw (write_at_other m.texts a b (string_of v) h) refl

read_storage-type : (t : SettingType) (a : ℕ) (m : Memory) → (read_storage t a m).setting_type ≡ t
unfolding read_storage
read_storage-type bool_type a m = refl
read_storage-type int_type a m = refl
read_storage-type color_type a m = refl
read_storage-type string_type a m = refl

get-found :
    (bindings : List Binding) (key : Bytes) (m : Memory) {b : Binding}
    → find bindings key ≡ some b
    → get bindings key m ≡ some (read_storage b.descriptor.setting_type b.storage m)
unfolding get
get-found bindings key m found = rw (found, get) refl

find-key :
    (bindings : List Binding) (key : Bytes) {b : Binding}
    → find bindings key ≡ some b
    → b.descriptor.key ≡ key
unfolding find
find-key [] key e = cc
find-key (c ∷ cs) key {b} e = elim (Bool-cases (bytes_eq c.descriptor.key key)) [
  | inl here ↦
      subst (λ (q : Binding). q.descriptor.key ≡ key) (some_inj (rw (here, find) at e))
        ((bytes_eq_iff c.descriptor.key key).0 here)
  | inr there ↦ find-key cs key (rw (there, find) at e)
]

-- A value that `validate` allows is applied, with one notice to the owner, under the setting's key,
-- and is what `get` reads then: its type, and the field that the type names. The arrays of strings
-- have 32 characters at most.
pub get-apply :
    (bindings : List Binding) (key : Bytes) (v : SettingValue) (m : Memory)
    → All (λ (b : Binding). b.descriptor.max_len < string_cap) bindings
    → validate bindings key v ≡ true
    → ((apply bindings key v m).0 ≡ true)
      × ((apply bindings key v m).1 ≡ key ∷ [])
      × (w : SettingValue) × (get bindings key (apply bindings key v m).2 ≡ some w)
      × (w.setting_type ≡ v.setting_type)
      × (content v.setting_type w ≡ content v.setting_type v)
unfolding apply validate
get-apply bindings key v m arrays valid = elim (Option-cases (find bindings key)) [
  | inl unknown ↦ let refused = rw (unknown, validate) at valid in cc
  | inr (b, found) ↦
      let allowed : is_valid b.descriptor v ≡ true = rw (found, validate) at valid in
      let (type, fit) = is_valid-Allows b.descriptor v allowed in
      let m' : Memory = write_storage b.descriptor.setting_type b.storage v m in
      let result : apply bindings key v m ≡ (true, b.descriptor.key ∷ [], m') =
        rw (found, allowed, apply, validate) refl in
      let short =
        find-All (λ (c : Binding). c.descriptor.max_len < string_cap) bindings key found arrays in
      let w : SettingValue = read_storage b.descriptor.setting_type b.storage m' in
      let same : content b.descriptor.setting_type w ≡ content b.descriptor.setting_type v =
        read_storage_self b.descriptor.setting_type b.descriptor b.storage v m fit short in
      (
        ap (λ (r : Bool × List Bytes × Memory). r.0) result,
        ap (λ (r : Bool × List Bytes × Memory). r.1) result
            ∙ ap (λ k. k ∷ []) (find-key bindings key found),
        w,
        ap (λ (r : Bool × List Bytes × Memory). get bindings key r.2) result
            ∙ get-found bindings key m' found,
        read_storage-type b.descriptor.setting_type b.storage m' ∙ sym type,
        subst (λ t. content t w ≡ content t v) (sym type) same,
      )
]

-- `apply` changes no other setting: whatever it is given for one key, `get` of another reads what
-- it read before. No two settings share a member.
pub get-apply_other :
    (bindings : List Binding) (key other : Bytes) (v : SettingValue) (m : Memory)
    → AreSeparate bindings
    → key ≢ other
    → get bindings other (apply bindings key v m).2 ≡ get bindings other m
unfolding get
get-apply_other bindings key other v m separate differ = elim (apply-cases bindings key v m) [
  | inl refused ↦ rw refused refl
  | inr (b, found, valid, result) ↦ elim (Option-cases (find bindings other)) [
    | inl unknown ↦ rw (unknown, get) refl
    | inr (c, found_other) ↦
        let away : c.storage ≢ b.storage =
          elim (find-All (λ (d : Binding). (d ≡ b) ⊎ (d.storage ≢ b.storage)) bindings other
            found_other (find-AreSeparate bindings key found separate)) [
              | inl same ↦ absurd (
                  differ (
                    sym (find-key bindings key found)
                    ∙ ap (λ (q : Binding). q.descriptor.key) (sym same)
                    ∙ find-key bindings other found_other))
              | inr away ↦ away
            ] in
        rw (found_other, result, get)
          (ap some (
            read_storage_other c.descriptor.setting_type b.descriptor.setting_type b.storage
              c.storage v m away))
  ]
]
