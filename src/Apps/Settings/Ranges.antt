-- ===== src/Apps/Settings/Ranges.antt =====
-- src/apps/settings_bag.cpp: no write takes a setting out of its range.
use matrix_faces.Common.{
  ℕ, ◌≤◌, ◌≡◌, ◌≢◌, refl, arith, true, false, &&-eq-true, List, [], ◌∷◌, some, some_inj, sym, subst,
  ◌⊎◌, Bytes, bytes_eq, length, All, All-map, leb_ℤ, Bool-cases, Option-cases, inl, inr,
}
use matrix_faces.Apps.Settings.{
  SettingType, bool_type, int_type, string_type, color_type, type_eq, SettingDescriptor,
  SettingValue, Binding, Memory, find, string_of, fits, is_valid, validate, write_at, write_storage,
  apply,
}

pub type_eq→eq : (s t : SettingType) → type_eq s t ≡ true → s ≡ t
unfolding type_eq
type_eq→eq bool_type bool_type e = refl
type_eq→eq int_type int_type e = refl
type_eq→eq string_type string_type e = refl
type_eq→eq color_type color_type e = refl
type_eq→eq bool_type int_type e = cc
type_eq→eq bool_type string_type e = cc
type_eq→eq bool_type color_type e = cc
type_eq→eq int_type bool_type e = cc
type_eq→eq int_type string_type e = cc
type_eq→eq int_type color_type e = cc
type_eq→eq string_type bool_type e = cc
type_eq→eq string_type int_type e = cc
type_eq→eq string_type color_type e = cc
type_eq→eq color_type bool_type e = cc
type_eq→eq color_type int_type e = cc
type_eq→eq color_type string_type e = cc

-- The member holds a value that the descriptor allows.
unfoldable pub Holds : SettingType → SettingDescriptor → ℕ → Memory → Type 0
Holds bool_type d a m = Unit
Holds int_type d a m = (leb_ℤ d.int_min (m.ints a) ≡ true) × (leb_ℤ (m.ints a) d.int_max ≡ true)
Holds color_type d a m = (leb_ℤ d.int_min (m.ints a) ≡ true) × (leb_ℤ (m.ints a) d.int_max ≡ true)
Holds string_type d a m = length (m.texts a) ≤ d.max_len

abbrev pub IsInRange : Memory → Binding → Type 0
IsInRange m b = Holds b.descriptor.setting_type b.descriptor b.storage m

-- No two settings are bound to one member.
abbrev pub AreSeparate : List Binding → Type 0
AreSeparate [] = Unit
AreSeparate (b ∷ bs) = All (λ (c : Binding). c.storage ≢ b.storage) bs × AreSeparate bs

pub write_at_self {ℓ} : {A : Type ℓ} (f : ℕ → A) (a : ℕ) (v : A) → write_at f a v a ≡ v
unfolding write_at
write_at_self f a v = ground arith

pub write_at_other {ℓ} : {A : Type ℓ} (f : ℕ → A) (a b : ℕ) (v : A) → b ≢ a → write_at f a v b ≡ f b
unfolding write_at
write_at_other f a b v h = ground arith

-- A write elsewhere leaves the member as it is.
Holds-other :
    (t s : SettingType) (d : SettingDescriptor) (a b : ℕ) (v : SettingValue) (m : Memory)
    → b ≢ a
    → Holds t d b m
    → Holds t d b (write_storage s a v m)
unfolding Holds write_storage
Holds-other bool_type s d a b v m h holds = tt
Holds-other int_type bool_type d a b v m h holds = holds
Holds-other int_type int_type d a b v m h holds = rw (write_at_other m.ints a b v.int_value h) holds
Holds-other int_type color_type d a b v m h holds =
    rw (write_at_other m.ints a b v.int_value h) holds
Holds-other int_type string_type d a b v m h holds = holds
Holds-other color_type bool_type d a b v m h holds = holds
Holds-other color_type int_type d a b v m h holds =
    rw (write_at_other m.ints a b v.int_value h) holds
Holds-other color_type color_type d a b v m h holds =
    rw (write_at_other m.ints a b v.int_value h) holds
Holds-other color_type string_type d a b v m h holds = holds
Holds-other string_type bool_type d a b v m h holds = holds
Holds-other string_type int_type d a b v m h holds = holds
Holds-other string_type color_type d a b v m h holds = holds
Holds-other string_type string_type d a b v m h holds =
    rw (write_at_other m.texts a b (string_of v) h) holds

-- The tests of `is_valid`, by the type.
unfoldable pub Allows : SettingType → SettingDescriptor → SettingValue → Type 0
Allows bool_type d v = Unit
Allows int_type d v = (leb_ℤ d.int_min v.int_value ≡ true) × (leb_ℤ v.int_value d.int_max ≡ true)
Allows color_type d v = (leb_ℤ d.int_min v.int_value ≡ true) × (leb_ℤ v.int_value d.int_max ≡ true)
Allows string_type d v = length (string_of v) ≤ d.max_len

Holds-self :
    (t : SettingType) (d : SettingDescriptor) (a : ℕ) (v : SettingValue) (m : Memory)
    → Allows t d v
    → Holds t d a (write_storage t a v m)
unfolding Holds write_storage Allows
Holds-self bool_type d a v m h = tt
Holds-self int_type d a v m h = rw (write_at_self m.ints a v.int_value) h
Holds-self color_type d a v m h = rw (write_at_self m.ints a v.int_value) h
Holds-self string_type d a v m h = rw (write_at_self m.texts a (string_of v)) h

fits-Allows :
    (t : SettingType) (d : SettingDescriptor) (v : SettingValue) → fits t d v ≡ true → Allows t d v
unfolding fits Allows
fits-Allows bool_type d v e = tt
fits-Allows int_type d v e = &&-eq-true (leb_ℤ d.int_min v.int_value) _ e
fits-Allows color_type d v e = &&-eq-true (leb_ℤ d.int_min v.int_value) _ e
fits-Allows string_type d v e = ground arith

pub is_valid-Allows :
    (d : SettingDescriptor) (v : SettingValue)
    → is_valid d v ≡ true
    → (v.setting_type ≡ d.setting_type) × Allows d.setting_type d v
unfolding is_valid
is_valid-Allows d v e = elim (Bool-cases (type_eq v.setting_type d.setting_type)) [
  | inl same ↦
      let fit : fits d.setting_type d v ≡ true = rw (same, is_valid) at e in
      (type_eq→eq v.setting_type d.setting_type same, fits-Allows d.setting_type d v fit)
  | inr other ↦ let refused = rw (other, is_valid) at e in cc
]

-- The setting that is found is one of them.
pub find-All :
    (P : Binding → Type 0) (bindings : List Binding) (key : Bytes) {b : Binding}
    → find bindings key ≡ some b
    → All P bindings
    → P b
unfolding find
find-All P [] key e h = cc
find-All P (c ∷ cs) key e (first, later) = elim (Bool-cases (bytes_eq c.descriptor.key key)) [
  | inl here ↦ subst P (some_inj (rw (here, find) at e)) first
  | inr there ↦ find-All P cs key (rw (there, find) at e) later
]

-- What a successful call does.
pub apply-cases :
    (bindings : List Binding) (key : Bytes) (v : SettingValue) (m : Memory)
    → (apply bindings key v m ≡ (false, [], m))
      ⊎ ((b : Binding) × (find bindings key ≡ some b)
          × (is_valid b.descriptor v ≡ true)
          × (apply bindings key v m ≡ (
            true,
            b.descriptor.key ∷ [],
            write_storage b.descriptor.setting_type b.storage v m,
          )))
unfolding apply validate
apply-cases bindings key v m = elim (Option-cases (find bindings key)) [
  | inl unknown ↦ inl (rw (unknown, apply, validate) refl)
  | inr (b, found) ↦ elim (Bool-cases (is_valid b.descriptor v)) [
    | inl valid ↦ inr (b, found, valid, rw (found, valid, apply, validate) refl)
    | inr bad ↦ inl (rw (found, bad, apply, validate) refl)
  ]
]

-- A write to one of the members, in the range of its setting.
write-IsInRange :
    (b : Binding) (v : SettingValue) (m : Memory) (bindings : List Binding)
    → Allows b.descriptor.setting_type b.descriptor v
    → All (IsInRange m) bindings
    → All (λ (c : Binding). (c ≡ b) ⊎ (c.storage ≢ b.storage)) bindings
    → All (IsInRange (write_storage b.descriptor.setting_type b.storage v m)) bindings
write-IsInRange b v m [] allowed ranges apart = tt
write-IsInRange b v m (c ∷ cs) allowed (first, later) (one, others) = (
  elim one [
    | inl same ↦
        subst (IsInRange (write_storage b.descriptor.setting_type b.storage v m)) (sym same)
          (Holds-self b.descriptor.setting_type b.descriptor b.storage v m allowed)
    | inr away ↦
        Holds-other c.descriptor.setting_type b.descriptor.setting_type c.descriptor b.storage
          c.storage v m away first
  ],
  write-IsInRange b v m cs allowed later others,
)

-- Of separate settings, all but the one that is found are bound elsewhere.
pub find-AreSeparate :
    (bindings : List Binding) (key : Bytes) {b : Binding}
    → find bindings key ≡ some b
    → AreSeparate bindings
    → All (λ (c : Binding). (c ≡ b) ⊎ (c.storage ≢ b.storage)) bindings
unfolding find
find-AreSeparate [] key e separate = cc
find-AreSeparate (c ∷ cs) key {b} e (apart, separate) =
    elim (Bool-cases (bytes_eq c.descriptor.key key)) [
      | inl here ↦
          let same : c ≡ b = some_inj (rw (here, find) at e) in
          (
            inl same,
            All-map (λ (d : Binding). d.storage ≢ c.storage)
                (λ (d : Binding). (d ≡ b) ⊎ (d.storage ≢ b.storage)) cs
                (λ d away. inr (subst (λ (q : Binding). d.storage ≢ q.storage) same away)) apart,
          )
      | inr there ↦
          let later : find cs key ≡ some b = rw (there, find) at e in
          let away : b.storage ≢ c.storage =
            find-All (λ (d : Binding). d.storage ≢ c.storage) cs key later apart in
          (inr (λ same. away (sym same)), find-AreSeparate cs key later separate)
    ]

-- The changes of settings, one after the other.
unfoldable pub apply_all : List Binding → List (Bytes × SettingValue) → Memory → Memory
apply_all bindings [] m = m
apply_all bindings (change ∷ changes) m =
    apply_all bindings changes (apply bindings change.0 change.1 m).2

apply-IsInRange :
    (bindings : List Binding) (key : Bytes) (v : SettingValue) (m : Memory)
    → AreSeparate bindings
    → All (IsInRange m) bindings
    → All (IsInRange (apply bindings key v m).2) bindings
apply-IsInRange bindings key v m separate ranges = elim (apply-cases bindings key v m) [
  | inl refused ↦ rw refused ranges
  | inr (b, found, valid, result) ↦ rw result (
      write-IsInRange b v m bindings (is_valid-Allows b.descriptor v valid).1 ranges
        (find-AreSeparate bindings key found separate))
]

-- Settings that start in range stay in range through any sequence of `apply`, whatever keys and
-- values it is given: every integer and colour between the bounds of its descriptor, and every
-- string within its length. No two settings share a member.
pub apply_all-IsInRange :
    (bindings : List Binding) (changes : List (Bytes × SettingValue)) (m : Memory)
    → AreSeparate bindings
    → All (IsInRange m) bindings
    → All (IsInRange (apply_all bindings changes m)) bindings
unfolding apply_all
apply_all-IsInRange bindings [] m separate ranges = ranges
apply_all-IsInRange bindings (change ∷ changes) m separate ranges =
    apply_all-IsInRange bindings changes (apply bindings change.0 change.1 m).2 separate
      (apply-IsInRange bindings change.0 change.1 m separate ranges)
