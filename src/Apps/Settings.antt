-- ===== src/Apps/Settings.antt =====
-- src/apps/settings_bag.cpp and app_setting.h: an app's settings and the members that hold them.
-- A member is an address, and the memory has a map for each kind of member. A text member is the
-- string in it, without its terminator.
pub mod Ranges
pub mod ReadBack
use matrix_faces.Common.{
  ℕ, ◌+◌, ◌-◌, Bool, true, false, not, ◌&&◌, List, [], ◌∷◌, ◌++◌, Option, none, some, ltb, leb,
  ◌==◌, if◌then◌else◌, Bytes, bytes_eq, length, take, take_while, replicate, get_elem?, ℤ, pos,
  leb_ℤ,
}

pub data SettingType : Type 0 where
  bool_type int_type string_type color_type : SettingType

unfoldable pub type_eq : SettingType → SettingType → Bool
type_eq bool_type bool_type = true
type_eq int_type int_type = true
type_eq string_type string_type = true
type_eq color_type color_type = true
type_eq _ _ = false

pub record SettingDescriptor : Type 0 where
  pub key : Bytes
  pub label : Bytes
  pub setting_type : SettingType
  pub int_min : ℤ
  pub int_max : ℤ
  pub max_len : ℕ

-- `kStringCap`.
abbrev pub string_cap : ℕ
string_cap = 32

-- `string_value` has the bytes of the array.
pub record SettingValue : Type 0 where
  pub setting_type : SettingType
  pub bool_value : Bool
  pub int_value : ℤ
  pub string_value : Bytes

-- `Binding`, with the address of the member.
pub record Binding : Type 0 where
  pub descriptor : SettingDescriptor
  pub storage : ℕ

pub record Memory : Type 0 where
  pub bools : ℕ → Bool
  pub ints : ℕ → ℤ
  pub texts : ℕ → Bytes

-- The four factories.
unfoldable pub boolean : Bytes → Bytes → ℕ → Binding
boolean key label storage = record {
  descriptor = record {
    key = key;
    label = label;
    setting_type = bool_type;
    int_min = pos 0;
    int_max = pos 0;
    max_len = 0;
  };
  storage = storage;
}

unfoldable pub integer : Bytes → Bytes → ℤ → ℤ → ℕ → Binding
integer key label min max storage = record {
  descriptor = record {
    key = key;
    label = label;
    setting_type = int_type;
    int_min = min;
    int_max = max;
    max_len = 0;
  };
  storage = storage;
}

unfoldable pub color : Bytes → Bytes → ℕ → Binding
color key label storage = record {
  descriptor = record {
    key = key;
    label = label;
    setting_type = color_type;
    int_min = pos 0;
    int_max = pos 0xFFFFFF;
    max_len = 0;
  };
  storage = storage;
}

-- `text`, for an array of `cap` characters.
unfoldable pub text : Bytes → Bytes → ℕ → ℕ → Binding
text key label cap storage = record {
  descriptor = record {
    key = key;
    label = label;
    setting_type = string_type;
    int_min = pos 0;
    int_max = pos 0;
    max_len = cap - 1;
  };
  storage = storage;
}

-- `emptyDescriptor`.
abbrev pub empty_descriptor : SettingDescriptor
empty_descriptor = record {
  key = [];
  label = [];
  setting_type = bool_type;
  int_min = pos 0;
  int_max = pos 0;
  max_len = 0;
}

-- `descriptor`.
unfoldable pub descriptor_at : List Binding → ℕ → SettingDescriptor
descriptor_at bindings index = elim (get_elem? bindings index) [
  | none ↦ empty_descriptor
  | some b ↦ b.descriptor
]

-- `find`; `none` is `nullptr`.
unfoldable pub find : List Binding → Bytes → Option Binding
find [] key = none
find (b ∷ bs) key = let rest = find bs key in if bytes_eq b.descriptor.key key then some b else rest

-- The first `strnlen(value.stringValue, sizeof(value.stringValue))` bytes.
unfoldable pub string_of : SettingValue → Bytes
string_of v = take_while (λ c. not (c == 0)) (take string_cap v.string_value)

-- `SettingValue{}` of the type.
abbrev pub blank_value : SettingType → SettingValue
blank_value t = record {
  setting_type = t;
  bool_value = false;
  int_value = pos 0;
  string_value = replicate string_cap 0;
}

-- `strncpy` of at most 31 bytes into the array, and the NUL at its end.
unfoldable pub string_array : Bytes → Bytes
string_array s =
    let copied = take (string_cap - 1) s in copied ++ replicate (string_cap - length copied) 0

-- The switch of `get`.
unfoldable pub read_storage : SettingType → ℕ → Memory → SettingValue
read_storage bool_type a m = record (blank_value bool_type) { bool_value = m.bools a }
read_storage int_type a m = record (blank_value int_type) { int_value = m.ints a }
read_storage color_type a m = record (blank_value color_type) { int_value = m.ints a }
read_storage string_type a m = record (blank_value string_type) {
  string_value = string_array (m.texts a);
}

-- `get`; `none` is false.
unfoldable pub get : List Binding → Bytes → Memory → Option SettingValue
get bindings key m = elim (find bindings key) [
  | none ↦ none
  | some b ↦ some (read_storage b.descriptor.setting_type b.storage m)
]

-- The switch of `validate`.
unfoldable pub fits : SettingType → SettingDescriptor → SettingValue → Bool
fits bool_type d v = true
fits int_type d v = leb_ℤ d.int_min v.int_value && leb_ℤ v.int_value d.int_max
fits color_type d v = leb_ℤ d.int_min v.int_value && leb_ℤ v.int_value d.int_max
fits string_type d v = leb (length (string_of v)) d.max_len

-- The tests of `validate` once the key is found.
unfoldable pub is_valid : SettingDescriptor → SettingValue → Bool
is_valid d v =
    if not (type_eq v.setting_type d.setting_type) then false else fits d.setting_type d v

-- `validate`.
unfoldable pub validate : List Binding → Bytes → SettingValue → Bool
validate bindings key v = elim (find bindings key) [
  | none ↦ false
  | some b ↦ is_valid b.descriptor v
]

unfoldable pub write_at {ℓ} : {A : Type ℓ} → (ℕ → A) → ℕ → A → ℕ → A
write_at f a v b = if b == a then v else f b

-- The switch of `apply`.
unfoldable pub write_storage : SettingType → ℕ → SettingValue → Memory → Memory
write_storage bool_type a v m = record m { bools = write_at m.bools a v.bool_value }
write_storage int_type a v m = record m { ints = write_at m.ints a v.int_value }
write_storage color_type a v m = record m { ints = write_at m.ints a v.int_value }
write_storage string_type a v m = record m { texts = write_at m.texts a (string_of v) }

-- `apply`: whether it wrote, the keys that the owner is told of, and the memory.
unfoldable pub apply : List Binding → Bytes → SettingValue → Memory → Bool × List Bytes × Memory
apply bindings key v m =
    if not (validate bindings key v) then (false, [], m) else elim (find bindings key) [
      | none ↦ (false, [], m)
      | some b ↦
          (true, b.descriptor.key ∷ [], write_storage b.descriptor.setting_type b.storage v m)
    ]
