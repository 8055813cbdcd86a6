-- ===== src/Apps/SettingsStore.antt =====
-- src/apps/app_settings_store.cpp: the settings of the apps, in flash.
-- An app is its name and its settings, if it has any. The logging is left out.
pub mod Restore
pub mod Saved
pub mod Applied
use matrix_faces.Common.{
  ℕ, zero, suc, ◌+◌, ◌-◌, ◌*◌, ◌%◌, ◌^◌, Bool, true, false, not, List, [], ◌∷◌, ◌++◌, Option, none,
  some, ltb, ◌==◌, if◌then◌else◌, Bytes, bytes_eq, c_string, length, get_or, take, drop, replicate,
  ℤ, pos, negsuc,
}
use matrix_faces.Storage.RecordBlob.{
  read_u32, write_u32, framed_size, serialize, parse, ok, too_short, no_data, bad_checksum,
  bad_count,
}
use matrix_faces.Api.CredentialStore.{BlobStore}
use matrix_faces.Apps.Settings.{
  SettingType, bool_type, int_type, string_type, color_type, SettingValue, Binding, Memory,
}
use matrix_faces.Apps.Scheduler.{
  AppScheduler, name, setting_count, setting_descriptor, get_setting, apply_setting,
}

-- `kMagic` and `kVersion`.
abbrev pub magic : ℕ
magic = 0x4d344153

abbrev pub version : ℕ
version = 1

-- `kMaxRecords`.
abbrev pub max_records : ℕ
max_records = 32

-- `kNameCap`.
abbrev pub name_cap : ℕ
name_cap = 16

-- `sizeof(SettingRecord)`.
abbrev pub record_size : ℕ
record_size = 72

abbrev pub blob_size : ℕ
blob_size = framed_size record_size max_records

-- A record before its names are cut to the arrays.
pub record SettingRecord : Type 0 where
  pub app_name : Bytes
  pub key : Bytes
  pub value : SettingValue

-- `copyCapped` into an array of 16 characters.
unfoldable pub name_array : Bytes → Bytes
name_array s =
    let copied = take (name_cap - 1) s in copied ++ replicate (name_cap - length copied) 0

abbrev pub type_byte : SettingType → ℕ
type_byte bool_type = 0
type_byte int_type = 1
type_byte string_type = 2
type_byte color_type = 3

-- The type of a stored value; `none` for a byte that no type has.
abbrev pub byte_type : ℕ → Option SettingType
byte_type zero = some bool_type
byte_type (suc zero) = some int_type
byte_type (suc (suc zero)) = some string_type
byte_type (suc (suc (suc zero))) = some color_type
byte_type (suc (suc (suc (suc n)))) = none

-- `int32_t` in two's complement.
unfoldable pub int_word : ℤ → ℕ
int_word (pos n) = n % 2 ^ 32
int_word (negsuc n) = 2 ^ 32 - 1 - n % 2 ^ 32

unfoldable pub word_int : ℕ → ℤ
word_int w = if ltb w (2 ^ 31) then pos w else negsuc (2 ^ 32 - 1 - w)

-- A SettingValue as it lies in memory. Nothing reads the two bytes of padding.
unfoldable pub value_bytes : SettingValue → Bytes
value_bytes v =
    type_byte v.setting_type
    ∷ (if v.bool_value then 1 else 0)
    ∷ 0
    ∷ 0
    ∷ (write_u32 (int_word v.int_value) ++ v.string_value)

unfoldable pub record_bytes : SettingRecord → Bytes
record_bytes r = name_array r.app_name ++ (name_array r.key ++ value_bytes r.value)

unfoldable pub records_bytes : List SettingRecord → Bytes
records_bytes [] = []
records_bytes (r ∷ rs) = record_bytes r ++ records_bytes rs

unfoldable pub read_value : Bytes → Option SettingValue
read_value p = elim (byte_type (get_or p 0 0)) [
  | none ↦ none
  | some t ↦ some (record {
    setting_type = t;
    bool_value = not (get_or p 1 0 == 0);
    int_value = word_int (read_u32 (drop 4 p) 0);
    string_value = take 32 (drop 8 p);
  })
]

-- A stored record with its names as strings; `none` when its type is none of the four, which
-- `validate` refuses in any case.
unfoldable pub read_record : Bytes → Option SettingRecord
read_record p = elim (read_value (drop 32 p)) [
  | none ↦ none
  | some v ↦ some (record { app_name = c_string p; key = c_string (drop name_cap p); value = v })
]

unfoldable pub read_records : ℕ → Bytes → List (Option SettingRecord)
read_records zero p = []
read_records (suc n) p = read_record (take record_size p) ∷ read_records n (drop record_size p)

module _ {A : Type 0} (name_of : A → Bytes) (settings : A → Option (List Binding)) where
  -- The inner loop of `saveAll`: the records of the settings from `s` on.
  unfoldable pub setting_records : ℕ → ℕ → ℕ → Memory → AppScheduler A → List SettingRecord
  setting_records zero s app m sched = []
  setting_records (suc left) s app m sched =
      let d = setting_descriptor settings app s sched in
      let rest = setting_records left (s + 1) app m sched in
      elim (get_setting settings app d.key m sched) as (λ _. List SettingRecord) [
        | none ↦ rest
        | some v ↦ record { app_name = name name_of app sched; key = d.key; value = v } ∷ rest
      ]

  -- The outer loop, from the app `app` on.
  unfoldable pub app_records : ℕ → ℕ → Memory → AppScheduler A → List SettingRecord
  app_records zero app m sched = []
  app_records (suc left) app m sched =
      setting_records (setting_count settings app sched) 0 app m sched
      ++ app_records left (app + 1) m sched

  -- The records that `saveAll` fills: both loops end at 32.
  unfoldable pub records_of : Memory → AppScheduler A → List SettingRecord
  records_of m sched = take max_records (app_records (length sched.apps) 0 m sched)

  -- The inner loop of `load`: the first app of the record's name is given the setting.
  unfoldable pub restore_from : ℕ → ℕ → SettingRecord → AppScheduler A → Memory → Memory
  restore_from zero app r sched m = m
  restore_from (suc left) app r sched m =
      let later = restore_from left (app + 1) r sched m in
      if not (bytes_eq (name name_of app sched) r.app_name)
      then later
      else (apply_setting settings app r.key r.value m sched).2

  unfoldable pub restore : Option SettingRecord → AppScheduler A → Memory → Memory
  restore none sched m = m
  restore (some r) sched m = restore_from (length sched.apps) 0 r sched m

  unfoldable pub restore_all : List (Option SettingRecord) → AppScheduler A → Memory → Memory
  restore_all [] sched m = m
  restore_all (r ∷ rs) sched m = restore_all rs sched (restore r sched m)

  module _ {F : Type 0} (blobs : BlobStore F) where
    -- `load`, which `begin` ends with.
    unfoldable pub load : F → AppScheduler A → Memory → Memory
    load flash sched m = elim (blobs.load flash blob_size) as (λ _. Memory) [
      | none ↦ m
      | some blob ↦ elim (parse blob magic version record_size max_records) as (λ _. Memory) [
        | ok records count ↦ restore_all (read_records count records) sched m
        | too_short ↦ m
        | no_data ↦ m
        | bad_checksum ↦ m
        | bad_count ↦ m
      ]
    ]

    -- `saveAll`.
    unfoldable pub save_all : AppScheduler A → Memory → F → F
    save_all sched m flash =
        let rs = records_of m sched in
        elim (serialize blob_size magic version (records_bytes rs) record_size max_records
            (length rs))
          as (λ _. F) [ none ↦ flash | some blob ↦ blobs.save flash blob ]
