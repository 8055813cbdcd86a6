-- ===== src/Apps/SettingsStore/Restore.antt =====
-- src/apps/app_settings_store.cpp: the records in flash are read back.
use matrix_faces.Common.{
  ℕ, suc, ◌-◌, ◌*◌, ◌%◌, ◌^◌, ◌<◌, ◌≤◌, ◌≡◌, refl, ap, ap₂, ◌∙◌, subst, arith, Bool, true, false,
  not, List, [], ◌∷◌, ◌++◌, append_assoc, append-nil, map, Option, some, ltb, ◌==◌, if◌then◌else◌,
  Bytes, c_string, length, take, take_all, take_while-stop, take-append, drop-append, length-append,
  length-replicate, length-take, drop, replicate, All, ℤ, pos, negsuc,
}
use matrix_faces.Storage.RecordBlob.{read_u32, write_u32, parse, ok, serialize}
use matrix_faces.Storage.RecordBlob.RoundTrip.{parse-serialize, length-serialize}
use matrix_faces.Api.CredentialStore.{BlobStore}
use matrix_faces.Apps.Settings.{
  SettingType, bool_type, int_type, string_type, color_type, SettingValue, Binding, Memory,
}
use matrix_faces.Apps.Scheduler.{AppScheduler}
use matrix_faces.Apps.SettingsStore.{
  SettingRecord, name_array, name_cap, type_byte, byte_type, int_word, word_int, value_bytes,
  record_bytes, records_bytes, read_value, read_record, read_records, record_size, max_records,
  blob_size, magic, version, records_of, app_records, restore_all, load, save_all,
}

-- A name that its array holds with a terminator.
abbrev pub IsName : Bytes → Type 0
IsName s = (length s < name_cap) × All (λ c. not (c == 0) ≡ true) s

-- The range of `int32_t`.
abbrev pub IsInt32 : ℤ → Type 0
IsInt32 (pos n) = n < 2 ^ 31
IsInt32 (negsuc n) = n < 2 ^ 31

pub record IsStored (r : SettingRecord) : Type 0 where
  pub app_name : IsName r.app_name
  pub key : IsName r.key
  pub number : IsInt32 r.value.int_value
  pub array : length r.value.string_value ≡ 32

byte_type-type_byte : (t : SettingType) → byte_type (type_byte t) ≡ some t
byte_type-type_byte bool_type = refl
byte_type-type_byte int_type = refl
byte_type-type_byte string_type = refl
byte_type-type_byte color_type = refl

word_int-int_word : (z : ℤ) → IsInt32 z → word_int (int_word z) ≡ z
unfolding word_int int_word
word_int-int_word (pos n) h =
    let same : n % 2 ^ 32 ≡ n = omega (arith, h) in
    let low : ltb n (2 ^ 31) ≡ true = ground (arith, h) in rw (same, low) refl
word_int-int_word (negsuc n) h =
    let same : n % 2 ^ 32 ≡ n = omega (arith, h) in
    let high : ltb (2 ^ 32 - 1 - n) (2 ^ 31) ≡ false = ground (arith, h) in
    let back : 2 ^ 32 - 1 - (2 ^ 32 - 1 - n) ≡ n = omega (arith, h) in rw (same, high, back) refl

int_word-lt : (z : ℤ) → int_word z < 2 ^ 32
unfolding int_word
int_word-lt (pos n) = omega arith
int_word-lt (negsuc n) = omega arith

read_u32-append : (v : ℕ) (rest : Bytes) → v < 2 ^ 32 → read_u32 (write_u32 v ++ rest) 0 ≡ v
unfolding read_u32 write_u32
read_u32-append v rest h = omega arith

length-name_array : (s : Bytes) → length (name_array s) ≡ 16
unfolding name_array
length-name_array s =
    let copied : Bytes = take 15 s in
    let more : Bytes = replicate (16 - length copied) 0 in
    let size = length-append copied more in
    let zeros : length more ≡ 16 - length copied = length-replicate (16 - length copied) 0 in
    omega (arith, size, zeros, length-take 15 s)

c_string-name_array : (s rest : Bytes) → IsName s → c_string (name_array s ++ rest) ≡ s
unfolding c_string name_array
c_string-name_array s rest (short, plain) =
    let more : Bytes = replicate (15 - length s) 0 in
    let copied : take 15 s ≡ s = take_all 15 s (omega (arith, short)) in
    let count : 16 - length s ≡ suc (15 - length s) = omega (arith, short) in
    let array : name_array s ≡ s ++ 0 ∷ more = rw copied (ap (λ n. s ++ replicate n 0) count) in
    ap (λ q. c_string (q ++ rest)) array
    ∙ ap c_string (append_assoc s (0 ∷ more) rest)
    ∙ (take_while-stop (λ c. not (c == 0)) s (more ++ rest) 0 plain refl).0

bit_bool : (b : Bool) → not ((if b then 1 else 0) == 0) ≡ b
bit_bool true = refl
bit_bool false = refl

read_value-value_bytes :
    (v : SettingValue)
    → IsInt32 v.int_value
    → length v.string_value ≡ 32
    → read_value (value_bytes v) ≡ some v
unfolding read_value value_bytes write_u32
read_value-value_bytes v number array =
    let word = read_u32-append (int_word v.int_value) v.string_value (int_word-lt v.int_value) in
    let int = ap word_int word ∙ word_int-int_word v.int_value number in
    let string = take_all 32 v.string_value (omega (arith, array)) in
    rw (byte_type-type_byte v.setting_type, read_value)
      (λ i. some (record {
        setting_type = v.setting_type;
        bool_value = bit_bool v.bool_value i;
        int_value = int i;
        string_value = string i;
      }))

take_exactly : (n : ℕ) (xs ys : Bytes) → length xs ≡ n → take n (xs ++ ys) ≡ xs
take_exactly n xs ys e = rw (← e) (take-append xs ys)

drop_exactly : (n : ℕ) (xs ys : Bytes) → length xs ≡ n → drop n (xs ++ ys) ≡ ys
drop_exactly n xs ys e = rw (← e) (drop-append xs ys)

length-record_bytes : (r : SettingRecord) → IsStored r → length (record_bytes r) ≡ record_size
unfolding record_bytes value_bytes write_u32
length-record_bytes r stored =
    let array = stored.array in
    omega (
      arith,
      array,
      length-name_array r.app_name,
      length-name_array r.key,
      length-append (name_array r.app_name) (name_array r.key ++ value_bytes r.value),
      length-append (name_array r.key) (value_bytes r.value),
    )

read_record-record_bytes : (r : SettingRecord) → IsStored r → read_record (record_bytes r) ≡ some r
unfolding read_record record_bytes
read_record-record_bytes r stored =
    let named : Bytes = name_array r.key ++ value_bytes r.value in
    let app = c_string-name_array r.app_name named stored.app_name in
    let behind : drop 16 (name_array r.app_name ++ named) ≡ named =
      drop_exactly 16 (name_array r.app_name) named (length-name_array r.app_name) in
    let key = ap c_string behind ∙ c_string-name_array r.key (value_bytes r.value) stored.key in
    let last : drop 32 (name_array r.app_name ++ named) ≡ value_bytes r.value =
      subst (λ q. drop 32 q ≡ value_bytes r.value)
        (append_assoc (name_array r.app_name) (name_array r.key) (value_bytes r.value))
        (drop_exactly 32 (name_array r.app_name ++ name_array r.key) (value_bytes r.value) (
          omega (
            arith,
            length-name_array r.app_name,
            length-name_array r.key,
            length-append (name_array r.app_name) (name_array r.key),
          ))) in
    let value = ap read_value last ∙ read_value-value_bytes r.value stored.number stored.array in
    rw (value, read_record) (λ i. some (record { app_name = app i; key = key i; value = r.value }))

read_records-records_bytes :
    (rs : List SettingRecord)
    → All IsStored rs
    → read_records (length rs) (records_bytes rs) ≡ map some rs
unfolding read_records records_bytes
read_records-records_bytes [] h = refl
read_records-records_bytes (r ∷ rs) (first, later) =
    let size = length-record_bytes r first in
    ap₂ ◌∷◌
      (ap read_record (take_exactly record_size (record_bytes r) (records_bytes rs) size)
        ∙ read_record-record_bytes r first)
      (ap (read_records (length rs))
          (drop_exactly record_size (record_bytes r) (records_bytes rs) size)
        ∙ read_records-records_bytes rs later)

length-records_bytes :
    (rs : List SettingRecord)
    → All IsStored rs
    → length (records_bytes rs) ≡ record_size * length rs
unfolding records_bytes
length-records_bytes [] h = refl
length-records_bytes (r ∷ rs) (first, later) = omega (
  arith,
  length-append (record_bytes r) (records_bytes rs),
  length-record_bytes r first,
  length-records_bytes rs later,
)

serialize-some :
    (rs : List SettingRecord)
    → length rs ≤ max_records
    → (blob : Bytes) × (serialize blob_size magic version
          (records_bytes rs)
          record_size
          max_records
          (length rs)
        ≡ some blob)
unfolding serialize
serialize-some rs few =
    let enough : ltb max_records (length rs) ≡ false = ground (arith, few) in rw enough (_, refl)

length-records_of :
    {A : Type 0} (name_of : A → Bytes) (settings : A → Option (List Binding)) (m : Memory)
    (sched : AppScheduler A)
    → length (records_of name_of settings m sched) ≤ max_records
unfolding records_of
length-records_of name_of settings m sched =
    omega
      (arith, length-take max_records (app_records name_of settings (length sched.apps) 0 m sched))

-- `load` reads back the records that `saveAll` wrote, and goes through them.
pub load-records_of :
    {A : Type 0} {F : Type 0} (name_of : A → Bytes) (settings : A → Option (List Binding))
    (blobs : BlobStore F) (sched : AppScheduler A) (m m' : Memory) (flash : F)
    → ((f : F) (blob : Bytes)
        → length blob ≡ blob_size
        → blobs.load (blobs.save f blob) blob_size ≡ some blob)
    → All IsStored (records_of name_of settings m sched)
    → load name_of settings blobs (save_all name_of settings blobs sched m flash) sched m'
      ≡ restore_all name_of settings (map some (records_of name_of settings m sched)) sched m'
unfolding load save_all
load-records_of name_of settings blobs sched m m' flash keeps stored =
    let rs : List SettingRecord = records_of name_of settings m sched in
    let few : length rs ≤ max_records = length-records_of name_of settings m sched in
    let (blob, written) = serialize-some rs few in
    let size = length-records_bytes rs stored in
    let long =
      length-serialize magic version record_size max_records (length rs) (records_bytes rs)
        (omega arith) (omega arith) (omega arith) few size blob_size written in
    let parsed : parse blob magic version record_size max_records
        ≡ ok (records_bytes rs) (length rs) =
      subst (λ b. parse b magic version record_size max_records ≡ ok (records_bytes rs) (length rs))
        (append-nil blob)
        (parse-serialize magic version record_size max_records (length rs) (records_bytes rs)
          (omega arith) (omega arith) (omega arith) few size blob_size [] written) in
    let saved : save_all name_of settings blobs sched m flash ≡ blobs.save flash blob =
      rw (written, save_all) refl in
    let kept = keeps flash blob long in
    ap (λ f. load name_of settings blobs f sched m') saved
    ∙ rw (kept, parsed, load)
        (ap (λ q. restore_all name_of settings q sched m') (read_records-records_bytes rs stored))
