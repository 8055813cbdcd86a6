-- ===== src/Apps/Scheduler.antt =====
-- src/apps/app_scheduler.cpp: the registered apps and the one that is on the matrix.
-- An app is an argument. What the scheduler calls is the list of events that an operation returns,
-- an app by its index.
pub mod Running
use matrix_faces.Common.{
  ℕ, ◌+◌, Bool, true, false, not, ◌&&◌, ◌||◌, List, [], ◌∷◌, ◌++◌, Option, none, some, ltb, leb,
  ◌==◌, if◌then◌else◌, Bytes, codes, length, get_elem?,
}
use matrix_faces.Apps.Settings.{
  Binding, SettingDescriptor, SettingValue, Memory, empty_descriptor, descriptor_at, get, validate,
  apply,
}

-- `kMaxApps`.
abbrev pub max_apps : ℕ
max_apps = 8

pub record AppScheduler (A : Type 0) : Type 0 where
  pub apps : List A
  pub active_index : ℕ

-- A call of an app's `begin`, `end` or `update`, or the blanking of the matrix.
pub data Event : Type 0 where
  begun : ℕ → Event
  ended : ℕ → Event
  updated : ℕ → ℕ → Event
  blanked : Event

module _ {A : Type 0} where
  -- `add`.
  unfoldable pub add : A → AppScheduler A → Bool × AppScheduler A
  add app s =
      if leb max_apps (length s.apps)
      then (false, s)
      else (true, record s { apps = s.apps ++ app ∷ [] })

  -- `begin`, given whether the matrix came up.
  unfoldable pub begin : Bool → AppScheduler A → List Event
  begin matrix_ok s = if matrix_ok && ltb 0 (length s.apps) then begun s.active_index ∷ [] else []

  -- `switchTo`.
  unfoldable pub switch_to : ℕ → AppScheduler A → List Event × AppScheduler A
  switch_to index s =
      if leb (length s.apps) index || index == s.active_index
      then ([], s)
      else (ended s.active_index ∷ blanked ∷ begun index ∷ [], record s { active_index = index })

  -- `update`.
  unfoldable pub update : ℕ → AppScheduler A → List Event
  update now s = if length s.apps == 0 then [] else updated s.active_index now ∷ []

  module _ (name_of : A → Bytes) where
    -- `activeName` and `name`.
    unfoldable pub active_name : AppScheduler A → Bytes
    active_name s = elim (get_elem? s.apps s.active_index) as (λ _. Bytes) [
      | none ↦ codes "none"
      | some app ↦ name_of app
    ]

    unfoldable pub name : ℕ → AppScheduler A → Bytes
    name index s = elim (get_elem? s.apps index) as (λ _. Bytes) [
      | none ↦ []
      | some app ↦ name_of app
    ]

  -- `bagFor`, given the settings of an app; `none` is the null pointer.
  unfoldable pub bag_for : {B : Type 0} → (A → Option B) → ℕ → AppScheduler A → Option B
  bag_for settings index s = elim (get_elem? s.apps index) [ none ↦ none | some app ↦ settings app ]

  -- The calls that go on to an app's settings, if it has any.
  module _ (settings : A → Option (List Binding)) where
    -- `settingCount`.
    unfoldable pub setting_count : ℕ → AppScheduler A → ℕ
    setting_count index s = elim (bag_for settings index s) as (λ _. ℕ) [
      | none ↦ 0
      | some bag ↦ length bag
    ]

    -- `settingDescriptor`.
    unfoldable pub setting_descriptor : ℕ → ℕ → AppScheduler A → SettingDescriptor
    setting_descriptor index setting s =
        elim (bag_for settings index s) as (λ _. SettingDescriptor) [
          | none ↦ empty_descriptor
          | some bag ↦ descriptor_at bag setting
        ]

    -- `getSetting`.
    unfoldable pub get_setting : ℕ → Bytes → Memory → AppScheduler A → Option SettingValue
    get_setting index key m s = elim (bag_for settings index s) as (λ _. Option SettingValue) [
      | none ↦ none
      | some bag ↦ get bag key m
    ]

    -- `validateSetting`.
    unfoldable pub validate_setting : ℕ → Bytes → SettingValue → AppScheduler A → Bool
    validate_setting index key v s = elim (bag_for settings index s) as (λ _. Bool) [
      | none ↦ false
      | some bag ↦ validate bag key v
    ]

    -- `applySetting`.
    unfoldable pub apply_setting :
        ℕ → Bytes → SettingValue → Memory → AppScheduler A → Bool × List Bytes × Memory
    apply_setting index key v m s =
        elim (bag_for settings index s) as (λ _. Bool × List Bytes × Memory) [
          | none ↦ (false, [], m)
          | some bag ↦ apply bag key v m
        ]
