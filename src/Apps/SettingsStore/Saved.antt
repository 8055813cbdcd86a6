-- ===== src/Apps/SettingsStore/Saved.antt =====
-- src/apps/app_settings_store.cpp: what is saved, app by app.
use matrix_faces.Common.{
  ℕ, zero, suc, ◌+◌, ◌<◌, ◌≤◌, ◌≡◌, refl, sym, ap, ap₂, ◌∙◌, arith, List, [], ◌∷◌, ◌++◌, Option,
  none, some, Bytes, length, get_elem?, take, drop, Option-cases, inl, inr,
}
use matrix_faces.Apps.Settings.{
  Binding, SettingDescriptor, SettingValue, Memory, descriptor_at, get, apply,
}
use matrix_faces.Apps.Scheduler.{
  AppScheduler, name, bag_for, setting_count, setting_descriptor, get_setting, apply_setting,
}
use matrix_faces.Apps.SettingsStore.{
  SettingRecord, max_records, setting_records, app_records, records_of,
}

module _ {ℓ} {A : Type ℓ} where
  pub drop_all : (n : ℕ) (xs : List A) → length xs ≤ n → drop n xs ≡ []
  drop_all zero [] h = refl
  drop_all zero (x ∷ xs) h = absurd (omega arith)
  drop_all (suc n) [] h = refl
  drop_all (suc n) (x ∷ xs) h = drop_all n xs (omega arith)

  pub drop-lt :
      (n : ℕ) (xs : List A)
      → n < length xs
      → (x : A) × (get_elem? xs n ≡ some x) × (drop n xs ≡ x ∷ drop (suc n) xs)
  drop-lt n [] h = absurd (omega arith)
  drop-lt zero (x ∷ xs) h = (x, refl, refl)
  drop-lt (suc n) (x ∷ xs) h = drop-lt n xs (omega arith)

module _ {A : Type 0} (name_of : A → Bytes) (settings : A → Option (List Binding)) where
  -- The settings of one app as they stand, a record for each binding of the list.
  unfoldable pub saved_of : A → List Binding → Memory → List Binding → List SettingRecord
  saved_of app bag m [] = []
  saved_of app bag m (b ∷ bs) =
      let rest = saved_of app bag m bs in
      elim (get bag b.descriptor.key m) as (λ _. List SettingRecord) [
        | none ↦ rest
        | some v ↦ record { app_name = name_of app; key = b.descriptor.key; value = v } ∷ rest
      ]

  -- The settings of all apps that have any, app by app.
  unfoldable pub saved_all : Memory → List A → List SettingRecord
  saved_all m [] = []
  saved_all m (app ∷ apps) =
      let rest = saved_all m apps in
      elim (settings app) as (λ _. List SettingRecord) [
        | none ↦ rest
        | some bag ↦ saved_of app bag m bag ++ rest
      ]

  module _ (sched : AppScheduler A) (i : ℕ) {app : A}
      (at_i : get_elem? sched.apps i ≡ some app) where
    pub name-at : name name_of i sched ≡ name_of app
    unfolding name
    name-at = rw (at_i, name) refl

    bag_for-at : bag_for settings i sched ≡ settings app
    unfolding bag_for
    bag_for-at = rw (at_i, bag_for) refl

    setting_count-plain : settings app ≡ none → setting_count settings i sched ≡ 0
    unfolding setting_count
    setting_count-plain none_of = rw (bag_for-at, none_of, setting_count) refl

    pub apply_setting-plain :
        settings app ≡ none
        → (key : Bytes) (v : SettingValue) (m : Memory)
        → (apply_setting settings i key v m sched).2 ≡ m
    unfolding apply_setting
    apply_setting-plain none_of key v m = rw (bag_for-at, none_of, apply_setting) refl

    module _ (bag : List Binding) (has : settings app ≡ some bag) where
      bagged : bag_for settings i sched ≡ some bag
      bagged = bag_for-at ∙ has

      setting_count-bag : setting_count settings i sched ≡ length bag
      unfolding setting_count
      setting_count-bag = rw (bagged, setting_count) refl

      setting_descriptor-bag :
          (s : ℕ) {b : Binding}
          → get_elem? bag s ≡ some b
          → setting_descriptor settings i s sched ≡ b.descriptor
      unfolding setting_descriptor descriptor_at
      setting_descriptor-bag s at_s = rw (bagged, setting_descriptor, at_s, descriptor_at) refl

      get_setting-bag :
          (key : Bytes) (m : Memory) → get_setting settings i key m sched ≡ get bag key m
      unfolding get_setting
      get_setting-bag key m = rw (bagged, get_setting) refl

      pub apply_setting-bag :
          (key : Bytes) (v : SettingValue) (m : Memory)
          → apply_setting settings i key v m sched ≡ apply bag key v m
      unfolding apply_setting
      apply_setting-bag key v m = rw (bagged, apply_setting) refl

      -- The inner loop of `saveAll` from the setting `s` on.
      setting_records-saved_of :
          (left s : ℕ) (m : Memory)
          → left + s ≡ length bag
          → setting_records name_of settings left s i m sched ≡ saved_of app bag m (drop s bag)
      unfolding setting_records saved_of
      setting_records-saved_of zero s m sum =
          let over = drop_all s bag (omega (arith, sum)) in rw (over, saved_of) refl
      setting_records-saved_of (suc left) s m sum =
          let (b, at_s, behind) = drop-lt s bag (omega (arith, sum)) in
          let next : s + 1 ≡ suc s = omega arith in
          let rest : setting_records name_of settings left (s + 1) i m sched
              ≡ saved_of app bag m (drop (suc s) bag) =
            setting_records-saved_of left (s + 1) m (omega (arith, sum))
            ∙ ap (λ n. saved_of app bag m (drop n bag)) next in
          let described = setting_descriptor-bag s at_s in
          let got = get_setting-bag b.descriptor.key m in
          let named = name-at in
          let one : (kept : List SettingRecord) (n : Bytes) (o : Option SettingValue)
              → List SettingRecord =
            λ kept n o. elim o as (λ _. List SettingRecord) [
              | none ↦ kept
              | some v ↦ record { app_name = n; key = b.descriptor.key; value = v } ∷ kept
            ] in
          ap
            (λ (d : SettingDescriptor).
              elim (get_setting settings i d.key m sched) as (λ _. List SettingRecord) [
                | none ↦ setting_records name_of settings left (s + 1) i m sched
                | some v ↦
                    record { app_name = name name_of i sched; key = d.key; value = v }
                    ∷ setting_records name_of settings left (s + 1) i m sched
              ])
            described
          ∙ ap₂ (λ kept n. one kept n (get_setting settings i b.descriptor.key m sched)) rest named
          ∙ ap (one (saved_of app bag m (drop (suc s) bag)) (name_of app)) got
          ∙ ap (saved_of app bag m) (sym behind)

  -- The outer loop of `saveAll` from the app `i` on.
  app_records-saved_all :
      (sched : AppScheduler A) (m : Memory) (left i : ℕ)
      → left + i ≡ length sched.apps
      → app_records name_of settings left i m sched ≡ saved_all m (drop i sched.apps)
  unfolding app_records saved_all setting_records
  app_records-saved_all sched m zero i sum =
      let over = drop_all i sched.apps (omega (arith, sum)) in rw (over, saved_all) refl
  app_records-saved_all sched m (suc left) i sum =
      let (app, at_i, behind) = drop-lt i sched.apps (omega (arith, sum)) in
      let next : i + 1 ≡ suc i = omega arith in
      let rest : app_records name_of settings left (i + 1) m sched
          ≡ saved_all m (drop (suc i) sched.apps) =
        app_records-saved_all sched m left (i + 1) (omega (arith, sum))
        ∙ ap (λ n. saved_all m (drop n sched.apps)) next in
      elim (Option-cases (settings app)) [
        | inl none_of ↦
            let count = setting_count-plain sched i at_i none_of in
            rw (behind, none_of, count, saved_all) rest
        | inr (bag, has) ↦
            let count = setting_count-bag sched i at_i bag has in
            let mine =
              setting_records-saved_of sched i at_i bag has (length bag) 0 m (omega arith) in
            rw (behind, has, count, saved_all) (ap₂ ◌++◌ mine rest)
      ]

  pub records_of-saved_all :
      (sched : AppScheduler A) (m : Memory)
      → records_of name_of settings m sched ≡ take max_records (saved_all m sched.apps)
  unfolding records_of
  records_of-saved_all sched m =
      ap (take max_records) (app_records-saved_all sched m (length sched.apps) 0 (omega arith))
