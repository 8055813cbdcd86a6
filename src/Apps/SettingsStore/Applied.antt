-- ===== src/Apps/SettingsStore/Applied.antt =====
-- src/apps/app_settings_store.cpp: a restart applies what was saved.
use matrix_faces.Common.{
  ℕ, zero, suc, ◌+◌, ◌≡◌, sym, ap, ◌∙◌, subst, arith, List, [], ◌∷◌, Option, none, some, Bytes,
  bytes_eq, bytes_eq_iff, length, take, drop, All, Bool-cases, Option-cases, inl, inr, map,
}
use matrix_faces.Api.CredentialStore.{BlobStore}
use matrix_faces.Apps.Settings.{Binding, Memory, apply}
use matrix_faces.Apps.Scheduler.{AppScheduler, apply_setting}
use matrix_faces.Apps.SettingsStore.{
  SettingRecord, max_records, blob_size, restore_from, restore, restore_all, load, save_all,
}
use matrix_faces.Apps.SettingsStore.Restore.{IsStored, load-records_of}
use matrix_faces.Apps.SettingsStore.Saved.{
  saved_all, drop_all, drop-lt, name-at, apply_setting-plain, apply_setting-bag,
  records_of-saved_all,
}

module _ {A : Type 0} (name_of : A → Bytes) (settings : A → Option (List Binding)) where
  -- What a record does to the memory: the first app of its name, if there is one and it has
  -- settings, is given the value.
  pub data Given (r : SettingRecord) (m : Memory) : List A → Memory → Type 0 where
    unknown : Given r m [] m
    other :
        (app : A) (apps : List A) (m' : Memory)
        → (name_of app ≡ r.app_name → ⊥)
        → Given r m apps m'
        → Given r m (app ∷ apps) m'
    plain :
        (app : A) (apps : List A)
        → name_of app ≡ r.app_name
        → settings app ≡ none
        → Given r m (app ∷ apps) m
    given :
        (app : A) (apps : List A) (bag : List Binding) (m' : Memory)
        → name_of app ≡ r.app_name
        → settings app ≡ some bag
        → m' ≡ (apply bag r.key r.value m).2
        → Given r m (app ∷ apps) m'

  -- One record after another.
  pub data GivenAll (apps : List A) : List SettingRecord → Memory → Memory → Type 0 where
    over : (m : Memory) → GivenAll apps [] m m
    next :
        (r : SettingRecord) (rs : List SettingRecord) (m m' m'' : Memory)
        → Given r m apps m'
        → GivenAll apps rs m' m''
        → GivenAll apps (r ∷ rs) m m''

  -- The inner loop of `load` from the app `i` on.
  restore_from-Given :
      (sched : AppScheduler A) (r : SettingRecord) (m : Memory) (left i : ℕ)
      → left + i ≡ length sched.apps
      → Given r m (drop i sched.apps) (restore_from name_of settings left i r sched m)
  unfolding restore_from
  restore_from-Given sched r m zero i sum =
      let over = drop_all i sched.apps (omega (arith, sum)) in rw over unknown
  restore_from-Given sched r m (suc left) i sum =
      let (app, at_i, behind) = drop-lt i sched.apps (omega (arith, sum)) in
      let next : i + 1 ≡ suc i = omega arith in
      let named = name-at name_of settings sched i at_i in
      let same = bytes_eq_iff (name_of app) r.app_name in
      let later =
        subst
          (λ n.
            Given r m (drop n sched.apps) (restore_from name_of settings left (i + 1) r sched m))
          next (restore_from-Given sched r m left (i + 1) (omega (arith, sum))) in
      rw (behind, named)
        (elim (Bool-cases (bytes_eq (name_of app) r.app_name)) [
          | inr apart ↦ rw apart (other app _ _ (λ e. cc (same.1 e)) later)
          | inl its ↦ elim (Option-cases (settings app)) [
            | inl none_of ↦
                let kept : (apply_setting settings i r.key r.value m sched).2 ≡ m =
                  apply_setting-plain name_of settings sched i at_i none_of r.key r.value m in
                rw (its, kept) (plain app _ (same.0 its) none_of)
            | inr (bag, has) ↦
                let applied =
                  apply_setting-bag name_of settings sched i at_i bag has r.key r.value m in
                rw its (given app _ bag _ (same.0 its) has (ap (λ t. t.2) applied))
          ]
        ])

  restore_all-GivenAll :
      (sched : AppScheduler A) (rs : List SettingRecord) (m : Memory)
      → GivenAll sched.apps rs m (restore_all name_of settings (map some rs) sched m)
  unfolding restore_all restore
  restore_all-GivenAll sched [] m = over m
  restore_all-GivenAll sched (r ∷ rs) m =
      let m' = restore_from name_of settings (length sched.apps) 0 r sched m in
      next r rs m m' _ (restore_from-Given sched r m (length sched.apps) 0 (omega arith))
        (restore_all-GivenAll sched rs m')

  -- After a restart `load` gives back what `saveAll` wrote: the settings of all apps as they stood,
  -- app by app, the first 32 of them, one after another each to the first app of its name, as that
  -- app's settings apply it, and nothing else changes. Names and keys of the saved settings have at
  -- most 15 characters, none a NUL, their integers fit `int32_t` and their strings are arrays of 32
  -- bytes; the storage gives back the bytes that it was given.
  pub load-save_all :
      {F : Type 0} (blobs : BlobStore F) (sched : AppScheduler A) (m m' : Memory) (flash : F)
      → ((f : F) (blob : Bytes)
          → length blob ≡ blob_size
          → blobs.load (blobs.save f blob) blob_size ≡ some blob)
      → All IsStored (take max_records (saved_all name_of settings m sched.apps))
      → GivenAll sched.apps
          (take max_records (saved_all name_of settings m sched.apps))
          m'
          (load name_of settings blobs (save_all name_of settings blobs sched m flash) sched m')
  load-save_all blobs sched m m' flash keeps stored =
      let same = records_of-saved_all name_of settings sched m in
      let read =
        load-records_of name_of settings blobs sched m m' flash keeps
          (subst (All IsStored) (sym same) stored) in
      subst
        (λ out.
          GivenAll sched.apps (take max_records (saved_all name_of settings m sched.apps)) m' out)
        (sym (read ∙ ap (λ rs. restore_all name_of settings (map some rs) sched m') same))
        (restore_all-GivenAll sched (take max_records (saved_all name_of settings m sched.apps)) m')
