-- ===== src/Tests/SettingsStore.antt =====
-- src/apps/app_settings_store.cpp with two apps of one setting each.
use matrix_faces.Common.{
  ℕ, ◌==◌, refl, arith, List, [], ◌∷◌, Option, some, Bytes, codes, All, pos, false, bytes_eq,
  if◌then◌else◌, take,
}
use matrix_faces.Api.CredentialStore.{BlobStore}
use matrix_faces.Apps.Settings.{Binding, Memory, integer, get, find, read_storage}
use matrix_faces.Apps.Scheduler.{AppScheduler}
use matrix_faces.Apps.SettingsStore.{load, save_all, max_records}
use matrix_faces.Apps.SettingsStore.Restore.{IsStored}
use matrix_faces.Apps.SettingsStore.Saved.{saved_of, saved_all}
use matrix_faces.Apps.SettingsStore.Applied.{GivenAll, load-save_all}

abbrev scheduler : AppScheduler ℕ
scheduler = record { apps = 7 ∷ 3 ∷ []; active_index = 0 }

abbrev names : ℕ → Bytes
names app = if app == 7 then codes "clock" else codes "text"

-- Each app keeps its size at its own address.
abbrev sizes : ℕ → Option (List Binding)
unfolding integer
sizes app = some (integer (codes "size") (codes "Text scale") (pos 1) (pos 2) app ∷ [])

abbrev memory : Memory
memory = record { bools = λ _. false; ints = λ _. pos 2; texts = λ _. [] }

abbrev restarted : Memory
restarted = record { bools = λ _. false; ints = λ _. pos 1; texts = λ _. [] }

abbrev flash : BlobStore Bytes
flash = record { load = λ f size. some f; save = λ f blob. blob }

saved-IsStored : All IsStored (take max_records (saved_all names sizes memory scheduler.apps))
unfolding saved_all saved_of get find bytes_eq read_storage integer
saved-IsStored = (
  record {
    app_name = (omega arith, (refl, (refl, (refl, (refl, (refl, tt))))));
    key = (omega arith, (refl, (refl, (refl, (refl, tt)))));
    number = omega arith;
    array = refl;
  },
  (
    record {
      app_name = (omega arith, (refl, (refl, (refl, (refl, tt)))));
      key = (omega arith, (refl, (refl, (refl, (refl, tt)))));
      number = omega arith;
      array = refl;
    },
    tt,
  ),
)

load-save_all_example :
    GivenAll names sizes scheduler.apps
      (take max_records (saved_all names sizes memory scheduler.apps))
      restarted
      (load names sizes flash (save_all names sizes flash scheduler memory []) scheduler restarted)
load-save_all_example =
    load-save_all names sizes flash scheduler memory restarted [] (λ f blob size. refl)
      saved-IsStored
