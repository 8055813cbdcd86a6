-- ===== src/Tests/Settings.antt =====
-- src/apps/settings_bag.cpp on a bag with an integer and a text.
use matrix_faces.Common.{
  ◌≡◌, refl, arith, true, false, List, [], ◌∷◌, some, codes, bytes_eq, All, replicate, pos, negsuc,
  ◌++◌, take_while,
}
use matrix_faces.Apps.Settings.{
  int_type, string_type, SettingValue, Binding, Memory, integer, text, blank_value, get, validate,
  apply, find, fits, is_valid, type_eq, string_of,
}
use matrix_faces.Apps.Settings.Ranges.{
  Holds, IsInRange, AreSeparate, apply_all, apply_all-IsInRange,
}
use matrix_faces.Apps.Settings.ReadBack.{content, get-apply, get-apply_other}

abbrev bindings : List Binding
unfolding integer text
bindings =
    integer (codes "speed") (codes "Speed") (negsuc 4) (pos 10) 0
    ∷ text (codes "name") (codes "Name") 8 1
    ∷ []

abbrev memory : Memory
memory = record { bools = λ _. false; ints = λ _. pos 3; texts = λ _. codes "abc" }

abbrev speed : SettingValue
speed = record (blank_value int_type) { int_value = negsuc 1 }

abbrev name : SettingValue
name = record (blank_value string_type) { string_value = codes "pit" ++ replicate 29 0 }

bindings-AreSeparate : AreSeparate bindings
unfolding integer text
bindings-AreSeparate = (((λ e. omega arith), tt), (tt, tt))

apply_all-IsInRange_example :
    All
      (IsInRange (apply_all bindings ((codes "speed", speed) ∷ (codes "name", name) ∷ []) memory))
      bindings
unfolding integer text Holds
apply_all-IsInRange_example =
    apply_all-IsInRange bindings ((codes "speed", speed) ∷ (codes "name", name) ∷ []) memory
      bindings-AreSeparate ((refl, refl), (omega arith, tt))

get-apply_example :
    ((apply bindings (codes "name") name memory).0 ≡ true)
    × ((apply bindings (codes "name") name memory).1 ≡ codes "name" ∷ [])
    × (w : SettingValue) × (get bindings
          (codes "name")
          (apply bindings (codes "name") name memory).2
        ≡ some w)
    × (w.setting_type ≡ string_type)
    × (content string_type w ≡ content string_type name)
unfolding integer text validate find bytes_eq is_valid type_eq fits string_of take_while
get-apply_example =
    get-apply bindings (codes "name") name memory (omega arith, (omega arith, tt)) refl

get-apply_other_example :
    get bindings (codes "speed") (apply bindings (codes "name") name memory).2
    ≡ get bindings (codes "speed") memory
get-apply_other_example =
    get-apply_other bindings (codes "name") (codes "speed") name memory bindings-AreSeparate
      (λ e. cc)
