-- ===== src/Store/Config/Tests.antt =====
-- Runs of the settings store (spamallam/app/store/settings.py).
use spamallam.Prelude.{ℕ, ◌≡◌, refl, true, none, some, [], ◌∷◌, ◌==◌, not, codes, text_eq, split_on}
use spamallam.Store.Config.{
  atom, dict, Fields, end, field, Atoms, raised, returned, below_non_dict, get_field, put_field,
  deep_merge, field_count, same_value, get_path, set_path, all_settings, get_setting, set_setting,
  update_settings,
}
use spamallam.Store.Config.Refining.{IsWrite, set_setting-IsWrite}

config : Unit {0}
unfolding text_eq split_on get_field put_field deep_merge field_count same_value get_path set_path
    all_settings get_setting set_setting update_settings
config = tt

abbrev numbers : Atoms ℕ
numbers = record { null = 0; is_true = λ n. not (n == 0); same = λ a b. a == b }

-- ai: {timeout: 1, mode: 2}
abbrev defaults : Fields ℕ
defaults =
    field (codes "ai") (dict (field (codes "timeout") (atom 1) (field (codes "mode") (atom 2) end)))
      end

write_test :
    (set_setting numbers defaults true (codes "ai.mode") (atom 7) none ≡ (
      returned (atom 2, atom 7),
      some (dict (field (codes "ai") (dict (field (codes "mode") (atom 7) end)) end)),
    ))
    × (set_setting numbers defaults true
          (codes "ai.mode.x")
          (atom 7)
          (some (dict (field (codes "ai") (atom 3) end)))
        ≡ (raised below_non_dict, some (dict (field (codes "ai") (atom 3) end))))
unfolding config
write_test = (refl, refl)

-- A write of the default is stored, and is no change.
update_test :
    update_settings numbers defaults
      (λ i. true)
      ((codes "ai.mode", atom 2) ∷ (codes "x", atom 5) ∷ [])
      none
    ≡ (
      returned (record { path = codes "x"; old = atom 0; new = atom 5 } ∷ []),
      some (
          dict (
            field
              (codes "ai")
              (dict (field (codes "mode") (atom 2) end))
              (field (codes "x") (atom 5) end))),
    )
unfolding config
update_test = refl

set_setting-IsWrite_example :
    IsWrite numbers defaults
      (codes "ai.mode")
      7
      none
      (set_setting numbers defaults true (codes "ai.mode") (atom 7) none)
set_setting-IsWrite_example = set_setting-IsWrite numbers defaults true (codes "ai.mode") 7 none tt
