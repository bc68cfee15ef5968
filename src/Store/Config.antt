-- ===== src/Store/Config.antt =====
-- The settings store (spamallam/app/store/settings.py): trees of mappings, the merge with the
-- defaults, and reading and writing by dotted path. The YAML library and the defaults are arguments.
pub mod Merging
pub mod Writing
pub mod Refining
mod Tests
use spamallam.Prelude.{
  ℕ, suc, Bool, true, false, ◌&&◌, Option, none, some, List, [], ◌∷◌, ◌++◌, ◌==◌, if◌then◌else◌,
  Text, text_eq, split_on, or_else,
}

-- What YAML loads; `A` is all that is no mapping.
mutual
  pub data Value (A : Type 0) : Type 0 where
    atom : A → Value A
    dict : Fields A → Value A

  pub data Fields (A : Type 0) : Type 0 where
    end : Fields A
    field : Text → Value A → Fields A → Fields A

-- None, the truth of a value, and `==`.
pub record Atoms (A : Type 0) : Type 0 where
  pub null : A
  pub is_true : A → Bool
  pub same : A → A → Bool

-- What `set` and `update` raise.
pub data SetError : Type 0 where
  not_a_mapping below_non_dict not_written : SetError

pub data Outcome (B : Type 0) : Type 0 where
  raised : SetError → Outcome B
  returned : B → Outcome B

-- A change of `update`: the path, the old value and the new one.
pub record Edit (A : Type 0) : Type 0 where
  pub path : Text
  pub old : Value A
  pub new : Value A

module _ {A : Type 0} where
  -- d.get(k)
  unfoldable pub get_field : Text → Fields A → Option (Value A)
  get_field k end = none
  get_field k (field l v fs) = let rest = get_field k fs in if text_eq k l then some v else rest

  -- d[k] = v
  unfoldable pub put_field : Text → Value A → Fields A → Fields A
  put_field k v end = field k v end
  put_field k v (field l w fs) =
      let rest = put_field k v fs in if text_eq k l then field l v fs else field l w rest

-- The value that a key gets, and _deep_merge(base, override).
unfoldable mutual
  pub merge_value : {A : Type 0} → Option (Value A) → Value A → Value A
  merge_value old (atom a) = atom a
  merge_value (some (dict base)) (dict fs) = dict (deep_merge base fs)
  merge_value (some (atom a)) (dict fs) = dict fs
  merge_value none (dict fs) = dict fs

  pub deep_merge : {A : Type 0} → Fields A → Fields A → Fields A
  deep_merge base end = base
  deep_merge base (field k v fs) =
      deep_merge (put_field k (merge_value (get_field k base) v) base) fs

module _ {A : Type 0} where
  unfoldable pub field_count : Fields A → ℕ
  field_count end = 0
  field_count (field k v fs) = suc (field_count fs)

abbrev pub found_same : {A : Type 0} → (Value A → Bool) → Option (Value A) → Bool
found_same same none = false
found_same same (some w) = same w

-- old == new: mappings are equal whatever the order of their keys.
unfoldable mutual
  pub same_value : {A : Type 0} → Atoms A → Value A → Value A → Bool
  same_value atoms (atom a) (atom b) = atoms.same a b
  same_value atoms (dict fs) (dict gs) = field_count fs == field_count gs && same_fields atoms fs gs
  same_value atoms (atom a) (dict gs) = false
  same_value atoms (dict fs) (atom b) = false

  pub same_fields : {A : Type 0} → Atoms A → Fields A → Fields A → Bool
  same_fields atoms end gs = true
  same_fields atoms (field k v fs) gs =
      found_same (same_value atoms v) (get_field k gs) && same_fields atoms fs gs

module _ {A : Type 0} where
  -- The loop of `get` over the parts of a path.
  unfoldable pub get_path : List Text → Option (Value A) → Option (Value A)
  get_path [] node = node
  get_path (p ∷ ps) (some (dict fs)) = get_path ps (get_field p fs)
  get_path (p ∷ ps) (some (atom a)) = none
  get_path (p ∷ ps) none = none

  abbrev pub put_under : Text → Fields A → Option (Fields A) → Option (Fields A)
  put_under p fs none = none
  put_under p fs (some child) = some (put_field p (dict child) fs)

  -- node.setdefault(part, {}); `none` where the value there is no mapping.
  abbrev pub child_of : Option (Value A) → Option (Fields A)
  child_of none = some end
  child_of (some (dict fs)) = some fs
  child_of (some (atom a)) = none

  abbrev pub set_below : (Fields A → Option (Fields A)) → Option (Fields A) → Option (Fields A)
  set_below deeper none = none
  set_below deeper (some fs) = deeper fs

  -- The loop of `set` over the parts of a path, of which there is one at least.
  unfoldable pub set_path : List Text → Value A → Fields A → Option (Fields A)
  set_path [] v fs = some fs
  set_path (p ∷ []) v fs = some (put_field p v fs)
  set_path (p ∷ q ∷ ps) v fs =
      put_under p fs (set_below (set_path (q ∷ ps) v) (child_of (get_field p fs)))

  abbrev pub or_null : Atoms A → Option (Value A) → Value A
  or_null atoms none = atom atoms.null
  or_null atoms (some v) = v

-- The store of one file: what YAML loads from it, `none` where it is missing or empty.
module _ {A : Type 0} (atoms : Atoms A) (defaults : Fields A) where
  -- read_yaml(path, {}) or {}, as a mapping; `none` where it is some other true value.
  abbrev pub saved_fields : Option (Value A) → Option (Fields A)
  saved_fields none = some end
  saved_fields (some (dict fs)) = some fs
  saved_fields (some (atom a)) = if atoms.is_true a then none else some end

  abbrev pub merged_all : Option (Fields A) → Outcome (Fields A)
  merged_all none = raised not_a_mapping
  merged_all (some saved) = returned (deep_merge defaults saved)

  -- all()
  unfoldable pub all_settings : Option (Value A) → Outcome (Fields A)
  all_settings file = merged_all (saved_fields file)

  abbrev pub get_in : Text → Value A → Outcome (Fields A) → Outcome (Value A)
  get_in dotted default (raised e) = raised e
  get_in dotted default (returned fs) =
      returned (or_else (get_path (split_on 46 dotted) (some (dict fs))) default)

  -- get(dotted, default)
  unfoldable pub get_setting : Text → Value A → Option (Value A) → Outcome (Value A)
  get_setting dotted default file = get_in dotted default (all_settings file)

  -- write_yaml replaces the file, or raises and leaves it.
  abbrev pub store_fields :
      Bool
      → Value A
      → Option (Value A)
      → Outcome (Value A)
      → Fields A
      → Outcome (Value A × Value A) × Option (Value A)
  store_fields can_write v file (raised e) fs = (raised e, file)
  store_fields can_write v file (returned old) fs =
      if can_write then (returned (old, v), some (dict fs)) else (raised not_written, file)

  abbrev pub set_checked :
      Bool
      → Text
      → Value A
      → Option (Value A)
      → Option (Fields A)
      → Outcome (Value A × Value A) × Option (Value A)
  set_checked can_write dotted v file none = (raised below_non_dict, file)
  set_checked can_write dotted v file (some fs) =
      store_fields can_write v file (get_setting dotted (atom atoms.null) file) fs

  abbrev pub set_saved :
      Bool
      → Text
      → Value A
      → Option (Value A)
      → Option (Fields A)
      → Outcome (Value A × Value A) × Option (Value A)
  set_saved can_write dotted v file none = (raised not_a_mapping, file)
  set_saved can_write dotted v file (some saved) =
      set_checked can_write dotted v file (set_path (split_on 46 dotted) v saved)

  -- set(dotted, value): the old and the new value, and the file after.
  unfoldable pub set_setting :
      Bool → Text → Value A → Option (Value A) → Outcome (Value A × Value A) × Option (Value A)
  set_setting can_write dotted v file = set_saved can_write dotted v file (saved_fields file)

  abbrev pub edit_if : Text → Value A → Value A → List (Edit A) → List (Edit A)
  edit_if dotted old new edits =
      if same_value atoms old new
      then edits
      else record { path = dotted; old = old; new = new } ∷ edits

  abbrev pub with_edit :
      Text
      → Value A × Value A
      → Outcome (List (Edit A)) × Option (Value A)
      → Outcome (List (Edit A)) × Option (Value A)
  with_edit dotted (old, new) (raised e, file) = (raised e, file)
  with_edit dotted (old, new) (returned edits, file) =
      (returned (edit_if dotted old new edits), file)

  abbrev pub next_edit :
      Text
      → (Option (Value A) → Outcome (List (Edit A)) × Option (Value A))
      → Outcome (Value A × Value A) × Option (Value A)
      → Outcome (List (Edit A)) × Option (Value A)
  next_edit dotted rest (raised e, file) = (raised e, file)
  next_edit dotted rest (returned pair, file) = with_edit dotted pair (rest file)

  -- update(values), where each write may fail by its place.
  unfoldable pub update_settings :
      (ℕ → Bool)
      → List (Text × Value A)
      → Option (Value A)
      → Outcome (List (Edit A)) × Option (Value A)
  update_settings can_write [] file = (returned [], file)
  update_settings can_write ((dotted, v) ∷ values) file =
      next_edit dotted (update_settings (λ i. can_write (suc i)) values)
        (set_setting (can_write 0) dotted v file)
