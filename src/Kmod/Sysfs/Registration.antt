-- ===== src/Kmod/Sysfs/Registration.antt =====
-- Loading and unloading of src/kmod/main.c. The kernel's answers are arguments: whether
-- `kobject_create_and_add` gives a directory, and the error of `sysfs_create_file` for each file.
use quectel_rm520n_thermal.Base.{
  ◌≡◌, ◌↔◌, refl, Bool, true, false, Option, none, some, List, [], ◌∷◌, ◌++◌, arith, All,
  if◌then◌else◌,
}
use quectel_rm520n_thermal.Kmod.Defs.{Errno, enomem}
use quectel_rm520n_thermal.Kmod.Sysfs.{
  Attribute, temp, temp_min, temp_max, temp_crit, temp_default, stats,
}

-- /sys/kernel/quectel_rm520n_thermal: whether the directory is there, and its files.
pub record Directory : Type 0 where
  pub present : Bool
  pub files : List Attribute

abbrev pub absent : Directory
absent = record { present = false; files = [] }

abbrev pub same : Attribute → Attribute → Bool
same temp temp = true
same temp_min temp_min = true
same temp_max temp_max = true
same temp_crit temp_crit = true
same temp_default temp_default = true
same stats stats = true
same _ _ = false

-- The last reference goes, and with it the directory and what it holds.
abbrev pub kobject_put : Directory → Directory
kobject_put d = absent

abbrev pub remove : Attribute → List Attribute → List Attribute
remove a [] = []
remove a (b ∷ bs) = if same a b then remove a bs else b ∷ remove a bs

abbrev pub sysfs_remove_file : Attribute → Directory → Directory
sysfs_remove_file a d = record d { files = remove a d.files }

-- The order in which the files are created and removed.
abbrev pub attributes : List Attribute
attributes = temp ∷ temp_min ∷ temp_max ∷ temp_crit ∷ temp_default ∷ stats ∷ []

module _ (sysfs_create_file : Attribute → Option Errno) where
  -- Each failure jumps to `cleanup`.
  create_files : List Attribute → Directory → Option Errno × Directory
  create_files [] d = (none, d)
  create_files (a ∷ rest) d = elim (sysfs_create_file a) [
    | none ↦ create_files rest (record d { files = d.files ++ a ∷ [] })
    | some e ↦ (some e, kobject_put d)
  ]

  -- `quectel_rm520n_temp_init`; the flag says that the directory could be made.
  pub module_init : Bool → Directory → Option Errno × Directory
  unfolding create_files
  module_init false d = (some enomem, d)
  module_init true d = create_files attributes (record { present = true; files = [] })

-- `quectel_rm520n_temp_exit`
remove_files : List Attribute → Directory → Directory
remove_files [] d = d
remove_files (a ∷ rest) d = remove_files rest (sysfs_remove_file a d)

module_exit : Directory → Directory
unfolding remove_files
module_exit d = kobject_put (remove_files attributes d)

-- How a load ended: with no error and every file there, or with an error and nothing left behind.
abbrev pub AllOrNothing : Option Errno × Directory → Type 0
AllOrNothing (none, d) = (d.present ≡ true) × (d.files ≡ attributes)
AllOrNothing (some e, d) = d ≡ absent

-- A load creates all six files, or reports an error and leaves no directory.
pub module_init-AllOrNothing :
    (sysfs_create_file : Attribute → Option Errno) (has_kobject : Bool)
    → AllOrNothing (module_init sysfs_create_file has_kobject absent)
unfolding module_init
module_init-AllOrNothing create false = refl
module_init-AllOrNothing create true = ground arith

-- A load succeeds exactly when the directory and every one of the six files can be made.
pub module_init_succeeds_iff :
    (sysfs_create_file : Attribute → Option Errno) (has_kobject : Bool)
    → ((module_init sysfs_create_file has_kobject absent).0 ≡ none)
      ↔ ((has_kobject ≡ true) × All (λ a. sysfs_create_file a ≡ none) attributes)
unfolding module_init
module_init_succeeds_iff create false = (λ h. cc, λ h. cc h.0)
module_init_succeeds_iff create true = (λ h. ground arith, λ h. ground arith)
