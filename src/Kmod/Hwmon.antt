-- ===== src/Kmod/Hwmon.antt =====
-- src/kmod/hwmon.c: the callbacks of the hwmon device. A `store` callback tests the value before it
-- takes `data->lock`, and writes under it: a test and a commit, which here are two functions.
pub mod Writes
pub mod Race
pub mod Probe
pub mod Driver
use quectel_rm520n_thermal.Base.{
  ℕ, ℤ, ltb_ℤ, ltb, Bool, true, false, ◌||◌, ◌==◌, if◌then◌else◌, Option, none, some, List, [], ◌∷◌,
}
use quectel_rm520n_thermal.Kmod.Defs.{
  Bytes, temp_absolute_min, temp_absolute_max, Errno, einval, Parsed, parsed, refused, int_line,
  Kernel, Stored, consumed, rejected, Shown, shown, unreadable,
}

-- `struct quectel_hwmon_data` without its lock.
pub record Data : Type 0 where
  pub temp : ℤ
  pub temp_min : ℤ
  pub temp_max : ℤ
  pub temp_crit : ℤ

pub data Attribute : Type 0 where
  temp1_input temp1_min temp1_max temp1_crit : Attribute

-- What the tests of a callback decide, before the lock: an error, or the value to write.
pub data Checked : Type 0 where
  failed : Errno → Checked
  passed : ℤ → Checked

-- The tests that each callback makes on the parsed value, in its order.
temp1_input_value : ℤ → Data → Checked
temp1_input_value val d =
    if ltb_ℤ val temp_absolute_min || ltb_ℤ temp_absolute_max val then failed einval else passed val

temp1_min_value : ℤ → Data → Checked
temp1_min_value val d =
    if ltb_ℤ val temp_absolute_min
    then failed einval
    else if ltb_ℤ d.temp_max val
    then failed einval
    else passed val

temp1_max_value : ℤ → Data → Checked
temp1_max_value val d =
    if ltb_ℤ val d.temp_min
    then failed einval
    else if ltb_ℤ temp_absolute_max val
    then failed einval
    else passed val

temp1_crit_value : ℤ → Data → Checked
temp1_crit_value val d =
    if ltb_ℤ val d.temp_max
    then failed einval
    else if ltb_ℤ temp_absolute_max val
    then failed einval
    else passed val

on_parsed : (ℤ → Data → Checked) → Parsed → Data → Checked
on_parsed test (refused ret) d = failed ret
on_parsed test (parsed val) d = test val d

-- The assignment under the lock.
unfoldable pub commit : Attribute → ℤ → Data → Data
commit temp1_input val d = record d { temp = val }
commit temp1_min val d = record d { temp_min = val }
commit temp1_max val d = record d { temp_max = val }
commit temp1_crit val d = record d { temp_crit = val }

commit_checked : Attribute → Checked → ℕ → Data → Stored × Data
commit_checked a (failed e) count d = (rejected e, d)
commit_checked a (passed val) count d = (consumed count, commit a val d)

module _ (k : Kernel) where
  -- What the four `store` callbacks do first. `none` is a NULL among `dev`, `attr`, `buf` and the
  -- driver data.
  guarded : (ℤ → Data → Checked) → Option Bytes → ℕ → Data → Checked
  unfolding on_parsed
  guarded test none count d = failed einval
  guarded test (some buf) count d =
      if count == 0 || ltb k.page_size count
      then failed einval
      else on_parsed test (k.kstrtoint buf) d

  temp1_input_store : Option Bytes → ℕ → Data → Stored × Data
  unfolding guarded temp1_input_value commit_checked commit
  temp1_input_store buf count d =
      commit_checked temp1_input (guarded temp1_input_value buf count d) count d

  temp1_min_store : Option Bytes → ℕ → Data → Stored × Data
  unfolding guarded temp1_min_value commit_checked commit
  temp1_min_store buf count d =
      commit_checked temp1_min (guarded temp1_min_value buf count d) count d

  temp1_max_store : Option Bytes → ℕ → Data → Stored × Data
  unfolding guarded temp1_max_value commit_checked commit
  temp1_max_store buf count d =
      commit_checked temp1_max (guarded temp1_max_value buf count d) count d

  temp1_crit_store : Option Bytes → ℕ → Data → Stored × Data
  unfolding guarded temp1_crit_value commit_checked commit
  temp1_crit_store buf count d =
      commit_checked temp1_crit (guarded temp1_crit_value buf count d) count d

  -- The attribute table of the driver.
  unfoldable pub store : Attribute → Option Bytes → ℕ → Data → Stored × Data
  unfolding temp1_input_store temp1_min_store temp1_max_store temp1_crit_store
  store temp1_input buf count d = temp1_input_store buf count d
  store temp1_min buf count d = temp1_min_store buf count d
  store temp1_max buf count d = temp1_max_store buf count d
  store temp1_crit buf count d = temp1_crit_store buf count d

  -- A callback up to the lock.
  unfoldable pub check : Attribute → Option Bytes → ℕ → Data → Checked
  unfolding guarded temp1_input_value temp1_min_value temp1_max_value temp1_crit_value
  check temp1_input buf count d = guarded temp1_input_value buf count d
  check temp1_min buf count d = guarded temp1_min_value buf count d
  check temp1_max buf count d = guarded temp1_max_value buf count d
  check temp1_crit buf count d = guarded temp1_crit_value buf count d

  -- The flag says that none of the arguments is NULL.
  temp1_input_show : Bool → Data → Shown
  temp1_input_show false d = unreadable einval
  temp1_input_show true d = shown (k.scnprintf k.page_size (int_line d.temp))

  temp1_min_show : Bool → Data → Shown
  temp1_min_show false d = unreadable einval
  temp1_min_show true d = shown (k.scnprintf k.page_size (int_line d.temp_min))

  temp1_max_show : Bool → Data → Shown
  temp1_max_show false d = unreadable einval
  temp1_max_show true d = shown (k.scnprintf k.page_size (int_line d.temp_max))

  temp1_crit_show : Bool → Data → Shown
  temp1_crit_show false d = unreadable einval
  temp1_crit_show true d = shown (k.scnprintf k.page_size (int_line d.temp_crit))

  unfoldable pub show : Attribute → Bool → Data → Shown
  unfolding temp1_input_show temp1_min_show temp1_max_show temp1_crit_show
  show temp1_input ok d = temp1_input_show ok d
  show temp1_min ok d = temp1_min_show ok d
  show temp1_max ok d = temp1_max_show ok d
  show temp1_crit ok d = temp1_crit_show ok d

pub record Write : Type 0 where
  pub attribute : Attribute
  pub buf : Option Bytes
  pub count : ℕ

-- Callbacks one after the other.
unfoldable pub run : Kernel → List Write → Data → Data
run k [] d = d
run k (w ∷ ws) d = run k ws (store k w.attribute w.buf w.count d).1
