-- ===== src/Kmod/Sysfs.antt =====
-- src/kmod/main.c: /sys/kernel/quectel_rm520n_thermal. Each callback holds `temp_lock` over all its
-- accesses of the shared variables, so it is one step on them.
pub mod Writes
pub mod Invariant
pub mod Registration
use quectel_rm520n_thermal.Base.{
  ℕ, ◌+◌, ◌/◌, ◌%◌, ℤ, ltb_ℤ, Bool, true, false, ◌==◌, if◌then◌else◌, Option, none, some, List, [],
  ◌∷◌,
}
use quectel_rm520n_thermal.Kmod.Defs.{
  Bytes, default_temp_min, default_temp_max, default_temp_crit, default_temp_default,
  temp_absolute_min, temp_absolute_max, einval, eio, Parsed, parsed, refused, int_line, stats_lines,
  Kernel, Stored, consumed, rejected, Shown, shown, unreadable,
}

-- The static variables of the module.
pub record Thresholds : Type 0 where
  pub temp_min : ℤ
  pub temp_max : ℤ
  pub temp_crit : ℤ
  pub temp_default : ℤ
  pub modem_temp : ℤ
  pub total_updates : ℕ
  pub last_update_time : ℕ

unfoldable pub initial : Thresholds
initial = record {
  temp_min = default_temp_min;
  temp_max = default_temp_max;
  temp_crit = default_temp_crit;
  temp_default = default_temp_default;
  modem_temp = default_temp_default;
  total_updates = 0;
  last_update_time = 0;
}

pub data Attribute : Type 0 where
  temp temp_min temp_max temp_crit temp_default stats : Attribute

module _ (k : Kernel) where
  -- `jiffies` is the kernel's clock when the lock is held.
  temp_parsed : Parsed → ℕ → ℕ → Thresholds → Stored × Thresholds
  temp_parsed (refused _) count jiffies s = (rejected einval, s)
  temp_parsed (parsed value) count jiffies s = (
    consumed count,
    record s {
      modem_temp = value;
      total_updates = (s.total_updates + 1) % k.ulong_mod;
      last_update_time = jiffies / k.hz;
    },
  )

  temp_store : Option Bytes → ℕ → ℕ → Thresholds → Stored × Thresholds
  unfolding temp_parsed
  temp_store none count jiffies s = (rejected einval, s)
  temp_store (some buf) count jiffies s =
      if count == 0 then (rejected einval, s) else temp_parsed (k.kstrtoint buf) count jiffies s

  temp_min_parsed : Parsed → ℕ → Thresholds → Stored × Thresholds
  temp_min_parsed (refused _) count s = (rejected einval, s)
  temp_min_parsed (parsed value) count s =
      if ltb_ℤ value temp_absolute_min
      then (rejected einval, s)
      else if ltb_ℤ s.temp_max value
      then (rejected einval, s)
      else (consumed count, record s { temp_min = value })

  temp_min_store : Option Bytes → ℕ → Thresholds → Stored × Thresholds
  unfolding temp_min_parsed
  temp_min_store none count s = (rejected einval, s)
  temp_min_store (some buf) count s =
      if count == 0 then (rejected einval, s) else temp_min_parsed (k.kstrtoint buf) count s

  temp_max_parsed : Parsed → ℕ → Thresholds → Stored × Thresholds
  temp_max_parsed (refused _) count s = (rejected einval, s)
  temp_max_parsed (parsed value) count s =
      if ltb_ℤ temp_absolute_max value
      then (rejected einval, s)
      else if ltb_ℤ value s.temp_min
      then (rejected einval, s)
      else (consumed count, record s { temp_max = value })

  temp_max_store : Option Bytes → ℕ → Thresholds → Stored × Thresholds
  unfolding temp_max_parsed
  temp_max_store none count s = (rejected einval, s)
  temp_max_store (some buf) count s =
      if count == 0 then (rejected einval, s) else temp_max_parsed (k.kstrtoint buf) count s

  temp_crit_parsed : Parsed → ℕ → Thresholds → Stored × Thresholds
  temp_crit_parsed (refused _) count s = (rejected einval, s)
  temp_crit_parsed (parsed value) count s =
      if ltb_ℤ temp_absolute_max value
      then (rejected einval, s)
      else if ltb_ℤ value s.temp_max
      then (rejected einval, s)
      else (consumed count, record s { temp_crit = value })

  temp_crit_store : Option Bytes → ℕ → Thresholds → Stored × Thresholds
  unfolding temp_crit_parsed
  temp_crit_store none count s = (rejected einval, s)
  temp_crit_store (some buf) count s =
      if count == 0 then (rejected einval, s) else temp_crit_parsed (k.kstrtoint buf) count s

  temp_default_parsed : Parsed → ℕ → Thresholds → Stored × Thresholds
  temp_default_parsed (refused _) count s = (rejected einval, s)
  temp_default_parsed (parsed value) count s =
      if ltb_ℤ value s.temp_min
      then (rejected einval, s)
      else if ltb_ℤ s.temp_max value
      then (rejected einval, s)
      else (consumed count, record s { temp_default = value })

  temp_default_store : Option Bytes → ℕ → Thresholds → Stored × Thresholds
  unfolding temp_default_parsed
  temp_default_store none count s = (rejected einval, s)
  temp_default_store (some buf) count s =
      if count == 0 then (rejected einval, s) else temp_default_parsed (k.kstrtoint buf) count s

  -- The flag says that the output buffer is not NULL.
  temp_show : Bool → Thresholds → Shown
  temp_show false s = unreadable einval
  temp_show true s = shown (k.scnprintf k.page_size (int_line s.modem_temp))

  temp_min_show : Bool → Thresholds → Shown
  temp_min_show false s = unreadable einval
  temp_min_show true s = shown (k.scnprintf k.page_size (int_line s.temp_min))

  temp_max_show : Bool → Thresholds → Shown
  temp_max_show false s = unreadable einval
  temp_max_show true s = shown (k.scnprintf k.page_size (int_line s.temp_max))

  temp_crit_show : Bool → Thresholds → Shown
  temp_crit_show false s = unreadable einval
  temp_crit_show true s = shown (k.scnprintf k.page_size (int_line s.temp_crit))

  temp_default_show : Bool → Thresholds → Shown
  temp_default_show false s = unreadable einval
  temp_default_show true s = shown (k.scnprintf k.page_size (int_line s.temp_default))

  stats_show : Bool → Thresholds → Shown
  stats_show false s = unreadable einval
  stats_show true s =
      shown (k.scnprintf k.page_size (stats_lines s.total_updates s.last_update_time))

  -- The `__ATTR` table. `stats` has no `store`, which sysfs answers by -EIO.
  unfoldable pub store : Attribute → Option Bytes → ℕ → ℕ → Thresholds → Stored × Thresholds
  unfolding temp_store temp_min_store temp_max_store temp_crit_store temp_default_store
  store temp buf count jiffies s = temp_store buf count jiffies s
  store temp_min buf count jiffies s = temp_min_store buf count s
  store temp_max buf count jiffies s = temp_max_store buf count s
  store temp_crit buf count jiffies s = temp_crit_store buf count s
  store temp_default buf count jiffies s = temp_default_store buf count s
  store stats buf count jiffies s = (rejected eio, s)

  unfoldable pub show : Attribute → Bool → Thresholds → Shown
  unfolding temp_show temp_min_show temp_max_show temp_crit_show temp_default_show stats_show
  show temp has_buf s = temp_show has_buf s
  show temp_min has_buf s = temp_min_show has_buf s
  show temp_max has_buf s = temp_max_show has_buf s
  show temp_crit has_buf s = temp_crit_show has_buf s
  show temp_default has_buf s = temp_default_show has_buf s
  show stats has_buf s = stats_show has_buf s

-- A write to one of the files; the last number is `jiffies`.
pub record Write : Type 0 where
  pub attribute : Attribute
  pub buf : Option Bytes
  pub count : ℕ
  pub jiffies : ℕ

module _ (k : Kernel) where
  unfoldable pub write : Write → Thresholds → Stored × Thresholds
  unfolding store
  write w s = store k w.attribute w.buf w.count w.jiffies s

  -- Writes of any processes, in the order in which they take the lock.
  unfoldable pub run : List Write → Thresholds → Thresholds
  run [] s = s
  run (w ∷ ws) s = run ws (write w s).1
