-- ===== src/System.antt =====
-- src/system.c: the search for the hwmon device, with its cache. What
-- stands in the file system is an argument; its names and texts hold no NUL.
pub mod Search
pub mod Number
use quectel_rm520n_thermal.Base.{
  ℕ, ◌+◌, ◌-◌, ℤ, pos, neg, ltb_ℤ, ltb, leb, Bool, true, false, not, ◌&&◌, ◌||◌, ◌==◌,
  if◌then◌else◌, Option, none, some, List, [], ◌∷◌, ◌++◌, length, take,
}
use quectel_rm520n_thermal.CString.{
  Bytes, codes, strcmp_eq, starts_with, contains, Converted, unconverted, converted, strtol,
  print_int,
}

-- `PATH_MAX_LEN` and `DEVICE_NAME_LEN`
abbrev pub path_max_len : ℕ
path_max_len = 256

abbrev pub device_name_len : ℕ
device_name_len = 64

-- Up to the first newline, as `STRIP_NEWLINE` leaves a text.
unfoldable pub strip_newline : Bytes → Bytes
strip_newline [] = []
strip_newline (c ∷ s) = let rest = strip_newline s in if c == b'\n' then [] else c ∷ rest

-- `fgets(buf, size, file)` and `STRIP_NEWLINE`: nothing if the file is empty.
unfoldable pub first_line : ℕ → Bytes → Option Bytes
unfolding strip_newline
first_line size [] = none
first_line size (c ∷ s) = some (strip_newline (take (size - 1) (c ∷ s)))

-- A byte in front of a line that goes on.
abbrev pub prepend : ℕ → List Bytes → List Bytes
prepend c [] = (c ∷ []) ∷ []
prepend c (line ∷ lines) = (c ∷ line) ∷ lines

-- What `fgets` gives in a loop, into a buffer of that size; in the line that it is at, there is place
-- for `left` bytes.
unfoldable pub fgets_all : ℕ → ℕ → Bytes → List Bytes
fgets_all size left [] = []
fgets_all size left (c ∷ s) =
    let ends = c == b'\n' || leb left 1 in
    let rest = fgets_all size (if ends then size - 1 else left - 1) s in
    if ends then (c ∷ []) ∷ rest else prepend c rest

-- `name + 5`
abbrev pub after_five : Bytes → Bytes
after_five (a ∷ b ∷ c ∷ d ∷ e ∷ s) = s
after_five _ = []

abbrev pub number_or_minus_one : ℤ → ℤ
number_or_minus_one num = if ltb_ℤ num (pos 0) || ltb_ℤ (pos 999) num then neg 1 else num

-- `*endptr != '\0'`, a negative number, or one above 999 is no device. Where `strtol` converts
-- nothing its result is 0 and `endptr` is the start.
abbrev pub device_number : Bytes → Converted → ℤ
device_number [] unconverted = number_or_minus_one (pos 0)
device_number (c ∷ s) unconverted = neg 1
device_number text (converted num range []) = number_or_minus_one num
device_number text (converted num range (c ∷ rest)) = neg 1

-- An entry of /sys/class/hwmon: its name, the content of its file `name` if that can be opened, and
-- whether its `temp1_input` can be read.
pub record Entry : Type 0 where
  pub d_name : Bytes
  pub name_file : Option Bytes
  pub has_input : Bool

-- `g_hwmon_device_num` and `g_hwmon_cache_valid`
pub record Cache : Type 0 where
  pub device_num : ℤ
  pub valid : Bool

unfoldable pub invalidate_hwmon_cache : Cache → Cache
invalidate_hwmon_cache c = record { device_num = neg 1; valid = false }

-- The path of `temp1_input` in a directory.
abbrev pub in_hwmon : Bytes → Bytes → Bytes
in_hwmon d_name file = codes "/sys/class/hwmon/" ++ (d_name ++ file)

-- `snprintf(buf, size, ...) < size`
abbrev pub fits : ℕ → Bytes → Bool
fits size text = ltb (length text) size

unfoldable pub is_exact : Bytes → Bool
unfolding strcmp_eq
is_exact dev_name =
    strcmp_eq dev_name (codes "quectel_rm520n_thermal")
    || strcmp_eq dev_name (codes "quectel_rm520n_hwmon")

unfoldable pub is_partial : Bytes → Bool
unfolding contains
is_partial dev_name = contains (codes "quectel_rm520n") dev_name

unfoldable pub dev_name_of : Option Bytes → Option Bytes
unfolding first_line
dev_name_of none = none
dev_name_of (some content) = first_line device_name_len content

module _ (long_max : ℕ) where
  unfoldable pub extract_hwmon_number : Option Bytes → ℤ
  unfolding starts_with strtol
  extract_hwmon_number none = neg 1
  extract_hwmon_number (some name) =
      if not (starts_with (codes "hwmon") name)
      then neg 1
      else device_number (after_five name) (strtol long_max (after_five name))

  -- What is left of an entry whose `name` was read.
  abbrev pub named : Bytes → Option Bytes → Bool → Option (Bytes × ℤ)
  named d_name none has_input = none
  named d_name (some dev_name) has_input =
      if not has_input
      then none
      else let num = extract_hwmon_number (some d_name) in
        if ltb_ℤ num (pos 0) then none else some (dev_name, num)

  -- The device name and number of an entry that is not skipped.
  unfoldable pub candidate : Entry → Option (Bytes × ℤ)
  unfolding dev_name_of
  candidate e =
      if strcmp_eq e.d_name (codes ".") || strcmp_eq e.d_name (codes "..")
      then none
      else if not (fits path_max_len (in_hwmon e.d_name (codes "/name")))
      then none
      else if not (fits path_max_len (in_hwmon e.d_name (codes "/temp1_input")))
      then none
      else named e.d_name (dev_name_of e.name_file) e.has_input

  -- What the loop does with an entry; `scan` is the rest of it. An exact match ends the search.
  abbrev pub on_candidate : (ℤ → ℤ) → Option (Bytes × ℤ) → ℤ → ℤ
  on_candidate scan none fallback_match = scan fallback_match
  on_candidate scan (some (dev_name, num)) fallback_match =
      if is_exact dev_name
      then num
      else if is_partial dev_name && ltb_ℤ fallback_match (pos 0)
      then scan num
      else scan fallback_match

  -- The loop over the directory, with `fallback_match`. Its result is the number of the first exact
  -- match if there is one, and else `fallback_match` behind the last entry.
  unfoldable pub scan_entries : List Entry → ℤ → ℤ
  unfolding candidate
  scan_entries [] fallback_match = fallback_match
  scan_entries (e ∷ rest) fallback_match =
      on_candidate (scan_entries rest) (candidate e) fallback_match

  -- A scan of the directory, if it can be opened, and the cache behind it.
  unfoldable pub rescan : Option (List Entry) → Cache → ℤ × Cache
  unfolding scan_entries
  rescan none c = (neg 1, c)
  rescan (some entries) c =
      let result = scan_entries entries (neg 1) in
      (result, record { device_num = result; valid = true })

  -- `readable n` says whether /sys/class/hwmon/hwmonN/temp1_input can be read.
  unfoldable pub find_quectel_hwmon_device :
      (ℤ → Bool) → Option (List Entry) → Bool → Cache → ℤ × Cache
  unfolding rescan
  find_quectel_hwmon_device readable entries use_cache c =
      if use_cache && c.valid
      then (if not (ltb_ℤ c.device_num (pos 0)) && readable c.device_num
          then (c.device_num, c)
          else rescan entries (record c { valid = false }))
      else rescan entries c

  abbrev pub hwmon_path : ℤ → Bytes
  hwmon_path num = codes "/sys/class/hwmon/hwmon" ++ print_int num (codes "/temp1_input")

  -- `some path` for the result 0; the number is `buf_size`.
  unfoldable pub find_quectel_hwmon_path :
      (ℤ → Bool) → Option (List Entry) → Bool → ℕ → Cache → Option Bytes × Cache
  unfolding find_quectel_hwmon_device
  find_quectel_hwmon_path readable entries false buf_size c = (none, c)
  find_quectel_hwmon_path readable entries true buf_size c =
      if buf_size == 0
      then (none, c)
      else let (num, c') = find_quectel_hwmon_device readable entries true c in
        if ltb_ℤ num (pos 0)
        then (none, c')
        else if not (fits buf_size (hwmon_path num))
        then (none, c')
        else (some (hwmon_path num), c')
