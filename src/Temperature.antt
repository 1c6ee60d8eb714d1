-- ===== src/Temperature.antt =====
-- src/temperature.c: the temperatures in the modem's answer to AT+QTEMP. The width of `long` is a
-- parameter, by its largest value. The calls of the logger are left out.
pub mod Bounds
pub mod Width
pub mod Response
pub mod RoundTrip
pub mod Pieces
pub mod Accepted
pub mod Sent
use quectel_rm520n_thermal.Base.{
  ℕ, ◌-◌, ℤ, pos, neg, ltb_ℤ, scale, Bool, true, false, not, ◌&&◌, ◌||◌, ◌==◌, if◌then◌else◌,
  Option, none, some, List, [], ◌∷◌, ◌++◌, take,
}
use quectel_rm520n_thermal.CString.{
  Bytes, codes, isspace, isdigit, starts_with, strstr, contains, Converted, unconverted, converted,
  strtol,
}

abbrev pub temp_valid_min : ℤ
temp_valid_min = neg 40

abbrev pub temp_valid_max : ℤ
temp_valid_max = pos 125

abbrev pub int_min : ℤ
int_min = neg 2147483648

abbrev pub int_max : ℤ
int_max = pos 2147483647

-- `PATTERN_LEN`
abbrev pub pattern_len : ℕ
pattern_len = 128

abbrev is_newline : ℕ → Bool
is_newline c = c == b'\n' || c == b'\r'

-- The walk back from the match to the start of its line: `before` is what stands in front of the
-- pointer, in reverse.
abbrev line_start_from : Bytes → Bytes → Bytes
line_start_from [] cur = cur
line_start_from (c ∷ before) [] = line_start_from before (c ∷ [])
line_start_from (c ∷ before) (d ∷ cur) =
    let back = line_start_from before (c ∷ d ∷ cur) in if is_newline d then d ∷ cur else back

abbrev drop_newline : Bytes → Bytes
drop_newline [] = []
drop_newline (c ∷ s) = if is_newline c then s else c ∷ s

unfoldable pub line_start : Bytes → Bytes → Bytes
line_start before cur = drop_newline (line_start_from before cur)

-- `temp_ptr += n`
abbrev pub advance : Bytes → Bytes → Bytes
advance [] s = s
advance (p ∷ ps) [] = []
advance (p ∷ ps) (c ∷ s) = advance ps s

unfoldable pub skip_separators : Bytes → Bytes
unfolding isspace
skip_separators [] = []
skip_separators (c ∷ s) =
    let more = skip_separators s in if isspace c || c == b',' then more else c ∷ s

abbrev pub skip_quote : Bytes → Bytes
skip_quote [] = []
skip_quote (c ∷ s) = if c == b'"' then s else c ∷ s

-- The conversion, with the checks of `errno`, `endptr` and the range of `int`.
abbrev pub to_int : Converted → Option ℤ
to_int unconverted = none
to_int (converted v true rest) = none
to_int (converted v false rest) = if ltb_ℤ v int_min || ltb_ℤ int_max v then none else some v

module _ (long_max : ℕ) where
  unfoldable pub value_at : Bytes → Option ℤ
  unfolding isdigit
  value_at [] = none
  value_at (c ∷ s) =
      if not (c == b'"') && (isdigit c || c == b'-') then to_int (strtol long_max (c ∷ s)) else none

  pub extract_found : Bytes → Option (Bytes × Bytes) → Option ℤ
  unfolding starts_with line_start skip_separators value_at
  extract_found pattern none = none
  extract_found pattern (some (before, found)) =
      if starts_with (codes "+QTEMP:") (line_start before found)
      then value_at (skip_quote (skip_separators (advance pattern found)))
      else none

  -- `some v` stands for the result 1 with `*temp_value = v`, `none` for 0 and no write.
  unfoldable pub extract_single_temperature : Bytes → Bytes → Option ℤ
  unfolding extract_found strstr
  extract_single_temperature response pattern = extract_found pattern (strstr pattern [] response)

-- The three out parameters of `extract_temp_values`, or three values of the prefixes.
pub record Triple (A : Type 0) : Type 0 where
  pub modem : A
  pub ap : A
  pub pa : A

-- `snprintf(pattern, sizeof(pattern), "\"%s\"", prefix)`
unfoldable pub quoted : Bytes → Bytes
quoted prefix = take (pattern_len - 1) (b'"' ∷ (prefix ++ b'"' ∷ []))

abbrev out_of_range : Option ℤ → Bool
out_of_range none = false
out_of_range (some v) = ltb_ℤ v temp_valid_min || ltb_ℤ temp_valid_max v

abbrev or_zero : Option ℤ → ℤ
or_zero none = pos 0
or_zero (some v) = v

-- An out parameter at 0; `none` is a NULL pointer, as it is for a prefix.
abbrev cleared : Bool → Option ℤ
cleared false = none
cleared true = some (pos 0)

abbrev in_range : Triple (Option ℤ) → Bool
in_range t = not (out_of_range t.modem) && not (out_of_range t.ap) && not (out_of_range t.pa)

-- Whether the response is one that is read at all.
unfoldable pub well_formed : Bytes → Bool
unfolding contains
well_formed response =
    contains (codes "+QTEMP:") response
    && not (contains (codes "ERROR") response)
    && not (contains (codes "OK") response && not (contains (codes "modem") response))

abbrev all_cleared : Triple Bool → Triple (Option ℤ)
all_cleared w = record { modem = cleared w.modem; ap = cleared w.ap; pa = cleared w.pa }

module _ (long_max : ℕ) where
  unfoldable pub extract_slot : Bytes → Bool → Option Bytes → Option ℤ
  unfolding quoted
  extract_slot response wanted none = cleared wanted
  extract_slot response false (some prefix) = none
  extract_slot response true (some prefix) =
      some (or_zero (extract_single_temperature long_max response (quoted prefix)))

  unfoldable pub extract_slots : Bytes → Triple Bool → Triple (Option Bytes) → Triple (Option ℤ)
  unfolding extract_slot
  extract_slots response wanted prefixes = record {
    modem = extract_slot response wanted.modem prefixes.modem;
    ap = extract_slot response wanted.ap prefixes.ap;
    pa = extract_slot response wanted.pa prefixes.pa;
  }

  -- The flags say which out parameters are not NULL.
  unfoldable pub extract_temp_values :
      Option Bytes → Triple Bool → Triple (Option Bytes) → Bool × Triple (Option ℤ)
  unfolding well_formed extract_slots
  extract_temp_values none wanted prefixes = (false, all_cleared wanted)
  extract_temp_values (some response) wanted prefixes =
      if well_formed response
      then (let slots = extract_slots response wanted prefixes in (in_range slots, slots))
      else (false, all_cleared wanted)

-- `some m` stands for the result 1 with `*result_mdeg = m`; the flag says that the pointer is not
-- NULL.
unfoldable pub select_best_temperature : ℤ → ℤ → ℤ → Bool → Option ℤ
select_best_temperature modem_temp ap_temp pa_temp false = none
select_best_temperature modem_temp ap_temp pa_temp true =
    let best = if ltb_ℤ modem_temp ap_temp then ap_temp else modem_temp in
    let best_temp = if ltb_ℤ best pa_temp then pa_temp else best in
    if ltb_ℤ best_temp temp_valid_min || ltb_ℤ temp_valid_max best_temp
    then none
    else some (scale 1000 best_temp)
