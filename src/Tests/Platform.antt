-- ===== src/Tests/Platform.antt =====
-- A concrete kernel for the examples: `kstrtoint` as it is documented, by `strtol` at the width of an
-- `int`, and `scnprintf` by the decimal print.
use quectel_rm520n_thermal.Base.{
  ◌^◌, ◌≡◌, ◌==◌, if◌then◌else◌, refl, ℤ, pos, true, false, [], ◌∷◌, ◌++◌, arith, length-append,
}
use quectel_rm520n_thermal.CString.{
  Bytes, codes, isdigit, Converted, unconverted, converted, strtol, print_int,
}
use quectel_rm520n_thermal.CString.Decimal.{strtol-print_int, print_int_short, print_int-append}
use quectel_rm520n_thermal.CString.Convert.{strtol_fits}
use quectel_rm520n_thermal.Kmod.Defs.{
  IsInt, einval, other, Parsed, parsed, refused, Line, int_line, stats_lines, Kernel, ParsesInts,
  ReadsBack,
}
use quectel_rm520n_thermal.Kmod.Hwmon.Probe.{PrintsShort}

-- One newline may follow the number.
abbrev pub to_parsed : Converted → Parsed
to_parsed unconverted = refused einval
to_parsed (converted v true rest) = refused (other 34)
to_parsed (converted v false []) = parsed v
to_parsed (converted v false (c ∷ [])) = if c == b'\n' then parsed v else refused einval
to_parsed (converted v false (c ∷ d ∷ rest)) = refused einval

abbrev pub print_line : Line → Bytes
print_line (int_line v) = print_int v (b'\n' ∷ [])
print_line (stats_lines updates time) =
    codes "total_updates: "
    ++ print_int (pos updates) (codes "\nlast_update_time: " ++ print_int (pos time) (b'\n' ∷ []))

abbrev pub kernel : Kernel
kernel = record {
  kstrtoint = λ s. to_parsed (strtol 2147483647 s);
  scnprintf = λ size line. print_line line;
  page_size = 4096;
  hz = 100;
  ulong_mod = 2 ^ 64;
}

to_parsed_fits :
    (s : Bytes) (x : Converted) (v : ℤ) → strtol 2147483647 s ≡ x → to_parsed x ≡ parsed v → IsInt v
to_parsed_fits s unconverted v e h = cc
to_parsed_fits s (converted w true rest) v e h = cc
to_parsed_fits s (converted w false []) v e h = ground (arith, strtol_fits 2147483647 s e)
to_parsed_fits s (converted w false (c ∷ [])) v e h = ground (arith, strtol_fits 2147483647 s e)
to_parsed_fits s (converted w false (c ∷ d ∷ rest)) v e h = cc

pub kernel-ParsesInts : ParsesInts kernel
kernel-ParsesInts s v h = to_parsed_fits s (strtol 2147483647 s) v refl h

pub kernel-ReadsBack : ReadsBack kernel
unfolding isdigit
kernel-ReadsBack v h = rw (strtol-print_int 2147483647 v (b'\n' ∷ []) (omega arith) refl)

pub kernel-PrintsShort : PrintsShort kernel
kernel-PrintsShort v h = (
  rw (print_int-append v (b'\n' ∷ [])) (omega (arith, length-append (print_int v []) (b'\n' ∷ []))),
  omega (arith, print_int_short v (b'\n' ∷ []) h),
)
