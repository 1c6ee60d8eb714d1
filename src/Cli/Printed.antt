-- ===== src/Cli/Printed.antt =====
-- `cli_mode` of src/cli.c: how it reads a number that stands in a file.
use quectel_rm520n_thermal.Base.{
  ℕ, ◌+◌, ◌-◌, ◌≤◌, ◌≡◌, ◌≢◌, refl, ap, ℤ, pos, false, some, [], ◌∷◌, ◌++◌, length, take-all,
  length-append, arith,
}
use quectel_rm520n_thermal.CString.{
  Bytes, codes, isdigit, strcmp_eq, print_int, strtol, unconverted,
}
use quectel_rm520n_thermal.CString.Search.{strcmp_eq_iff, Lacks}
use quectel_rm520n_thermal.CString.Decimal.{
  strtol-print_int, print_int_short, print_int-append, print_int-Lacks,
}
use quectel_rm520n_thermal.Kmod.Defs.{IsInt}
use quectel_rm520n_thermal.System.{strip_newline, first_line}
use quectel_rm520n_thermal.Cli.{not_available, usable, useless, line_tried, file_tried}

strip_newline-append : (s rest : Bytes) → Lacks b'\n' s → strip_newline (s ++ b'\n' ∷ rest) ≡ s
unfolding strip_newline
strip_newline-append [] rest h = refl
strip_newline-append (c ∷ s) rest (h, hs) = ground (arith, strip_newline-append s rest hs)

text_line :
    (temp_size : ℕ) (s : Bytes)
    → Lacks b'\n' s
    → length s + 2 ≤ temp_size
    → first_line temp_size (s ++ b'\n' ∷ []) ≡ some s
unfolding first_line strip_newline
text_line n [] h fits = rw (take-all {A = ℕ} (n - 1) (b'\n' ∷ []) (omega arith)) refl
text_line n (c ∷ s) h fits =
    let size = length-append (c ∷ s) (b'\n' ∷ []) in
    rw (take-all (n - 1) (c ∷ (s ++ b'\n' ∷ [])) (omega arith))
      (ap some (strip_newline-append (c ∷ s) [] h))

printed_line :
    (temp_size : ℕ) (v : ℤ)
    → 13 ≤ temp_size
    → IsInt v
    → first_line temp_size (print_int v (b'\n' ∷ [])) ≡ some (print_int v [])
unfolding isdigit
printed_line n v roomy int = rw (print_int-append v (b'\n' ∷ [])) (
    text_line n (print_int v []) (print_int-Lacks b'\n' v (refl, refl))
      (omega (arith, print_int_short v [] int)))

-- Equal texts have equal numbers.
printed_ne : (v w : ℤ) → IsInt v → IsInt w → v ≢ w → print_int v [] ≢ print_int w []
printed_ne v w i j ne e =
    let x = strtol-print_int 2147483647 v [] (omega arith) tt in
    let y = strtol-print_int 2147483647 w [] (omega arith) tt in
    ne (cc (x, y, ap (strtol 2147483647) e))

pub printed_ne_na : (v : ℤ) → IsInt v → print_int v [] ≢ not_available
unfolding strtol
printed_ne_na v i e =
    let x = strtol-print_int 2147483647 v [] (omega arith) tt in
    let y : strtol 2147483647 not_available ≡ unconverted = refl in
    cc (x, y, ap (strtol 2147483647) e)

printed_ne_zero : (v : ℤ) → IsInt v → v ≢ pos 0 → print_int v [] ≢ codes "0"
unfolding print_int
printed_ne_zero v i ne = printed_ne v (pos 0) i (omega arith) ne

pub unequal : (a b : Bytes) → a ≢ b → strcmp_eq a b ≡ false
unequal a b ne = ground (arith, strcmp_eq_iff a b)

-- A file that shows a number other than 0 is read as that number.
pub printed_tried :
    (temp_size : ℕ) (v : ℤ) (temp_str : Bytes)
    → 13 ≤ temp_size
    → IsInt v
    → v ≢ pos 0
    → file_tried temp_size (some (print_int v (b'\n' ∷ []))) temp_str ≡ usable (print_int v [])
unfolding file_tried line_tried
printed_tried n v temp_str roomy int ne =
    rw
      (
        printed_line n v roomy int,
        unequal (print_int v []) not_available (printed_ne_na v int),
        unequal (print_int v []) (codes "0") (printed_ne_zero v int ne),
      )
      refl

zero_printed : print_int (pos 0) [] ≡ codes "0"
unfolding print_int
zero_printed = refl

pub zero_tried :
    (temp_size : ℕ) (temp_str : Bytes)
    → 13 ≤ temp_size
    → file_tried temp_size (some (print_int (pos 0) (b'\n' ∷ []))) temp_str ≡ useless (codes "0")
unfolding file_tried line_tried strcmp_eq
zero_tried n temp_str roomy = rw (printed_line n (pos 0) roomy (omega arith), zero_printed) refl
