-- ===== src/Kmod/Printed.antt =====
-- Numbers as the user-space programs print them into the files of the kernel modules.
use quectel_rm520n_thermal.Base.{◌≡◌, ◌≢◌, ℤ, pos, negsuc, [], ◌∷◌, length, arith}
use quectel_rm520n_thermal.CString.{Bytes, print_int}
use quectel_rm520n_thermal.CString.Decimal.{StartsDigit, decimal-StartsDigit}
use quectel_rm520n_thermal.Kmod.Defs.{IsInt, Kernel, parsed}

-- `kstrtoint` reads a printed `int`.
abbrev pub ReadsPrinted : Kernel → Type 0
ReadsPrinted k = (v : ℤ) → IsInt v → k.kstrtoint (print_int v []) ≡ parsed v

begins : (s : Bytes) → StartsDigit s → length s ≢ 0
begins [] h = absurd h
begins (c ∷ s) h = λ e. omega arith

pub printed_nonempty : (v : ℤ) → length (print_int v []) ≢ 0
unfolding print_int
printed_nonempty (pos n) = begins _ (decimal-StartsDigit n [])
printed_nonempty (negsuc n) = λ e. omega arith
