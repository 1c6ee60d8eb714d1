-- ===== src/Temperature/Response.antt =====
-- The modem's answer in the form that src/temperature.c documents, +QTEMP:"name","value", and what
-- the parser reads from it.
use quectel_rm520n_thermal.Base.{
  ℕ, ◌≤◌, ◌≡◌, refl, ◌∙◌, ap, ℤ, pos, negsuc, false, ◌==◌, if◌then◌else◌, Option, none, some, [],
  ◌∷◌, ◌++◌, List, arith, length, length-append, take-all, Bool-cases, inl, inr,
}
use quectel_rm520n_thermal.Kmod.Defs.{IsInt}
use quectel_rm520n_thermal.CString.{
  Bytes, codes, isdigit, strcmp_eq, strstr, print_int, converted, strtol,
}
use quectel_rm520n_thermal.CString.Decimal.{
  FitsLong, StartsDigit, decimal-StartsDigit, strtol-print_int, print_int-append, NoNumeral,
  print_int-Lacks, print_int-NotHead,
}
use quectel_rm520n_thermal.CString.Search.{
  Lacks, reverse_onto, strcmp_eq_iff, strstr_skip, strstr_other, strstr_found, strstr_pass,
  strstr-none,
}
use quectel_rm520n_thermal.Temperature.{
  to_int, value_at, extract_found, extract_single_temperature, quoted, line_start, advance,
}

pub record Reading : Type 0 where
  pub name : Bytes
  pub value : ℤ

-- The quote.
abbrev pub q : ℕ
q = b'"'

abbrev pub print_reading : Reading → Bytes → Bytes
print_reading r rest =
    codes "+QTEMP:"
    ++ (q ∷ (r.name ++ (q ∷ b',' ∷ q ∷ print_int r.value (q ∷ b'\r' ∷ b'\n' ∷ rest))))

-- Readings in front of a text.
abbrev pub print_readings : List Reading → Bytes → Bytes
print_readings [] last = last
print_readings (r ∷ rs) last = print_reading r (print_readings rs last)

-- An answer with that end.
abbrev pub print_answer : List Reading → Bytes → Bytes
print_answer rs last = codes "\r\n" ++ print_readings rs last

-- The whole answer.
abbrev pub print_response : List Reading → Bytes
print_response rs = print_answer rs (codes "\r\nOK\r\n")

-- The first reading of that name.
abbrev pub lookup : Bytes → List Reading → Option ℤ
lookup n [] = none
lookup n (r ∷ rs) = if strcmp_eq n r.name then some r.value else lookup n rs

-- A name that begins with no digit, sign, separator or newline, has no quote, and fits the pattern.
abbrev pub IsName : Bytes → Type 0
IsName [] = ⊥
IsName (c ∷ cs) =
    NoNumeral c
    × ((c == b',') ≡ false)
    × ((c == b'\r') ≡ false)
    × Lacks q (c ∷ cs)
    × (length cs ≤ 124)

-- Readings whose names have no quote and whose values are C `int`s.
abbrev pub AreReadings : List Reading → Type 0
AreReadings [] = Unit
AreReadings (r ∷ rs) = Lacks q r.name × IsInt r.value × AreReadings rs

module _ (long_max : ℕ) (wide : 2147483647 ≤ long_max) where
  fits : (v : ℤ) → IsInt v → FitsLong long_max v
  fits v h = omega arith

  value_of_digit : (s : Bytes) → StartsDigit s → value_at long_max s ≡ to_int (strtol long_max s)
  unfolding value_at
  value_of_digit [] h = absurd h
  value_of_digit (c ∷ s) h = ground arith

  value_of_print :
      (v : ℤ) (rest : Bytes)
      → value_at long_max (print_int v rest) ≡ to_int (strtol long_max (print_int v rest))
  unfolding print_int
  value_of_print (pos n) rest = value_of_digit _ (decimal-StartsDigit n rest)
  value_of_print (negsuc n) rest = unfold value_at in refl

  to_int_of_int : (v : ℤ) (rest : Bytes) → IsInt v → to_int (converted v false rest) ≡ some v
  to_int_of_int v rest h = ground arith

  value_at-print_int :
      (v : ℤ) (rest : Bytes) → IsInt v → value_at long_max (print_int v (q ∷ rest)) ≡ some v
  value_at-print_int v rest h =
      value_of_print v (q ∷ rest)
      ∙ ap to_int (strtol-print_int long_max v (q ∷ rest) (fits v h) (unfold isdigit in refl))
      ∙ to_int_of_int v (q ∷ rest) h

  advance-append_quote : (n s : Bytes) → advance (n ++ q ∷ []) (n ++ q ∷ s) ≡ s
  advance-append_quote [] s = refl
  advance-append_quote (c ∷ n) s = advance-append_quote n s

  line_start_here :
      (b s : Bytes)
      → line_start (reverse_onto (codes "+QTEMP:") (b'\n' ∷ b)) (q ∷ s) ≡ codes "+QTEMP:" ++ (q ∷ s)
  unfolding line_start
  line_start_here [] s = refl
  line_start_here (c ∷ b) s = refl

  extract_at :
      (n b rest : Bytes) (v : ℤ)
      → IsInt v
      → extract_found long_max (q ∷ (n ++ q ∷ [])) (
          some (
            reverse_onto (codes "+QTEMP:") (b'\n' ∷ b),
            q ∷ (n ++ (q ∷ b',' ∷ q ∷ print_int v (q ∷ rest))),
          ))
        ≡ some v
  unfolding extract_found
  extract_at n b rest v h =
      rw
        (
          line_start_here b (n ++ (q ∷ b',' ∷ q ∷ print_int v (q ∷ rest))),
          advance-append_quote n (b',' ∷ q ∷ print_int v (q ∷ rest)),
        )
        (value_at-print_int v rest h)

  -- What the search for a name sees of a reading of another name: the same search behind it.
  pass_reading :
      (n : Bytes) (r : Reading) (before rest : Bytes)
      → IsName n
      → Lacks q r.name
      → strcmp_eq n r.name ≡ false
      → (b : Bytes) × (strstr (q ∷ (n ++ q ∷ [])) before (print_reading r rest)
          ≡ strstr (q ∷ (n ++ q ∷ [])) (b'\n' ∷ b) rest)
  pass_reading [] r before rest h k ne = absurd h
  pass_reading (c ∷ n) r before rest h k ne =
      let (digit, comma, newline, quote, short) = h in
      let needle = n ++ q ∷ [] in
      let number = print_int r.value [] in
      (
        _,
        strstr_skip q (c ∷ needle) (codes "+QTEMP:") before _
              (refl, (refl, (refl, (refl, (refl, (refl, (refl, tt)))))))
            ∙ strstr_other q (c ∷ n) r.name _ _ quote k ne
            ∙ strstr_skip q (c ∷ needle) r.name _ _ k
            ∙ strstr_pass q c needle _ _ comma
            ∙ strstr_skip q (c ∷ needle) (b',' ∷ []) _ _ (refl, tt)
            ∙ strstr_pass q c needle _ _ (print_int-NotHead c r.value _ digit)
            ∙ ap (strstr (q ∷ c ∷ needle) _) (print_int-append r.value _)
            ∙ strstr_skip q (c ∷ needle) number _ _
                (print_int-Lacks q r.value (unfold isdigit in (refl, refl)))
            ∙ strstr_pass q c needle _ _ newline
            ∙ strstr_skip q (c ∷ needle) (b'\r' ∷ b'\n' ∷ []) _ rest (refl, (refl, tt)),
      )

  found_reading :
      (n b rest : Bytes) (v : ℤ)
      → IsName n
      → IsInt v
      → extract_found long_max (q ∷ (n ++ q ∷ [])) (
          strstr
            (q ∷ (n ++ q ∷ []))
            (b'\n' ∷ b)
            (print_reading (record { name = n; value = v }) rest))
        ≡ some v
  found_reading [] b rest v h k = absurd h
  found_reading (c ∷ n) b rest v h k =
      let quote = h.3 in
      ap (extract_found long_max (q ∷ c ∷ (n ++ q ∷ []))) (
        strstr_skip q (c ∷ (n ++ q ∷ [])) (codes "+QTEMP:") (b'\n' ∷ b) _
          (refl, (refl, (refl, (refl, (refl, (refl, (refl, tt)))))))
        ∙ strstr_found q (c ∷ n) _ _ quote)
      ∙ extract_at (c ∷ n) b (b'\r' ∷ b'\n' ∷ rest) v k

  extract_readings :
      (n : Bytes) (rs : List Reading) (last b : Bytes)
      → IsName n
      → AreReadings rs
      → Lacks q last
      → extract_found long_max
          (q ∷ (n ++ q ∷ []))
          (strstr (q ∷ (n ++ q ∷ [])) (b'\n' ∷ b) (print_readings rs last))
        ≡ lookup n rs
  extract_readings n [] last b h k l =
      rw (strstr-none q (n ++ q ∷ []) (b'\n' ∷ b) last l) (unfold extract_found in refl)
  extract_readings n (r ∷ rs) last b h k l = elim (Bool-cases (strcmp_eq n r.name)) [
    | inl same ↦
        rw (same, ← (strcmp_eq_iff n r.name).0 same)
          (found_reading n b (print_readings rs last) r.value h k.1)
    | inr other ↦
        let (b', e) = pass_reading n r (b'\n' ∷ b) (print_readings rs last) h k.0 other in
        rw (e, other) (extract_readings n rs last b' h k.2 l)
  ]

  quoted_whole : (n : Bytes) → IsName n → quoted n ≡ q ∷ (n ++ q ∷ [])
  unfolding quoted
  quoted_whole [] h = absurd h
  quoted_whole (c ∷ n) h =
      take-all 127 (q ∷ c ∷ (n ++ q ∷ [])) (omega (arith, length-append n (q ∷ [])))

  extract_pattern :
      (n : Bytes) (rs : List Reading) (last : Bytes)
      → IsName n
      → AreReadings rs
      → Lacks q last
      → extract_single_temperature long_max (print_answer rs last) (q ∷ (n ++ q ∷ [])) ≡ lookup n rs
  unfolding extract_single_temperature
  extract_pattern n rs last h k l =
      ap (extract_found long_max (q ∷ (n ++ q ∷ []))) (
        strstr_skip q (n ++ q ∷ []) (b'\r' ∷ b'\n' ∷ []) [] (print_readings rs last)
          (refl, (refl, tt)))
      ∙ extract_readings n rs last (b'\r' ∷ []) h k l

  -- From an answer in the modem's form the parser reads, for a name, the value of the first reading
  -- of that name, and nothing if there is none.
  pub extract-print_answer :
      (n : Bytes) (rs : List Reading) (last : Bytes)
      → IsName n
      → AreReadings rs
      → Lacks q last
      → extract_single_temperature long_max (print_answer rs last) (quoted n) ≡ lookup n rs
  extract-print_answer n rs last h k l = rw (quoted_whole n h) (extract_pattern n rs last h k l)
