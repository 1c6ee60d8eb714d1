-- ===== src/Serial/Reading.antt =====
-- What src/serial.c leaves in the buffer of its caller.
use quectel_rm520n_thermal.Base.{
  ℕ, ◌-◌, ◌≤◌, ◌<◌, ◌≡◌, ◌⊎◌, inl, inr, refl, sym, ◌∙◌, ap, ltb, leb, Bool, true, false, Bool-cases,
  List, [], ◌∷◌, ◌++◌, length, length-append, length-take, take, take-all, take-prefix, arith,
  append_assoc, append-nil,
}
use quectel_rm520n_thermal.CString.{Bytes}
use quectel_rm520n_thermal.CString.Occurs.{Prefix}
use quectel_rm520n_thermal.Serial.{
  at_timeout_sec, Read, got, would_block, broken, Waited, interrupted, failed, idle, readable, Pass,
  Answer, pending, minus_one, answered, is_final, Passed, again, done, error, on_read, on_waited,
  pass, behind, validate_serial_params, read_loop, read_modem_response,
}

-- The time is up at some pass.
abbrev pub TimesOut : ℕ → List Pass → Type 0
TimesOut start_time [] = ⊥
TimesOut start_time (p ∷ ps) = (at_timeout_sec ≤ p.now - start_time) ⊎ TimesOut start_time ps

-- What the modem sends while the program reads.
abbrev pub arrived : Waited → Bytes
arrived (readable (got s)) = s
arrived _ = []

abbrev pub arrivals : List Pass → Bytes
arrivals [] = []
arrivals (p ∷ ps) = arrived p.waited ++ arrivals ps

-- The buffer behind a read of `sent`: all of that is there, or as much as fits.
abbrev Grown : ℕ → Bytes → Bytes → Bytes → Type 0
Grown buflen buf sent more =
    (length more ≤ buflen - 1)
    × Prefix more (buf ++ sent)
    × ((more ≡ buf ++ sent) ⊎ (length more ≡ buflen - 1))

abbrev pub Late : ℕ → Pass → Type 0
Late start_time p = at_timeout_sec ≤ p.now - start_time

-- What is known behind a pass.
abbrev Sound : ℕ → ℕ → Pass → Bytes → Passed → Type 0
Sound buflen start_time p buf (again more) = Grown buflen buf (arrived p.waited) more
Sound buflen start_time p buf (done more) =
    (length more ≤ buflen - 1)
    × Prefix more (buf ++ arrived p.waited)
    × ((is_final more ≡ true) ⊎ Late start_time p)
Sound buflen start_time p buf error = Unit

module _ (buflen start_time : ℕ) where
  unchanged : (buf : Bytes) → length buf < buflen - 1 → Grown buflen buf [] buf
  unchanged buf h = (omega arith, ([], refl), inl (sym (append-nil buf)))

  appended :
      (buf sent : Bytes)
      → length buf < buflen - 1
      → Grown buflen buf sent (buf ++ take (buflen - length buf - 1) sent)
  appended buf sent h =
      let n = buflen - length buf - 1 in
      let (rest, e) = take-prefix n sent in
      (
        omega (arith, length-append buf (take n sent), length-take n sent),
        (rest, append_assoc buf (take n sent) rest ∙ ap (◌++◌ buf) e),
        elim (Bool-cases (leb (length sent) n)) [
          | inl short ↦ inl (ap (◌++◌ buf) (take-all n sent (ground arith)))
          | inr long ↦ inr (ground (arith, length-append buf (take n sent), length-take n sent))
        ],
      )

  on_read-Sound :
      (p : Pass) (r : Read) (buf : Bytes)
      → p.waited ≡ readable r
      → length buf < buflen - 1
      → Sound buflen start_time p buf (on_read buflen r buf)
  unfolding on_read
  on_read-Sound p would_block buf e h = rw e (unchanged buf h)
  on_read-Sound p broken buf e h = tt
  on_read-Sound p (got []) buf e h = rw e (unchanged buf h)
  on_read-Sound p (got (c ∷ cs)) buf e h =
      let grown = appended buf (c ∷ cs) h in
      elim (Bool-cases (is_final (buf ++ take (buflen - length buf - 1) (c ∷ cs)))) [
        | inl final ↦ rw (final, e) (grown.0, grown.1, inl final)
        | inr more ↦ rw (more, e) grown
      ]

  on_waited-Sound :
      (p : Pass) (w : Waited) (buf : Bytes)
      → p.waited ≡ w
      → length buf < buflen - 1
      → Sound buflen start_time p buf (on_waited buflen w buf)
  unfolding on_waited
  on_waited-Sound p interrupted buf e h = rw e (unchanged buf h)
  on_waited-Sound p failed buf e h = tt
  on_waited-Sound p idle buf e h = rw e (unchanged buf h)
  on_waited-Sound p (readable r) buf e h = on_read-Sound p r buf e h

  pass-Sound :
      (p : Pass) (buf : Bytes)
      → length buf < buflen - 1
      → Sound buflen start_time p buf (pass buflen start_time p buf)
  unfolding pass
  pass-Sound p buf h = elim (Bool-cases p.shutdown) [
    | inl stop ↦ rw stop tt
    | inr go ↦ elim (Bool-cases (leb at_timeout_sec (p.now - start_time))) [
      | inl late ↦ rw (go, late) (omega arith, (arrived p.waited, refl), inr (ground arith))
      | inr early ↦ rw (go, early) (on_waited-Sound p p.waited buf refl h)
    ]
  ]

  -- How a read can end: the buffer is full, or a final result code stands in it, or time is up.
  abbrev pub Ended : List Pass → Bytes → Type 0
  Ended ps s = (length s ≡ buflen - 1) ⊎ (is_final s ≡ true) ⊎ TimesOut start_time ps

  -- What a read may return, from what was in the buffer.
  abbrev pub IsResponse : List Pass → Bytes → Answer → Type 0
  IsResponse ps buf pending = Unit
  IsResponse ps buf minus_one = Unit
  IsResponse ps buf (answered s) =
      (length s ≤ buflen - 1) × Prefix s (buf ++ arrivals ps) × Ended ps s

  extend :
      (buf sent tail more : Bytes) → Prefix more (buf ++ sent) → Prefix more (buf ++ (sent ++ tail))
  extend buf sent tail more (rest, e) = (
    rest ++ tail,
    sym (append_assoc more rest tail) ∙ ap (λ x. x ++ tail) e ∙ append_assoc buf sent tail,
  )

  later :
      (p : Pass) (ps : List Pass) (buf : Bytes) (a : Answer)
      → IsResponse ps (buf ++ arrived p.waited) a
      → IsResponse (p ∷ ps) buf a
  later p ps buf pending h = tt
  later p ps buf minus_one h = tt
  later p ps buf (answered s) (fits, (rest, pre), ended) =
      (fits, (rest, pre ∙ append_assoc buf (arrived p.waited) (arrivals ps)), ground arith)

  full :
      (ps : List Pass) (buf : Bytes)
      → length buf ≡ buflen - 1
      → read_loop buflen start_time ps buf ≡ answered buf
  unfolding read_loop
  full [] buf e = ground arith
  full (p ∷ ps) buf e = ground arith

  stopped :
      (p : Pass) (ps : List Pass) (buf more : Bytes)
      → Sound buflen start_time p buf (done more)
      → IsResponse (p ∷ ps) buf (answered more)
  stopped p ps buf more (fits, pre, ended) =
      (fits, extend buf (arrived p.waited) (arrivals ps) more pre, ground arith)

  behind-IsResponse :
      (p : Pass) (ps : List Pass) (buf : Bytes) (x : Passed)
      → ((more : Bytes)
          → length more ≤ buflen - 1
          → IsResponse ps more (read_loop buflen start_time ps more))
      → Sound buflen start_time p buf x
      → IsResponse (p ∷ ps) buf (behind (read_loop buflen start_time ps) x)
  behind-IsResponse p ps buf (again more) ih (fits, pre, inl whole) =
      later p ps buf (read_loop buflen start_time ps more) (rw⁻¹ whole (ih more fits))
  behind-IsResponse p ps buf (again more) ih (fits, pre, inr most) =
      rw (full ps more most) (fits, extend buf (arrived p.waited) (arrivals ps) more pre, inl most)
  behind-IsResponse p ps buf (done more) ih h = stopped p ps buf more h
  behind-IsResponse p ps buf error ih h = tt

  read_loop-IsResponse :
      (ps : List Pass) (buf : Bytes)
      → length buf ≤ buflen - 1
      → IsResponse ps buf (read_loop buflen start_time ps buf)
  unfolding read_loop
  read_loop-IsResponse [] buf h = elim (Bool-cases (ltb (length buf) (buflen - 1))) [
    | inl short ↦ rw short tt
    | inr most ↦ rw most (h, ([], refl), inl (ground arith))
  ]
  read_loop-IsResponse (p ∷ ps) buf h = elim (Bool-cases (ltb (length buf) (buflen - 1))) [
    | inl short ↦ rw short (
        behind-IsResponse p ps buf (pass buflen start_time p buf)
          (λ more fits. read_loop-IsResponse ps more fits) (pass-Sound p buf (ground arith)))
    | inr most ↦ rw most (h, (arrivals (p ∷ ps), refl), inl (ground arith))
  ]

  valid_length :
      (has_fd has_buf : Bool) → validate_serial_params has_fd has_buf buflen ≡ true → 64 ≤ buflen
  unfolding validate_serial_params
  valid_length true true e = ground arith
  valid_length true false e = cc
  valid_length false has_buf e = cc

  -- The text that a read returns leaves a place for its NUL in the caller's buffer, is the beginning
  -- of what the modem sent, and is there because it fills the buffer, has a final result code, or
  -- the time was up.
  pub read_modem_response-IsResponse :
      (has_fd has_buf : Bool) (ps : List Pass) (s : Bytes)
      → read_modem_response has_fd has_buf buflen start_time ps ≡ answered s
      → (length s < buflen) × Prefix s (arrivals ps) × Ended ps s
  unfolding read_modem_response
  read_modem_response-IsResponse has_fd has_buf ps s e =
      elim (Bool-cases (validate_serial_params has_fd has_buf buflen)) [
        | inl valid ↦
            let long = valid_length has_fd has_buf valid in
            let loop_end = rw valid at e in
            let (fits, pre, ended) = rw loop_end at (read_loop-IsResponse ps [] (omega arith)) in
            (omega arith, pre, ended)
        | inr invalid ↦ let minus = rw invalid at e in absurd cc
      ]
