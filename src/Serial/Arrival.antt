-- ===== src/Serial/Arrival.antt =====
-- src/serial.c: the read of an answer that comes in pieces.
use quectel_rm520n_thermal.Base.{
  ℕ, ◌-◌, ◌≤◌, ◌<◌, ◌≡◌, inl, inr, refl, sym, ◌∙◌, ap, ltb, leb, ◌==◌, true, false, Bool-cases,
  List, [], ◌∷◌, ◌++◌, length, length-append, take-all, arith, append_assoc, append-nil, All,
}
use quectel_rm520n_thermal.CString.{Bytes, codes, contains, strstr, starts_with}
use quectel_rm520n_thermal.CString.Occurs.{Prefix, beginnings, contains-append}
use quectel_rm520n_thermal.Serial.{
  at_timeout_sec, got, would_block, broken, Waited, interrupted, failed, idle, readable, Pass,
  Answer, answered, c_string, is_final, on_read, on_waited, pass, behind, validate_serial_params,
  read_loop, read_modem_response,
}
use quectel_rm520n_thermal.Serial.Reading.{arrived, arrivals}

c_string-append : (s more : Bytes) → (rest : Bytes) × (c_string (s ++ more) ≡ c_string s ++ rest)
unfolding c_string
c_string-append [] more = (_, refl)
c_string-append (c ∷ s) more = elim (Bool-cases (c == 0)) [
  | inl nul ↦ ([], rw nul refl)
  | inr e ↦ let (rest, same) = c_string-append s more in (rest, rw e (ap (◌∷◌ c) same))
]

-- A final result code stays one with more behind it.
pub is_final-append : (s more : Bytes) → is_final s ≡ true → is_final (s ++ more) ≡ true
unfolding is_final
is_final-append s more e =
    let (rest, same) = c_string-append s more in
    rw same (
      ground (
        arith,
        contains-append (codes "\nOK") (c_string s) rest,
        contains-append (codes "\rOK") (c_string s) rest,
        contains-append (codes "\nERROR") (c_string s) rest,
        contains-append (codes "\rERROR") (c_string s) rest,
      ))

-- The answer up to its final result code: no shorter beginning has one.
abbrev pub IsHead : Bytes → Type 0
IsHead head =
    (is_final head ≡ true) × ((s rest : Bytes) → s ++ rest ≡ head → is_final s ≡ true → rest ≡ [])

abbrev pub NoError : Waited → Type 0
NoError failed = ⊥
NoError (readable broken) = ⊥
NoError _ = Unit

-- A pass before the time is up, with no shutdown and no error.
abbrev pub IsTimely : ℕ → Pass → Type 0
IsTimely start_time p =
    (p.shutdown ≡ false) × (p.now - start_time < at_timeout_sec) × NoError p.waited

module _ (buflen start_time : ℕ) (head tail : Bytes) where
  -- The read gives the answer up to its final result code, and what came with that.
  abbrev pub IsWhole : Answer → Type 0
  IsWhole a = (s : Bytes) × (a ≡ answered (head ++ s)) × Prefix s tail

  -- A beginning with a final result code goes up to the head's at least.
  beginning-IsWhole :
      (more rest : Bytes)
      → IsHead head
      → is_final more ≡ true
      → more ++ rest ≡ head ++ tail
      → IsWhole (answered more)
  beginning-IsWhole more rest (final, first) f e = elim (beginnings more rest head tail e) [
    | inl (left, same) ↦
        let nothing = first more left same f in
        let all : more ≡ head = sym (append-nil more) ∙ (rw nothing at same) in
        ([], ap answered (all ∙ sym (append-nil head)), (tail, refl))
    | inr (s, same, ends) ↦ (s, ap answered same, (rest, ends))
  ]

  -- Without a final result code the buffer is not yet the whole.
  unfinished :
      (buf rest : Bytes)
      → buf ++ rest ≡ head ++ tail
      → IsHead head
      → is_final buf ≡ false
      → length buf < length (head ++ tail)
  unfinished buf [] e h f =
      let all : buf ≡ head ++ tail = sym (append-nil buf) ∙ e in
      let final = is_final-append head tail h.0 in absurd (cc)
  unfinished buf (c ∷ cs) e h f = omega (arith, length-append buf (c ∷ cs), ap length e)

  -- What a pass of the loop has to give for the rest to hold.
  step-IsWhole :
      (ps : List Pass) (w : Waited) (buf : Bytes)
      → NoError w
      → length (head ++ tail) < buflen
      → buf ++ (arrived w ++ arrivals ps) ≡ head ++ tail
      → IsHead head
      → is_final buf ≡ false
      → ((more : Bytes)
          → is_final more ≡ false
          → more ++ arrivals ps ≡ head ++ tail
          → IsWhole (read_loop buflen start_time ps more))
      → IsWhole (behind (read_loop buflen start_time ps) (on_waited buflen w buf))
  unfolding on_waited on_read
  step-IsWhole ps interrupted buf n fits e h f ih = ih buf f e
  step-IsWhole ps failed buf n fits e h f ih = absurd n
  step-IsWhole ps idle buf n fits e h f ih = ih buf f e
  step-IsWhole ps (readable would_block) buf n fits e h f ih = ih buf f e
  step-IsWhole ps (readable broken) buf n fits e h f ih = absurd n
  step-IsWhole ps (readable (got [])) buf n fits e h f ih = ih buf f e
  step-IsWhole ps (readable (got (c ∷ cs))) buf n fits e h f ih =
      let room : length (c ∷ cs) ≤ buflen - length buf - 1 = omega (
        arith,
        length-append buf ((c ∷ cs) ++ arrivals ps),
        length-append (c ∷ cs) (arrivals ps),
        ap length e,
      ) in
      let whole = take-all (buflen - length buf - 1) (c ∷ cs) room in
      let more = buf ++ (c ∷ cs) in
      let same : more ++ arrivals ps ≡ head ++ tail = append_assoc buf (c ∷ cs) (arrivals ps) ∙ e in
      elim (Bool-cases (is_final more)) [
        | inl final ↦ rw (whole, final) (beginning-IsWhole more (arrivals ps) h final same)
        | inr not_yet ↦ rw (whole, not_yet) (ih more not_yet same)
      ]

  loop-IsWhole :
      (ps : List Pass) (buf : Bytes)
      → All (IsTimely start_time) ps
      → length (head ++ tail) < buflen
      → buf ++ arrivals ps ≡ head ++ tail
      → IsHead head
      → is_final buf ≡ false
      → IsWhole (read_loop buflen start_time ps buf)
  unfolding read_loop pass
  loop-IsWhole [] buf timely fits e h f =
      absurd (omega (arith, unfinished buf [] e h f, ap length (sym (append-nil buf) ∙ e)))
  loop-IsWhole (p ∷ ps) buf ((on, early, n), timely) fits e h f =
      elim (Bool-cases (ltb (length buf) (buflen - 1))) [
        | inl short ↦
            let soon : leb at_timeout_sec (p.now - start_time) ≡ false = ground arith in
            rw (short, on, soon)
              (step-IsWhole ps p.waited buf n fits e h f
                (λ more g same. loop-IsWhole ps more timely fits same h g))
        | inr most ↦ absurd (let less = unfinished buf (arrivals (p ∷ ps)) e h f in ground arith)
      ]

  -- An answer that comes in time and fits the buffer is read up to its final result code, in whatever
  -- pieces it comes; what comes with that is all that may be missing behind it.
  pub read_modem_response-IsWhole :
      (ps : List Pass)
      → validate_serial_params true true buflen ≡ true
      → All (IsTimely start_time) ps
      → length (head ++ tail) < buflen
      → arrivals ps ≡ head ++ tail
      → IsHead head
      → IsWhole (read_modem_response true true buflen start_time ps)
  unfolding read_modem_response
  read_modem_response-IsWhole ps valid timely fits e h =
      rw valid
        (loop-IsWhole ps [] timely fits e h (unfold is_final contains strstr starts_with in refl))
