-- ===== src/Serial/Tty.antt =====
-- src/serial.c: opening and closing of the port. The attributes of a terminal are the flags that are
-- set, with a number for the flags that are not; what is open is a count of descriptors.
use quectel_rm520n_thermal.Base.{
  ℕ, ◌+◌, ◌-◌, ◌≡◌, ◌⊎◌, inl, inr, refl, Bool, true, false, Option, none, some, arith,
  if◌then◌else◌,
}
use quectel_rm520n_thermal.CString.{Bytes}
use quectel_rm520n_thermal.Config.{Speed}

-- `struct termios`; a speed that the program does not use is `none`.
pub record Termios : Type 0 where
  pub ospeed : Option Speed
  pub ispeed : Option Speed
  pub csize : ℕ  -- bits of a character
  pub parenb : Bool
  pub cstopb : Bool
  pub clocal : Bool
  pub cread : Bool
  pub other_cflag : ℕ
  pub ixon : Bool
  pub ixoff : Bool
  pub ixany : Bool
  pub ignbrk : Bool
  pub icrnl : Bool
  pub igncr : Bool
  pub other_iflag : ℕ
  pub lflag : ℕ
  pub oflag : ℕ
  pub vmin : ℕ
  pub vtime : ℕ

-- What `open`, `tcgetattr` and `tcsetattr` answer.
pub record Device : Type 0 where
  pub opens : Bool
  pub attributes : Option Termios
  pub sets : Bool

unfoldable pub raw : Speed → Termios → Termios
raw baud_rate tty = record tty {
  ospeed = some baud_rate;
  ispeed = some baud_rate;
  csize = 8;
  parenb = false;
  cstopb = false;
  clocal = true;
  cread = true;
  ixon = false;
  ixoff = false;
  ixany = false;
  ignbrk = false;
  icrnl = false;
  igncr = false;
  lflag = 0;
  oflag = 0;
  vmin = 0;
  vtime = 1;
}

-- `some` of the attributes that are set, for a result that is not negative; and the count of open
-- descriptors.
pub record Opened : Type 0 where
  pub port : Option Termios
  pub descriptors : ℕ

unfoldable pub with_attributes : Speed → Option Termios → Bool → ℕ → Opened
unfolding raw
with_attributes baud_rate none sets n = record { port = none; descriptors = n - 1 }
with_attributes baud_rate (some tty) sets n =
    if sets
    then record { port = some (raw baud_rate tty); descriptors = n }
    else record { port = none; descriptors = n - 1 }

unfoldable pub init_serial_port : Option Bytes → Speed → Device → ℕ → Opened
unfolding with_attributes
init_serial_port none baud_rate d n = record { port = none; descriptors = n }
init_serial_port (some port) baud_rate d n =
    if d.opens
    then with_attributes baud_rate d.attributes d.sets (n + 1)
    else record { port = none; descriptors = n }

-- The flags say that `fd` is not negative, and that `close` succeeds; `true` is the result 0. A
-- descriptor is free also behind a `close` that fails.
unfoldable pub close_serial_port : Bool → Bool → ℕ → Bool × ℕ
close_serial_port false closes n = (false, n)
close_serial_port true closes n = (closes, n - 1)

-- Eight bits, no parity, one stop bit, nothing translated, at one speed.
abbrev pub IsRaw : Speed → Termios → Type 0
IsRaw baud_rate t =
    ((t.ospeed ≡ some baud_rate) × (t.ispeed ≡ some baud_rate))
    × ((t.csize ≡ 8) × (t.parenb ≡ false) × (t.cstopb ≡ false))
    × ((t.ixon ≡ false) × (t.ixoff ≡ false) × (t.icrnl ≡ false) × (t.igncr ≡ false))
    × ((t.lflag ≡ 0) × (t.oflag ≡ 0))

-- What opening leaves: a port that is set up and one more descriptor, or no more descriptors.
abbrev pub Settles : Speed → ℕ → Opened → Type 0
Settles baud_rate n x =
    ((t : Termios) × (x.port ≡ some t) × IsRaw baud_rate t × (x.descriptors ≡ n + 1))
    ⊎ ((x.port ≡ none) × (x.descriptors ≡ n))

with_attributes-Settles :
    (baud_rate : Speed) (a : Option Termios) (sets : Bool) (n : ℕ)
    → Settles baud_rate n (with_attributes baud_rate a sets (n + 1))
unfolding with_attributes raw
with_attributes-Settles baud_rate none sets n = inr (refl, omega arith)
with_attributes-Settles baud_rate (some tty) true n =
    inl (raw baud_rate tty, refl, ground arith, refl)
with_attributes-Settles baud_rate (some tty) false n = inr (refl, omega arith)

opened-Settles :
    (baud_rate : Speed) (opens : Bool) (x : Opened) (n : ℕ)
    → Settles baud_rate n x
    → Settles baud_rate n (if opens then x else record { port = none; descriptors = n })
opened-Settles baud_rate true x n h = h
opened-Settles baud_rate false x n h = inr (refl, refl)

-- Opening gives a port that is raw, at the speed asked for, with one descriptor; or it fails and
-- leaves no descriptor open.
pub init_serial_port-Settles :
    (port : Option Bytes) (baud_rate : Speed) (d : Device) (n : ℕ)
    → Settles baud_rate n (init_serial_port port baud_rate d n)
unfolding init_serial_port
init_serial_port-Settles none baud_rate d n = inr (refl, refl)
init_serial_port-Settles (some port) baud_rate d n =
    opened-Settles baud_rate d.opens _ n (with_attributes-Settles baud_rate d.attributes d.sets n)
