-- ===== src/Serial.antt =====
-- src/serial.c: the AT channel to the modem. What the kernel answers while the program waits is an
-- argument, one element for each pass of the loop.
pub mod Reading
pub mod Deadline
pub mod Arrival
pub mod Tty
use quectel_rm520n_thermal.Base.{
  ℕ, ◌+◌, ◌-◌, ltb, leb, Bool, true, false, not, ◌&&◌, ◌||◌, ◌==◌, if◌then◌else◌, Option, none,
  some, List, [], ◌∷◌, ◌++◌, length, take,
}
use quectel_rm520n_thermal.CString.{Bytes, codes, contains}

-- `AT_TIMEOUT_SEC`
abbrev pub at_timeout_sec : ℕ
at_timeout_sec = 5

abbrev pub min_buffer_size : ℕ
min_buffer_size = 64

abbrev pub max_buffer_size : ℕ
max_buffer_size = 4096

-- The flags say that `fd` is not negative and that `buf` is not NULL.
unfoldable pub validate_serial_params : Bool → Bool → ℕ → Bool
validate_serial_params false has_buf buflen = false
validate_serial_params true false buflen = false
validate_serial_params true true buflen =
    if ltb buflen min_buffer_size || ltb max_buffer_size buflen then false else true

-- What `read` answers: bytes that are there (none for the result 0), EAGAIN, or another error.
pub data Read : Type 0 where
  got : Bytes → Read
  would_block broken : Read

-- What `select` answers: EINTR, another error, its own timeout, or that there is something to read.
pub data Waited : Type 0 where
  interrupted failed idle : Waited
  readable : Read → Waited

-- What one pass of the loop meets: `shutdown_requested`, the clock, and the answers.
pub record Pass : Type 0 where
  pub shutdown : Bool
  pub now : ℕ
  pub waited : Waited

-- How the read ends: still in the loop, with the result -1, or with what stands in the buffer, whose
-- length is the result.
pub data Answer : Type 0 where
  pending minus_one : Answer
  answered : Bytes → Answer

-- A buffer as a C string.
unfoldable pub c_string : Bytes → Bytes
c_string [] = []
c_string (c ∷ s) = let rest = c_string s in if c == 0 then [] else c ∷ rest

unfoldable pub is_final : Bytes → Bool
unfolding c_string contains
is_final buf =
    let text = c_string buf in
    contains (codes "\nOK") text
    || contains (codes "\rOK") text
    || contains (codes "\nERROR") text
    || contains (codes "\rERROR") text

-- What a pass makes of the buffer: it stays, it grows, or the call fails.
pub data Passed : Type 0 where
  again : Bytes → Passed
  done : Bytes → Passed
  error : Passed

unfoldable pub on_read : ℕ → Read → Bytes → Passed
unfolding is_final
on_read buflen would_block buf = again buf
on_read buflen broken buf = error
on_read buflen (got []) buf = again buf
on_read buflen (got (c ∷ cs)) buf =
    let more = buf ++ take (buflen - length buf - 1) (c ∷ cs) in
    if is_final more then done more else again more

unfoldable pub on_waited : ℕ → Waited → Bytes → Passed
unfolding on_read
on_waited buflen interrupted buf = again buf
on_waited buflen failed buf = error
on_waited buflen idle buf = again buf
on_waited buflen (readable r) buf = on_read buflen r buf

-- One pass. A shutdown is the result -1, a timeout ends the loop.
unfoldable pub pass : ℕ → ℕ → Pass → Bytes → Passed
unfolding on_waited
pass buflen start_time p buf =
    if p.shutdown
    then error
    else if leb at_timeout_sec (p.now - start_time)
    then done buf
    else on_waited buflen p.waited buf

-- What the loop does behind a pass.
abbrev pub behind : (Bytes → Answer) → Passed → Answer
behind loop (again more) = loop more
behind loop (done more) = answered more
behind loop error = minus_one

unfoldable pub read_loop : ℕ → ℕ → List Pass → Bytes → Answer
unfolding pass
read_loop buflen start_time [] buf = if ltb (length buf) (buflen - 1) then pending else answered buf
read_loop buflen start_time (p ∷ ps) buf =
    if ltb (length buf) (buflen - 1)
    then behind (read_loop buflen start_time ps) (pass buflen start_time p buf)
    else answered buf

unfoldable pub read_modem_response : Bool → Bool → ℕ → ℕ → List Pass → Answer
unfolding validate_serial_params read_loop
read_modem_response has_fd has_buf buflen start_time ps =
    if validate_serial_params has_fd has_buf buflen
    then read_loop buflen start_time ps []
    else minus_one

-- What meets a command: whether the two writes succeed, the clock at the start of the read, and the
-- passes of its loop. A failed flush is only warned of.
pub record Exchange : Type 0 where
  pub command_written : Bool
  pub end_written : Bool
  pub start_time : ℕ
  pub passes : List Pass

unfoldable pub send_at_command : Bool → Option Bytes → Bool → ℕ → Exchange → Answer
unfolding read_modem_response validate_serial_params
send_at_command has_fd none has_buf response_len x = minus_one
send_at_command has_fd (some command) has_buf response_len x =
    if not has_fd || not (validate_serial_params has_fd has_buf response_len)
    then minus_one
    else if not x.command_written
    then minus_one
    else if not x.end_written
    then minus_one
    else read_modem_response has_fd has_buf response_len x.start_time x.passes
