-- ===== src/Daemon/State.antt =====
-- The variables of the loop of src/daemon.c, what one pass of it meets, and what it does to the outside.
use quectel_rm520n_thermal.Base.{ℕ, ℤ, Bool, false, Option, List, []}
use quectel_rm520n_thermal.CString.{Bytes}
use quectel_rm520n_thermal.Config.{Speed, Priority, Config, Uci}
use quectel_rm520n_thermal.Serial.{Exchange}
use quectel_rm520n_thermal.Zone.{Zone, ZoneCache}

-- src/include/common.h
abbrev pub max_reconnect_attempts : ℕ
max_reconnect_attempts = 5

abbrev pub initial_reconnect_delay : ℕ
initial_reconnect_delay = 10

abbrev pub max_reconnect_delay : ℕ
max_reconnect_delay = 60

abbrev pub max_failed_cycles : ℕ
max_failed_cycles = 3

abbrev pub config_check_interval : ℕ
config_check_interval = 60

-- `MAX_RESPONSE`
abbrev pub max_response : ℕ
max_response = 1024

-- `daemon_stats_t`
pub record Stats : Type 0 where
  pub serial_errors : ℕ
  pub at_command_errors : ℕ
  pub parse_errors : ℕ
  pub successful_reads : ℕ
  pub total_iterations : ℕ

-- The variables of the loop, and the globals that it keeps: `is_open` is `g_serial_fd >= 0`.
pub record State : Type 0 where
  pub config : Config
  pub last_config_check : ℕ
  pub is_open : Bool
  pub serial_reconnect_attempts : ℕ
  pub reconnect_delay : ℕ
  pub failed_cycles : ℕ
  pub zone : ZoneCache
  pub stats : Stats

abbrev pub no_stats : Stats
no_stats = record {
  serial_errors = 0;
  at_command_errors = 0;
  parse_errors = 0;
  successful_reads = 0;
  total_iterations = 0;
}

-- Where the loop begins.
abbrev pub start : Config → State
start config = record {
  config = config;
  last_config_check = 0;
  is_open = false;
  serial_reconnect_attempts = 0;
  reconnect_delay = initial_reconnect_delay;
  failed_cycles = 0;
  zone = record { path = []; cached = false };
  stats = no_stats;
}

pub record Round : Type 0 where
  pub now : ℕ
  pub uci : Uci
  pub opens : Bool  -- `init_serial_port` succeeds
  pub exchange : Exchange
  pub opens_file : Bytes → Bool  -- `fopen(path, "w")` succeeds
  pub accessible : Bytes → Bool  -- `access(path, W_OK) == 0`
  pub zones : Option (List Zone)

pub data Action : Type 0 where
  sets_threshold : Priority → Action  -- `ulog_threshold`
  closes : Action
  updates_modules : Action  -- `uci_config_mode`
  opens_port : Bytes → Speed → Bool → Action  -- `init_serial_port`, and whether it succeeds
  sleeps : ℤ → Action
  writes : Bytes → ℤ → Action  -- a temperature, to the file of that path
  releases_lock : Action
