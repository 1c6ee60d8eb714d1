-- ===== src/Logging.antt =====
-- src/include/logging.h: the log of the program, over the calls of libubox that it makes.
use quectel_rm520n_thermal.Base.{Bool, if◌then◌else◌}
use quectel_rm520n_thermal.Config.{Priority, log_info, log_debug}

-- What `ulog_open` and `ulog_threshold` have been told last: the channels, and the threshold.
pub record Log : Type 0 where
  pub to_syslog : Bool
  pub to_stdio : Bool
  pub threshold : Priority

abbrev pub ulog_open : Bool → Bool → Log → Log
ulog_open to_syslog to_stdio l = record l { to_syslog = to_syslog; to_stdio = to_stdio }

abbrev pub ulog_threshold : Priority → Log → Log
ulog_threshold p l = record l { threshold = p }

unfoldable pub logging_init : Bool → Bool → Bool → Log → Log
logging_init use_syslog use_stderr debug l =
    ulog_threshold (if debug then log_debug else log_info) (ulog_open use_syslog use_stderr l)
