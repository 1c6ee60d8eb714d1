-- ===== src/Daemon/Port.antt =====
-- src/daemon.c: the daemon's counters, and the opening of the serial port with its back-off.
use quectel_rm520n_thermal.Base.{
  ℕ, ◌+◌, ◌*◌, ◌%◌, ltb, leb, pos, Bool, true, false, if◌then◌else◌, List, [], ◌∷◌, ◌++◌,
}
use quectel_rm520n_thermal.Config.{Config}
use quectel_rm520n_thermal.Daemon.State.{
  max_reconnect_attempts, initial_reconnect_delay, max_reconnect_delay, max_failed_cycles, State,
  Action, opens_port, sleeps, releases_lock,
}

-- How the part of a round that opens the port ends: it goes on, the round is over, or the daemon
-- exits.
pub data Connected : Type 0 where
  connected : State → List Action → Connected
  retries : State → List Action → Connected
  exits : State → List Action → Connected

abbrev pub cap_delay : ℕ → ℕ
cap_delay delay = if ltb max_reconnect_delay delay then max_reconnect_delay else delay

module _ (ulong_mod : ℕ) where
  abbrev pub add_one : ℕ → ℕ
  add_one n = (n + 1) % ulong_mod

  unfoldable pub count_iteration : State → State
  count_iteration s = record s {
    stats = record s.stats { total_iterations = add_one s.stats.total_iterations };
  }

  unfoldable pub count_serial_error : State → State
  count_serial_error s = record s {
    stats = record s.stats { serial_errors = add_one s.stats.serial_errors };
  }

  unfoldable pub count_at_error : State → State
  count_at_error s = record s {
    stats = record s.stats { at_command_errors = add_one s.stats.at_command_errors };
  }

  unfoldable pub count_parse_error : State → State
  count_parse_error s = record s {
    stats = record s.stats { parse_errors = add_one s.stats.parse_errors };
  }

  unfoldable pub count_success : State → State
  count_success s = record s {
    failed_cycles = 0;
    stats = record s.stats { successful_reads = add_one s.stats.successful_reads };
  }

  unfoldable pub open_failed : State → List Action → Connected
  unfolding count_serial_error
  open_failed s done =
      let t = count_serial_error s in
      if ltb t.serial_reconnect_attempts max_reconnect_attempts
      then retries
          (record t {
            serial_reconnect_attempts = t.serial_reconnect_attempts + 1;
            reconnect_delay = cap_delay (t.reconnect_delay * 2);
          })
          (done ++ sleeps (pos t.reconnect_delay) ∷ [])
      else if leb max_failed_cycles (t.failed_cycles + 1)
      then exits (record t { failed_cycles = t.failed_cycles + 1 }) (done ++ releases_lock ∷ [])
      else retries
          (record t {
            failed_cycles = t.failed_cycles + 1;
            serial_reconnect_attempts = 0;
            reconnect_delay = initial_reconnect_delay;
          })
          done

  -- The first flag is `g_serial_fd >= 0`, the second that `init_serial_port` succeeds.
  unfoldable pub connect_from : Bool → Bool → Config → State → List Action → Connected
  unfolding open_failed
  connect_from true opens loop_config s done = connected s done
  connect_from false true loop_config s done =
      connected
        (record s {
          is_open = true;
          serial_reconnect_attempts = 0;
          reconnect_delay = initial_reconnect_delay;
        })
        (done ++ opens_port loop_config.serial_port loop_config.baud_rate true ∷ [])
  connect_from false false loop_config s done =
      open_failed s (done ++ opens_port loop_config.serial_port loop_config.baud_rate false ∷ [])

  unfoldable pub connect : Bool → Config → State → List Action → Connected
  unfolding connect_from
  connect opens loop_config s done = connect_from s.is_open opens loop_config s done
