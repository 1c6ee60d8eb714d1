-- ===== src/Lib.antt =====
-- The thermal tools for the Quectel RM520N modem: a program that asks the modem for its temperatures,
-- once or as a daemon, and three kernel modules that show them to the system.
--
-- Parts and files. A path is one from the repository's root.
--   Base, CString: helpers. CString has the functions of the C library that the program calls on
--     text, over the bytes of a string without its NUL.
--   Temperature (src/temperature.c): the parser of the modem's answer to AT+QTEMP.
--     extract_single_temperature, extract_temp_values and select_best_temperature have the names of
--     the C functions; an out parameter that is written is a `some`.
--   Config (src/config.c): the settings, read from UCI.
--   Serial (src/serial.c): the AT channel. The loop of read_modem_response runs over a list of
--     passes, each with what the clock, select and read answer then. Serial.Tty has the opening and
--     the closing of the port.
--   System (src/system.c): the search for the hwmon device, with its cache.
--   Lock (src/system.c): the PID file and the lock of the daemon. acquire_daemon_lock and its
--     likes are functions of the files; Lock.Overlap has their single calls as the steps of
--     processes that overlap.
--   Ui (src/ui.c), Main.Stdout (src/main.c): what the program writes to its standard output.
--     Main.Stdout.Json has a reader for JSON objects of strings, which is not part of the program.
--   Logging (src/include/logging.h): the channels and the threshold of the log.
--   Zone (src/daemon.c, find_modem_thermal_zone): the search for the modem's thermal zone.
--   Daemon (src/daemon.c, daemon_mode): the daemon. Daemon.Loop.turn is one pass of its loop, and
--     Daemon.Loop.run the loop over a list of rounds, at whose end the shutdown flag is set.
--     Daemon.Start.start_daemon is its whole life, with the lock and the cleanup at exit.
--   Cli (src/cli.c): cli_mode, which reads one temperature.
--   Main (src/main.c): main, with the options, the single read, the watch loop over a list of passes
--     at whose end the shutdown flag is set, and the status command. Main.Relay joins the parts: it
--     lets a round of the daemon write to the sysfs module, and the tool read from it; Main.Sensed
--     begins with the pieces that the modem sends.
--   Kmod.Sysfs (src/kmod/main.c), Kmod.Hwmon (src/kmod/hwmon.c), Kmod.Sensor (src/kmod/sensor.c):
--     the kernel modules. A callback is a function of the module's variables, with what it returns.
--   UciConfig (src/uci_config.c): uci_config_mode, which brings the thresholds of the settings into
--     the kernel modules.
--   Tests: the theorems at concrete inputs.
--
-- How they interact. The daemon takes the Lock, reads Config, asks the modem over Serial, gives the
-- answer to Temperature, and writes the selected temperature to the files of the kernel modules,
-- whose paths it has from System and Zone. Cli reads these files while Lock finds a daemon, and else
-- asks the modem as the daemon does. Main starts one of them, or UciConfig, which writes thresholds
-- to the same modules, by their callbacks. The probe of Kmod.Hwmon reads the files of Kmod.Sysfs.
--
-- Numbers. A C int is an integer; the places where the program compares or converts keep its
-- bounds. The width of long is a parameter by its largest value, that of unsigned long by its
-- modulus, and the counters wrap by it. There is no fuel: the loops run over the text, the
-- directory, the passes or the rounds, and what they have not yet ended with is a value of its own
-- (pending, waits, waiting).
--
-- Parameters. kstrtoint, scnprintf, the page size and HZ are fields of Kmod.Defs.Kernel; what is
-- documented of them is ParsesInts, ReadsBack, PrintsShort, PrintsInts and ReadsPrinted, and of
-- fscanf ScansShown, which the tests show for a kernel that is written out. libuci is what it
-- answers to each lookup, getopt_long the list of what it returns, and kill a test of a PID. Files
-- and directories are what can be opened in them. What the build puts into the version text is
-- Ui.Package, and what strftime makes of the time, and printf of tenths, is in
-- Main.Stdout.Printing. The locks of the kernel modules are the atomicity of a step: in Kmod.Sysfs
-- a callback is one step, in Kmod.Hwmon a test and a commit, as the code takes the lock between
-- them.
--
-- Not modelled. The complaints on the standard error, which are constructors where main prints
-- them; the lines of the log, but for what the daemon says of its scans at the start
-- (Daemon.Survey); the signal handler, which sets the flag that ends the loops; scripts and build
-- files.
pub mod Base
pub mod CString
pub mod Temperature
pub mod Config
pub mod Kmod
pub mod UciConfig
pub mod Lock
pub mod Logging
pub mod Ui
pub mod Serial
pub mod System
pub mod Zone
pub mod Daemon
pub mod Cli
pub mod Main
mod Tests
