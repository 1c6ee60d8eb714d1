-- ===== src/UciConfig.antt =====
-- src/uci_config.c: the thresholds of the settings, written to the files of the sysfs and the hwmon
-- module. The numbers that are only logged are left out. A text goes to a file when the file is
-- closed, and whether the kernel took it is not looked at.
pub mod Values
pub mod Passes
pub mod Writes
pub mod TwoPasses
pub mod Transfer
pub mod Safety
