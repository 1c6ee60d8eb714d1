-- ===== src/Tests.antt =====
-- The theorems at concrete inputs.
mod Platform
mod Sysfs
mod Hwmon
mod Sensor
mod Temperature
mod Config
mod Serial
mod System
mod Daemon
mod UciConfig
mod Lock
mod Cli
mod Main
mod Sensed
mod Stdout
