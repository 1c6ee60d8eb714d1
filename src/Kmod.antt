-- ===== src/Kmod.antt =====
-- What the three kernel modules of src/kmod share: the thresholds of src/include/common.h, the
-- result of a sysfs callback, and the kernel functions that they call.
pub mod Defs
pub mod Printed
pub mod Sysfs
pub mod Hwmon
pub mod Sensor
