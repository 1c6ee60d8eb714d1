-- ===== src/Daemon.antt =====
-- src/daemon.c: the daemon. A round is what one pass of its loop meets: the clock, the answers of the
-- settings, of the port and of the modem, and the files that can be written. What the daemon does to
-- the outside is a list of actions. Survey has what its scans at the start say in the log; the rest
-- of the log is left out.
pub mod State
pub mod Reload
pub mod Port
pub mod Publish
pub mod Loop
pub mod Counters
pub mod Patience
pub mod Effects
pub mod Ports
pub mod Tidy
pub mod Exit
pub mod Delivery
pub mod Start
pub mod Statuses
pub mod Survey
pub mod Hearing
pub mod Threshold
pub mod Level
