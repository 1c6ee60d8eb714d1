-- ===== src/Main.antt =====
-- src/main.c: the command line program. What `getopt_long` returns for the arguments is a list, and
-- the clock, UCI, the files and the modem are what each call meets. The texts for the user are
-- constructors of `Output` with the values in them.
pub mod Options
pub mod Report
pub mod Watch
pub mod Status
pub mod Run
pub mod Overridden
pub mod Statuses
pub mod Guards
pub mod Pacing
pub mod Patience
pub mod Relay
pub mod Written
pub mod Sensed
pub mod Watched
pub mod Stdout
pub mod Degrees
pub mod Standing
