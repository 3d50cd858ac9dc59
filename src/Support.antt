-- ===== src/Support.antt =====
-- support/: the processes above the nucleus, which use it through system calls.
pub mod State
pub mod Prog
pub mod Page
pub mod PageInit
pub mod PageDaemon
pub mod Calls1
pub mod Calls2
pub mod DiskDaemon
pub mod Guard
pub mod P1
pub mod Handlers
pub mod Cron
