-- ===== src/Proc.antt =====
-- The process table of Source Code/proc.c.
pub mod State
pub mod Alloc
pub mod Sleep
pub mod Life
pub mod Sched
pub mod Valid
pub mod Wakeup
pub mod Kill
pub mod Search
pub mod Pids
pub mod Run
pub mod Orphans
pub mod Exit
pub mod Reap
pub mod Pass
