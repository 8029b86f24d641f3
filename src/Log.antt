-- ===== src/Log.antt =====
-- The redo log of Source Code/log.c over the disk.
pub mod Disk
pub mod Commit
pub mod Ops
pub mod Head
pub mod Loops
pub mod Crash
pub mod Atomic
pub mod Space
pub mod Short
