-- ===== src/Tests.antt =====
-- The theorems at concrete inputs.
mod Machine
mod Procs
mod Logs
mod Pipes
mod Texts
mod Files
mod Kallocs
mod Spinlocks
mod Disks
mod Shells
mod Buffers
