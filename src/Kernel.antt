-- ===== src/Kernel.antt =====
-- The kernel proper: kernel/.
pub mod Signal
pub mod Time
pub mod Sched
pub mod Locks
pub mod Process
pub mod Exec
