-- ===== src/Linux.antt =====
-- src/linux.rs: the system call layer, by part.
pub mod Consts
pub mod Calls
pub mod Console
pub mod Decimal
pub mod Spawn
