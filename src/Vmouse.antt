-- ===== src/Vmouse.antt =====
-- The virtual mouse driver, vmouse_driver/vmouse.c.
pub mod Driver
pub mod Setup
pub mod Gear
pub mod Speed
pub mod Filter
pub mod Burst
pub mod Lifetime
