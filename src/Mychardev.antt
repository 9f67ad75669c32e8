-- ===== src/Mychardev.antt =====
-- The character driver with two minors, mychardev/mychardev.c.
pub mod Device
pub mod Transfers
