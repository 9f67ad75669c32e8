-- ===== src/Blockdev.antt =====
-- The RAM-backed block device, test_blockdev/test_blockdev.c.
pub mod Device
pub mod Setup
pub mod Loop
pub mod Requests
pub mod Faults
pub mod Disk
pub mod Queue
pub mod Ordering
pub mod Lifetime
