-- ===== src/Workers.antt =====
-- The modules that have work done elsewhere: kworker/kworker_demo.c by a kernel thread, and
-- Usermode-Helper-API/umh_test.c by a program.
pub mod Kworker
pub mod Helper
