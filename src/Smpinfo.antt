-- ===== src/Smpinfo.antt =====
-- smpinfo/smpinfo.c: the proc file that prints the tables of the multiprocessor specification.
pub mod Tables
pub mod Scan
pub mod Output
