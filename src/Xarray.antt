-- ===== src/Xarray.antt =====
-- xarray/xarray.c: the demonstration of the kernel's xarray.
pub mod Demo
pub mod Steps
pub mod Lookups
pub mod Contents
