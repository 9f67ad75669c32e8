-- ===== src/Pseudofiles.antt =====
-- The modules that answer reads and writes of files in /proc, sysfs and debugfs: vma/vma.c,
-- my_sysfs/my_sysfs.c, debugfs_file/debugfs_file.c, ioapic/ioapic.c and
-- pgdir/pgdir.c, taskls/taskls.c and netdevs/netdevs.c, and the module listusb/listusb.c.
pub mod Vma
pub mod Sysfs
pub mod Debugfs
pub mod Ioapic
pub mod Pgdir
pub mod ProcFile
pub mod MemoryMap
pub mod Registers
pub mod KernelLists
