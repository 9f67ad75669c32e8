-- ===== src/Pci.antt =====
-- The PCI drivers test_pci_module/test_pci_module.c and anchor/anchor.c.
pub mod Driver
pub mod Lifetime
pub mod Anchor
