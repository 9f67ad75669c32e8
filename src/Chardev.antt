-- ===== src/Chardev.antt =====
-- The character drivers: mychar/mychar.c, ioctl/ioctl.c and dram/dram.c, which share their message
-- device and much of their initialisation.
pub mod Calls
pub mod Message
pub mod Mychar
pub mod Ioctl
pub mod Dram
pub mod Exchange
pub mod Seek
pub mod Memory
pub mod Lifetime
pub mod Showgdt
pub mod Clients
pub mod DramClients
pub mod Sessions
pub mod Parts
pub mod PartsRefinement
pub mod Mailbox
pub mod DramFile
pub mod DramSeek
pub mod DramRefinement
