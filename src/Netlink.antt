-- ===== src/Netlink.antt =====
-- The netlink programs: netlink/netmon.c, the senders and listeners in user space, and the kernel
-- modules netlink/genl_multicast.c, netlink/netlink_multicast.c and netlink/netlink_unicast.c.
pub mod Macros
pub mod Monitor
pub mod Attributes
pub mod Messages
pub mod Genl
pub mod GenlFamily
pub mod Dump
pub mod GenlLifetime
pub mod Receive
pub mod ReceiveBounds
pub mod Unicast
pub mod Sender
pub mod Listeners
pub mod Hello
pub mod Rounds
pub mod Topics
