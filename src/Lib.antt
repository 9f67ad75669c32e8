-- ===== src/Lib.antt =====
-- Models of the drivers and netlink programs of this repository, and what makes them correct.
--
-- The repository is a collection of Linux kernel modules, each in its own directory and independent
-- of the others, with a few user programs. The kernel is not part of it: whatever a kernel function
-- answers is a parameter, and where a property needs what such a function is documented to do, that
-- is a field of a record (`Rbtree.Tree.RbKernel`, `Netlink.Macros.Macros`, `Chardev.Message.Printer`,
-- `Xarray.Demo.XaKernel`, `Pseudofiles.Sysfs.Formats`, `Pseudofiles.Debugfs.Reader`,
-- `Pseudofiles.Ioapic.Apic`, `Workers.Kworker.WorkQueue`, `Route.Request.IsSystem`) or a hypothesis.
--
-- Initialisation, exit and probing are functions from the kernel's answers to the list of calls that
-- the code makes and the value that it returns. `Common.Trace` reads off such a list what is held at
-- its end; `none` means that something was given back that was not held. In all files a result
-- `none` stands for a fault that the comment of the definition names, such as a copy out of bounds,
-- or for fuel that ran out.
--
-- Which file models which part:
--   Common, with Tests, Int, Lists and Trace: Boolean tests, C's signed integers and error numbers,
--     lists measured by native numbers with slices and overwriting, and the accounting of calls.
--   Vmouse (vmouse_driver/vmouse.c): Driver has the state (`struct vmouse`, with the statics of
--     `gearbox` and the pending mark of the work), `gearbox`, `vms_func`, `vkbd_filter` and the wheel
--     attribute, and steps and runs of the driver; Setup has `vkbd_connect`, `vmouse_init` and their
--     counterparts; Gear, Speed, Filter, Burst and Lifetime have the theorems.
--   Blockdev (test_blockdev/test_blockdev.c): Device has `do_request`, `queue_rq` and the ioctl;
--     Setup has initialisation and exit; Loop, Requests, Faults and Lifetime have the theorems. Disk
--     has the device as its users see it, Queue what the callback does with many requests, and
--     Ordering requests whose order does not matter.
--   Rbtree (rbtree/rbtree.c): Tree has `insert`, `search`, `dump_tree` and `insert_arr`, Demo
--     the tree that `mod_init` builds and its searches, Destroy `destroy_tree`, and Whole the whole of
--     `mod_init`; Order, Insert, Search, Demo, Whole and DestroyCount have the theorems; Table and
--     Lookup have the tree as a table.
--   Chardev (mychar/mychar.c, ioctl/ioctl.c and dram/dram.c): Message has the code that the three
--     drivers hold copies of, Mychar, Ioctl and Dram have each driver, Calls has the calls of their
--     setup; Exchange, Seek, Memory and Lifetime have the theorems. Sessions has ioctl/ioctl.c as a
--     whole, with the sessions of calls on it, Parts its answers, against three objects, with the
--     theorem in PartsRefinement, Mailbox mychar/mychar.c as a whole, against a box with
--     one message, and DramFile dram/dram.c as a whole, against what a file promises, with the
--     theorems in DramSeek and DramRefinement. Showgdt is showgdt/showgdt.c over the model of
--     dram/dram.c, Clients is mychar/testmychar.c and ioctl/testmyioctl.c over theirs, and DramClients
--     is dram/testmychar.c.
--   Mychardev (mychardev/mychardev.c): Device and, with the theorems, Transfers.
--   Pci (test_pci_module/test_pci_module.c): Driver and, with the theorems, Lifetime; Anchor is
--     anchor/anchor.c.
--   Netlink: Monitor is netlink/netmon.c, with the theorems in Attributes and Messages, and Rounds its
--     `main`, with what is to be printed in Topics; Genl and GenlFamily are netlink/genl_multicast.c, with GenlLifetime; Receive and Dump
--     are netlink/netlink_multicast.c, with ReceiveBounds; Unicast is netlink/netlink_unicast.c; Sender is
--     netlink/netlink_multicast_sender.c, and Listeners the programs netlink/genl_multicast_um.c,
--     netlink/netlink_multicast_recv.c and netlink/um_unicast.c; Hello is netlink/um_test.c with
--     netlink/netlink_test.c; Macros has the macros of the system's headers as an
--     interface with their laws.
--   Route (netlink/set_route.c): Message has the request, `rtattr_add`, `do_route` and `read_addr`,
--     Arguments has `main`; Attributes, Request, Faults and CommandLine have the theorems. RoundTrip and
--     Parsed read the request back with the parser of netlink/netmon.c (`Netlink.Monitor`); Grammar
--     says what command lines mean.
--   Xarray (xarray/xarray.c): Demo, and the theorems in Steps, Lookups and Contents.
--   Pseudofiles: Vma (vma/vma.c), Sysfs (my_sysfs/my_sysfs.c), Debugfs (debugfs_file/debugfs_file.c),
--     Ioapic (ioapic/ioapic.c), Pgdir (pgdir/pgdir.c) and KernelLists (taskls/taskls.c,
--     netdevs/netdevs.c and listusb/listusb.c), each with its theorems; MemoryMap (mm-struct/mm.c)
--     and Registers (xem_gdt/xem_gdt.c and cr3-4/cr_3_4.c); ProcFile has how the modules with a file
--     in /proc set it up, open it and take it down.
--   Smpinfo (smpinfo/smpinfo.c): Tables and, with the theorems, Scan; Output has all that is printed.
--   Ftrace (ftrace/ftrace-direct.c): Thread and, with the theorems, Toggle.
--   Workers: Kworker (kworker/kworker_demo.c) and Helper (Usermode-Helper-API/umh_test.c).
--   Tests: the theorems on concrete inputs.
--
-- Bounds and fuel. Unsigned 32- and 64-bit arithmetic is written out with `% 2 ^ w` where it can
-- wrap. The loops over netlink attributes and messages and over table entries run on fuel, one more
-- than the bytes left, and `destroy_tree` on one more than the nodes. A round uses up bytes, or takes
-- out a node, so that this is enough; the exception is a message of invalid length in
-- netlink/netmon.c, at which the source's own loop stands still. The search for the multiprocessor
-- table has 4096 rounds, the number of its addresses. The loop of ioapic/ioapic.c has one round more
-- than there are entries, the loop over the items in xarray/xarray.c has five rounds. All other loops
-- are structural.
--
-- Not modelled: most log output, and locks (each callback is one step); and mt_tree, which is a copy
-- of the kernel's own test.
pub mod Common
pub mod Vmouse
pub mod Workers
pub mod Xarray
pub mod Blockdev
pub mod Pseudofiles
pub mod Rbtree
pub mod Chardev
pub mod Mychardev
pub mod Pci
pub mod Netlink
pub mod Route
pub mod Smpinfo
pub mod Ftrace
pub mod Tests
