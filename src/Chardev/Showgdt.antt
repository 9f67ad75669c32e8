-- ===== src/Chardev/Showgdt.antt =====
-- showgdt/showgdt.c, which dram/showgdt.c is a copy of: the program that shows the processor's
-- descriptor table through the device of dram/dram.c.
use native.Mathlib.Decide.{dec_lt}
use linux_device_drivers.Common.{
  ℕ, zero, suc, ◌+◌, ◌-◌, ◌*◌, ◌/◌, ◌%◌, ◌^◌, ◌≤◌, ◌<◌, ◌≡◌, refl, Bool, true, false, Option, none,
  some, List, [], ◌∷◌, arith, ltb, leb, if◌then◌else◌, ℤ, pos, negsuc,
}
use linux_device_drivers.Chardev.Ioctl.{signed64, seek_target, settle}
use linux_device_drivers.Chardev.Dram.{dev_read, dev_lseek}
use linux_device_drivers.Chardev.Memory.{bytes_at, dev_read_lem}

-- `__START_KERNEL_map`.
abbrev pub start_kernel_map : ℕ
start_kernel_map = 0xffffffff80000000

-- `gdt_phys_address`, an unsigned long.
abbrev pub gdt_phys_address : ℕ → ℕ
gdt_phys_address gdt_virt_address = (gdt_virt_address + 2 ^ 64 - start_kernel_map) % 2 ^ 64

-- The loop: the bytes that each descriptor receives. The results of `read` are ignored; where fewer
-- than eight bytes come, the program shows what the variable held before.
unfoldable pub read_descriptors : (ℤ → ℕ → ℕ) → ℕ → ℕ → ℕ → List (List ℕ)
read_descriptors memory dram_size zero at = []
read_descriptors memory dram_size (suc n_elts) at =
    let (bytes, at', ret) = dev_read memory 4096 dram_size 0 8 at in
    bytes ∷ read_descriptors memory dram_size n_elts at'

-- The position of the file, which is never negative.
abbrev pub position : ℤ → ℕ
position (pos n) = n
position (negsuc n) = 0

-- `main`, by the two fields that `sgdt` stores and whether the device can be opened; `none` is the
-- return of -1. The result of `lseek` is ignored. The copies to the user succeed.
unfoldable pub show_gdt : (ℤ → ℕ → ℕ) → ℕ → Bool → ℕ → ℕ → Option (List (List ℕ))
show_gdt memory dram_size opened limit gdt_virt_address =
    let n_elts = (1 + limit) / 8 in
    let (f_pos, ret) =
      dev_lseek (pos 0) dram_size (signed64 (gdt_phys_address gdt_virt_address)) 0 in
    if opened then some (read_descriptors memory dram_size n_elts (position f_pos)) else none

-- The groups of eight bytes of memory from an address on.
abbrev pub descriptors_at : (ℤ → ℕ → ℕ) → ℕ → ℕ → List (List ℕ)
descriptors_at memory zero addr = []
descriptors_at memory (suc n) addr =
    bytes_at memory 4096 addr 8 ∷ descriptors_at memory n (addr + 8)

-- Reads of eight bytes from an aligned address on, inside the memory.
read_descriptors_lem :
    (memory : ℤ → ℕ → ℕ) (dram_size n at : ℕ)
    → at % 8 ≡ 0
    → at + 8 * n ≤ dram_size
    → dram_size < 2 ^ 43
    → read_descriptors memory dram_size n at ≡ descriptors_at memory n at
unfolding read_descriptors
read_descriptors_lem memory dram_size zero at a fits s = refl
read_descriptors_lem memory dram_size (suc n) at a fits s =
    let read : dev_read memory 4096 dram_size 0 8 at ≡ (bytes_at memory 4096 at 8, at + 8, pos 8) =
      ground (arith, dev_read_lem memory dram_size 8 at (omega arith) (omega arith)) in
    rw (read, read_descriptors_lem memory dram_size n (at + 8) (omega arith) (omega arith) s) refl

-- Where the loop starts: at the physical address, if that is inside the memory.
abbrev pub first_address : ℕ → ℕ → ℕ
first_address dram_size gdt_virt_address =
    if leb (gdt_phys_address gdt_virt_address) dram_size
    then gdt_phys_address gdt_virt_address
    else 0

seek_lem :
    (dram_size a : ℕ)
    → dram_size < 2 ^ 43
    → a < 2 ^ 64
    → position (dev_lseek (pos 0) dram_size (signed64 a) 0).0 ≡ (if leb a dram_size then a else 0)
unfolding dev_lseek seek_target settle
seek_lem dram_size a h w = elim (dec_lt a (2 ^ 63)) [
  | yes p ↦
      let n : ltb a (2 ^ 63) ≡ true = ground arith in
      elim (dec_lt dram_size a) [
        | yes q ↦
            let o : ltb dram_size (a % 2 ^ 64) ≡ true = ground arith in rw (n, o) (ground arith)
        | no q ↦
            let o : ltb dram_size (a % 2 ^ 64) ≡ false = ground arith in rw (n, o) (ground arith)
      ]
  | no p ↦ let n : ltb a (2 ^ 63) ≡ false = ground arith in rw n (ground arith)
]

-- With a device of fewer than 2^43 bytes, the program shows the eight-byte groups of physical memory
-- from the table's address on, as many as the table's limit says; but where the address that it has
-- computed is outside the memory, the groups from address 0 on. The address is aligned and the groups
-- are all inside the memory.
pub show_gdt_lem :
    (memory : ℤ → ℕ → ℕ) (dram_size limit gdt_virt_address : ℕ)
    → dram_size < 2 ^ 43
    → let at = first_address dram_size gdt_virt_address in
      let n_elts = (1 + limit) / 8 in
      at % 8 ≡ 0
      → at + 8 * n_elts ≤ dram_size
      → show_gdt memory dram_size true limit gdt_virt_address
        ≡ some (descriptors_at memory n_elts at)
unfolding show_gdt
show_gdt_lem memory dram_size limit gdt_virt_address s a fits =
    rw
      (
        seek_lem dram_size (gdt_phys_address gdt_virt_address) s (omega arith),
        read_descriptors_lem memory dram_size ((1 + limit) / 8)
            (first_address dram_size gdt_virt_address) a fits s,
      )
      refl
