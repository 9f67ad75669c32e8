-- ===== src/Tests/Files.antt =====
-- The theorems on the files in /proc, sysfs and debugfs, and on the programs that use the drivers, on
-- concrete inputs.
use linux_device_drivers.Common.{
  ℕ, zero, suc, ◌+◌, ◌/◌, slice, replicate, ◌*◌, ◌%◌, ◌^◌, ◌≡◌, refl, true, false, Option, none,
  some, List, [], ◌∷◌, ◌++◌, arith, ap, get_elem?, ◌==◌, if◌then◌else◌, ℤ, pos, negsuc, held_after,
}
use linux_device_drivers.Pseudofiles.Vma.{Vma, line_of, vma_proc_show, vma_proc_show_lem}
use linux_device_drivers.Pseudofiles.Sysfs
use linux_device_drivers.Pseudofiles.Sysfs.{
  Formats, Timespec, State, writable_1, vfile_1_attr, vfile_2_attr, vfile_3_attr, time_attr,
  diff_attr, store-show,
}
use linux_device_drivers.Pseudofiles.Ioapic
use linux_device_drivers.Pseudofiles.Ioapic.{Apic, Call, table_from, accounting, my_proc_show_lem}
use linux_device_drivers.Pseudofiles.Registers.{bytes_of, mm_proc_show, mm_proc_show_gdt}
use linux_device_drivers.Chardev.Showgdt.{
  start_kernel_map, gdt_phys_address, show_gdt, descriptors_at, show_gdt_lem,
}

-- An area of a file and one without.
abbrev mapped_file : Vma
mapped_file = record {
  vm_start = 0x1000;
  vm_end = 0x2000;
  vm_read = true;
  vm_write = false;
  vm_exec = true;
  vm_shared = false;
  vm_pgoff = 3;
  vm_file = some (record { s_dev = 8; i_ino = 42; path = 97 ∷ [] });
  vm_ops_name = none;
}

abbrev heap : Vma
heap = record mapped_file { vm_start = 0x2000; vm_end = 0x4000; vm_file = none }

vma_proc_show_lem_example :
    get_elem? (vma_proc_show (mapped_file ∷ heap ∷ [])) 1
    ≡ some (line_of 2 heap (record { dev = 8; ino = 42; pgoff = 3 * 2 ^ 12; name = none }))
vma_proc_show_lem_example = vma_proc_show_lem (mapped_file ∷ []) [] heap

-- Numbers as lists of ones, with a sign in front; 10 ends them.
abbrev ones : ℕ → List ℕ
ones zero = []
ones (suc n) = 49 ∷ ones n

abbrev unary : ℤ → List ℕ
unary (pos n) = 43 ∷ ones n
unary (negsuc n) = 45 ∷ ones n

abbrev count_ones : List ℕ → ℕ
count_ones [] = 0
count_ones (a ∷ rest) = if a == 49 then suc (count_ones rest) else 0

abbrev scan_unary : List ℕ → Option ℤ
scan_unary [] = none
scan_unary (a ∷ rest) =
    if a == 43
    then some (pos (count_ones rest))
    else (if a == 45 then some (negsuc (count_ones rest)) else none)

count_ones-ones : (n : ℕ) → count_ones (ones n ++ 10 ∷ []) ≡ n
count_ones-ones zero = refl
count_ones-ones (suc n) = ap suc (count_ones-ones n)

scan_unary-unary : (z : ℤ) → scan_unary (unary z ++ 10 ∷ []) ≡ some z
scan_unary-unary (pos n) = ap (λ k. some (pos k)) (count_ones-ones n)
scan_unary-unary (negsuc n) = ap (λ k. some (negsuc k)) (count_ones-ones n)

abbrev unary_formats : Formats
unary_formats = record {
  print_d = unary;
  print_llu = ones;
  print_2 = ones;
  print_9 = ones;
  scan_d = scan_unary;
  scan_d-print_d = λ z h. scan_unary-unary z;
}

abbrev zero_time : Timespec
zero_time = record { tv_sec = 0; tv_nsec = 0 }

abbrev statics : ℤ → State
statics vfile_1 = record {
  vfile_1 = vfile_1;
  vfile_2 = true;
  vfile_3 = pos 3;
  ts_last = zero_time;
  ts_diff = zero_time;
}

store-show_example :
    let (t, ret) =
      Sysfs.store unary_formats writable_1
        (Sysfs.show unary_formats vfile_1_attr (statics (pos 4)))
        6
        (statics (pos 1)) in
    (Sysfs.show unary_formats vfile_1_attr t
      ≡ Sysfs.show unary_formats vfile_1_attr (statics (pos 4)))
    × (Sysfs.show unary_formats vfile_3_attr t
        ≡ Sysfs.show unary_formats vfile_3_attr (statics (pos 1)))
    × (Sysfs.show unary_formats vfile_2_attr t
        ≡ Sysfs.show unary_formats vfile_2_attr (statics (pos 1)))
    × (Sysfs.show unary_formats time_attr t ≡ Sysfs.show unary_formats time_attr (statics (pos 1)))
    × (Sysfs.show unary_formats diff_attr t ≡ Sysfs.show unary_formats diff_attr (statics (pos 1)))
    × (ret ≡ 6)
    × (Sysfs.store unary_formats writable_1 (120 ∷ []) 6 (statics (pos 1)) ≡ (statics (pos 1), 6))
store-show_example =
    store-show unary_formats writable_1 (statics (pos 4)) (statics (pos 1)) (120 ∷ []) 6
      (omega arith) (omega arith) refl

-- A device is what its registers hold and the number of the selected one; register 1 counts 24 entries.
abbrev plain_apic : Apic
plain_apic = record {
  Device = (ℕ → ℕ) × ℕ;
  registers = λ d. d.0;
  iowrite32 = λ v d. (d.0, v);
  ioread32 = λ d. d.0 d.1;
  registers-iowrite32 = λ v d. refl;
  ioread32-iowrite32 = λ v d h. refl;
}

abbrev some_registers : ℕ → ℕ
some_registers n = if n == 1 then 0x170020 else n

my_proc_show_lem_example :
    (calls : List Call) × (Ioapic.my_proc_show plain_apic (some_registers, 9)
      ≡ some (0, 0x170020, table_from some_registers 0 24, calls))
    × (held_after accounting calls [] ≡ some [])
my_proc_show_lem_example = my_proc_show_lem plain_apic (some_registers, 9) (omega arith)

abbrev counting : ℤ → ℕ → ℕ
counting page indent = indent % 256

-- A table of two descriptors at the physical address 64.
show_gdt_lem_example :
    show_gdt counting 4096 true 15 0xffffffff80000040 ≡ some (descriptors_at counting 2 64)
show_gdt_lem_example =
    show_gdt_lem counting 4096 15 0xffffffff80000040 (omega arith) refl (omega arith)

mm_proc_show_gdt_example :
    let (after, shown) = mm_proc_show 127 0xfffffe0000001000 (replicate 16 0) in
    (shown.virt ≡ 0xfffffe0000001000)
    × (shown.phys ≡ gdt_phys_address 0xfffffe0000001000)
    × ((shown.phys + start_kernel_map) % 2 ^ 64 ≡ 0xfffffe0000001000)
    × (shown.gdtr_word ≡ 127 + 2 ^ 16 * (0xfffffe0000001000 % 2 ^ 48))
    × (slice 6 4 after ≡ bytes_of 4 (0xfffffe0000001000 / 2 ^ 32))
mm_proc_show_gdt_example =
    mm_proc_show_gdt 127 0xfffffe0000001000 (replicate 16 0) (omega arith) (omega arith)
      (omega arith)
