-- ===== src/Pseudofiles/Registers.antt =====
-- cr3-4/cr_3_4.c and xem_gdt/xem_gdt.c, which show registers of the processor.
use linux_device_drivers.Common.{
  ℕ, zero, suc, ◌+◌, ◌*◌, ◌/◌, ◌%◌, ◌^◌, ◌≤◌, ◌<◌, ◌≡◌, refl, ap, ◌∙◌, List, [], ◌∷◌, ◌++◌, arith,
  length, drop, slice, overwrite,
}
use linux_device_drivers.Chardev.Showgdt.{start_kernel_map, gdt_phys_address}

-- What `my_proc_show` of cr_3_4.c shows.
pub record ControlRegisters : Type 0 where
  pub cr3 : ℕ
  pub cr4 : ℕ
  pub pae : ℕ
  pub pse : ℕ

-- `my_proc_show`, by the two registers.
unfoldable pub my_proc_show : ℕ → ℕ → ControlRegisters
my_proc_show cr3 cr4 = record { cr3 = cr3; cr4 = cr4; pae = cr4 / 2 ^ 5 % 2; pse = cr4 / 2 ^ 4 % 2 }

-- A register CR4 that is put together from four low bits, the bit PSE, the bit PAE and the bits above
-- is shown with these two bits.
pub my_proc_show_lem :
    (cr3 low pse pae high : ℕ)
    → low < 16
    → pse < 2
    → pae < 2
    → let shown = my_proc_show cr3 (low + 16 * pse + 32 * pae + 64 * high) in
      (shown.cr3 ≡ cr3) × (shown.pae ≡ pae) × (shown.pse ≡ pse)
unfolding my_proc_show
my_proc_show_lem cr3 low pse pae high h k l = (refl, omega arith, omega arith)

-- The little-endian bytes of a number, and the number of such bytes.
abbrev pub bytes_of : ℕ → ℕ → List ℕ
bytes_of zero x = []
bytes_of (suc n) x = x % 256 ∷ bytes_of n (x / 256)

abbrev pub word_of : List ℕ → ℕ
word_of [] = 0
word_of (b ∷ bs) = b + 256 * word_of bs

-- What `sgdt` stores in 64-bit mode from `gdtr` on: two bytes of the limit and eight of the address.
unfoldable pub sgdt : ℕ → ℕ → List ℕ → List ℕ
sgdt limit base statics = overwrite 0 (bytes_of 2 limit ++ bytes_of 8 base) statics

-- What `mm_proc_show` of xem_gdt.c shows, but for the constants.
pub record GdtRegister : Type 0 where
  pub gdtr_word : ℕ
  pub virt : ℕ
  pub phys : ℕ

-- `mm_proc_show`, by the bytes of memory from `gdtr`, an array of six, on: it reads eight bytes at
-- `gdtr`, and eight from `gdtr + 1`. The bytes as `sgdt` leaves them, and what is shown; the variables
-- that are set behind it are taken to stand elsewhere.
unfoldable pub mm_proc_show : ℕ → ℕ → List ℕ → List ℕ × GdtRegister
mm_proc_show limit base statics =
    let stored = sgdt limit base statics in
    let gdt_virt_address = word_of (slice 2 8 stored) in
    (
      stored,
      record {
        gdtr_word = word_of (slice 0 8 stored);
        virt = gdt_virt_address;
        phys = gdt_phys_address gdt_virt_address;
      },
    )

overwrite_start :
    (ys xs : List ℕ) → length ys ≤ length xs → overwrite 0 ys xs ≡ ys ++ drop (length ys) xs
overwrite_start [] [] h = refl
overwrite_start [] (x ∷ xs) h = refl
overwrite_start (y ∷ ys) [] h = absurd (omega arith)
overwrite_start (y ∷ ys) (x ∷ xs) h = ap (λ l. y ∷ l) (overwrite_start ys xs (omega arith))

word_of_8 : (x : ℕ) → x < 2 ^ 64 → word_of (bytes_of 8 x) ≡ x
word_of_8 x h = omega arith

word_of_6 :
    (limit x : ℕ)
    → limit < 2 ^ 16
    → word_of (bytes_of 2 limit ++ bytes_of 6 x) ≡ limit + 2 ^ 16 * (x % 2 ^ 48)
word_of_6 limit x h = omega arith

-- The module shows the table's address as `sgdt` stores it, the physical address that showgdt.c
-- computes from it, which lies as far below it as the kernel is mapped, in 64 bits, and a word of
-- the limit and the address's low 48 bits; but the four high bytes of the address have been stored
-- behind the array of six bytes.
pub mm_proc_show_gdt :
    (limit base : ℕ) (statics : List ℕ)
    → limit < 2 ^ 16
    → base < 2 ^ 64
    → 10 ≤ length statics
    → let (after, shown) = mm_proc_show limit base statics in
      (shown.virt ≡ base)
      × (shown.phys ≡ gdt_phys_address base)
      × ((shown.phys + start_kernel_map) % 2 ^ 64 ≡ base)
      × (shown.gdtr_word ≡ limit + 2 ^ 16 * (base % 2 ^ 48))
      × (slice 6 4 after ≡ bytes_of 4 (base / 2 ^ 32))
unfolding mm_proc_show sgdt
mm_proc_show_gdt limit base statics h k size =
    let high : base / 256 / 256 / 256 / 256 ≡ base / 2 ^ 32 = omega arith in
    rw (overwrite_start (bytes_of 2 limit ++ bytes_of 8 base) statics size) (
      word_of_8 base k,
      ap gdt_phys_address (word_of_8 base k),
      ap (λ v. (gdt_phys_address v + start_kernel_map) % 2 ^ 64) (word_of_8 base k) ∙ omega arith,
      word_of_6 limit base h,
      ap (bytes_of 4) high,
    )
