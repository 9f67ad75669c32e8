-- ===== src/Pseudofiles/MemoryMap.antt =====
-- mm-struct/mm.c: what is shown of the task's memory structure.
use linux_device_drivers.Common.{
  ℕ, ◌+◌, ◌-◌, ◌*◌, ◌%◌, ◌^◌, ◌≤◌, ◌<◌, ◌≡◌, refl, Option, none, some, List, [], ◌∷◌, get_elem?,
  arith, ℤ,
}

-- `struct mm_struct`, as far as it is shown; the counters are `int`.
pub record MmStruct : Type 0 where
  pub pgd : ℕ
  pub mmap_base : ℕ
  pub map_count : ℤ
  pub mm_users : ℤ
  pub mm_count : ℤ
  pub start_code : ℕ
  pub end_code : ℕ
  pub start_data : ℕ
  pub end_data : ℕ
  pub start_brk : ℕ
  pub brk : ℕ
  pub arg_start : ℕ
  pub arg_end : ℕ
  pub env_start : ℕ
  pub env_end : ℕ
  pub start_stack : ℕ
  pub stack_vm : ℕ

-- A value as it is printed: a string, a decimal, a hexadecimal number.
pub data Item : Type 0 where
  text : List ℕ → Item
  decimal : ℤ → Item
  address : ℕ → Item

-- `stack_size`: PAGE_SHIFT is 12.
abbrev pub stack_size : MmStruct → ℕ
stack_size mm = mm.stack_vm * 2 ^ 12 % 2 ^ 64

abbrev pub down_to : MmStruct → ℕ
down_to mm = (mm.start_stack + 2 ^ 64 - stack_size mm) % 2 ^ 64

-- `mm_proc_show`, by the task's name, number and memory structure; a task without one, a kernel
-- thread, makes it follow a NULL pointer.
unfoldable pub mm_proc_show : List ℕ → ℤ → Option MmStruct → Option (List Item)
mm_proc_show comm pid none = none
mm_proc_show comm pid (some mm) = some (
    text comm
    ∷ decimal pid
    ∷ address mm.pgd
    ∷ address mm.mmap_base
    ∷ decimal mm.map_count
    ∷ decimal mm.mm_users
    ∷ decimal mm.mm_count
    ∷ address mm.start_code
    ∷ address mm.end_code
    ∷ address mm.start_data
    ∷ address mm.end_data
    ∷ address mm.start_brk
    ∷ address mm.brk
    ∷ address mm.arg_start
    ∷ address mm.arg_end
    ∷ address mm.env_start
    ∷ address mm.env_end
    ∷ address mm.start_stack
    ∷ address (down_to mm)
    ∷ [])

-- The last two addresses that are shown are the bounds of the stack: from the first, the start, down
-- to the second are `stack_vm` pages, where they lie above 0, and the start is an address.
pub mm_proc_show_lem :
    (comm : List ℕ) (pid : ℤ) (mm : MmStruct)
    → mm.start_stack < 2 ^ 64
    → mm.stack_vm * 4096 ≤ mm.start_stack
    → (items : List Item) × (low : ℕ) × (mm_proc_show comm pid (some mm) ≡ some items)
      × (get_elem? items 17 ≡ some (address mm.start_stack))
      × (get_elem? items 18 ≡ some (address low))
      × (low + 4096 * mm.stack_vm ≡ mm.start_stack)
unfolding mm_proc_show
mm_proc_show_lem comm pid mm h k = (_, down_to mm, refl, refl, refl, omega arith)
