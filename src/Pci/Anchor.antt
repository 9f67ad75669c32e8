-- ===== src/Pci/Anchor.antt =====
-- anchor/anchor.c: a PCI device's configuration space and hardware address as a file in /proc.
use linux_device_drivers.Common.{
  ℕ, zero, suc, ◌+◌, ◌*◌, ◌%◌, ◌≤◌, ◌<◌, ◌≡◌, refl, ◌∙◌, Bool, true, false, not, Option, none, some,
  List, [], ◌∷◌, ◌++◌, get_elem?, arith, ltb, ◌==◌, if◌then◌else◌, ℤ, pos, neg_errno, enodev,
  Effect, acquire, release, neutral, Accounting, held_after,
}

-- `EBUSY`.
abbrev pub ebusy : ℕ
ebusy = 16

-- `HW_ADDRESS`.
abbrev pub hw_address : ℕ
hw_address = 0x5400

-- A double word of the configuration space, and the offset in front of it where a row begins.
pub record Cell : Type 0 where
  pub row : Option ℕ
  pub datum : ℕ

-- A byte of the hardware address, and whether a colon follows.
pub record Byte : Type 0 where
  pub value : ℕ
  pub colon : Bool

-- The first loop of `my_proc_show` at i = 256 - 4 * left; `config` is pci_read_config_dword.
unfoldable pub show_config : (ℕ → ℕ) → ℕ → ℕ → List Cell
show_config config zero i = []
show_config config (suc left) i =
    record { row = if i % 32 == 0 then some i else none; datum = config i }
    ∷ show_config config left (i + 4)

-- The second loop.
unfoldable pub show_mac : (ℕ → ℕ) → ℕ → ℕ → List Byte
show_mac mac zero i = []
show_mac mac (suc left) i = record { value = mac i; colon = ltb i 5 } ∷ show_mac mac left (i + 1)

-- `my_proc_show`, by the configuration space and `mac`.
unfoldable pub my_proc_show : (ℕ → ℕ) → (ℕ → ℕ) → List Cell × List Byte
my_proc_show config mac = (show_config config 64 0, show_mac mac 6 0)

pub data Call : Type 0 where
  pci_get_device : Bool → Call
  ioremap : Bool → Call
  proc_create remove_proc_entry iounmap : Call

pub data Resource : Type 0 where
  device io proc_file : Resource

abbrev pub resource_code : Resource → ℕ
resource_code device = 0
resource_code io = 1
resource_code proc_file = 2

abbrev pub call_effect : Call → Effect Resource
call_effect (pci_get_device found) = if found then acquire device else neutral
call_effect (ioremap mapped) = if mapped then acquire io else neutral
call_effect proc_create = acquire proc_file
call_effect remove_proc_entry = release proc_file
call_effect iounmap = release io

abbrev pub accounting : Accounting Call Resource
accounting = record { effect = call_effect; same = λ r s. resource_code r == resource_code s }

-- The bytes of the device's memory that are copied to `mac`; `none`: the mapping ends before them.
abbrev pub read_mac : (ℕ → ℕ) → ℕ → Option (ℕ → ℕ)
read_mac memory memsize =
    if ltb memsize (hw_address + 6) then none else some (λ i. memory (hw_address + i))

-- `my_init`, by whether the device is found and its memory can be mapped, and the memory and its
-- size: its calls, its result, and `mac` where it is read. `none`: the memory is read outside the
-- mapping.
unfoldable pub my_init : Bool → Bool → (ℕ → ℕ) → ℕ → Option (List Call × ℤ × Option (ℕ → ℕ))
my_init found mapped memory memsize =
    if not found
    then some (pci_get_device false ∷ [], neg_errno enodev, none)
    else (if not mapped
        then some (pci_get_device true ∷ ioremap false ∷ [], neg_errno ebusy, none)
        else elim (read_mac memory memsize) [
          | none ↦ none
          | some mac ↦ some (pci_get_device true ∷ ioremap true ∷ proc_create ∷ [], pos 0, some mac)
        ])

-- `my_exit`.
unfoldable pub my_exit : List Call
my_exit = remove_proc_entry ∷ iounmap ∷ []

show_config_lem :
    (config : ℕ → ℕ) (left i k : ℕ)
    → k < left
    → get_elem? (show_config config left i) k
      ≡ some (record {
        row = if (i + 4 * k) % 32 == 0 then some (i + 4 * k) else none;
        datum = config (i + 4 * k);
      })
unfolding show_config
show_config_lem config zero i k h = absurd (omega arith)
show_config_lem config (suc left) i zero h = let e : i + 4 * 0 ≡ i = omega arith in rw e refl
show_config_lem config (suc left) i (suc k) h =
    let e : i + 4 * suc k ≡ i + 4 + 4 * k = omega arith in
    rw e (show_config_lem config left (i + 4) k (omega arith))

show_mac_lem :
    (mac : ℕ → ℕ) (left i k : ℕ)
    → k < left
    → get_elem? (show_mac mac left i) k
      ≡ some (record { value = mac (i + k); colon = ltb (i + k) 5 })
unfolding show_mac
show_mac_lem mac zero i k h = absurd (omega arith)
show_mac_lem mac (suc left) i zero h = let e : i + 0 ≡ i = omega arith in rw e refl
show_mac_lem mac (suc left) i (suc k) h =
    let e : i + suc k ≡ i + 1 + k = omega arith in
    rw e (show_mac_lem mac left (i + 1) k (omega arith))

-- On a device whose mapping has the six bytes of the hardware address, `my_init` returns 0, and the
-- file shows as its k-th double word the configuration space at 4 * k, with the offset where a row
-- of eight begins, and as the j-th byte the device's memory at HW_ADDRESS + j, with a colon behind all but
-- the last. After the exit only the reference to the device is still held.
pub my_init_shows :
    (config memory : ℕ → ℕ) (memsize k j : ℕ)
    → hw_address + 6 ≤ memsize
    → k < 64
    → j < 6
    → (calls : List Call) × (mac : ℕ → ℕ) × (my_init true true memory memsize
        ≡ some (calls, pos 0, some mac))
      × (get_elem? (my_proc_show config mac).0 k
          ≡ some
              (record { row = if k % 8 == 0 then some (4 * k) else none; datum = config (4 * k) }))
      × (get_elem? (my_proc_show config mac).1 j
          ≡ some (record { value = memory (hw_address + j); colon = ltb j 5 }))
      × (held_after accounting (calls ++ my_exit) [] ≡ some (device ∷ []))
unfolding my_init my_proc_show my_exit
my_init_shows config memory memsize k j size h l =
    let inside : ltb memsize (hw_address + 6) ≡ false = ground arith in
    let from_0 : 0 + 4 * k ≡ 4 * k = omega arith in
    let from_0' : 0 + j ≡ j = omega arith in
    let row : (4 * k % 32 == 0) ≡ (k % 8 == 0) = ground arith in
    let mac = λ (i : ℕ). memory (hw_address + i) in
    (
      pci_get_device true ∷ ioremap true ∷ proc_create ∷ [],
      mac,
      rw inside refl,
      show_config_lem config 64 0 k h ∙ rw (from_0, row) refl,
      show_mac_lem mac 6 0 j l ∙ rw from_0' refl,
      refl,
    )

-- An initialisation that fails holds nothing if the device is not found, and the reference to the
-- device if its memory cannot be mapped.
pub my_init_fails :
    (found : Bool) (memory : ℕ → ℕ) (memsize : ℕ)
    → (calls : List Call) × (ret : ℤ) × (my_init found false memory memsize
        ≡ some (calls, ret, none))
      × (held_after accounting calls [] ≡ some (if found then device ∷ [] else []))
unfolding my_init
my_init_fails true memory memsize = (_, _, refl, refl)
my_init_fails false memory memsize = (_, _, refl, refl)
