-- ===== src/Pseudofiles/ProcFile.antt =====
-- The modules that make one file in /proc: mm-struct/mm.c, xem_gdt/xem_gdt.c, cr3-4/cr_3_4.c,
-- pgdir/pgdir.c, vma/vma.c, taskls/taskls.c, netdevs/netdevs.c, listusb/listusb.c and
-- ioapic/ioapic.c. They all set the file up, open it and take it down in the same way.
use linux_device_drivers.Common.{
  ℕ, suc, ◌≡◌, refl, Bool, true, false, none, some, List, [], ◌∷◌, ◌++◌, replicate, if◌then◌else◌,
  ℤ, pos, is_nonzero, Effect, acquire, release, neutral, Accounting, held_after,
}

-- The kernel's calls, with their answers: `proc_create` gives an entry or NULL, `single_open` 0 or an
-- error.
pub data Call : Type 0 where
  proc_create : Bool → Call
  remove_proc_entry : Call
  single_open : ℤ → Call
  single_release : Call

pub data Resource : Type 0 where
  entry open_file : Resource

abbrev pub call_effect : Call → Effect Resource
call_effect (proc_create made) = if made then acquire entry else neutral
call_effect remove_proc_entry = release entry
call_effect (single_open error) = if is_nonzero error then neutral else acquire open_file
call_effect single_release = release open_file

abbrev pub same_resource : Resource → Resource → Bool
same_resource entry entry = true
same_resource entry open_file = false
same_resource open_file entry = false
same_resource open_file open_file = true

abbrev pub accounting : Accounting Call Resource
accounting = record { effect = call_effect; same = same_resource }

-- The functions of such a module: `my_proc_init`, `my_proc_open` by the answers, `.proc_release`, and
-- `my_proc_exit`.
pub record ProcModule : Type 0 where
  pub init : Bool → List Call × ℤ
  pub open_entry : ℤ → List Call × ℤ
  pub release_entry : List Call
  pub exit : List Call

-- What users of the file do between the initialisation and the exit, and what the module then calls,
-- by the number of files that are open: opens, which may fail, releases of open files, and at last
-- the exit, which the kernel lets happen when no file is open.
pub data Uses (m : ProcModule) : ℕ → List Call → Type 0 where
  exits : Uses m 0 m.exit
  opens : (n : ℕ) (cs : List Call) → Uses m (suc n) cs → Uses m n ((m.open_entry (pos 0)).0 ++ cs)
  fails :
      (n : ℕ) (error : ℤ) (cs : List Call)
      → is_nonzero error ≡ true
      → Uses m n cs
      → Uses m n ((m.open_entry error).0 ++ cs)
  releases : (n : ℕ) (cs : List Call) → Uses m n cs → Uses m (suc n) (m.release_entry ++ cs)

-- The functions as the nine modules have them: the results of `proc_create` are not looked at.
abbrev pub single_file : ProcModule
single_file = record {
  init = λ made. (proc_create made ∷ [], pos 0);
  open_entry = λ error. (single_open error ∷ [], error);
  release_entry = single_release ∷ [];
  exit = remove_proc_entry ∷ [];
}

abbrev pub mm_module : ProcModule
mm_module = single_file

abbrev pub xem_gdt_module : ProcModule
xem_gdt_module = single_file

abbrev pub cr34_module : ProcModule
cr34_module = single_file

abbrev pub pgdir_module : ProcModule
pgdir_module = single_file

abbrev pub vma_module : ProcModule
vma_module = single_file

abbrev pub taskls_module : ProcModule
taskls_module = single_file

abbrev pub netdevs_module : ProcModule
netdevs_module = single_file

-- Without the calls for the USB devices.
abbrev pub listusb_module : ProcModule
listusb_module = single_file

abbrev pub ioapic_module : ProcModule
ioapic_module = single_file

-- What is held while so many files are open.
abbrev pub holding : ℕ → List Resource
holding n = replicate n open_file ++ entry ∷ []

Uses-held :
    {n : ℕ} {cs : List Call}
    → Uses single_file n cs
    → held_after accounting cs (holding n) ≡ some []
Uses-held exits = refl
Uses-held (opens n cs u) = Uses-held u
Uses-held (fails n error cs e u) = rw (held_after, e) (Uses-held u)
Uses-held (releases n cs u) = Uses-held u

-- Whatever its users do, a module with a file in /proc whose entry was made gives back at its exit
-- everything that it took, once.
pub proc_module_lem :
    (cs : List Call)
    → Uses single_file 0 cs
    → held_after accounting ((single_file.init true).0 ++ cs) [] ≡ some []
proc_module_lem cs u = Uses-held u

-- Where the entry could not be made, the initialisation reports success all the same, and the exit
-- removes an entry that is not there.
pub proc_module_unmade :
    ((single_file.init false).1 ≡ pos 0)
    × (held_after accounting ((single_file.init false).0 ++ single_file.exit) [] ≡ none)
proc_module_unmade = (refl, refl)
