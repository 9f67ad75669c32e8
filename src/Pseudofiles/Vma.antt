-- ===== src/Pseudofiles/Vma.antt =====
-- vma/vma.c: `vma_proc_show`, which writes a line for each area of the task's memory.
use linux_device_drivers.Common.{
  ℕ, ◌+◌, ◌*◌, ◌%◌, ◌^◌, ◌≡◌, refl, ap, ◌∙◌, Bool, Option, none, some, List, [], ◌∷◌, ◌++◌, length,
  get_elem?, arith, inl, inr, Option-cases,
}

-- What `vma_proc_show` asks of a file: its device, its inode and its path.
pub record File : Type 0 where
  pub s_dev : ℕ
  pub i_ino : ℕ
  pub path : List ℕ

-- `struct vm_area_struct`: `vm_ops_name` is absent without `vm_ops->name`, and otherwise what that
-- function returns, a name or NULL.
pub record Vma : Type 0 where
  pub vm_start : ℕ
  pub vm_end : ℕ
  pub vm_read : Bool
  pub vm_write : Bool
  pub vm_exec : Bool
  pub vm_shared : Bool
  pub vm_pgoff : ℕ
  pub vm_file : Option File
  pub vm_ops_name : Option (Option (List ℕ))

-- The variables that the loop does not set in every round.
pub record Kept : Type 0 where
  pub dev : ℕ
  pub ino : ℕ
  pub pgoff : ℕ
  pub name : Option (List ℕ)

-- A line: its number, the area's bounds and permissions, and the variables; a path stands in it for an
-- area with a file, a name where there is one.
pub record Line : Type 0 where
  pub number : ℕ
  pub vma : Vma
  pub shown : Kept
  pub path : Option (List ℕ)

-- `dev`, `ino` and `pgoff`, which are set for a file. The offset is shifted by PAGE_SHIFT, 12, in 64
-- bits.
abbrev pub read_file : Vma → Option File → Kept → Kept
read_file vma none kept = kept
read_file vma (some file) kept = record kept {
  dev = file.s_dev;
  ino = file.i_ino;
  pgoff = vma.vm_pgoff * 2 ^ 12 % 2 ^ 64;
}

-- `name`, which is set for an area without a file.
abbrev pub read_name : Option File → Option (Option (List ℕ)) → Kept → Kept
read_name (some file) vm_ops_name kept = kept
read_name none none kept = kept
read_name none (some name) kept = record kept { name = name }

abbrev pub path_of : Option File → Option (List ℕ)
path_of none = none
path_of (some file) = some file.path

-- One round.
abbrev pub round : Vma → Kept → Kept
round vma kept = read_name vma.vm_file vma.vm_ops_name (read_file vma vma.vm_file kept)

abbrev pub line_of : ℕ → Vma → Kept → Line
line_of number vma kept = record {
  number = number;
  vma = vma;
  shown = kept;
  path = path_of vma.vm_file;
}

-- The loop from a number on.
unfoldable pub show_areas : List Vma → ℕ → Kept → List Line
show_areas [] i kept = []
show_areas (vma ∷ vmas) i kept =
    line_of (i + 1) vma (round vma kept) ∷ show_areas vmas (i + 1) (round vma kept)

-- The lines of `vma_proc_show`.
unfoldable pub vma_proc_show : List Vma → List Line
vma_proc_show vmas = show_areas vmas 0 (record { dev = 0; ino = 0; pgoff = 0; name = none })

-- The last element of a list that a function has a value for, or a first value.
abbrev pub last_value {ℓ κ} : {A : Type ℓ} {B : Type κ} → (A → Option B) → B → List A → B
last_value f b [] = b
last_value f b (a ∷ rest) = last_value f (elim (f a) [ none ↦ b | some c ↦ c ]) rest

-- The device, inode and offset that an area has, and the name that one without a file has.
abbrev pub file_numbers : Vma → Option (ℕ × ℕ × ℕ)
file_numbers vma = elim vma.vm_file [
  | none ↦ none
  | some file ↦ some (file.s_dev, file.i_ino, vma.vm_pgoff * 2 ^ 12 % 2 ^ 64)
]

abbrev pub own_name : Vma → Option (Option (List ℕ))
own_name vma = elim vma.vm_file [ none ↦ vma.vm_ops_name | some file ↦ none ]

abbrev pub kept_after : (ℕ × ℕ × ℕ) → Option (List ℕ) → List Vma → Kept
kept_after numbers name vmas =
    let (dev, ino, pgoff) = last_value file_numbers numbers vmas in
    record { dev = dev; ino = ino; pgoff = pgoff; name = last_value own_name name vmas }

-- One round keeps the last values.
round_lem :
    (vma : Vma) (numbers : ℕ × ℕ × ℕ) (name : Option (List ℕ))
    → round vma (kept_after numbers name []) ≡ kept_after numbers name (vma ∷ [])
round_lem vma numbers name = elim (Option-cases vma.vm_file) [
  | inl none_file ↦ elim (Option-cases vma.vm_ops_name) [
    | inl no_name ↦ rw (none_file, no_name) refl
    | inr (text, named) ↦ rw (none_file, named) refl
  ]
  | inr (file, e) ↦ rw e refl
]

show_areas_lem :
    (before after : List Vma) (vma : Vma) (i n : ℕ) (numbers : ℕ × ℕ × ℕ) (name : Option (List ℕ))
    → i + length before + 1 ≡ n
    → get_elem? (show_areas (before ++ vma ∷ after) i (kept_after numbers name [])) (length before)
      ≡ some (line_of n vma (kept_after numbers name (before ++ vma ∷ [])))
unfolding show_areas
show_areas_lem [] after vma i n numbers name e =
    let e' : i + 1 ≡ n = omega arith in
    rw e' (ap (λ kept. some (line_of n vma kept)) (round_lem vma numbers name))
show_areas_lem (first ∷ before) after vma i n numbers name e =
    let numbers' : ℕ × ℕ × ℕ = elim (file_numbers first) [ none ↦ numbers | some c ↦ c ] in
    let name' : Option (List ℕ) = elim (own_name first) [ none ↦ name | some c ↦ c ] in
    ap (λ kept. get_elem? (show_areas (before ++ vma ∷ after) (i + 1) kept) (length before))
      (round_lem first numbers name)
    ∙ show_areas_lem before after vma (i + 1) n numbers' name' (omega arith)

-- In the list of the areas each line has its number, the area and the path of its file. The device,
-- inode and offset in it are those of the last area up to this one that has a file, and 0 where
-- there is none; the name is what the last area up to this one without a file but with
-- `vm_ops->name` returned.
pub vma_proc_show_lem :
    (before after : List Vma) (vma : Vma)
    → let (dev, ino, pgoff) = last_value file_numbers (0, 0, 0) (before ++ vma ∷ []) in
      get_elem? (vma_proc_show (before ++ vma ∷ after)) (length before)
      ≡ some (
          line_of (length before + 1) vma (record {
            dev = dev;
            ino = ino;
            pgoff = pgoff;
            name = last_value own_name none (before ++ vma ∷ []);
          }))
unfolding vma_proc_show
vma_proc_show_lem before after vma =
    show_areas_lem before after vma 0 (length before + 1) (0, 0, 0) none (omega arith)
