-- ===== src/Pseudofiles/Pgdir.antt =====
-- pgdir/pgdir.c: the picture of the page directory.
use linux_device_drivers.Common.{
  ℕ, zero, suc, ◌+◌, ◌-◌, ◌*◌, ◌%◌, ◌^◌, ◌<◌, ◌≡◌, refl, ap, ◌∙◌, Bool, Option, none, some, List,
  [], ◌∷◌, get_elem?, arith, inl, inr, Bool-cases, ◌==◌, if◌then◌else◌,
}

-- What is written for an entry: whether a line begins, the character, and the address at a line's end.
pub record Cell : Type 0 where
  pub new_line : Bool
  pub attr : ℕ
  pub address : Option ℕ

-- `(pgdir[k] & 7) | '0'`, or '-' where that is '0'; the low three bits of '0' are clear.
abbrev pub attr_of : ℕ → ℕ
attr_of entry = if entry % 8 == 0 then 45 else 48 + entry % 8

-- The cell of a round: `k << 22` is printed as an unsigned int.
abbrev pub cell_of : (ℕ → ℕ) → ℕ → Cell
cell_of pgdir i =
    let k = 1023 - i in
    record {
      new_line = i % 64 == 0;
      attr = attr_of (pgdir k);
      address = if i % 64 == 63 then some (k * 2 ^ 22 % 2 ^ 32) else none;
    }

-- The loop of `mm_proc_show` from `i` on, with so many rounds left.
unfoldable pub show_cells : (ℕ → ℕ) → ℕ → ℕ → List Cell
show_cells pgdir zero i = []
show_cells pgdir (suc left) i = cell_of pgdir i ∷ show_cells pgdir left (i + 1)

-- `mm_proc_show`, by the 1024 words from the address in CR3 on.
unfoldable pub mm_proc_show : (ℕ → ℕ) → List Cell
mm_proc_show pgdir = show_cells pgdir 1024 0

show_cells_lem :
    (pgdir : ℕ → ℕ) (left i k : ℕ)
    → k < left
    → get_elem? (show_cells pgdir left i) k ≡ some (cell_of pgdir (i + k))
unfolding show_cells
show_cells_lem pgdir zero i k h = absurd (omega arith)
show_cells_lem pgdir (suc left) i zero h = let e : i + 0 ≡ i = omega arith in rw e refl
show_cells_lem pgdir (suc left) i (suc k) h =
    let e : i + suc k ≡ i + 1 + k = omega arith in
    rw e (show_cells_lem pgdir left (i + 1) k (omega arith))

address_lem :
    (r c : ℕ)
    → r < 16
    → c < 64
    → (if c == 63 then some ((1023 - (64 * r + c)) * 2 ^ 22 % 2 ^ 32) else none)
      ≡ (if c == 63 then some ((15 - r) * 2 ^ 28) else none)
address_lem r c h l = elim (Bool-cases (c == 63)) [
  | inl last ↦
      let e : c ≡ 63 = ground arith in
      let e' : (1023 - (64 * r + c)) * 2 ^ 22 % 2 ^ 32 ≡ (15 - r) * 2 ^ 28 = omega arith in
      rw (last, e') refl
  | inr inner ↦ rw inner refl
]

-- The picture has sixteen lines of 64 characters. The c-th character of line r stands for word
-- 1023 - (64 * r + c), '-' for one whose three lowest bits are clear and their digit otherwise; and
-- behind the last character of line r stands the address (15 - r) * 2^28.
pub mm_proc_show_lem :
    (pgdir : ℕ → ℕ) (r c : ℕ)
    → r < 16
    → c < 64
    → get_elem? (mm_proc_show pgdir) (64 * r + c)
      ≡ some (record {
        new_line = c == 0;
        attr = attr_of (pgdir (1023 - (64 * r + c)));
        address = if c == 63 then some ((15 - r) * 2 ^ 28) else none;
      })
unfolding mm_proc_show
mm_proc_show_lem pgdir r c h l =
    let from_0 : 0 + (64 * r + c) ≡ 64 * r + c = omega arith in
    let column : (64 * r + c) % 64 ≡ c = omega arith in
    show_cells_lem pgdir 1024 0 (64 * r + c) (omega arith)
    ∙ rw (from_0, column)
        (ap
          (λ address. some (record {
            new_line = c == 0;
            attr = attr_of (pgdir (1023 - (64 * r + c)));
            address = address;
          }))
          (address_lem r c h l))
