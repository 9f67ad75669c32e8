-- ===== src/Smpinfo/Tables.antt =====
-- smpinfo/smpinfo.c over physical memory, a byte at each address (what `phys_to_virt` makes
-- readable): the search at initialisation, the entries that the proc file prints, and its write.
use linux_device_drivers.Common.{
  ℕ, zero, suc, ◌+◌, ◌*◌, ◌%◌, ◌^◌, Bool, ◌&&◌, Option, none, some, List, [], ◌∷◌, ◌++◌, ltb, ◌==◌,
  if◌then◌else◌, take, ℤ, pos, neg_errno, efault, enodev,
}

module _ (memory : ℕ → ℕ) where
  -- The first four bytes are "_MP_".
  abbrev pub is_signature : ℕ → Bool
  is_signature at =
      (memory at == 95)
      && (memory (at + 1) == 77)
      && (memory (at + 2) == 80)
      && (memory (at + 3) == 95)

  -- The search of `my_proc_init` from `at` on, over the `rounds` addresses that are left of the
  -- loop's range; `none` is its end without a structure.
  unfoldable pub search_mpfp : ℕ → ℕ → Option ℕ
  search_mpfp zero at = none
  search_mpfp (suc rounds) at =
      let rest = search_mpfp rounds (at + 16) in if is_signature at then some at else rest

  -- A little-endian 32-bit word.
  abbrev pub word : ℕ → ℕ
  word at =
      memory at + 2 ^ 8 * memory (at + 1) + 2 ^ 16 * memory (at + 2) + 2 ^ 24 * memory (at + 3)

-- The variables of the module once it is installed.
pub record Tables : Type 0 where
  pub mpfp : ℕ
  pub mpct : ℕ
  pub baselen : ℕ

-- The module's variables when the structure stands at `at`; `baselen` is an unsigned short.
abbrev pub read_tables : (ℕ → ℕ) → ℕ → Tables
read_tables memory at = record {
  mpfp = at;
  mpct = word memory (at + 4);
  baselen = word memory (word memory (at + 4) + 4) % 65536;
}

-- `my_proc_init`: the tables, or what is returned. The loop from 0xF0000 to
-- 0x100000 in steps of 16 has 4096 rounds.
unfoldable pub my_proc_init : (ℕ → ℕ) → Option Tables × ℤ
my_proc_init memory = elim (search_mpfp memory 4096 983040) [
  | none ↦ (none, neg_errno enodev)
  | some at ↦ (some (read_tables memory at), pos 0)
]

module _ (memory : ℕ → ℕ) (t : Tables) where
  open t use {mpct, baselen}

  abbrev pub entry_size : ℕ → ℕ
  entry_size i = if memory (mpct + i) == 0 then 20 else 8

  -- The third loop of `my_proc_show` from offset `i` on: where each printed entry begins in the
  -- configuration table, and its size; `none` means that the fuel ran out.
  unfoldable pub show_entries : ℕ → ℕ → Option (List (ℕ × ℕ))
  show_entries zero i = none
  show_entries (suc fuel) i =
      let rest = show_entries fuel (i + entry_size i) in
      if ltb i baselen
      then elim rest [ none ↦ none | some es ↦ some ((i, entry_size i) ∷ es) ]
      else some []

  -- The entries that `my_proc_show` prints; its fuel is enough, since each round moves on.
  unfoldable pub my_proc_show : Option (List (ℕ × ℕ))
  my_proc_show = show_entries (suc baselen) 44

-- `my_proc_write` for what `copy_from_user` answers: the bytes put into `strbuf`, the closing zero
-- included, or `none` for a failed copy, and what is returned.
unfoldable pub my_proc_write : (copied : Bool) → List ℕ → ℕ → Option (List ℕ) × ℤ
my_proc_write copied buffer count =
    let count' = if ltb 4 count then 4 else count in
    if copied then (some (take count' buffer ++ 0 ∷ []), pos count') else (none, neg_errno efault)
