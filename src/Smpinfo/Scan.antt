-- ===== src/Smpinfo/Scan.antt =====
-- smpinfo/smpinfo.c: what the search finds, which bytes the proc file prints, and that a write stays
-- in its buffer.
use linux_device_drivers.Common.{
  ℕ, zero, suc, ◌+◌, ◌-◌, ◌*◌, ◌≤◌, ◌<◌, ◌≡◌, ◌⊎◌, inl, inr, refl, Bool-cases, true, false, none,
  some, List, [], ◌∷◌, ◌++◌, arith, ltb, if◌then◌else◌, length, take, length-take, length-append,
  min, pos, neg_errno, enodev, efault,
}
use linux_device_drivers.Smpinfo.Tables.{
  is_signature, search_mpfp, Tables, read_tables, my_proc_init, entry_size, show_entries,
  my_proc_show, my_proc_write,
}

module _ (memory : ℕ → ℕ) where
  -- The `k`-th address from `at` on is the first with the signature.
  pub record IsFirst (at k : ℕ) : Type 0 where
    pub here : is_signature memory (at + 16 * k) ≡ true
    pub before : (i : ℕ) → i < k → is_signature memory (at + 16 * i) ≡ false

  step_back :
      (at n : ℕ)
      → is_signature memory at ≡ false
      → ((i : ℕ) → i < n → is_signature memory (at + 16 + 16 * i) ≡ false)
      → (i : ℕ) → i < suc n
      → is_signature memory (at + 16 * i) ≡ false
  step_back at n miss rest zero h = let e : at + 16 * 0 ≡ at = omega arith in rw e miss
  step_back at n miss rest (suc i) h =
      let e : at + 16 * suc i ≡ at + 16 + 16 * i = omega arith in rw e (rest i (omega arith))

  -- The search ends at the first of its addresses that has the signature, and without a result only
  -- if none of them has.
  search_lem :
      (rounds at : ℕ)
      → ((k : ℕ) × (k < rounds)
          × (search_mpfp memory rounds at ≡ some (at + 16 * k))
          × IsFirst at k)
        ⊎ ((search_mpfp memory rounds at ≡ none)
            × ((i : ℕ) → i < rounds → is_signature memory (at + 16 * i) ≡ false))
  unfolding search_mpfp
  search_lem zero at = inr (refl, λ i h. absurd (omega arith))
  search_lem (suc rounds) at = elim (Bool-cases (is_signature memory at)) [
    | inl hit ↦
        let base : at + 16 * 0 ≡ at = omega arith in
        inl (
          0,
          omega arith,
          rw (hit, base) refl,
          record { here = rw base hit; before = λ i h. absurd (omega arith) },
        )
    | inr miss ↦ elim (search_lem rounds (at + 16)) [
      | inl (k, lt, e, f) ↦
          let shift : at + 16 + 16 * k ≡ at + 16 * suc k = omega arith in
          inl (
            suc k,
            omega arith,
            rw (miss, e, shift) refl,
            record { here = rw (← shift) f.here; before = step_back at k miss f.before },
          )
      | inr (e, f) ↦ inr (rw (miss, e) refl, step_back at rounds miss f)
    ]
  ]

  -- Initialisation returns 0 with the first structure that has the signature at a multiple of 16
  -- between 0xF0000 and 0x100000, or -ENODEV if no address there has it.
  pub my_proc_init_lem :
      ((k : ℕ) × (t : Tables) × (k < 4096)
        × (my_proc_init memory ≡ (some t, pos 0))
        × (t.mpfp ≡ 983040 + 16 * k)
        × (t.baselen < 65536)
        × IsFirst 983040 k)
      ⊎ ((my_proc_init memory ≡ (none, neg_errno enodev))
          × ((i : ℕ) → i < 4096 → is_signature memory (983040 + 16 * i) ≡ false))
  unfolding my_proc_init
  my_proc_init_lem = elim (search_lem 4096 983040) [
    | inl (k, lt, e, f) ↦
        inl (k, read_tables memory (983040 + 16 * k), lt, ground arith, refl, omega arith, f)
    | inr (e, f) ↦ inr (ground arith, f)
  ]

-- Entries that follow each other from offset `i` on, each beginning below `limit`, of 8 or 20 bytes;
-- the last one ends at `limit` or behind it.
pub data Covers (limit : ℕ) : ℕ → List (ℕ × ℕ) → Type 0 where
  stop : (i : ℕ) → limit ≤ i → Covers limit i []
  entry :
      (i size : ℕ) (es : List (ℕ × ℕ))
      → i < limit
      → (size ≡ 8) ⊎ (size ≡ 20)
      → Covers limit (i + size) es
      → Covers limit i ((i, size) ∷ es)

module _ (memory : ℕ → ℕ) (t : Tables) where
  entry_size_lem : (i : ℕ) → (entry_size memory t i ≡ 8) ⊎ (entry_size memory t i ≡ 20)
  entry_size_lem i = ground arith

  show_entries_lem :
      (fuel i : ℕ)
      → t.baselen - i < fuel
      → (es : List (ℕ × ℕ)) × (show_entries memory t fuel i ≡ some es) × Covers t.baselen i es
  unfolding show_entries
  show_entries_lem zero i h = absurd (omega arith)
  show_entries_lem (suc fuel) i h =
      let size = entry_size_lem i in
      elim (Bool-cases (ltb i t.baselen)) [
        | inr past ↦ ([], rw past refl, stop i (ground arith))
        | inl more ↦
            let below : i < t.baselen = ground arith in
            let (es, e, c) = show_entries_lem fuel (i + entry_size memory t i) (omega arith) in
            (
              (i, entry_size memory t i) ∷ es,
              rw (more, e) refl,
              entry i (entry_size memory t i) es below size c,
            )
      ]

  -- For every base length the proc file's output ends: its entries follow each other from offset 44
  -- on, without gaps, begin below the base length, and the last one may end behind it.
  pub my_proc_show_total :
      (es : List (ℕ × ℕ)) × (my_proc_show memory t ≡ some es) × Covers t.baselen 44 es
  unfolding my_proc_show
  my_proc_show_total = show_entries_lem (suc t.baselen) 44 (omega arith)

-- A write puts at most four bytes and a zero into the five of `strbuf`, whatever its count, and
-- returns how many it took; a failed copy is -EFAULT and nothing is put.
pub my_proc_write_lem :
    (buffer : List ℕ) (count : ℕ)
    → count ≤ length buffer
    → (strbuf : List ℕ) × (my_proc_write true buffer count
        ≡ (some (strbuf ++ 0 ∷ []), pos (length strbuf)))
      × (length strbuf ≡ min count 4)
      × (length (strbuf ++ 0 ∷ []) ≤ 5)
      × (my_proc_write false buffer count ≡ (none, neg_errno efault))
unfolding my_proc_write
my_proc_write_lem buffer count h =
    let n = if ltb 4 count then 4 else count in
    let small : n ≡ min count 4 = ground arith in
    let len : length (take n buffer) ≡ n = omega (arith, length-take n buffer) in
    (
      take n buffer,
      rw len refl,
      omega arith,
      omega (arith, length-append (take n buffer) (0 ∷ [])),
      refl,
    )
