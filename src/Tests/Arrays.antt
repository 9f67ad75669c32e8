-- ===== src/Tests/Arrays.antt =====
-- The theorem on xarray/xarray.c on a concrete array, a table of entries together with how many
-- indices are in use.
use native.Mathlib.Decide.{dec_lt}
use linux_device_drivers.Common.{
  ℕ, zero, suc, ◌+◌, ◌*◌, ◌≤◌, ◌≡◌, refl, sym, none, some, [], arith, ◌==◌, if◌then◌else◌,
}
use linux_device_drivers.Xarray.Demo.{XaKernel, World, entries_from, xarray_test}
use linux_device_drivers.Xarray.Steps.{HasTable, AreItems, last_table}
use linux_device_drivers.Xarray.Contents.{all_lines, xarray_test_lem}

-- A table, and a bound above which it is empty.
pub record Bounded : Type 0 where
  pub entry_at : ℕ → ℕ
  pub bound : ℕ
  pub empty_above : (j : ℕ) → bound ≤ j → entry_at j ≡ 0

entries_none :
    (table : ℕ → ℕ) (i n : ℕ) → ((j : ℕ) → i ≤ j → table j ≡ 0) → entries_from table i n ≡ []
entries_none table i zero h = refl
entries_none table i (suc n) h =
    rw (h i (omega arith), entries_none table (i + 1) n (λ j l. h j (omega arith))) refl

entries_more :
    (table : ℕ → ℕ) (i n m : ℕ)
    → n ≤ m
    → ((j : ℕ) → i + n ≤ j → table j ≡ 0)
    → entries_from table i m ≡ entries_from table i n
entries_more table i zero m l h = entries_none table i m (λ j k. h j (omega arith))
entries_more table i (suc n) zero l h = absurd (omega arith)
entries_more table i (suc n) (suc m) l h =
    rw (entries_more table (i + 1) n m (omega arith) (λ j k. h j (omega arith))) refl

entries_bound :
    (table : ℕ → ℕ) (n m : ℕ)
    → ((j : ℕ) → n ≤ j → table j ≡ 0)
    → ((j : ℕ) → m ≤ j → table j ≡ 0)
    → entries_from table 0 m ≡ entries_from table 0 n
entries_bound table n m h k = elim (dec_lt n m) [
  | yes p ↦ entries_more table 0 n m (omega arith) (λ j l. h j (omega arith))
  | no p ↦ sym (entries_more table 0 m n (omega arith) (λ j l. k j (omega arith)))
]

abbrev with_entry : Bounded → ℕ → ℕ → Bounded
with_entry b i entry = record {
  entry_at = λ j. if j == i then entry else b.entry_at j;
  bound = b.bound + i + 1;
  empty_above = λ j l. let h = b.empty_above j in ground arith;
}

abbrev table_kernel : XaKernel
table_kernel = record {
  Xarray = Bounded;
  xa_load = λ a j. a.entry_at j;
  xa_store = λ a i entry. (with_entry a i entry, a.entry_at i);
  xa_erase = λ a i. (with_entry a i 0, a.entry_at i);
  xa_find = λ a i max. (i, a.entry_at i);
  xa_for_each = λ a. entries_from a.entry_at 0 a.bound;
  old-xa_store = λ a i entry h. refl;
  load-xa_store = λ a i entry j h. refl;
  old-xa_erase = λ a i. refl;
  load-xa_erase = λ a i j. refl;
  xa_find_present = λ a i max l h. refl;
  xa_for_each_lem = λ a n h. entries_bound a.entry_at n a.bound h a.empty_above;
}

abbrev empty_array : Bounded
empty_array = record { entry_at = λ j. 0; bound = 0; empty_above = λ j l. refl }

abbrev eighths : ℕ → ℕ
eighths n = 8 * (n + 1)

eighths-AreItems : AreItems table_kernel eighths
eighths-AreItems = record {
  aligned = λ n. omega arith;
  present = λ n. omega arith;
  different = λ i j d e. d (omega arith);
}

xarray_test_lem_example :
    (w : World table_kernel) × (xarray_test table_kernel eighths
        (record { array = empty_array; items = λ p. none; calls = 0; printed = [] })
      ≡ some (tt, w))
    × (w.printed ≡ all_lines table_kernel eighths)
    × HasTable table_kernel w.array (last_table eighths)
xarray_test_lem_example =
    xarray_test_lem table_kernel eighths empty_array eighths-AreItems (λ j. refl)
