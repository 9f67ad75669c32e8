-- ===== src/Xarray/Contents.antt =====
-- xarray/xarray.c: what `xarray_test` prints and what its array holds in the end.
use linux_device_drivers.Common.{
  ℕ, ◌≡◌, refl, ◌∙◌, false, none, some, List, [], ◌∷◌, ◌++◌, arith, ◌==◌, if◌then◌else◌,
}
use linux_device_drivers.Xarray.Demo.{
  ◌>>=◌, XaKernel, entries_from, Line, ret, item_at, nothing, each, World, new_item, store,
  print_entries, xarray_test,
}
use linux_device_drivers.Xarray.Lookups.{store_examples_lem, look_up_lem}
use linux_device_drivers.Xarray.Steps.{
  HasTable, HasTable-store, AreItems, IsEntry-item, no_entries, last_table, item_of, five_zeros,
  store_items_lem,
}

module _ (k : XaKernel) where
  -- What is printed, and what the dump visits.
  abbrev pub last_entries : (ℕ → ℕ) → List (ℕ × ℕ)
  last_entries kmalloc =
      (0, kmalloc 0)
      ∷ (1, kmalloc 1)
      ∷ (2, kmalloc 2)
      ∷ (3, kmalloc 2)
      ∷ (5, 0x44)
      ∷ (6, 0x45)
      ∷ (9, kmalloc 2)
      ∷ []

  abbrev pub all_lines : (ℕ → ℕ) → List Line
  all_lines kmalloc =
      five_zeros
      ++ nothing
        ∷ ret (kmalloc 3)
        ∷ ret 0
        ∷ ret (kmalloc 5)
        ∷ ret 0
        ∷ nothing
        ∷ nothing
        ∷ item_at (kmalloc 4) (item_of 7)
        ∷ item_at (kmalloc 2) (item_of 3)
        ∷ each 0 (kmalloc 0)
        ∷ each 1 (kmalloc 1)
        ∷ each 2 (kmalloc 2)
        ∷ each 3 (kmalloc 2)
        ∷ each 5 0x44
        ∷ each 6 0x45
        ∷ each 9 (kmalloc 2)
        ∷ []

  all_lines_lem :
      (kmalloc : ℕ → ℕ) (first : List Line) (entries : List (ℕ × ℕ))
      → first ≡ five_zeros
      → entries ≡ last_entries kmalloc
      → first
          ++ nothing ∷ []
          ++ ret (kmalloc 3) ∷ []
          ++ ret 0 ∷ []
          ++ ret (kmalloc 5) ∷ []
          ++ ret 0 ∷ []
          ++ nothing ∷ []
          ++ nothing ∷ []
          ++ item_at (kmalloc 4) (item_of 7) ∷ []
          ++ item_at (kmalloc 2) (item_of 3) ∷ []
          ++ print_entries k entries
        ≡ all_lines kmalloc
  all_lines_lem kmalloc first entries e f = rw (e, f) refl

  entries_lem :
      (kmalloc table : ℕ → ℕ)
      → AreItems k kmalloc
      → ((j : ℕ) → table j ≡ last_table kmalloc j)
      → entries_from table 0 10 ≡ last_entries kmalloc
  entries_lem kmalloc table h e =
      let p0 = h.present 0 in
      let p1 = h.present 1 in
      let p2 = h.present 2 in
      let z0 : (kmalloc 0 == 0) ≡ false = ground arith in
      let z1 : (kmalloc 1 == 0) ≡ false = ground arith in
      let z2 : (kmalloc 2 == 0) ≡ false = ground arith in
      rw (e 0, e 1, e 2, e 3, e 4, e 5, e 6, e 7, e 8, e 9, z0, z1, z2) refl

  dumped :
      (kmalloc : ℕ → ℕ) (a : k.Xarray)
      → AreItems k kmalloc
      → HasTable k a (last_table kmalloc)
      → k.xa_for_each a ≡ last_entries kmalloc
  dumped kmalloc a h t =
      k.xa_for_each_lem a 10 (λ j le. t j ∙ ground arith) ∙ entries_lem kmalloc (k.xa_load a) h t

  -- With every kernel that keeps the laws of the xarray, and items at six different aligned addresses,
  -- `xarray_test` runs without a fault. It prints: five times that nothing was stored before, nothing
  -- at index 6, the old items of 5 and 9 and that 2 and 6 were free, nothing at 8 and 4, the item
  -- erased at 7, the item at 3, and the seven entries. In the end the array holds at each index
  -- what `last_table` has there.
  pub xarray_test_lem :
      (kmalloc : ℕ → ℕ) (empty : k.Xarray)
      → AreItems k kmalloc
      → HasTable k empty no_entries
      → (w : World k) × (xarray_test k kmalloc
            (record { array = empty; items = λ p. none; calls = 0; printed = [] })
          ≡ some (tt, w))
        × (w.printed ≡ all_lines kmalloc)
        × HasTable k w.array (last_table kmalloc)
  unfolding xarray_test
  xarray_test_lem kmalloc empty h free =
      let h0 = HasTable-store k empty no_entries 0 (kmalloc 0) (IsEntry-item k kmalloc 0 h) free in
      let p0 = h.present 0 in
      let z0 : (kmalloc 0 == 0) ≡ false = ground arith in
      let first_item = λ (p : ℕ). if p == kmalloc 0 then some (item_of 0) else none in
      let (w1, run1, t1, printed1, third, seventh) =
        store_items_lem k kmalloc (k.xa_store empty 0 (kmalloc 0)).0 first_item h h0 in
      let w2 : World k = record w1 { printed = w1.printed ++ nothing ∷ [] } in
      let (a3, run3, t3) = store_examples_lem k kmalloc w2 h t1 in
      let w3 : World k = record w2 {
        array = a3;
        printed =
            w2.printed ++ ret (kmalloc 3) ∷ [] ++ ret 0 ∷ [] ++ ret (kmalloc 5) ∷ [] ++ ret 0 ∷ [];
      } in
      let (a4, run4, t4) = look_up_lem k kmalloc w3 h t3 third seventh in
      let w4 : World k = record w3 {
        array = a4;
        printed =
            w3.printed
            ++ nothing ∷ []
            ++ nothing ∷ []
            ++ item_at (kmalloc 4) (item_of 7) ∷ []
            ++ item_at (kmalloc 2) (item_of 3) ∷ [];
      } in
      let entries = dumped kmalloc a4 h t4 in
      (
        record w4 { printed = w4.printed ++ print_entries k (k.xa_for_each a4) },
        rw (xarray_test, ◌>>=◌, new_item, z0, ◌>>=◌, store, run1, t1 6, run3, run4) refl,
        all_lines_lem kmalloc w1.printed (k.xa_for_each a4) printed1 entries,
        t4,
      )
