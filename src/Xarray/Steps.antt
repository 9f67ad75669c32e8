-- ===== src/Xarray/Steps.antt =====
-- xarray/xarray.c: the parts of `xarray_test`, each by what the array holds at every index.
use linux_device_drivers.Common.{
  ℕ, suc, ◌+◌, ◌%◌, ◌≤◌, ◌≡◌, ◌≢◌, refl, ◌∙◌, true, false, Option, some, List, [], ◌∷◌, ◌++◌, arith,
  leb, ◌==◌, if◌then◌else◌,
}
use linux_device_drivers.Xarray.Demo.{
  ◌>>=◌, IsEntry, XaKernel, Item, Line, ret, World, new_item, store, store_items,
}

-- A table with another entry at an index.
abbrev pub put : ℕ → ℕ → (ℕ → ℕ) → ℕ → ℕ
put i entry table j = if j == i then entry else table j

abbrev pub no_entries : ℕ → ℕ
no_entries j = 0

-- The table after the loop: an item at 0 and at each odd index below 10.
abbrev pub filled : (ℕ → ℕ) → ℕ → ℕ
filled kmalloc = put 9 (kmalloc 5) (
    put 7 (kmalloc 4)
      (put 5 (kmalloc 3) (put 3 (kmalloc 2) (put 1 (kmalloc 1) (put 0 (kmalloc 0) no_entries)))))

-- What the array holds when it is destroyed.
abbrev pub last_table : (ℕ → ℕ) → ℕ → ℕ
last_table kmalloc =
    put 7 0
      (put 4 0 (put 6 0x45 (put 9 (kmalloc 2) (put 2 (kmalloc 2) (put 5 0x44 (filled kmalloc))))))

abbrev pub item_of : ℕ → Item
item_of i = record { index = i; order = i + 100 }

abbrev pub five_zeros : List Line
five_zeros = ret 0 ∷ ret 0 ∷ ret 0 ∷ ret 0 ∷ ret 0 ∷ []

abbrev pub after_examples : (ℕ → ℕ) → ℕ → ℕ
after_examples kmalloc =
    put 6 0x45 (put 9 (kmalloc 2) (put 2 (kmalloc 2) (put 5 0x44 (filled kmalloc))))

module _ (k : XaKernel) where
  -- What an array holds at each index.
  abbrev pub HasTable : k.Xarray → (ℕ → ℕ) → Type 0
  HasTable a table = (j : ℕ) → k.xa_load a j ≡ table j

  pub HasTable-store :
      (a : k.Xarray) (table : ℕ → ℕ) (i entry : ℕ)
      → IsEntry entry
      → HasTable a table
      → HasTable (k.xa_store a i entry).0 (put i entry table)
  HasTable-store a table i entry e h j = rw (k.load-xa_store a i entry j e, h j) refl

  pub old_lem :
      (a : k.Xarray) (table : ℕ → ℕ) (i entry : ℕ)
      → IsEntry entry
      → HasTable a table
      → (k.xa_store a i entry).1 ≡ table i
  old_lem a table i entry e h = k.old-xa_store a i entry e ∙ h i

  pub HasTable-erase :
      (a : k.Xarray) (table : ℕ → ℕ) (i : ℕ)
      → HasTable a table
      → HasTable (k.xa_erase a i).0 (put i 0 table)
  HasTable-erase a table i h j = rw (k.load-xa_erase a i j, h j) refl

  -- Items at six addresses that are aligned, as `kmalloc` documents, not NULL, and different.
  pub record AreItems (kmalloc : ℕ → ℕ) : Type 0 where
    pub aligned : (n : ℕ) → kmalloc n % 8 ≡ 0
    pub present : (n : ℕ) → kmalloc n ≢ 0
    pub different : (i j : ℕ) → i ≢ j → kmalloc i ≢ kmalloc j

  pub IsEntry-item : (kmalloc : ℕ → ℕ) (n : ℕ) → AreItems kmalloc → IsEntry (kmalloc n)
  IsEntry-item kmalloc n h = let e = h.aligned n in omega arith

  -- An item is made and stored at an index that is free.
  store_items_step :
      (kmalloc : ℕ → ℕ) (fuel i : ℕ) (w : World k) (table : ℕ → ℕ)
      → AreItems kmalloc
      → i ≤ 10
      → HasTable w.array table
      → store_items k kmalloc (suc fuel) i w
        ≡ store_items k kmalloc fuel (i + 2) (record w {
          array = (k.xa_store w.array i (kmalloc w.calls)).0;
          items = λ p.
              if p == kmalloc w.calls
              then some (record { index = i; order = i + 100 })
              else w.items p;
          calls = w.calls + 1;
          printed = w.printed ++ ret (table i) ∷ [];
        })
  unfolding store_items
  store_items_step kmalloc fuel i w table items le h =
      let present = items.present w.calls in
      let z : (kmalloc w.calls == 0) ≡ false = ground arith in
      let inside : leb i 10 ≡ true = ground arith in
      let old = old_lem w.array table i (kmalloc w.calls) (IsEntry-item kmalloc w.calls items) h in
      rw (store_items, inside, ◌>>=◌, new_item, z, ◌>>=◌, store, old) refl

  pub store_items_lem :
      (kmalloc : ℕ → ℕ) (a : k.Xarray) (items : ℕ → Option Item)
      → AreItems kmalloc
      → HasTable a (put 0 (kmalloc 0) no_entries)
      → (w' : World k) × (store_items k kmalloc 6 1
            (record { array = a; items = items; calls = 1; printed = [] })
          ≡ some (tt, w'))
        × HasTable w'.array (filled kmalloc)
        × (w'.printed ≡ five_zeros)
        × (w'.items (kmalloc 2) ≡ some (item_of 3))
        × (w'.items (kmalloc 4) ≡ some (item_of 7))
  unfolding store_items
  store_items_lem kmalloc a items h t =
      let e = λ (n : ℕ). IsEntry-item kmalloc n h in
      let t0 = put 0 (kmalloc 0) no_entries in
      let t1 = put 1 (kmalloc 1) t0 in
      let t2 = put 3 (kmalloc 2) t1 in
      let t3 = put 5 (kmalloc 3) t2 in
      let t4 = put 7 (kmalloc 4) t3 in
      let h1 = HasTable-store a t0 1 (kmalloc 1) (e 1) t in
      let h2 = HasTable-store _ t1 3 (kmalloc 2) (e 2) h1 in
      let h3 = HasTable-store _ t2 5 (kmalloc 3) (e 3) h2 in
      let h4 = HasTable-store _ t3 7 (kmalloc 4) (e 4) h3 in
      let h5 = HasTable-store _ t4 9 (kmalloc 5) (e 5) h4 in
      let d25 = h.different 2 5 (omega arith) in
      let d24 = h.different 2 4 (omega arith) in
      let d23 = h.different 2 3 (omega arith) in
      let d45 = h.different 4 5 (omega arith) in
      (
        _,
        store_items_step kmalloc 5 1 _ t0 h (omega arith) t
            ∙ store_items_step kmalloc 4 3 _ t1 h (omega arith) h1
            ∙ store_items_step kmalloc 3 5 _ t2 h (omega arith) h2
            ∙ store_items_step kmalloc 2 7 _ t3 h (omega arith) h3
            ∙ store_items_step kmalloc 1 9 _ t4 h (omega arith) h4,
        h5,
        refl,
        ground arith,
        ground arith,
      )
