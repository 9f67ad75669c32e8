-- ===== src/Xarray/Lookups.antt =====
-- xarray/xarray.c: the stores, loads and erasures behind the loop of `xarray_test`.
use linux_device_drivers.Common.{
  ℕ, ◌-◌, ◌^◌, ◌≡◌, refl, sym, ap, ◌∙◌, false, some, [], ◌∷◌, ◌++◌, arith, ◌==◌,
}
use linux_device_drivers.Xarray.Demo.{
  ◌>>=◌, XaKernel, ret, item_at, nothing, World, find, print_item, store_examples, look_up,
}
use linux_device_drivers.Xarray.Steps.{
  put, HasTable, HasTable-store, HasTable-erase, old_lem, AreItems, IsEntry-item, filled,
  last_table, item_of, after_examples,
}

module _ (k : XaKernel) where
  pub store_examples_lem :
      (kmalloc : ℕ → ℕ) (w : World k)
      → AreItems k kmalloc
      → HasTable k w.array (filled kmalloc)
      → (a : k.Xarray) × (store_examples k w
          ≡ some (
            tt,
            record w {
              array = a;
              printed =
                  w.printed
                  ++ ret (kmalloc 3) ∷ []
                  ++ ret 0 ∷ []
                  ++ ret (kmalloc 5) ∷ []
                  ++ ret 0 ∷ [];
            },
          ))
        × HasTable k a (after_examples kmalloc)
  unfolding store_examples
  store_examples_lem kmalloc w h t =
      let e = IsEntry-item k kmalloc 2 h in
      let t0 = filled kmalloc in
      let t1 = put 5 0x44 t0 in
      let t2 = put 2 (kmalloc 2) t1 in
      let t3 = put 9 (kmalloc 2) t2 in
      let h1 = HasTable-store k w.array t0 5 0x44 (omega arith) t in
      let h2 = HasTable-store k _ t1 2 (kmalloc 2) e h1 in
      let h3 = HasTable-store k _ t2 9 (kmalloc 2) e h2 in
      let h4 = HasTable-store k _ t3 6 0x45 (omega arith) h3 in
      let present = h.present 3 in
      let z : (kmalloc 3 == 0) ≡ false = ground arith in
      (
        _,
        rw
            (
              store_examples,
              old_lem k w.array t0 5 0x44 (omega arith) t,
              z,
              h1 3,
              old_lem k _ t1 2 (kmalloc 2) e h1,
              h2 3,
              old_lem k _ t2 9 (kmalloc 2) e h2,
              old_lem k _ t3 6 0x45 (omega arith) h3,
            )
            refl,
        h4,
      )

  pub look_up_lem :
      (kmalloc : ℕ → ℕ) (w : World k)
      → AreItems k kmalloc
      → HasTable k w.array (after_examples kmalloc)
      → w.items (kmalloc 2) ≡ some (item_of 3)
      → w.items (kmalloc 4) ≡ some (item_of 7)
      → (a : k.Xarray) × (look_up k w
          ≡ some (
            tt,
            record w {
              array = a;
              printed =
                  w.printed
                  ++ nothing ∷ []
                  ++ nothing ∷ []
                  ++ item_at (kmalloc 4) (item_of 7) ∷ []
                  ++ item_at (kmalloc 2) (item_of 3) ∷ [];
            },
          ))
        × HasTable k a (last_table kmalloc)
  unfolding look_up
  look_up_lem kmalloc w h t third seventh =
      let t0 = after_examples kmalloc in
      let h1 = HasTable-erase k w.array t0 4 t in
      let h2 = HasTable-erase k _ (put 4 0 t0) 7 h1 in
      let at4 = k.old-xa_erase w.array 4 ∙ t 4 in
      let at7 : (k.xa_erase (k.xa_erase w.array 4).0 7).1 ≡ kmalloc 4 =
        k.old-xa_erase (k.xa_erase w.array 4).0 7 ∙ h1 7 in
      let at3 : k.xa_load (k.xa_erase (k.xa_erase w.array 4).0 7).0 3 ≡ kmalloc 2 = h2 3 in
      let p2 = h.present 2 in
      let p4 = h.present 4 in
      let z2 : (kmalloc 2 == 0) ≡ false = ground arith in
      let z4 : (kmalloc 4 == 0) ≡ false = ground arith in
      let found : (k.xa_find (k.xa_erase (k.xa_erase w.array 4).0 7).0 3 (2 ^ 64 - 1)).1
          ≡ kmalloc 2 =
        ap (λ r. r.1)
          (k.xa_find_present (k.xa_erase (k.xa_erase w.array 4).0 7).0 3 (2 ^ 64 - 1) (omega arith)
            (λ e. p2 (sym at3 ∙ e)))
        ∙ at3 in
      (
        _,
        rw
            (
              look_up,
              t 8,
              at4,
              at7,
              z4,
              ◌>>=◌,
              print_item,
              seventh,
              at3,
              z2,
              ◌>>=◌,
              find,
              found,
              print_item,
              third,
              found,
              at7,
            )
            refl,
        h2,
      )
