-- ===== src/Xarray/Demo.antt =====
-- xarray/xarray.c: `xarray_test`. The kernel's xarray is an interface with the laws that
-- Documentation/core-api/xarray.rst gives, for a kernel whose allocations inside the array succeed.
-- An entry is the number of a pointer, 0 is NULL.
use linux_device_drivers.Common.{
  ℕ, zero, suc, ◌+◌, ◌-◌, ◌%◌, ◌^◌, ◌≤◌, ◌≡◌, ◌≢◌, Option, none, some, List, [], ◌∷◌, ◌++◌, leb,
  ◌==◌, if◌then◌else◌, ℤ, pos,
}

-- The entries of a table at the `n` indices from `i` on that are not NULL.
abbrev pub entries_from : (ℕ → ℕ) → ℕ → ℕ → List (ℕ × ℕ)
entries_from table i zero = []
entries_from table i (suc n) =
    let rest = entries_from table (i + 1) n in if table i == 0 then rest else (i, table i) ∷ rest

-- Pointers whose lowest bits are 10 are the array's own.
abbrev pub IsEntry : ℕ → Type 0
IsEntry entry = entry % 4 ≢ 2

-- `xa_find` is asked for the first present index from `i` up to `max`.
pub record XaKernel : Type 1 where
  pub Xarray : Type 0
  pub xa_load : Xarray → ℕ → ℕ
  pub xa_store : Xarray → ℕ → ℕ → Xarray × ℕ
  pub xa_erase : Xarray → ℕ → Xarray × ℕ
  pub xa_find : Xarray → ℕ → ℕ → ℕ × ℕ
  pub xa_for_each : Xarray → List (ℕ × ℕ)
  pub old-xa_store :
      (a : Xarray) (i entry : ℕ) → IsEntry entry → (xa_store a i entry).1 ≡ xa_load a i
  pub load-xa_store :
      (a : Xarray) (i entry j : ℕ)
      → IsEntry entry
      → xa_load (xa_store a i entry).0 j ≡ (if j == i then entry else xa_load a j)
  pub old-xa_erase : (a : Xarray) (i : ℕ) → (xa_erase a i).1 ≡ xa_load a i
  pub load-xa_erase :
      (a : Xarray) (i j : ℕ) → xa_load (xa_erase a i).0 j ≡ (if j == i then 0 else xa_load a j)
  pub xa_find_present :
      (a : Xarray) (i max : ℕ) → i ≤ max → xa_load a i ≢ 0 → xa_find a i max ≡ (i, xa_load a i)
  pub xa_for_each_lem :
      (a : Xarray) (n : ℕ)
      → ((j : ℕ) → n ≤ j → xa_load a j ≡ 0)
      → xa_for_each a ≡ entries_from (xa_load a) 0 n

-- `struct item`.
pub record Item : Type 0 where
  pub index : ℕ
  pub order : ℕ

-- What is printed of a pointer: the value that a call returned, the item behind it, that nothing was
-- found, or an index with its entry in the dump.
pub data Line : Type 0 where
  ret : ℕ → Line
  item_at : ℕ → Item → Line
  nothing : Line
  each : ℕ → ℕ → Line

module _ (k : XaKernel) where
  open k use {Xarray, xa_load, xa_store, xa_erase, xa_find, xa_for_each}

  -- The array, the items by address, how often `kmalloc` was called, and what was printed but for
  -- the addresses of new items and the array's own.
  pub record World : Type 0 where
    pub array : Xarray
    pub items : ℕ → Option Item
    pub calls : ℕ
    pub printed : List Line

  -- `none` is a fault: the use of a pointer that is not an item's.
  abbrev pub M : Type 0 → Type 0
  M A = World → Option (A × World)

  infixl 5 ◌>>=◌ ◌>>◌
  abbrev pub ◌>>=◌ : {A B : Type 0} → M A → (A → M B) → M B
  ◌>>=◌ act f w = elim (act w) [ none ↦ none | some (a, w') ↦ f a w' ]

  abbrev pub ◌>>◌ : {B : Type 0} → M (Unit {0}) → M B → M B
  act >> next = act >>= λ _. next

  abbrev pub print : Line → M (Unit {0})
  print line w = some (tt, record w { printed = w.printed ++ line ∷ [] })

  -- `xa_store`, `xa_erase`, `xa_load` and `xa_find` on the static array.
  abbrev pub store : ℕ → ℕ → M ℕ
  store i entry w =
      let (array, old) = xa_store w.array i entry in some (old, record w { array = array })

  abbrev pub erase : ℕ → M ℕ
  erase i w = let (array, old) = xa_erase w.array i in some (old, record w { array = array })

  abbrev pub load : ℕ → M ℕ
  load i w = some (xa_load w.array i, w)

  abbrev pub find : ℕ → M ℕ
  find i w = some ((xa_find w.array i (2 ^ 64 - 1)).1, w)

  -- `kmalloc` of an item and the writes to its fields: the result is not compared with NULL.
  abbrev pub new_item : (ℕ → ℕ) → ℕ → ℕ → M ℕ
  new_item kmalloc index order w =
      if kmalloc w.calls == 0
      then none
      else some (
        kmalloc w.calls,
        record w {
          calls = w.calls + 1;
          items = λ p.
              if p == kmalloc w.calls
              then some (record { index = index; order = order })
              else w.items p;
        },
      )

  -- `printk` of what is behind a pointer.
  abbrev pub print_item : ℕ → M (Unit {0})
  print_item p w = elim (w.items p) [ none ↦ none | some item ↦ print (item_at p item) w ]

  abbrev pub print_found : ℕ → M (Unit {0})
  print_found p = if p == 0 then print nothing else print_item p

  -- The loop over i = 1, 3, 5, 7, 9, on fuel.
  unfoldable pub store_items : (ℕ → ℕ) → ℕ → ℕ → M (Unit {0})
  store_items kmalloc zero i = λ w. none
  store_items kmalloc (suc fuel) i =
      let others = store_items kmalloc fuel (i + 2) in
      if leb i 10
      then (do p ← new_item kmalloc i (i + 100); old ← store i p; print (ret old); others)
      else (λ w. some (tt, w))

  -- The stores of 0x44, of what index 3 holds, and of 0x45; the first does not print a NULL.
  unfoldable pub store_examples : M (Unit {0})
  store_examples = do
    old ← store 5 0x44
    (if old == 0 then print nothing else print (ret old))
    third ← load 3
    old ← store 2 third
    print (ret old)
    third ← load 3
    old ← store 9 third
    print (ret old)
    old ← store 6 0x45
    print (ret old)

  -- The loads, erasures and the search.
  unfoldable pub look_up : M (Unit {0})
  look_up = do
    p ← load 8
    print_found p
    p ← erase 4
    print_found p
    p ← erase 7
    print_found p
    p ← load 3
    (if p == 0 then print nothing else (do q ← find 3; print_item q))

  -- The dump by `xa_for_each`.
  abbrev pub print_entries : List (ℕ × ℕ) → List Line
  print_entries [] = []
  print_entries ((i, entry) ∷ rest) = each i entry ∷ print_entries rest

  abbrev pub dump : M (Unit {0})
  dump w = some (tt, record w { printed = w.printed ++ print_entries (xa_for_each w.array) })

  -- `xarray_test` up to `xa_destroy`.
  unfoldable pub xarray_test : (ℕ → ℕ) → M (Unit {0})
  unfolding store_items store_examples look_up
  xarray_test kmalloc = do
    p ← new_item kmalloc 0 100
    _ ← store 0 p
    store_items kmalloc 6 1
    p ← load 6
    print_found p
    store_examples
    look_up
    dump

  -- `xarray_mod_init`.
  unfoldable pub xarray_mod_init : (ℕ → ℕ) → M ℤ
  unfolding xarray_test
  xarray_mod_init kmalloc = do xarray_test kmalloc; λ w. some (pos 0, w)
