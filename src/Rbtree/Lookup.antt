-- ===== src/Rbtree/Lookup.antt =====
-- The tree of rbtree/rbtree.c as a table: what `search` sees of an insertion, whatever the kernel does
-- to the shape of the tree.
use linux_device_drivers.Common.{◌≡◌, refl, sym, ap, ◌∙◌, fun_ext, List, [], ◌∷◌, ℤ}
use linux_device_drivers.Rbtree.Tree.{
  RbData, Tree, inorder, RbKernel, search_tree, insert, insert_arr,
}
use linux_device_drivers.Rbtree.Order.{IsSorted, All-insert_sorted, insert_sorted-IsSorted}
use linux_device_drivers.Rbtree.Insert.{insert_lem}
use linux_device_drivers.Rbtree.Search.{IsKeyed, IsSorted-val}
use linux_device_drivers.Rbtree.Table.{
  put_at, put_new, put_all, find_in, search_find, find_in-insert_sorted,
}

-- The invariant: in order of the keys, and every value is its key.
pub record IsTable (t : Tree) : Type 0 where
  pub sorted : IsSorted (λ e. e.key) (inorder t)
  pub keyed : IsKeyed (inorder t)

module _ (kernel : RbKernel) where
  insert-IsTable :
      (t : Tree) (new : RbData) → IsTable t → new.val ≡ new.key → IsTable (insert kernel t new)
  insert-IsTable t new h n =
      let e = insert_lem kernel t new h.sorted in
      record {
        sorted = rw e (insert_sorted-IsSorted new (inorder t) h.sorted);
        keyed = rw e (All-insert_sorted (λ d. d.val ≡ d.key) new (inorder t) n h.keyed);
      }

  search_table : (t : Tree) (v : ℤ) → IsTable t → search_tree t v ≡ find_in (inorder t) v
  search_table t v h = search_find t v (IsSorted-val (inorder t) h.keyed h.sorted)

  insert_table :
      (t : Tree) (new : RbData) (v : ℤ)
      → IsTable t
      → new.val ≡ new.key
      → search_tree (insert kernel t new) v ≡ put_new new (search_tree t) v
  insert_table t new v h n =
      search_table (insert kernel t new) v (insert-IsTable t new h n)
      ∙ ap (λ l. find_in l v) (insert_lem kernel t new h.sorted)
      ∙ find_in-insert_sorted new (inorder t) v h.sorted h.keyed n
      ∙ ap (put_at new v) (sym (search_table t v h))

  -- A tree in order of its keys whose values are its keys is a table to `search`, and `insert_arr`
  -- is the table's own operation for each pair of the array, as an equation between functions: a pair
  -- is put under its key if nothing stands there yet, and all else stays. What a kernel does to
  -- balance the tree is never seen. The pairs' values are their keys, and the invariant is kept.
  pub search-insert_arr :
      (t : Tree) (ds : List RbData)
      → IsTable t
      → IsKeyed ds
      → (search_tree (insert_arr kernel t ds) ≡ put_all ds (search_tree t))
        × IsTable (insert_arr kernel t ds)
  unfolding insert_arr
  search-insert_arr t [] h k = (refl, h)
  search-insert_arr t (d ∷ ds) h k =
      let (same, kept) = search-insert_arr (insert kernel t d) ds (insert-IsTable t d h k.0) k.1 in
      (same ∙ ap (put_all ds) (fun_ext λ v. insert_table t d v h k.0), kept)
