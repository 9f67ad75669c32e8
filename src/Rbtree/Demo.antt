-- ===== src/Rbtree/Demo.antt =====
-- rbtree/rbtree.c: the tree that `mod_init` builds and what its searches find, for every kernel that
-- keeps its laws.
use linux_device_drivers.Common.{
  ℕ, ◌≡◌, refl, ap, ◌∙◌, ◌++◌, inl, inr, Option, none, some, List, [], ◌∷◌, arith, pos,
}
use linux_device_drivers.Rbtree.Tree.{
  RbData, Tree, leaf, inorder, RbKernel, insert_arr, search_tree,
}
use linux_device_drivers.Rbtree.Order.{IsSorted, insert_sorted}
use linux_device_drivers.Rbtree.Insert.{insert_all, insert_arr_lem}
use linux_device_drivers.Rbtree.Search.{
  search_sound, search_complete, search-replace_node, IsSorted-val, IsIn, IsKeyed, IsOnly,
}

-- The pair (n, n), in the allocation with this number.
abbrev pub pair : ℕ → RbData
pair n = record { addr = n; key = pos n; val = pos n }

abbrev pub nums0 : List RbData
nums0 = pair 1 ∷ pair 2 ∷ pair 3 ∷ pair 4 ∷ pair 5 ∷ pair 6 ∷ []

abbrev pub nums1 : List RbData
nums1 = pair 7 ∷ pair 8 ∷ pair 9 ∷ pair 10 ∷ pair 11 ∷ []

-- `new`: the key 2 with the value 100.
abbrev pub new_data : RbData
new_data = record { addr = 12; key = pos 2; val = pos 100 }

-- What the four searches of `mod_init` find.
pub record Found : Type 0 where
  pub for_100 : Option RbData
  pub for_2 : Option RbData
  pub for_2_replaced : Option RbData
  pub for_2_erased : Option RbData

module _ (kernel : RbKernel) where
  open kernel use {replace_node, erase}

  -- The tree after both arrays.
  abbrev pub filled : Tree
  filled = insert_arr kernel (insert_arr kernel leaf nums0) nums1

  -- What follows the search for 2, which found the node at this address.
  abbrev pub replace_and_erase : RbData → Found
  replace_and_erase old =
      let replaced = replace_node old.addr new_data filled in
      record {
        for_100 = search_tree filled (pos 100);
        for_2 = some old;
        for_2_replaced = search_tree replaced (pos 2);
        for_2_erased = search_tree (erase new_data.addr replaced) (pos 2);
      }

  -- The tree holds both arrays in order.
  pub filled_lem : (inorder filled ≡ nums0 ++ nums1) × IsSorted (λ d. d.key) (inorder filled)
  unfolding insert_all insert_sorted
  filled_lem =
      let (e, s) = insert_arr_lem kernel leaf nums0 tt in
      let (e', s') = insert_arr_lem kernel (insert_arr kernel leaf nums0) nums1 s in
      (e' ∙ ap (insert_all nums1) e, s')

  filled-IsKeyed : IsKeyed (inorder filled)
  filled-IsKeyed = rw filled_lem.0 (ground arith)

  filled-IsOnly : IsOnly 2 (pos 2) (inorder filled)
  filled-IsOnly = rw filled_lem.0 (ground arith)

  filled-IsIn : IsIn (pair 2) (inorder filled)
  filled-IsIn = rw filled_lem.0 (inr (inl refl))

  search_100 : search_tree filled (pos 100) ≡ none
  search_100 = (search_sound filled (pos 100)).1 (rw filled_lem.0 (ground arith))

  search_2 : search_tree filled (pos 2) ≡ some (pair 2)
  search_2 =
      search_complete filled (pair 2) (IsSorted-val (inorder filled) filled-IsKeyed filled_lem.1)
        filled-IsIn

  search_replaced : search_tree (replace_node 2 new_data filled) (pos 2) ≡ none
  search_replaced =
      search-replace_node kernel filled 2 new_data filled_lem.1 filled-IsKeyed filled-IsOnly
        (ground arith)

  search_erased : search_tree (erase 12 (replace_node 2 new_data filled)) (pos 2) ≡ none
  search_erased = (search_sound (erase 12 (replace_node 2 new_data filled)) (pos 2)).1 (
      rw
        (
          kernel.inorder-erase 12 (replace_node 2 new_data filled),
          kernel.inorder-replace_node 2 new_data filled,
          filled_lem.0,
        )
        (ground arith))

  -- With any kernel that keeps its laws, the searches of `mod_init` find nothing for 100, the pair
  -- (2, 2) for 2, and nothing for 2 both once the pair is replaced by (2, 100) and once that is
  -- erased.
  pub replace_and_erase_lem :
      (search_tree filled (pos 2) ≡ some (pair 2))
      × (replace_and_erase (pair 2) ≡ record {
        for_100 = none;
        for_2 = some (pair 2);
        for_2_replaced = none;
        for_2_erased = none;
      })
  replace_and_erase_lem = (
    search_2,
    λ i. record {
      for_100 = search_100 i;
      for_2 = some (pair 2);
      for_2_replaced = search_replaced i;
      for_2_erased = search_erased i;
    },
  )
