-- ===== src/Tests/Trees.antt =====
-- The theorems of the red-black tree on small trees, with a kernel that never rebalances.
use mathlib.Core.List.{Perm}
use linux_device_drivers.Common.{◌++◌, ℕ, ◌+◌, ◌≡◌, refl, ap, none, some, List, [], ◌∷◌, arith, pos}
use linux_device_drivers.Rbtree.Tree.{
  RbData, Tree, leaf, node, inorder, remove, substitute, RbKernel, insert_arr, search_tree,
}
use linux_device_drivers.Rbtree.Order.{IsSorted}
use linux_device_drivers.Rbtree.Insert.{insert_all, insert_arr_lem}
use linux_device_drivers.Rbtree.Demo.{pair, nums0, nums1, new_data}
use linux_device_drivers.Rbtree.Table.{put_all}
use linux_device_drivers.Rbtree.Lookup.{IsTable, search-insert_arr}
use linux_device_drivers.Rbtree.Whole.{Run, others, whole_init, whole_init_lem}
use linux_device_drivers.Rbtree.Destroy.{destroy_loop, destroy_tree}
use linux_device_drivers.Rbtree.DestroyCount.{count, times, destroy_tree_lem}

abbrev from_list : List RbData → Tree
from_list [] = leaf
from_list (d ∷ ds) = node leaf d (from_list ds)

inorder-from_list : (ds : List RbData) → inorder (from_list ds) ≡ ds
inorder-from_list [] = refl
inorder-from_list (d ∷ ds) = ap (λ l. d ∷ l) (inorder-from_list ds)

abbrev plain_kernel : RbKernel
plain_kernel = record {
  insert_color = λ t. t;
  replace_node = λ a new t. from_list (substitute a new (inorder t));
  erase = λ a t. from_list (remove a (inorder t));
  inorder-insert_color = λ t. refl;
  inorder-replace_node = λ a new t. inorder-from_list (substitute a new (inorder t));
  inorder-erase = λ a t. inorder-from_list (remove a (inorder t));
}

abbrev datum : ℕ → RbData
datum n = record { addr = n; key = pos n; val = pos n }

abbrev two_nodes : Tree
two_nodes = node (node leaf (datum 1) leaf) (datum 3) leaf

two_nodes-IsSorted : IsSorted (λ d. d.key) (inorder two_nodes)
two_nodes-IsSorted = ((omega arith, tt), (tt, tt))

abbrev replaced : RbData
replaced = record { addr = 9; key = pos 3; val = pos 7 }

insert_arr_lem_example :
    (inorder (insert_arr plain_kernel two_nodes (datum 2 ∷ datum 4 ∷ []))
      ≡ insert_all (datum 2 ∷ datum 4 ∷ []) (inorder two_nodes))
    × IsSorted (λ d. d.key) (inorder (insert_arr plain_kernel two_nodes (datum 2 ∷ datum 4 ∷ [])))
insert_arr_lem_example =
    insert_arr_lem plain_kernel two_nodes (datum 2 ∷ datum 4 ∷ []) two_nodes-IsSorted

destroy_tree_lem_example :
    (left : Tree) × (freed : List ℕ) × (destroy_tree plain_kernel two_nodes ≡ some (left, freed))
    × ((b : ℕ) → times b freed + count b (inorder left) ≡ count b (inorder two_nodes))
destroy_tree_lem_example =
    destroy_tree_lem plain_kernel (node leaf (datum 1) leaf) leaf (datum 3) (λ a. ground arith)

abbrev four_nodes : Tree
four_nodes =
    node (node leaf (datum 1) leaf) (datum 2) (node (node leaf (datum 3) leaf) (datum 4) leaf)

-- Erasing may put a node behind the one that is visited next: it is then left in the tree.
destroy_tree_leaves :
    destroy_tree plain_kernel four_nodes ≡ some (node leaf (datum 4) leaf, 1 ∷ 3 ∷ 2 ∷ [])
unfolding destroy_tree destroy_loop
destroy_tree_leaves = refl

whole_init_lem_example :
    (run : Run) × (whole_init plain_kernel ≡ some run)
    × Perm run.initial.1 nums0
    × Perm run.after_insertion.1 (nums0 ++ nums1)
    × Perm run.after_replacing.1 (pair 1 ∷ new_data ∷ others)
    × Perm run.after_erasing.1 (pair 1 ∷ others)
    × (run.found ≡ record {
      for_100 = none;
      for_2 = some (pair 2);
      for_2_replaced = none;
      for_2_erased = none;
    })
    × ((b : ℕ) → times b run.freed + count b (inorder run.left) ≡ count b (nums0 ++ nums1))
whole_init_lem_example = whole_init_lem plain_kernel

search-insert_arr_example :
    (search_tree (insert_arr plain_kernel two_nodes (datum 3 ∷ datum 2 ∷ []))
      ≡ put_all (datum 3 ∷ datum 2 ∷ []) (search_tree two_nodes))
    × IsTable (insert_arr plain_kernel two_nodes (datum 3 ∷ datum 2 ∷ []))
search-insert_arr_example =
    search-insert_arr plain_kernel two_nodes (datum 3 ∷ datum 2 ∷ [])
      (record { sorted = two_nodes-IsSorted; keyed = (refl, (refl, tt)) }) (refl, (refl, tt))
