-- ===== src/Rbtree/Whole.antt =====
-- rbtree/rbtree.c: `mod_init` as a whole, with its dumps, the nodes that it frees, and the destruction of
-- its tree at the end. The memory for the nodes is taken to be there.
use mathlib.Core.List.{Perm, perm_append_singleton}
use mathlib.Core.List.Perm
use linux_device_drivers.Common.{
  ℕ, ◌+◌, ◌≡◌, refl, ap, ◌∙◌, Option, none, some, List, [], ◌∷◌, ◌++◌, arith, ℤ, pos,
}
use linux_device_drivers.Rbtree.Tree.{
  RbData, Tree, leaf, node, inorder, postorder, RbKernel, insert_arr, dump_tree, search_tree,
}
use linux_device_drivers.Rbtree.Order.{insert_sorted}
use linux_device_drivers.Rbtree.Insert.{insert_all, insert_arr_lem}
use linux_device_drivers.Rbtree.Destroy.{destroy_tree}
use linux_device_drivers.Rbtree.DestroyCount.{IsDistinct, times, count, destroy_tree_lem}
use linux_device_drivers.Rbtree.Demo.{
  pair, nums0, nums1, new_data, Found, filled, replace_and_erase, replace_and_erase_lem, filled_lem,
}

-- A dump: the value at the root, and the nodes in the order in which they are printed.
abbrev pub Dump : Type 0
Dump = ℤ × List RbData

-- What a run of `mod_init` prints and does: its four dumps, what its searches find, the tree at its
-- end, and the nodes that it frees, in order.
pub record Run : Type 0 where
  pub initial : Dump
  pub after_insertion : Dump
  pub after_replacing : Dump
  pub after_erasing : Dump
  pub found : Found
  pub left : Tree
  pub freed : List ℕ

infixl 5 ◌>>=◌
abbrev ◌>>=◌ {ℓ κ} : {A : Type ℓ} {B : Type κ} → Option A → (A → Option B) → Option B
none >>= f = none
some a >>= f = f a

-- Every node is dumped once.
postorder-perm : (t : Tree) → Perm (postorder t) (inorder t)
postorder-perm leaf = Perm.rfl
postorder-perm (node l d r) =
    Perm.append (postorder-perm l)
      (Perm.trans (perm_append_singleton d (postorder r)) (Perm.cons d (postorder-perm r)))

dump_tree-perm :
    (t : Tree) (d : RbData) (ds : List RbData)
    → inorder t ≡ d ∷ ds
    → (dump : Dump) × (dump_tree t ≡ some dump) × Perm dump.1 (d ∷ ds)
unfolding dump_tree
dump_tree-perm leaf d ds e = absurd (cc)
dump_tree-perm (node l x r) d ds e = (_, refl, rw (← e) (postorder-perm (node l x r)))

-- The pairs from 3 on.
abbrev pub others : List RbData
others = pair 3 ∷ pair 4 ∷ pair 5 ∷ pair 6 ∷ pair 7 ∷ pair 8 ∷ pair 9 ∷ pair 10 ∷ pair 11 ∷ []

module _ (kernel : RbKernel) where
  open kernel use {replace_node, erase}

  -- `mod_init`; `none` is a null pointer that is followed: the root of an empty tree in a dump or in
  -- `destroy_tree`, or the node with the key 2 when it is not found.
  unfoldable pub whole_init : Option Run
  whole_init = do
    initial ← dump_tree (insert_arr kernel leaf nums0)
    after_insertion ← dump_tree (filled kernel)
    old ← search_tree (filled kernel) (pos 2)
    let replaced = replace_node old.addr new_data (filled kernel)
    after_replacing ← dump_tree replaced
    let rest = erase new_data.addr replaced
    after_erasing ← dump_tree rest
    (left, freed) ← destroy_tree kernel rest
    some (record {
      initial = initial;
      after_insertion = after_insertion;
      after_replacing = after_replacing;
      after_erasing = after_erasing;
      found = replace_and_erase kernel old;
      left = left;
      freed = old.addr ∷ freed;
    })

  abbrev replaced : Tree
  replaced = replace_node 2 new_data (filled kernel)

  abbrev remaining : Tree
  remaining = erase 12 replaced

  first_lem : inorder (insert_arr kernel leaf nums0) ≡ nums0
  unfolding insert_all insert_sorted
  first_lem = (insert_arr_lem kernel leaf nums0 tt).0

  replaced_lem : inorder replaced ≡ pair 1 ∷ new_data ∷ others
  replaced_lem =
      rw (kernel.inorder-replace_node 2 new_data (filled kernel), (filled_lem kernel).0)
        (ground arith)

  remaining_lem : inorder remaining ≡ pair 1 ∷ others
  remaining_lem = rw (kernel.inorder-erase 12 replaced, replaced_lem) (ground arith)

  remaining-IsDistinct : IsDistinct (pair 1 ∷ others)
  remaining-IsDistinct a = ground arith

  destroyed :
      (t : Tree)
      → inorder t ≡ pair 1 ∷ others
      → (left : Tree) × (freed : List ℕ) × (destroy_tree kernel t ≡ some (left, freed))
        × ((b : ℕ) → times b freed + count b (inorder left) ≡ count b (pair 1 ∷ others))
  destroyed leaf e = absurd (cc)
  destroyed (node l d r) e =
      let (left, freed, run, counts) =
        destroy_tree_lem kernel l r d (λ a. rw e (remaining-IsDistinct a)) in
      (left, freed, run, λ b. counts b ∙ ap (count b) e)

  freed_or_left :
      (b : ℕ) (freed : List ℕ) (n : ℕ)
      → times b freed + n ≡ count b (pair 1 ∷ others)
      → times b (2 ∷ freed) + n ≡ count b (nums0 ++ nums1)
  freed_or_left b freed n e = ground arith

  -- With any kernel that keeps its laws the whole of `mod_init` runs without following a null pointer,
  -- in its four dumps, its replacement and its destruction: the dumps list, in some order, the first
  -- array, both arrays, those with (2, 100) in place of (2, 2), and those without a pair for 2; the
  -- searches find nothing for 100, the pair (2, 2) for 2, and nothing for 2 once it is replaced and
  -- once that is erased; and each of the eleven pairs of the arrays is at the end either freed exactly
  -- once or still in the tree, and nothing else is: the new pair is never freed.
  pub whole_init_lem :
      (run : Run) × (whole_init ≡ some run)
      × Perm run.initial.1 nums0
      × Perm run.after_insertion.1 (nums0 ++ nums1)
      × Perm run.after_replacing.1 (pair 1 ∷ new_data ∷ others)
      × Perm run.after_erasing.1 (pair 1 ∷ others)
      × (run.found ≡ record {
        for_100 = none;
        for_2 = some (pair 2);
        for_2_replaced = none;
        for_2_erased = none;
      })
      × ((b : ℕ) → times b run.freed + count b (inorder run.left) ≡ count b (nums0 ++ nums1))
  unfolding whole_init
  whole_init_lem =
      let (search_2, found) = replace_and_erase_lem kernel in
      let (first, e, p) = dump_tree-perm (insert_arr kernel leaf nums0) (pair 1) _ first_lem in
      let (second, e', p') = dump_tree-perm (filled kernel) (pair 1) _ (filled_lem kernel).0 in
      let (third, e'', p'') = dump_tree-perm replaced (pair 1) _ replaced_lem in
      let (fourth, e3, p3) = dump_tree-perm remaining (pair 1) _ remaining_lem in
      let (left, freed, run, counts) = destroyed remaining remaining_lem in
      (
        record {
          initial = first;
          after_insertion = second;
          after_replacing = third;
          after_erasing = fourth;
          found = replace_and_erase kernel (pair 2);
          left = left;
          freed = 2 ∷ freed;
        },
        rw (e, e', search_2, e'', e3, run) refl,
        p,
        p',
        p'',
        p3,
        found,
        λ b. freed_or_left b freed (count b (inorder left)) (counts b),
      )
