-- ===== src/Rbtree/Destroy.antt =====
-- rbtree/rbtree.c: `destroy_tree`, which erases and frees nodes while it walks in postorder.
use linux_device_drivers.Common.{
  ℕ, zero, suc, Option, none, some, List, [], ◌∷◌, length, ◌==◌, if◌then◌else◌,
}
use linux_device_drivers.Rbtree.Tree.{RbData, Tree, leaf, node, inorder, postorder, RbKernel}

abbrev pub head_addr : List RbData → Option ℕ
head_addr [] = none
head_addr (d ∷ ds) = some d.addr

-- `rb_next_postorder`, read off the tree's postorder.
abbrev pub next_in : ℕ → List RbData → Option ℕ
next_in a [] = none
next_in a (d ∷ ds) = if d.addr == a then head_addr ds else next_in a ds

-- `kfree(cur)`, before what the rest of the loop frees.
abbrev pub free_first : ℕ → Option (Tree × List ℕ) → Option (Tree × List ℕ)
free_first a none = none
free_first a (some (left, freed)) = some (left, a ∷ freed)

module _ (kernel : RbKernel) where
  open kernel use {erase}

  -- The loop of `destroy_tree`: the next node is found before the current one is erased and freed,
  -- in the tree as the erasures before have left it. The result has the tree that is left, and the
  -- nodes that were freed, in order; `none` means that the fuel ran out.
  unfoldable pub destroy_loop : ℕ → Tree → Option ℕ → Option (Tree × List ℕ)
  destroy_loop zero t cur = none
  destroy_loop (suc fuel) t none = some (t, [])
  destroy_loop (suc fuel) t (some a) =
      free_first a (destroy_loop fuel (erase a t) (next_in a (postorder t)))

  -- `destroy_tree`; the fuel is one more than the nodes. In an empty tree the null pointer at the
  -- root is followed for the log: `none`.
  unfoldable pub destroy_tree : Tree → Option (Tree × List ℕ)
  unfolding destroy_loop
  destroy_tree leaf = none
  destroy_tree (node l d r) =
      destroy_loop (suc (length (inorder (node l d r)))) (node l d r)
        (head_addr (postorder (node l d r)))
