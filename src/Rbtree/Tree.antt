-- ===== src/Rbtree/Tree.antt =====
-- rbtree/rbtree.c: the tree of `struct rb_data`, and the program's own insertion, search, dump and destruction. The
-- kernel's `rb_insert_color`, `rb_replace_node` and `rb_erase` are the parameter `RbKernel`.
use linux_device_drivers.Common.{
  ℕ, ◌≡◌, true, false, Option, none, some, List, [], ◌∷◌, ◌++◌, ◌==◌, if◌then◌else◌, ℤ, ltb_ℤ,
}

-- `struct rb_data`, with the address of its allocation, by which nodes are told apart.
pub record RbData : Type 0 where
  pub addr : ℕ
  pub key : ℤ
  pub val : ℤ

-- `struct rb_root`: the links, without the colours, which only the kernel reads.
pub data Tree : Type 0 where
  leaf : Tree
  node : Tree → RbData → Tree → Tree

abbrev pub inorder : Tree → List RbData
inorder leaf = []
inorder (node l d r) = inorder l ++ d ∷ inorder r

-- The order of `rbtree_postorder_for_each_entry_safe`.
abbrev pub postorder : Tree → List RbData
postorder leaf = []
postorder (node l d r) = postorder l ++ (postorder r ++ d ∷ [])

abbrev pub remove : ℕ → List RbData → List RbData
remove a [] = []
remove a (d ∷ ds) = if d.addr == a then ds else d ∷ remove a ds

abbrev pub substitute : ℕ → RbData → List RbData → List RbData
substitute a new [] = []
substitute a new (d ∷ ds) = if d.addr == a then new ∷ ds else d ∷ substitute a new ds

-- The kernel's side: rebalancing keeps the order of the nodes, replacing puts one node in another's
-- place, erasing takes one node out.
pub record RbKernel : Type 0 where
  pub insert_color : Tree → Tree
  pub replace_node : ℕ → RbData → Tree → Tree
  pub erase : ℕ → Tree → Tree
  pub inorder-insert_color : (t : Tree) → inorder (insert_color t) ≡ inorder t
  pub inorder-replace_node :
      (a : ℕ) (new : RbData) (t : Tree)
      → inorder (replace_node a new t) ≡ substitute a new (inorder t)
  pub inorder-erase : (a : ℕ) (t : Tree) → inorder (erase a t) ≡ remove a (inorder t)

abbrev pub in_left : RbData → Tree → Option Tree → Option Tree
in_left d r none = none
in_left d r (some l) = some (node l d r)

abbrev pub in_right : Tree → RbData → Option Tree → Option Tree
in_right l d none = none
in_right l d (some r) = some (node l d r)

-- The `while` loop of `insert` and `rb_link_node`: the descent to the empty link where the new node
-- goes; `none` is the early return at an equal key.
unfoldable pub link : RbData → Tree → Option Tree
link new leaf = some (node leaf new leaf)
link new (node l d r) = elim (ltb_ℤ d.key new.key) [
  | true ↦ in_right l d (link new r)
  | false ↦ elim (ltb_ℤ new.key d.key) [ true ↦ in_left d r (link new l) | false ↦ none ]
]

-- `search`: it compares the target with `val`.
unfoldable pub search_tree : Tree → ℤ → Option RbData
search_tree leaf target = none
search_tree (node l d r) target = elim (ltb_ℤ d.val target) [
  | true ↦ search_tree r target
  | false ↦ elim (ltb_ℤ target d.val) [ true ↦ search_tree l target | false ↦ some d ]
]

-- `rb_entry(root->rb_node, struct rb_data, rb)->val`; `none` is the null pointer of an empty tree.
abbrev pub root_val : Tree → Option ℤ
root_val leaf = none
root_val (node l d r) = some d.val

-- `dump_tree`: the value at the root, then the nodes in postorder; `none` is a null pointer followed.
unfoldable pub dump_tree : Tree → Option (ℤ × List RbData)
dump_tree leaf = none
dump_tree (node l d r) = some (d.val, postorder (node l d r))

module _ (kernel : RbKernel) where
  open kernel use {insert_color, replace_node, erase}

  -- The end of `insert`, below the loop: with no place for it the tree is left as it is.
  unfoldable pub colour : Tree → Option Tree → Tree
  colour t none = t
  colour t (some linked) = insert_color linked

  -- `insert`.
  unfoldable pub insert : Tree → RbData → Tree
  unfolding colour
  insert t new = colour t (link new t)

  -- `insert_arr`: the array's pairs, each with the address of its allocation.
  unfoldable pub insert_arr : Tree → List RbData → Tree
  insert_arr t [] = t
  insert_arr t (d ∷ ds) = insert_arr (insert t d) ds
