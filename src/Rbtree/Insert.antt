-- ===== src/Rbtree/Insert.antt =====
-- Insertion into the tree of rbtree/rbtree.c, for every lawful kernel: it is insertion into the
-- ordered list of the nodes.
use linux_device_drivers.Common.{
  ◌≡◌, refl, ap, ◌∙◌, Option, none, some, List, [], ◌∷◌, ◌++◌, arith, ◌<ℤ◌, inl, inr,
}
use linux_device_drivers.Rbtree.Tree.{
  RbData, Tree, leaf, node, inorder, RbKernel, in_left, in_right, link, colour, insert, insert_arr,
}
use linux_device_drivers.Rbtree.Order.{
  All, IsSorted, IsSorted-split, All-map, <ℤ_trans, insert_sorted, insert_sorted-right,
  insert_sorted-left, insert_sorted-IsSorted, compare_ℤ, insert_sorted-eq, insert_sorted-gt,
}

abbrev linked : Tree → Option Tree → Tree
linked t none = t
linked t (some u) = u

inorder-in_left :
    (d : RbData) (l r : Tree) (o : Option Tree)
    → inorder (linked (node l d r) (in_left d r o)) ≡ inorder (linked l o) ++ d ∷ inorder r
inorder-in_left d l r none = refl
inorder-in_left d l r (some u) = refl

inorder-in_right :
    (d : RbData) (l r : Tree) (o : Option Tree)
    → inorder (linked (node l d r) (in_right l d o)) ≡ inorder l ++ d ∷ inorder (linked r o)
inorder-in_right d l r none = refl
inorder-in_right d l r (some u) = refl

module _ (new d : RbData) (l r : Tree) where
  link-gt : d.key <ℤ new.key → link new (node l d r) ≡ in_right l d (link new r)
  unfolding link
  link-gt h = ground arith

  link-lt : new.key <ℤ d.key → link new (node l d r) ≡ in_left d r (link new l)
  unfolding link
  link-lt h = ground arith

  link-eq : d.key ≡ new.key → link new (node l d r) ≡ none
  unfolding link
  link-eq h = ground arith

-- The new node is linked where the order of the keys puts it.
pub link_lem :
    (new : RbData) (t : Tree)
    → IsSorted (λ d. d.key) (inorder t)
    → inorder (linked t (link new t)) ≡ insert_sorted new (inorder t)
link_lem new leaf h = unfold link insert_sorted in refl
link_lem new (node l d r) h =
    let (sl, below, above, sr) = IsSorted-split (λ d. d.key) (inorder l) d (inorder r) h in
    elim (compare_ℤ d.key new.key) [
      | inl gt ↦
          let under : All (λ e. e.key <ℤ new.key) (inorder l) =
            All-map (λ e. e.key <ℤ d.key) _ (inorder l) (λ e p. <ℤ_trans e.key d.key new.key p gt)
              below in
          rw (
            link-gt new d l r gt,
            inorder-in_right d l r (link new r),
            link_lem new r sr,
            insert_sorted-right new (inorder l) (d ∷ inorder r) under,
            insert_sorted-gt new d (inorder r) gt,
          )
      | inr (inl lt) ↦ rw (
        link-lt new d l r lt,
        inorder-in_left d l r (link new l),
        link_lem new l sl,
        insert_sorted-left new (inorder l) d (inorder r) lt,
      )
      | inr (inr eq) ↦ rw (
        link-eq new d l r eq,
        insert_sorted-right new (inorder l) (d ∷ inorder r) (rw (← eq) below),
        insert_sorted-eq new d (inorder r) eq,
      )
    ]

-- Insertion of several nodes, in turn.
unfoldable pub insert_all : List RbData → List RbData → List RbData
insert_all [] sorted = sorted
insert_all (d ∷ ds) sorted = insert_all ds (insert_sorted d sorted)

module _ (kernel : RbKernel) where
  inorder-colour : (t : Tree) (o : Option Tree) → inorder (colour kernel t o) ≡ inorder (linked t o)
  unfolding colour
  inorder-colour t none = refl
  inorder-colour t (some u) = kernel.inorder-insert_color u

  -- `insert` leaves the nodes as insertion by key into their ordered list does; at an equal key it
  -- leaves them as they are.
  pub insert_lem :
      (t : Tree) (new : RbData)
      → IsSorted (λ d. d.key) (inorder t)
      → inorder (insert kernel t new) ≡ insert_sorted new (inorder t)
  unfolding insert
  insert_lem t new h = inorder-colour t (link new t) ∙ link_lem new t h

  -- `insert_arr` on a tree in order of the keys folds that insertion over the array, and leaves a
  -- tree in order of the keys.
  pub insert_arr_lem :
      (t : Tree) (ds : List RbData)
      → IsSorted (λ d. d.key) (inorder t)
      → (inorder (insert_arr kernel t ds) ≡ insert_all ds (inorder t))
        × IsSorted (λ d. d.key) (inorder (insert_arr kernel t ds))
  unfolding insert_arr insert_all
  insert_arr_lem t [] h = (refl, h)
  insert_arr_lem t (d ∷ ds) h =
      let e = insert_lem t d h in
      let s : IsSorted (λ x. x.key) (inorder (insert kernel t d)) =
        rw e (insert_sorted-IsSorted d (inorder t) h) in
      let (p, q) = insert_arr_lem (insert kernel t d) ds s in (p ∙ ap (insert_all ds) e, q)
