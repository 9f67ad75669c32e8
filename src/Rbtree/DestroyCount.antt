-- ===== src/Rbtree/DestroyCount.antt =====
-- rbtree/rbtree.c: `destroy_tree` ends, and frees each node that it takes out, once.
use linux_device_drivers.Common.{
  ℕ, zero, suc, ◌+◌, ◌≤◌, ◌<◌, ◌≡◌, ◌≢◌, inl, inr, refl, ap, ◌∙◌, Option, none, some, List, [], ◌∷◌,
  ◌++◌, length, ◌==◌, if◌then◌else◌, arith, Option-cases,
}
use linux_device_drivers.Rbtree.Tree.{
  RbData, Tree, leaf, node, inorder, postorder, remove, RbKernel,
}
use linux_device_drivers.Rbtree.Destroy.{head_addr, next_in, free_first, destroy_loop, destroy_tree}

-- How often an address stands in a list of nodes.
abbrev pub count : ℕ → List RbData → ℕ
count a [] = 0
count a (d ∷ ds) = if d.addr == a then suc (count a ds) else count a ds

-- No two nodes have the same address.
abbrev pub IsDistinct : List RbData → Type 0
IsDistinct ds = (a : ℕ) → count a ds ≤ 1

count-append : (a : ℕ) (ds es : List RbData) → count a (ds ++ es) ≡ count a ds + count a es
count-append a [] es = omega arith
count-append a (d ∷ ds) es = let ih = count-append a ds es in ground arith

count-postorder : (a : ℕ) (t : Tree) → count a (postorder t) ≡ count a (inorder t)
count-postorder a leaf = refl
count-postorder a (node l d r) =
    let el = count-postorder a l in
    let er = count-postorder a r in
    let p = count-append a (postorder l) (postorder r ++ d ∷ []) in
    let q = count-append a (postorder r) (d ∷ []) in
    let s = count-append a (inorder l) (d ∷ inorder r) in ground arith

length-remove : (a : ℕ) (ds : List RbData) → 0 < count a ds → suc (length (remove a ds)) ≡ length ds
length-remove a [] h = absurd (omega arith)
length-remove a (d ∷ ds) h = let ih = length-remove a ds in ground arith

count-remove : (a b : ℕ) (ds : List RbData) → count b (remove a ds) ≤ count b ds
count-remove a b [] = omega arith
count-remove a b (d ∷ ds) = let ih = count-remove a b ds in ground arith

count-remove_other : (a b : ℕ) (ds : List RbData) → b ≢ a → count b (remove a ds) ≡ count b ds
count-remove_other a b [] h = refl
count-remove_other a b (d ∷ ds) h = let ih = count-remove_other a b ds h in ground arith

count-head_addr : (b : ℕ) (ds : List RbData) → head_addr ds ≡ some b → 0 < count b ds
count-head_addr b [] h = absurd (cc)
count-head_addr b (d ∷ ds) h = ground arith

count-next_in : (a b : ℕ) (ds : List RbData) → next_in a ds ≡ some b → 0 < count b ds
count-next_in a b [] h = absurd (cc)
count-next_in a b (d ∷ ds) h =
    let here = count-head_addr b ds in let ih = count-next_in a b ds in ground arith

next_in-other : (a b : ℕ) (ds : List RbData) → count a ds ≤ 1 → next_in a ds ≡ some b → b ≢ a
next_in-other a b [] c h same = absurd (cc)
next_in-other a b (d ∷ ds) c h same =
    let here = count-head_addr b ds in let ih = next_in-other a b ds in ground arith

-- How often an address stands in a list of them.
abbrev pub times : ℕ → List ℕ → ℕ
times b [] = 0
times b (a ∷ rest) = if a == b then suc (times b rest) else times b rest

-- The node that the loop is to visit is in the tree.
abbrev IsPresent : Option ℕ → List RbData → Type 0
IsPresent none ds = Unit
IsPresent (some a) ds = 0 < count a ds

first-IsPresent : (t : Tree) → IsPresent (head_addr (postorder t)) (inorder t)
first-IsPresent t = elim (Option-cases (head_addr (postorder t))) [
  | inl e ↦ rw e tt
  | inr (b, e) ↦
      let here = count-head_addr b (postorder t) e in
      let same = count-postorder b t in rw e (omega arith)
]

count-remove_same :
    (a : ℕ) (ds : List RbData) → 0 < count a ds → suc (count a (remove a ds)) ≡ count a ds
count-remove_same a [] h = absurd (omega arith)
count-remove_same a (d ∷ ds) h = let ih = count-remove_same a ds in ground arith

-- Freeing one node moves it from the tree to the freed nodes.
move_count :
    (a b : ℕ) (ds : List RbData) (n left : ℕ)
    → 0 < count a ds
    → n + left ≡ count b (remove a ds)
    → (if a == b then suc n else n) + left ≡ count b ds
move_count a b ds n left h e =
    let same = count-remove_same a ds h in let other = count-remove_other a b ds in ground arith

module _ (kernel : RbKernel) where
  open kernel use {erase}

  -- After the step at `a`, the next node to visit is still in the tree.
  next-IsPresent :
      (a : ℕ) (t : Tree)
      → IsDistinct (inorder t)
      → IsPresent (next_in a (postorder t)) (inorder (erase a t))
  next-IsPresent a t h = elim (Option-cases (next_in a (postorder t))) [
    | inl e ↦ rw e tt
    | inr (b, e) ↦
        let here = count-next_in a b (postorder t) e in
        let ca = count-postorder a t in
        let cb = count-postorder b t in
        let once = h a in
        let apart = next_in-other a b (postorder t) (omega arith) e in
        let kept = count-remove_other a b (inorder t) apart in
        rw (e, kernel.inorder-erase a t) (omega arith)
  ]

  destroy_loop_lem :
      (fuel : ℕ) (t : Tree) (cur : Option ℕ)
      → length (inorder t) < fuel
      → IsDistinct (inorder t)
      → IsPresent cur (inorder t)
      → (left : Tree) × (freed : List ℕ) × (destroy_loop kernel fuel t cur ≡ some (left, freed))
        × ((b : ℕ) → times b freed + count b (inorder left) ≡ count b (inorder t))
  unfolding destroy_loop
  destroy_loop_lem zero t cur f h p = absurd (omega arith)
  destroy_loop_lem (suc fuel) t none f h p = (t, [], refl, λ b. omega arith)
  destroy_loop_lem (suc fuel) t (some a) f h p =
      let e = kernel.inorder-erase a t in
      let shorter = length-remove a (inorder t) p in
      let (left, freed, run, counts) =
        destroy_loop_lem fuel (erase a t) (next_in a (postorder t)) (rw e (omega arith))
          (rw e (λ b. omega (arith, count-remove a b (inorder t), h b))) (next-IsPresent a t h) in
      (
        left,
        a ∷ freed,
        ap (free_first a) run,
        λ b.
            move_count a b (inorder t) (times b freed) (count b (inorder left)) p
              (counts b ∙ ap (count b) e),
      )

  -- Of a tree that is not empty and whose nodes have different addresses `destroy_tree` ends, and each
  -- node is then either freed exactly once or still in the tree that is left: none is freed twice,
  -- and none is lost.
  pub destroy_tree_lem :
      (l r : Tree) (d : RbData)
      → IsDistinct (inorder (node l d r))
      → (left : Tree) × (freed : List ℕ) × (destroy_tree kernel (node l d r) ≡ some (left, freed))
        × ((b : ℕ) → times b freed + count b (inorder left) ≡ count b (inorder (node l d r)))
  unfolding destroy_tree
  destroy_tree_lem l r d h =
      destroy_loop_lem (suc (length (inorder (node l d r)))) (node l d r)
        (head_addr (postorder (node l d r))) (omega arith) h (first-IsPresent (node l d r))
