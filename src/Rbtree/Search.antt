-- ===== src/Rbtree/Search.antt =====
-- Search in the tree of rbtree/rbtree.c: it goes by `val`, while insertion goes by `key`.
use mathlib.Core.Option.{some-injective}
use mathlib.Core.Path.{subst}
use native.Mathlib.Decide.{ℕ_discrete}
use linux_device_drivers.Common.{
  ℕ, ◌≡◌, ◌≢◌, refl, sym, ap, ◌∙◌, ◌⊎◌, inl, inr, ◌↔◌, none, some, List, [], ◌∷◌, ◌++◌, arith, ℤ,
  ◌<ℤ◌,
}
use linux_device_drivers.Rbtree.Tree.{
  RbData, Tree, leaf, node, inorder, RbKernel, search_tree, insert, substitute,
}
use linux_device_drivers.Rbtree.Order.{
  All, IsSorted, IsSorted-split, All-left, All-right, compare_ℤ, insert_sorted, insert_sorted-gt,
  insert_sorted-lt, All-insert_sorted, insert_sorted-IsSorted,
}
use linux_device_drivers.Rbtree.Insert.{insert_lem}

-- `d` is one of the nodes.
abbrev pub IsIn : RbData → List RbData → Type 0
IsIn d [] = ⊥
IsIn d (e ∷ es) = (e ≡ d) ⊎ IsIn d es

IsIn-append : (d : RbData) (xs ys : List RbData) → IsIn d xs ⊎ IsIn d ys → IsIn d (xs ++ ys)
IsIn-append d [] ys (inl h) = absurd h
IsIn-append d [] ys (inr h) = h
IsIn-append d (x ∷ xs) ys (inl (inl e)) = inl e
IsIn-append d (x ∷ xs) ys (inl (inr h)) = inr (IsIn-append d xs ys (inl h))
IsIn-append d (x ∷ xs) ys (inr h) = inr (IsIn-append d xs ys (inr h))

IsIn-split : (d : RbData) (xs ys : List RbData) → IsIn d (xs ++ ys) → IsIn d xs ⊎ IsIn d ys
IsIn-split d [] ys h = inr h
IsIn-split d (x ∷ xs) ys (inl e) = inl (inl e)
IsIn-split d (x ∷ xs) ys (inr h) = elim (IsIn-split d xs ys h) [
  | inl p ↦ inl (inr p)
  | inr q ↦ inr q
]

pub All-IsIn : (P : RbData → Type 0) {d : RbData} (ds : List RbData) → All P ds → IsIn d ds → P d
All-IsIn P [] h m = absurd m
All-IsIn P (x ∷ xs) h (inl e) = rw (← e) (h.0)
All-IsIn P (x ∷ xs) h (inr m) = All-IsIn P xs h.1 m

module _ (l : Tree) (d : RbData) (r : Tree) (v : ℤ) where
  search-gt : d.val <ℤ v → search_tree (node l d r) v ≡ search_tree r v
  unfolding search_tree
  search-gt h = ground arith

  search-lt : v <ℤ d.val → search_tree (node l d r) v ≡ search_tree l v
  unfolding search_tree
  search-lt h = ground arith

  search-eq : d.val ≡ v → search_tree (node l d r) v ≡ some d
  unfolding search_tree
  search-eq h = ground arith

-- In any tree at all, what `search` finds is a node of the tree with the value asked for; and if no
-- node has that value it finds nothing.
pub search_sound :
    (t : Tree) (v : ℤ)
    → ((d : RbData) → search_tree t v ≡ some d → (d.val ≡ v) × IsIn d (inorder t))
      × (All (λ e. e.val ≢ v) (inorder t) → search_tree t v ≡ none)
search_sound leaf v = unfold search_tree in (λ d h. absurd (cc), λ h. refl)
search_sound (node l d r) v = elim (compare_ℤ d.val v) [
  | inl gt ↦
      let (found, missed) = search_sound r v in
      rw (search-gt l d r v gt) (
        λ e h. ((found e h).0, IsIn-append e (inorder l) (d ∷ inorder r) (inr (inr (found e h).1))),
        λ h. missed (All-right _ (inorder l) (d ∷ inorder r) h).1,
      )
  | inr (inl lt) ↦
      let (found, missed) = search_sound l v in
      rw (search-lt l d r v lt) (
        λ e h. ((found e h).0, IsIn-append e (inorder l) (d ∷ inorder r) (inl (found e h).1)),
        λ h. missed (All-left _ (inorder l) (d ∷ inorder r) h),
      )
  | inr (inr eq) ↦ rw (search-eq l d r v eq) (
    λ e h. hit e eq (some-injective d e h),
    λ h. absurd ((All-right (λ e. e.val ≢ v) (inorder l) (d ∷ inorder r) h).0 eq),
  )
]
  where
    hit : (e : RbData) → d.val ≡ v → d ≡ e → (e.val ≡ v) × IsIn e (inorder l ++ d ∷ inorder r)
    hit e eq q =
        (sym (ap (λ x. x.val) q) ∙ eq, IsIn-append e (inorder l) (d ∷ inorder r) (inr (inl q)))

-- In any tree at all, ordered or not, what `search` finds is a node of the tree, and has the value
-- asked for.
pub search_found :
    (t : Tree) (v : ℤ) {d : RbData} → search_tree t v ≡ some d → (d.val ≡ v) × IsIn d (inorder t)
search_found t v e = (search_sound t v).0 _ e

-- In a tree in strict order of the values, `search` finds each node by its value.
pub search_complete :
    (t : Tree) (d : RbData)
    → IsSorted (λ e. e.val) (inorder t)
    → IsIn d (inorder t)
    → search_tree t d.val ≡ some d
search_complete leaf d s m = absurd m
search_complete (node l e r) d s m =
    let (sl, below, above, sr) = IsSorted-split (λ x. x.val) (inorder l) e (inorder r) s in
    elim (IsIn-split d (inorder l) (e ∷ inorder r) m) [
      | inl p ↦ search-lt l e r d.val (All-IsIn _ (inorder l) below p) ∙ search_complete l d sl p
      | inr (inl q) ↦ search-eq l e r d.val (ap (λ x. x.val) q) ∙ ap some q
      | inr (inr p) ↦
          search-gt l e r d.val (All-IsIn _ (inorder r) above p) ∙ search_complete r d sr p
    ]

-- Every node's value is its key, as for all pairs that `mod_init` inserts.
abbrev pub IsKeyed : List RbData → Type 0
IsKeyed = All (λ e. e.val ≡ e.key)

pub IsSorted-val :
    (ds : List RbData) → IsKeyed ds → IsSorted (λ e. e.key) ds → IsSorted (λ e. e.val) ds
IsSorted-val [] k s = tt
IsSorted-val (d ∷ ds) k s = (lifted d ds k.0 k.1 s.0, IsSorted-val ds k.1 s.1)
  where
    lifted :
        (e : RbData) (es : List RbData)
        → e.val ≡ e.key
        → IsKeyed es
        → All (λ x. e.key <ℤ x.key) es
        → All (λ x. e.val <ℤ x.val) es
    lifted e [] p k h = tt
    lifted e (x ∷ xs) p k h = (rw (p, k.0) (h.0), lifted e xs p k.1 h.1)

IsIn-insert_sorted :
    (new : RbData) (ds : List RbData)
    → All (λ e. e.key ≢ new.key) ds
    → IsIn new (insert_sorted new ds)
IsIn-insert_sorted new [] h = unfold insert_sorted in inl refl
IsIn-insert_sorted new (d ∷ ds) h = elim (compare_ℤ d.key new.key) [
  | inl gt ↦ rw (insert_sorted-gt new d ds gt) (inr (IsIn-insert_sorted new ds h.1))
  | inr (inl lt) ↦ rw (insert_sorted-lt new d ds lt) (inl refl)
  | inr (inr eq) ↦ absurd (h.0 eq)
]

-- With every value equal to its key, a node inserted under a new key is found under that key, for
-- every lawful kernel.
pub search-insert :
    (kernel : RbKernel) (t : Tree) (new : RbData)
    → IsSorted (λ d. d.key) (inorder t)
    → IsKeyed (inorder t)
    → new.val ≡ new.key
    → All (λ e. e.key ≢ new.key) (inorder t)
    → search_tree (insert kernel t new) new.key ≡ some new
search-insert kernel t new s k e fresh =
    let after = insert_lem kernel t new s in
    let keyed : IsKeyed (inorder (insert kernel t new)) =
      rw after (All-insert_sorted (λ d. d.val ≡ d.key) new (inorder t) e k) in
    let sorted : IsSorted (λ d. d.key) (inorder (insert kernel t new)) =
      rw after (insert_sorted-IsSorted new (inorder t) s) in
    let member : IsIn new (inorder (insert kernel t new)) =
      rw after (IsIn-insert_sorted new (inorder t) fresh) in
    subst (λ v. search_tree (insert kernel t new) v ≡ some new) e
      (search_complete (insert kernel t new) new (IsSorted-val _ keyed sorted) member)

lt_irrefl : (a b : ℤ) → a ≡ b → ¬ (a <ℤ b)
lt_irrefl a b e h = let h' : b <ℤ b = rw e at h in omega arith

module _ (a : ℕ) (new d : RbData) (ds : List RbData) where
  substitute_here : d.addr ≡ a → substitute a new (d ∷ ds) ≡ new ∷ ds
  substitute_here h = ground arith

  substitute_later : d.addr ≢ a → substitute a new (d ∷ ds) ≡ d ∷ substitute a new ds
  substitute_later h = ground arith

-- The node at address `a` is the one with key `k`.
abbrev pub IsOnly : ℕ → ℤ → List RbData → Type 0
IsOnly a k = All (λ e. (e.addr ≡ a) ↔ (e.key ≡ k))

substituted :
    (a : ℕ) (k : ℤ) (new : RbData) (ds : List RbData)
    → IsKeyed ds
    → IsSorted (λ d. d.key) ds
    → IsOnly a k ds
    → new.val ≢ k
    → All (λ e. e.val ≢ k) (substitute a new ds)
substituted a k new [] keyed s only n = tt
substituted a k new (d ∷ ds) keyed s only n = elim (ℕ_discrete d.addr a) [
  | yes p ↦
      let here : d.key ≡ k = (only.0).0 p in
      rw (substitute_here a new d ds p) (n, others here ds keyed.1 s.0)
  | no p ↦
      rw (substitute_later a new d ds p)
        ((λ q. p ((only.0).1 (sym keyed.0 ∙ q))), substituted a k new ds keyed.1 s.1 only.1 n)
]
  where
    others :
        d.key ≡ k
        → (es : List RbData) → IsKeyed es
        → All (λ e. d.key <ℤ e.key) es
        → All (λ e. e.val ≢ k) es
    others here [] keyed above = tt
    others here (e ∷ es) keyed above = (
      (λ q. lt_irrefl d.key e.key (here ∙ sym q ∙ keyed.0) above.0),
      others here es keyed.1 above.1,
    )

-- Once `rb_replace_node` has put a node with the same key and another value in the place of the
-- node with key `k`, `search` for `k` finds nothing, though the key is still in the tree: for every
-- lawful kernel and every tree in order of its keys whose values are its keys.
pub search-replace_node :
    (kernel : RbKernel) (t : Tree) (a : ℕ) (new : RbData)
    → IsSorted (λ d. d.key) (inorder t)
    → IsKeyed (inorder t)
    → IsOnly a new.key (inorder t)
    → new.val ≢ new.key
    → search_tree (kernel.replace_node a new t) new.key ≡ none
search-replace_node kernel t a new s k only n =
    (search_sound (kernel.replace_node a new t) new.key).1
      (rw (kernel.inorder-replace_node a new t) (substituted a new.key new (inorder t) k s only n))
