-- ===== src/Rbtree/Table.antt =====
-- Tables of rbtree/rbtree.c's nodes: what stands under each value, and insertion into an ordered list
-- as an operation on a table.
use mathlib.Core.Option.{some-injective}
use mathlib.Core.Path.{subst}
use linux_device_drivers.Common.{
  ◌≡◌, ◌≢◌, refl, sym, ap, ◌∙◌, inl, inr, ◌⊎◌, true, false, Option, none, some, Option-cases, List,
  [], ◌∷◌, arith, ℤ, ltb_ℤ, ◌<ℤ◌,
}
use linux_device_drivers.Rbtree.Tree.{RbData, Tree, inorder, search_tree}
use linux_device_drivers.Rbtree.Order.{
  All, IsSorted, <ℤ_trans, compare_ℤ, insert_sorted, insert_sorted-gt, insert_sorted-lt,
  insert_sorted-eq,
}
use linux_device_drivers.Rbtree.Search.{IsIn, IsKeyed, search_sound, search_complete}

-- A table, and the table with a pair put under its key, if nothing stands there yet.
abbrev pub Table : Type 0
Table = ℤ → Option RbData

abbrev pub or_new : RbData → Option RbData → Option RbData
or_new new none = some new
or_new new (some d) = some d

-- What a table has at `v` after that, if it had `found` there.
abbrev pub put_at : RbData → ℤ → Option RbData → Option RbData
put_at new v found = elim (ltb_ℤ new.key v) [
  | true ↦ found
  | false ↦ elim (ltb_ℤ v new.key) [ true ↦ found | false ↦ or_new new found ]
]

abbrev pub put_new : RbData → Table → Table
put_new new table v = put_at new v (table v)

abbrev pub put_all : List RbData → Table → Table
put_all [] table = table
put_all (d ∷ ds) table = put_all ds (put_new d table)

-- The first node of a list with a value.
abbrev pub find_in : List RbData → Table
find_in [] v = none
find_in (d ∷ ds) v = elim (ltb_ℤ d.val v) [
  | true ↦ find_in ds v
  | false ↦ elim (ltb_ℤ v d.val) [ true ↦ find_in ds v | false ↦ some d ]
]

-- Two integers are in order, one way or the other.
abbrev IsApart : ℤ → ℤ → Type 0
IsApart a b = (a <ℤ b) ⊎ (b <ℤ a)

module _ (d : RbData) (ds : List RbData) (v : ℤ) where
  find_here : d.val ≡ v → find_in (d ∷ ds) v ≡ some d
  find_here h = ground arith

  find_later : IsApart d.val v → find_in (d ∷ ds) v ≡ find_in ds v
  find_later (inl h) = ground arith
  find_later (inr h) = ground arith

module _ (new : RbData) (table : Table) (v : ℤ) where
  put_here : new.key ≡ v → put_new new table v ≡ or_new new (table v)
  put_here h = ground arith

  put_elsewhere : IsApart new.key v → put_new new table v ≡ table v
  put_elsewhere (inl h) = ground arith
  put_elsewhere (inr h) = ground arith

flip : (a b : ℤ) → IsApart a b → IsApart b a
flip a b (inl h) = inr h
flip a b (inr h) = inl h

-- Two integers are apart or equal.
IsApart-or_equal : (a b : ℤ) → IsApart a b ⊎ (a ≡ b)
IsApart-or_equal a b = elim (compare_ℤ a b) [
  | inl lt ↦ inl (inl lt)
  | inr (inl gt) ↦ inl (inr gt)
  | inr (inr eq) ↦ inr eq
]

IsApart-other : (a b : ℤ) → IsApart a b → a ≢ b
IsApart-other a b (inl h) e = let k : b <ℤ b = rw e at h in omega arith
IsApart-other a b (inr h) e = let k : b <ℤ b = rw e at h in omega arith

find_in-IsIn :
    (ds : List RbData) (v : ℤ) (d : RbData) → find_in ds v ≡ some d → (d.val ≡ v) × IsIn d ds
find_in-IsIn [] v d e = absurd (cc)
find_in-IsIn (x ∷ ds) v d e = elim (IsApart-or_equal x.val v) [
  | inl apart ↦
      let (same, member) = find_in-IsIn ds v d (sym (find_later x ds v apart) ∙ e) in
      (same, inr member)
  | inr eq ↦
      let x-d : x ≡ d = some-injective x d (sym (find_here x ds v eq) ∙ e) in
      (sym (ap (λ y. y.val) x-d) ∙ eq, inl x-d)
]

find_in-none : (ds : List RbData) (v : ℤ) → find_in ds v ≡ none → All (λ e. e.val ≢ v) ds
find_in-none [] v e = tt
find_in-none (x ∷ ds) v e = elim (IsApart-or_equal x.val v) [
  | inl apart ↦ (IsApart-other x.val v apart, find_in-none ds v (sym (find_later x ds v apart) ∙ e))
  | inr eq ↦ let hit = sym (find_here x ds v eq) ∙ e in absurd (cc)
]

find_in_above : (ds : List RbData) (v : ℤ) → All (λ e. v <ℤ e.val) ds → find_in ds v ≡ none
find_in_above [] v h = refl
find_in_above (x ∷ ds) v h = find_later x ds v (inr h.0) ∙ find_in_above ds v h.1

-- In a tree in order of the values `search` finds the first node with a value.
pub search_find :
    (t : Tree) (v : ℤ) → IsSorted (λ e. e.val) (inorder t) → search_tree t v ≡ find_in (inorder t) v
search_find t v s = elim (Option-cases (find_in (inorder t) v)) [
  | inl e ↦ (search_sound t v).1 (find_in-none (inorder t) v e) ∙ sym e
  | inr (d, e) ↦
      let (same, member) = find_in-IsIn (inorder t) v d e in
      subst (λ w. search_tree t w ≡ some d) same (search_complete t d s member) ∙ sym e
]

-- An insertion in front of nodes that all have larger values.
in_front :
    (new : RbData) (ds : List RbData) (v : ℤ)
    → new.val ≡ new.key
    → All (λ e. new.key <ℤ e.val) ds
    → find_in (new ∷ ds) v ≡ put_new new (find_in ds) v
in_front new ds v n above = elim (IsApart-or_equal new.key v) [
  | inl apart ↦ find_later new ds v (rw n apart) ∙ sym (put_elsewhere new (find_in ds) v apart)
  | inr eq ↦
      let none_there : find_in ds v ≡ none =
        find_in_above ds v (subst (λ w. All (λ e. w <ℤ e.val) ds) eq above) in
      find_here new ds v (n ∙ eq)
      ∙ sym (put_here new (find_in ds) v eq ∙ ap (or_new new) none_there)
]

-- An insertion behind a node whose value is not the new key.
behind :
    (new d : RbData) (ds after : List RbData) (v : ℤ)
    → IsApart d.val new.key
    → find_in after v ≡ put_new new (find_in ds) v
    → find_in (d ∷ after) v ≡ put_new new (find_in (d ∷ ds)) v
behind new d ds after v apart g = elim (IsApart-or_equal d.val v) [
  | inl a ↦ find_later d after v a ∙ g ∙ ap (put_at new v) (sym (find_later d ds v a))
  | inr eq ↦
      find_here d after v eq
      ∙ sym (
          put_elsewhere new (find_in (d ∷ ds)) v (flip v new.key (rw (← eq) apart))
          ∙ find_here d ds v eq)
]

-- At a key that is there already nothing is put.
present :
    (new d : RbData) (ds : List RbData) (v : ℤ)
    → d.val ≡ new.key
    → find_in (d ∷ ds) v ≡ put_new new (find_in (d ∷ ds)) v
present new d ds v same = elim (IsApart-or_equal new.key v) [
  | inl a ↦ sym (put_elsewhere new (find_in (d ∷ ds)) v a)
  | inr eq ↦
      let here = find_here d ds v (same ∙ eq) in
      here ∙ sym (put_here new (find_in (d ∷ ds)) v eq ∙ ap (or_new new) here)
]

All-above :
    (a b : ℤ) (ds : List RbData)
    → a <ℤ b
    → All (λ e. b <ℤ e.key) ds
    → IsKeyed ds
    → All (λ e. a <ℤ e.val) ds
All-above a b [] h above k = tt
All-above a b (d ∷ ds) h above k =
    (rw k.0 (<ℤ_trans a b d.key h above.0), All-above a b ds h above.1 k.1)

-- Insertion by key into an ordered list, seen as a table.
pub find_in-insert_sorted :
    (new : RbData) (ds : List RbData) (v : ℤ)
    → IsSorted (λ e. e.key) ds
    → IsKeyed ds
    → new.val ≡ new.key
    → find_in (insert_sorted new ds) v ≡ put_new new (find_in ds) v
find_in-insert_sorted new [] v s k n = unfold insert_sorted in in_front new [] v n tt
find_in-insert_sorted new (d ∷ ds) v s k n = elim (compare_ℤ d.key new.key) [
  | inl gt ↦ rw (insert_sorted-gt new d ds gt) (
      behind new d ds (insert_sorted new ds) v (inl (rw k.0 gt))
        (find_in-insert_sorted new ds v s.1 k.1 n))
  | inr (inl lt) ↦
      rw (insert_sorted-lt new d ds lt)
        (in_front new (d ∷ ds) v n (rw k.0 lt, All-above new.key d.key ds lt s.0 k.1))
  | inr (inr eq) ↦ rw (insert_sorted-eq new d ds eq) (present new d ds v (k.0 ∙ eq))
]
