-- ===== src/Rbtree/Order.antt =====
-- Lists of rbtree/rbtree.c's nodes in strict order of a field, and insertion into such a list.
use native.Mathlib.Decide.{dec_lt}
use linux_device_drivers.Common.{
  eq_of_parts, ◌⊎◌, ◌+◌, ◌≡◌, refl, true, false, List, [], ◌∷◌, ◌++◌, arith, ℤ, ltb_ℤ, ◌<ℤ◌,
  pos_part, neg_part, inl, inr,
}
use linux_device_drivers.Rbtree.Tree.{RbData}

abbrev pub All : (RbData → Type 0) → List RbData → Type 0
All P [] = Unit
All P (d ∷ ds) = P d × All P ds

-- Strictly increasing in the field `f`.
abbrev pub IsSorted : (RbData → ℤ) → List RbData → Type 0
IsSorted f [] = Unit
IsSorted f (d ∷ ds) = All (λ e. f d <ℤ f e) ds × IsSorted f ds

pub All-append :
    (P : RbData → Type 0) (xs ys : List RbData) → All P xs → All P ys → All P (xs ++ ys)
All-append P [] ys h k = k
All-append P (x ∷ xs) ys h k = (h.0, All-append P xs ys h.1 k)

pub All-left : (P : RbData → Type 0) (xs ys : List RbData) → All P (xs ++ ys) → All P xs
All-left P [] ys h = tt
All-left P (x ∷ xs) ys h = (h.0, All-left P xs ys h.1)

pub All-right : (P : RbData → Type 0) (xs ys : List RbData) → All P (xs ++ ys) → All P ys
All-right P [] ys h = h
All-right P (x ∷ xs) ys h = All-right P xs ys h.1

pub All-map :
    (P Q : RbData → Type 0) (xs : List RbData) → ((d : RbData) → P d → Q d) → All P xs → All Q xs
All-map P Q [] f h = tt
All-map P Q (x ∷ xs) f h = (f x h.0, All-map P Q xs f h.1)

pub <ℤ_trans : (a b c : ℤ) → a <ℤ b → b <ℤ c → a <ℤ c
<ℤ_trans a b c h k = omega arith

-- A sorted list split at one element.
pub IsSorted-split :
    (f : RbData → ℤ) (xs : List RbData) (d : RbData) (ys : List RbData)
    → IsSorted f (xs ++ d ∷ ys)
    → IsSorted f xs × All (λ e. f e <ℤ f d) xs × All (λ e. f d <ℤ f e) ys × IsSorted f ys
IsSorted-split f [] d ys h = (tt, tt, h.0, h.1)
IsSorted-split f (x ∷ xs) d ys h =
    let (s, below, above, t) = IsSorted-split f xs d ys h.1 in
    (
      (All-left _ xs (d ∷ ys) h.0, s),
      ((All-right (λ e. f x <ℤ f e) xs (d ∷ ys) h.0).0, below),
      above,
      t,
    )

-- Insertion by key into an ordered list; an equal key leaves the list as it is.
unfoldable pub insert_sorted : RbData → List RbData → List RbData
insert_sorted new [] = new ∷ []
insert_sorted new (d ∷ ds) = elim (ltb_ℤ d.key new.key) [
  | true ↦ d ∷ insert_sorted new ds
  | false ↦ elim (ltb_ℤ new.key d.key) [ true ↦ new ∷ d ∷ ds | false ↦ d ∷ ds ]
]

pub insert_sorted-right :
    (new : RbData) (xs ys : List RbData)
    → All (λ e. e.key <ℤ new.key) xs
    → insert_sorted new (xs ++ ys) ≡ xs ++ insert_sorted new ys
unfolding insert_sorted
insert_sorted-right new [] ys h = refl
insert_sorted-right new (x ∷ xs) ys h = ground (arith, insert_sorted-right new xs ys h.1)

pub insert_sorted-left :
    (new : RbData) (xs : List RbData) (d : RbData) (ys : List RbData)
    → new.key <ℤ d.key
    → insert_sorted new (xs ++ d ∷ ys) ≡ insert_sorted new xs ++ d ∷ ys
unfolding insert_sorted
insert_sorted-left new [] d ys h = ground arith
insert_sorted-left new (x ∷ xs) d ys h = ground (arith, insert_sorted-left new xs d ys h)

-- Two integers are in one order, in the other, or equal.
pub compare_ℤ : (a b : ℤ) → (a <ℤ b) ⊎ (b <ℤ a) ⊎ (a ≡ b)
compare_ℤ a b = elim (dec_lt (pos_part a + neg_part b) (pos_part b + neg_part a)) [
  | yes p ↦ inl p
  | no p ↦ elim (dec_lt (pos_part b + neg_part a) (pos_part a + neg_part b)) [
    | yes q ↦ inr (inl q)
    | no q ↦ inr (inr (eq_of_parts a b (omega arith)))
  ]
]

module _ (new d : RbData) (ds : List RbData) where
  pub insert_sorted-gt : d.key <ℤ new.key → insert_sorted new (d ∷ ds) ≡ d ∷ insert_sorted new ds
  unfolding insert_sorted
  insert_sorted-gt h = ground arith

  pub insert_sorted-lt : new.key <ℤ d.key → insert_sorted new (d ∷ ds) ≡ new ∷ d ∷ ds
  unfolding insert_sorted
  insert_sorted-lt h = ground arith

  pub insert_sorted-eq : d.key ≡ new.key → insert_sorted new (d ∷ ds) ≡ d ∷ ds
  unfolding insert_sorted
  insert_sorted-eq h = ground arith

pub All-insert_sorted :
    (P : RbData → Type 0) (new : RbData) (ds : List RbData)
    → P new
    → All P ds
    → All P (insert_sorted new ds)
All-insert_sorted P new [] p h = unfold insert_sorted in (p, tt)
All-insert_sorted P new (d ∷ ds) p h = elim (compare_ℤ d.key new.key) [
  | inl gt ↦ rw (insert_sorted-gt new d ds gt) (h.0, All-insert_sorted P new ds p h.1)
  | inr (inl lt) ↦ rw (insert_sorted-lt new d ds lt) (p, h)
  | inr (inr eq) ↦ rw (insert_sorted-eq new d ds eq) h
]

-- Insertion keeps the order.
pub insert_sorted-IsSorted :
    (new : RbData) (ds : List RbData)
    → IsSorted (λ d. d.key) ds
    → IsSorted (λ d. d.key) (insert_sorted new ds)
insert_sorted-IsSorted new [] h = unfold insert_sorted in (tt, tt)
insert_sorted-IsSorted new (d ∷ ds) h = elim (compare_ℤ d.key new.key) [
  | inl gt ↦
      rw (insert_sorted-gt new d ds gt)
        (All-insert_sorted (λ x. d.key <ℤ x.key) new ds gt h.0, insert_sorted-IsSorted new ds h.1)
  | inr (inl lt) ↦ rw (insert_sorted-lt new d ds lt) (
    (
      lt,
      All-map (λ x. d.key <ℤ x.key) (λ x. new.key <ℤ x.key) ds
          (λ x p. <ℤ_trans new.key d.key x.key lt p) h.0,
    ),
    h,
  )
  | inr (inr eq) ↦ rw (insert_sorted-eq new d ds eq) h
]
