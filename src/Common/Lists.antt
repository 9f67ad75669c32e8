-- ===== src/Common/Lists.antt =====
-- Lists measured by native numbers, and byte regions: reading a slice, overwriting a slice.
use Prim.Native.Nat.{ℕ, zero, suc, ◌+◌, ◌-◌, ◌≤◌, ◌<◌, min}
use mathlib.Core.Path.{◌≡◌, refl, ap}
use mathlib.Core.Logic.{◌⊎◌, inr}
use mathlib.Core.List.{List, [], ◌∷◌, ◌++◌}
use mathlib.Core.Option.{Option, none, some, some-injective}
use native.Mathlib.Omega.{arith}

module _ {ℓ} {A : Type ℓ} where
  abbrev pub length : List A → ℕ
  length [] = 0
  length (x ∷ xs) = suc (length xs)

  abbrev pub get_elem? : List A → ℕ → Option A
  get_elem? [] i = none
  get_elem? (x ∷ xs) zero = some x
  get_elem? (x ∷ xs) (suc i) = get_elem? xs i

  abbrev pub take : ℕ → List A → List A
  take zero xs = []
  take (suc n) [] = []
  take (suc n) (x ∷ xs) = x ∷ take n xs

  abbrev pub drop : ℕ → List A → List A
  drop zero xs = xs
  drop (suc n) [] = []
  drop (suc n) (x ∷ xs) = drop n xs

  abbrev pub replicate : ℕ → A → List A
  replicate zero a = []
  replicate (suc n) a = a ∷ replicate n a

  pub length-append : (xs ys : List A) → length (xs ++ ys) ≡ length xs + length ys
  length-append [] ys = omega arith
  length-append (x ∷ xs) ys = omega (arith, length-append xs ys)

  pub length-take : (n : ℕ) (xs : List A) → length (take n xs) ≡ min n (length xs)
  length-take zero xs = omega arith
  length-take (suc n) [] = omega arith
  length-take (suc n) (x ∷ xs) = omega (arith, length-take n xs)

  pub length-drop : (n : ℕ) (xs : List A) → length (drop n xs) ≡ length xs - n
  length-drop zero xs = omega arith
  length-drop (suc n) [] = omega arith
  length-drop (suc n) (x ∷ xs) = omega (arith, length-drop n xs)

  -- The `n` elements from index `i` on.
  abbrev pub slice : ℕ → ℕ → List A → List A
  slice i n xs = take n (drop i xs)

  -- `xs` with `ys` written over it from index `i` on; what would fall past the end is dropped.
  abbrev pub overwrite : ℕ → List A → List A → List A
  overwrite i ys [] = []
  overwrite (suc i) ys (x ∷ xs) = x ∷ overwrite i ys xs
  overwrite zero [] (x ∷ xs) = x ∷ xs
  overwrite zero (y ∷ ys) (x ∷ xs) = y ∷ overwrite zero ys xs

  abbrev pub concat : List (List A) → List A
  concat [] = []
  concat (xs ∷ xss) = xs ++ concat xss

  pub take-append :
      (n : ℕ) (xs ys : List A) → take n (xs ++ ys) ≡ take n xs ++ take (n - length xs) ys
  take-append zero xs ys = let e : 0 - length xs ≡ 0 = omega arith in rw e
  take-append (suc n) [] ys = let e : suc n - 0 ≡ suc n = omega arith in rw e
  take-append (suc n) (x ∷ xs) ys =
      let e : suc n - suc (length xs) ≡ n - length xs = omega arith in
      rw e (ap (λ l. x ∷ l) (take-append n xs ys))

  pub drop-append :
      (n : ℕ) (xs ys : List A) → drop n (xs ++ ys) ≡ drop n xs ++ drop (n - length xs) ys
  drop-append zero xs ys = let e : 0 - length xs ≡ 0 = omega arith in rw e
  drop-append (suc n) [] ys = let e : suc n - 0 ≡ suc n = omega arith in rw e
  drop-append (suc n) (x ∷ xs) ys =
      let e : suc n - suc (length xs) ≡ n - length xs = omega arith in rw e (drop-append n xs ys)

  pub take_all : (n : ℕ) (xs : List A) → length xs ≤ n → take n xs ≡ xs
  take_all zero [] h = refl
  take_all zero (x ∷ xs) h = absurd (omega arith)
  take_all (suc n) [] h = refl
  take_all (suc n) (x ∷ xs) h = ap (λ l. x ∷ l) (take_all n xs (omega arith))

  pub drop_all : (n : ℕ) (xs : List A) → length xs ≤ n → drop n xs ≡ []
  drop_all zero [] h = refl
  drop_all zero (x ∷ xs) h = absurd (omega arith)
  drop_all (suc n) [] h = refl
  drop_all (suc n) (x ∷ xs) h = drop_all n xs (omega arith)

  pub take-min : (k : ℕ) (xs : List A) → take (min (length xs) k) xs ≡ take k xs
  take-min zero xs = let e : min (length xs) 0 ≡ 0 = omega arith in rw e
  take-min (suc k) [] = let e : min 0 (suc k) ≡ 0 = omega arith in rw e
  take-min (suc k) (x ∷ xs) =
      let e : min (suc (length xs)) (suc k) ≡ suc (min (length xs) k) = omega arith in
      rw e (ap (λ l. x ∷ l) (take-min k xs))

  pub drop-min : (k : ℕ) (xs : List A) → drop (min (length xs) k) xs ≡ drop k xs
  drop-min zero xs = let e : min (length xs) 0 ≡ 0 = omega arith in rw e
  drop-min (suc k) [] = let e : min 0 (suc k) ≡ 0 = omega arith in rw e
  drop-min (suc k) (x ∷ xs) =
      let e : min (suc (length xs)) (suc k) ≡ suc (min (length xs) k) = omega arith in
      rw e (drop-min k xs)

  pub length-overwrite : (i : ℕ) (ys xs : List A) → length (overwrite i ys xs) ≡ length xs
  length-overwrite i ys [] = refl
  length-overwrite (suc i) ys (x ∷ xs) = ap suc (length-overwrite i ys xs)
  length-overwrite zero [] (x ∷ xs) = refl
  length-overwrite zero (y ∷ ys) (x ∷ xs) = ap suc (length-overwrite zero ys xs)

  pub overwrite-nil : (i : ℕ) (xs : List A) → overwrite i [] xs ≡ xs
  overwrite-nil i [] = refl
  overwrite-nil (suc i) (x ∷ xs) = ap (λ l. x ∷ l) (overwrite-nil i xs)
  overwrite-nil zero (x ∷ xs) = refl

  -- Writing two pieces one behind the other writes their concatenation.
  pub overwrite-append :
      (i j : ℕ) (ys zs xs : List A)
      → j ≡ i + length ys
      → overwrite j zs (overwrite i ys xs) ≡ overwrite i (ys ++ zs) xs
  overwrite-append i j ys zs [] e = refl
  overwrite-append (suc i) zero ys zs (x ∷ xs) e = absurd (omega arith)
  overwrite-append (suc i) (suc j) ys zs (x ∷ xs) e =
      ap (λ l. x ∷ l) (overwrite-append i j ys zs xs (omega arith))
  overwrite-append zero j [] zs (x ∷ xs) e = let z : j ≡ 0 = omega arith in rw z
  overwrite-append zero zero (y ∷ ys) zs (x ∷ xs) e = absurd (omega arith)
  overwrite-append zero (suc j) (y ∷ ys) zs (x ∷ xs) e =
      ap (λ l. y ∷ l) (overwrite-append zero j ys zs xs (omega arith))

  -- What was written is read back.
  pub slice-overwrite :
      (i n : ℕ) (ys xs : List A)
      → n ≡ length ys
      → i + n ≤ length xs
      → slice i n (overwrite i ys xs) ≡ ys
  slice-overwrite i zero [] xs e h = refl
  slice-overwrite i zero (y ∷ ys) xs e h = absurd (omega arith)
  slice-overwrite i (suc n) ys [] e h = absurd (omega arith)
  slice-overwrite (suc i) (suc n) ys (x ∷ xs) e h = slice-overwrite i (suc n) ys xs e (omega arith)
  slice-overwrite zero (suc n) [] (x ∷ xs) e h = absurd (omega arith)
  slice-overwrite zero (suc n) (y ∷ ys) (x ∷ xs) e h =
      ap (λ l. y ∷ l) (slice-overwrite zero n ys xs (omega arith) (omega arith))

  -- A write leaves what lies before it and behind it.
  pub get_elem?-overwrite :
      (i j : ℕ) (ys xs : List A)
      → (j < i) ⊎ (i + length ys ≤ j)
      → get_elem? (overwrite i ys xs) j ≡ get_elem? xs j
  get_elem?-overwrite i j ys [] h = refl
  get_elem?-overwrite (suc i) zero ys (x ∷ xs) h = refl
  get_elem?-overwrite (suc i) (suc j) ys (x ∷ xs) h = get_elem?-overwrite i j ys xs (omega arith)
  get_elem?-overwrite zero j [] (x ∷ xs) h = refl
  get_elem?-overwrite zero zero (y ∷ ys) (x ∷ xs) h = absurd (omega arith)
  get_elem?-overwrite zero (suc j) (y ∷ ys) (x ∷ xs) h =
      get_elem?-overwrite zero j ys xs (inr (omega arith))

  -- A write that fits puts its elements where it says.
  pub get_elem?-overwrite_inside :
      (i j : ℕ) (ys xs : List A)
      → i ≤ j
      → j < i + length ys
      → i + length ys ≤ length xs
      → get_elem? (overwrite i ys xs) j ≡ get_elem? ys (j - i)
  get_elem?-overwrite_inside i j ys [] h k l = absurd (omega arith)
  get_elem?-overwrite_inside (suc i) zero ys (x ∷ xs) h k l = absurd (omega arith)
  get_elem?-overwrite_inside (suc i) (suc j) ys (x ∷ xs) h k l =
      let e : suc j - suc i ≡ j - i = omega arith in
      rw e (get_elem?-overwrite_inside i j ys xs (omega arith) (omega arith) (omega arith))
  get_elem?-overwrite_inside zero j [] (x ∷ xs) h k l = absurd (omega arith)
  get_elem?-overwrite_inside zero zero (y ∷ ys) (x ∷ xs) h k l = refl
  get_elem?-overwrite_inside zero (suc j) (y ∷ ys) (x ∷ xs) h k l =
      let e : suc j - 0 ≡ suc j = omega arith in
      let d : j - 0 ≡ j = omega arith in
      rw (e, get_elem?-overwrite_inside zero j ys xs (omega arith) (omega arith) (omega arith), d)

  pub get_elem?_lem : (i : ℕ) (xs : List A) → i < length xs → (a : A) × (get_elem? xs i ≡ some a)
  get_elem?_lem i [] h = absurd (omega arith)
  get_elem?_lem zero (x ∷ xs) h = (x, refl)
  get_elem?_lem (suc i) (x ∷ xs) h = get_elem?_lem i xs (omega arith)

  -- A slice starts with the element at its index.
  pub slice-get_elem? :
      (i n : ℕ) (a : A) (xs : List A)
      → get_elem? xs i ≡ some a
      → slice i (suc n) xs ≡ a ∷ slice (suc i) n xs
  slice-get_elem? i n a [] e = cc
  slice-get_elem? zero n a (x ∷ xs) e = ap (λ b. b ∷ take n xs) (some-injective x a e)
  slice-get_elem? (suc i) n a (x ∷ xs) e = slice-get_elem? i n a xs e

  pub take-add : (m n : ℕ) (xs : List A) → take m xs ++ take n (drop m xs) ≡ take (m + n) xs
  take-add zero n xs = let e : 0 + n ≡ n = omega arith in rw e
  take-add (suc m) zero [] = let e : suc m + 0 ≡ suc m = omega arith in rw e
  take-add (suc m) (suc n) [] = let e : suc m + suc n ≡ suc (m + suc n) = omega arith in rw e
  take-add (suc m) n (x ∷ xs) =
      let e : suc m + n ≡ suc (m + n) = omega arith in rw e (ap (λ l. x ∷ l) (take-add m n xs))

  pub drop-drop : (m n : ℕ) (xs : List A) → drop n (drop m xs) ≡ drop (m + n) xs
  drop-drop zero n xs = let e : 0 + n ≡ n = omega arith in rw e
  drop-drop (suc m) zero [] = let e : suc m + 0 ≡ suc m = omega arith in rw e
  drop-drop (suc m) (suc n) [] = let e : suc m + suc n ≡ suc (m + suc n) = omega arith in rw e
  drop-drop (suc m) n (x ∷ xs) =
      let e : suc m + n ≡ suc (m + n) = omega arith in rw e (drop-drop m n xs)

  -- Reading two pieces one behind the other reads the whole.
  pub slice-append :
      (i m n : ℕ) (xs : List A) → slice i m xs ++ slice (i + m) n xs ≡ slice i (m + n) xs
  slice-append i m n xs = rw (← drop-drop i m xs) (take-add m n (drop i xs))

  pub length-slice : (i n : ℕ) (xs : List A) → i + n ≤ length xs → length (slice i n xs) ≡ n
  length-slice i n xs h = omega (arith, length-take n (drop i xs), length-drop i xs)
