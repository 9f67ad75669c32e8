-- ===== src/Common/Trace.antt =====
-- What a driver acquires from the kernel and gives back, read off the list of calls it makes.
use mathlib.Core.Bool.{Bool, true, false}
use mathlib.Core.Option.{Option, none, some}
use mathlib.Core.List.{List, [], ◌∷◌}

-- The documented effect of a call on the resources that its caller holds.
pub data Effect (R : Type 0) : Type 0 where
  acquire : R → Effect R
  release : R → Effect R
  neutral : Effect R

-- An interface: which resource a call takes or gives back, and when two resources are the same.
pub record Accounting (C R : Type 0) : Type 0 where
  pub effect : C → Effect R
  pub same : R → R → Bool

module _ {C R : Type 0} (acc : Accounting C R) where
  open acc use {effect, same}

  -- `none`: the resource is not held, so giving it back is a fault (a double free).
  abbrev pub give_back : R → List R → Option (List R)
  give_back r [] = none
  give_back r (h ∷ hs) = elim (same r h) [
    | true ↦ some hs
    | false ↦ elim (give_back r hs) [ none ↦ none | some hs' ↦ some (h ∷ hs') ]
  ]

  abbrev pub apply_effect : Effect R → List R → Option (List R)
  apply_effect (acquire r) hs = some (r ∷ hs)
  apply_effect (release r) hs = give_back r hs
  apply_effect neutral hs = some hs

  -- What is held after the calls, most recent first; `none` after a fault.
  abbrev pub held_after : List C → List R → Option (List R)
  held_after [] hs = some hs
  held_after (c ∷ cs) hs = elim (apply_effect (effect c) hs) [
    | none ↦ none
    | some hs' ↦ held_after cs hs'
  ]
