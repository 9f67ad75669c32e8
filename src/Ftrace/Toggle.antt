-- ===== src/Ftrace/Toggle.antt =====
-- ftrace/ftrace-direct.c: `my_tramp` stays the trampoline that the kernel has.
use linux_device_drivers.Common.{
  ℕ, zero, suc, ◌+◌, ◌-◌, ◌%◌, ap, ◌∙◌, some, pos, replicate, ◌==◌, ◌≡◌, ◌<◌, inl, inr, refl, Bool,
  true, Bool-cases, List, [], ◌∷◌, ◌++◌, arith, if◌then◌else◌, ℤ, is_nonzero, ◌&&◌,
}
use linux_device_drivers.Ftrace.Thread.{
  State, start, Modify, thread_round, my_direct_func1, my_direct_func2, direct_call,
}

-- The kernel's side: the trampoline that it has after a successful change is the new one; it has the
-- old one after a failure.
abbrev pub registered : ℕ → List Modify → ℕ
registered now [] = now
registered now (m ∷ ms) = registered (if is_nonzero m.answer then now else m.to) ms

-- Whether each change names the trampoline that the kernel has at that time.
abbrev pub all_current : ℕ → List Modify → Bool
all_current now [] = true
all_current now (m ∷ ms) =
    (m.from == now) && all_current (if is_nonzero m.answer then now else m.to) ms

-- The rounds with these answers, and the changes they ask for.
unfoldable pub rounds : List ℤ → State → State × List Modify
rounds [] s = (s, [])
rounds (answer ∷ answers) s =
    let (u, ms) = thread_round answer s in let (w, ms') = rounds answers u in (w, ms ++ ms')

-- From any state in which `my_tramp` is what the kernel has, and for all answers, each change names
-- the trampoline that the kernel has at that time, and `my_tramp` is what the kernel has at the end,
-- so that the exit unregisters the right one.
pub rounds_lem :
    (answers : List ℤ) (s : State)
    → (registered s.my_tramp (rounds answers s).1 ≡ (rounds answers s).0.my_tramp)
      × (all_current s.my_tramp (rounds answers s).1 ≡ true)
unfolding rounds thread_round
rounds_lem [] s = (refl, refl)
rounds_lem (answer ∷ answers) s =
    let (same, current) = rounds_lem answers (thread_round answer s).0 in
    elim (Bool-cases (is_nonzero s.ret)) [ inl failed ↦ ground arith | inr well ↦ ground arith ]

-- The state after so many rounds whose calls all succeed.
abbrev pub toggled : ℕ → State
toggled n = record { my_tramp = n % 2; t = n % 2; ret = pos 0 }

step_toggles : (n : ℕ) → (thread_round (pos 0) (toggled n)).0 ≡ toggled (n + 1)
unfolding thread_round
step_toggles n = let e : 1 - n % 2 ≡ (n + 1) % 2 = omega arith in rw e refl

rounds_toggle : (n k : ℕ) → (rounds (replicate n (pos 0)) (toggled k)).0 ≡ toggled (k + n)
unfolding rounds
rounds_toggle zero k = let e : k + 0 ≡ k = omega arith in rw e refl
rounds_toggle (suc n) k =
    let e : k + suc n ≡ k + 1 + n = omega arith in
    ap (λ s. (rounds (replicate n (pos 0)) s).0) (step_toggles k) ∙ rw e (rounds_toggle n (k + 1))

-- After a failure nothing changes any more.
rounds_stuck : (answers : List ℤ) (s : State) → is_nonzero s.ret ≡ true → (rounds answers s).0 ≡ s
unfolding rounds thread_round
rounds_stuck [] s f = refl
rounds_stuck (answer ∷ answers) s f = rw f (rounds_stuck answers s f)

failed_round :
    (failed : ℤ) (answers : List ℤ) (k : ℕ)
    → is_nonzero failed ≡ true
    → (rounds (failed ∷ answers) (toggled k)).0.my_tramp ≡ k % 2
unfolding rounds thread_round
failed_round failed answers k f = rw f (
    ap (λ s. s.my_tramp)
      (rounds_stuck answers (record { my_tramp = k % 2; t = 1 - k % 2; ret = failed }) f))

parity_call :
    (k : ℕ) → k < 2 → direct_call k ≡ some (if k == 0 then my_direct_func1 else my_direct_func2)
unfolding direct_call
parity_call zero h = refl
parity_call (suc zero) h = refl
parity_call (suc (suc k)) h = absurd (omega arith)

-- As long as every change succeeds, the calls that are traced log the one line after an even number
-- of rounds and the other after an odd number; after a change that fails they log the same line
-- for good.
pub direct_call_alternates :
    (n : ℕ) (failed : ℤ) (answers : List ℤ)
    → is_nonzero failed ≡ true
    → let s = (rounds (replicate n (pos 0)) start).0 in
      let stuck = (rounds (failed ∷ answers) s).0 in
      (direct_call s.my_tramp ≡ some (if n % 2 == 0 then my_direct_func1 else my_direct_func2))
      × (direct_call stuck.my_tramp ≡ direct_call s.my_tramp)
direct_call_alternates n failed answers f =
    let start_n : (rounds (replicate n (pos 0)) start).0 ≡ toggled n =
      rounds_toggle n 0 ∙ ap toggled (omega arith) in
    rw start_n (parity_call (n % 2) (omega arith), ap direct_call (failed_round failed answers n f))
