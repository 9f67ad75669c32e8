-- ===== src/Vmouse/Gear.antt =====
-- The gearbox of vmouse_driver/vmouse.c: its invariant, and how holding a key accelerates.
use mathlib.Core.Path.{subst}
use linux_device_drivers.Common.{
  sym, ap, ◌-◌, ℕ, zero, suc, ◌+◌, ◌*◌, ◌/◌, ◌%◌, ◌^◌, ◌≤◌, ◌<◌, ◌≡◌, refl, Bool, true, false,
  arith, ℤ, pos, negsuc,
}
use linux_device_drivers.Vmouse.Driver.{Gear, press, gearbox}

-- The speed is a power of two set by how often `step` has grown, and the count is below `step`.
pub record IsGear (speed : ℕ) (g : Gear) : Type 0 where
  pub doubled : speed ≡ 2 * 2 ^ (g.step / 2)
  pub odd : g.step % 2 ≡ 1
  pub capped : g.step ≤ 11
  pub turning : g.count < g.step

-- The six gears, as facts about `2 ^ k`.
level_facts :
    (k : ℕ)
    → k ≤ 5
    → (2 * 2 ^ k ≤ 64)
      × (2 ≤ 2 * 2 ^ k)
      × (2 * 2 ^ k < 64 → (k ≤ 4) × (2 * 2 ^ k * 2 ≡ 2 * 2 ^ (k + 1)))
level_facts zero h = (omega arith, omega arith, λ p. (omega arith, refl))
level_facts (suc zero) h = (omega arith, omega arith, λ p. (omega arith, refl))
level_facts (suc (suc zero)) h = (omega arith, omega arith, λ p. (omega arith, refl))
level_facts (suc (suc (suc zero))) h = (omega arith, omega arith, λ p. (omega arith, refl))
level_facts (suc (suc (suc (suc zero)))) h = (omega arith, omega arith, λ p. (omega arith, refl))
level_facts (suc (suc (suc (suc (suc zero))))) h =
    (omega arith, omega arith, λ p. absurd (omega arith))
level_facts (suc (suc (suc (suc (suc (suc k)))))) h = absurd (omega arith)

next_level : (s : ℕ) → (s + 2) / 2 ≡ s / 2 + 1
next_level s = omega arith

pub IsGear-bounds : {speed : ℕ} {g : Gear} → IsGear speed g → (2 ≤ speed) × (speed ≤ 64)
IsGear-bounds {speed} {g} v = ground (arith, level_facts (g.step / 2))

-- Doubling the speed and growing the step reach the next gear.
next_gear :
    (speed s : ℕ)
    → speed ≡ 2 * 2 ^ (s / 2)
    → s % 2 ≡ 1
    → s ≤ 11
    → speed < 64
    → (speed * 2 % 2 ^ 32 ≡ 2 * 2 ^ ((s + 2) / 2)) × (s + 2 ≤ 11)
next_gear speed s e odd cap h =
    let f = level_facts (s / 2) (omega arith) in
    let (k, d) = f.2 (rw e at h) in (rw (next_level s, ← d, e) (omega (arith, f.0)), omega arith)

press-IsGear : (speed : ℕ) (g : Gear) → IsGear speed g → IsGear (press speed g).0 (press speed g).1
unfolding press
press-IsGear speed g v = ground (arith, next_gear speed g.step v.doubled v.odd v.capped)

-- Each key value takes a gear to a gear, whether the speed is kept or not.
pub gearbox-IsGear :
    (value : ℤ) (keep : Bool) (speed : ℕ) (g : Gear)
    → IsGear speed g
    → IsGear (gearbox value keep speed g).0 (gearbox value keep speed g).1
unfolding gearbox
gearbox-IsGear (pos zero) keep speed g v = ground arith
gearbox-IsGear (pos (suc zero)) true speed g v = ground arith
gearbox-IsGear (pos (suc zero)) false speed g v = omega arith
gearbox-IsGear (pos (suc (suc zero))) true speed g v = v
gearbox-IsGear (pos (suc (suc zero))) false speed g v = press-IsGear speed g v
gearbox-IsGear (pos (suc (suc (suc n)))) keep speed g v = v
gearbox-IsGear (negsuc n) keep speed g v = v

-- `n` further KEY_VAL_PRESS events with the speed not kept.
unfoldable pub hold : ℕ → ℕ → Gear → ℕ × Gear
hold zero speed g = (speed, g)
hold (suc n) speed g = let (speed', g') = hold n speed g in gearbox (pos 2) false speed' g'

hold_counts :
    (n speed : ℕ) (g : Gear)
    → g.count + n < g.step
    → hold n speed g ≡ (speed, record g { count = g.count + n })
unfolding hold gearbox press
hold_counts zero speed g h = ground arith
hold_counts (suc n) speed g h = ground (arith, hold_counts n speed g)

hold_turns :
    (m speed : ℕ) (g : Gear)
    → g.count ≡ 0
    → g.step ≡ suc m
    → speed < 64
    → hold (suc m) speed g ≡ (speed * 2, record { count = 0; step = g.step + 2 })
unfolding hold gearbox press
hold_turns m speed g c e h = ground (arith, hold_counts m speed g)

-- Below the top speed, a gear that has just been engaged (count 0) keeps its speed for fewer than
-- `step` presses, and the press number `step` doubles the speed and engages the next gear.
pub hold_accelerates :
    (n speed : ℕ) (g : Gear)
    → IsGear speed g
    → g.count ≡ 0
    → speed < 64
    → n < g.step
    → ((hold n speed g).0 ≡ speed)
      × (hold g.step speed g ≡ (speed * 2, record { count = 0; step = g.step + 2 }))
hold_accelerates n speed g v c h lt =
    let e : suc (g.step - 1) ≡ g.step = omega arith in
    (
      ap (λ p. p.0) (hold_counts n speed g (omega arith)),
      subst (λ k. hold k speed g ≡ (speed * 2, record { count = 0; step = g.step + 2 })) e
          (hold_turns (g.step - 1) speed g c (sym e) h),
    )

-- At the top speed of 64 any number of presses leaves the speed at 64.
pub hold_top : (n : ℕ) (g : Gear) → (hold n 64 g).0 ≡ 64
unfolding hold gearbox press
hold_top zero g = refl
hold_top (suc n) g = ground (arith, hold_top n g)
