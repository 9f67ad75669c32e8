-- ===== src/Vmouse/Speed.antt =====
-- The speeds of vmouse_driver/vmouse.c: the gearbox, and every reachable state of the driver.
use linux_device_drivers.Common.{
  ℕ, ◌≤◌, ◌≡◌, false, List, [], ◌∷◌, arith, ℤ, pos, negsuc, abs, signed32, neg32,
}
use linux_device_drivers.Vmouse.Driver.{
  Vmouse, KeyCode, EventType, ev_key, ev_other, key_p, key_n, key_b, key_f, key_v, key_u, key_space,
  key_m, key_leftctrl, key_leftalt, key_capslock, shift_gear, vms_func, work_switch, vkbd_filter,
  filter_key, dispatch_event, wheel_speed_store, check_val, Report, report_rel, report_key, sync,
  rel_x, rel_y, rel_wheel, Step, filtered, worked, stored, Run, here, next, to_unsigned,
  move_reports,
}
use linux_device_drivers.Vmouse.Gear.{IsGear, IsGear-bounds, gearbox-IsGear}

-- The invariant of the driver.
pub record IsValid (v : Vmouse) : Type 0 where
  pub geared : IsGear v.move_speed v.gear
  pub wheel_low : 1 ≤ v.wheel_speed
  pub wheel_high : v.wheel_speed ≤ 7

check_val_bounds :
    (x : ℤ)
    → (1 ≤ to_unsigned (check_val x (pos 7) (pos 1)))
      × (to_unsigned (check_val x (pos 7) (pos 1)) ≤ 7)
unfolding check_val
check_val_bounds (pos n) = ground arith
check_val_bounds (negsuc n) = ground arith

pub wheel_speed_store-IsValid :
    (parsed : ℤ) (count : ℕ) (v : Vmouse) → IsValid v → IsValid (wheel_speed_store parsed count v).0
unfolding wheel_speed_store
wheel_speed_store-IsValid parsed count v h = record {
  geared = h.geared;
  wheel_low = (check_val_bounds parsed).0;
  wheel_high = (check_val_bounds parsed).1;
}

-- What the filter leaves alone.
pub record Keeps (v w : Vmouse) : Type 0 where
  pub move_speed_kept : w.move_speed ≡ v.move_speed
  pub wheel_speed_kept : w.wheel_speed ≡ v.wheel_speed
  pub gear_kept : w.gear ≡ v.gear

dispatch_event-Keeps :
    (code : KeyCode) (value : ℤ) (v : Vmouse) → Keeps v (dispatch_event code value v).0
unfolding dispatch_event
dispatch_event-Keeps code value v = ground arith

filter_key-Keeps : (code : KeyCode) (value : ℤ) (v : Vmouse) → Keeps v (filter_key code value v).0
unfolding filter_key
filter_key-Keeps key_leftctrl value v = ground arith
filter_key-Keeps key_leftalt value v = ground arith
filter_key-Keeps key_capslock value v = ground arith
filter_key-Keeps code value v = dispatch_event-Keeps code value v

pub vkbd_filter-Keeps :
    (type : EventType) (code : KeyCode) (value : ℤ) (v : Vmouse)
    → Keeps v (vkbd_filter type code value v).0
unfolding vkbd_filter
vkbd_filter-Keeps ev_key code value v = filter_key-Keeps code value v
vkbd_filter-Keeps ev_other code value v = ground arith

Keeps-IsValid : {v w : Vmouse} → Keeps v w → IsValid v → IsValid w
Keeps-IsValid {v} {w} k h = record {
  geared = rw (k.move_speed_kept, k.gear_kept) (h.geared);
  wheel_low = omega (arith, k.wheel_speed_kept);
  wheel_high = omega (arith, k.wheel_speed_kept);
}

pub vkbd_filter-IsValid :
    (type : EventType) (code : KeyCode) (value : ℤ) (v : Vmouse)
    → IsValid v
    → IsValid (vkbd_filter type code value v).0
vkbd_filter-IsValid type code value v h = Keeps-IsValid (vkbd_filter-Keeps type code value v) h

-- A pointer motion of at most 64 and a wheel motion of at most 7, either way.
abbrev pub IsModerate : Report → Type 0
IsModerate (report_rel rel_x x) = abs x ≤ 64
IsModerate (report_rel rel_y x) = abs x ≤ 64
IsModerate (report_rel rel_wheel x) = abs x ≤ 7
IsModerate (report_key b x) = Unit
IsModerate sync = Unit

abbrev pub AllModerate : List Report → Type 0
AllModerate [] = Unit
AllModerate (r ∷ rs) = IsModerate r × AllModerate rs

shift_gear-IsValid : (v : Vmouse) → IsValid v → IsValid (shift_gear v)
unfolding shift_gear
shift_gear-IsValid v h = record {
  geared = gearbox-IsGear v.value v.keep_speed v.move_speed v.gear (h.geared);
  wheel_low = h.wheel_low;
  wheel_high = h.wheel_high;
}

-- A speed is reported with its own magnitude, whichever its sign.
signed_abs :
    (s k : ℕ) → 1 ≤ s → s ≤ k → k ≤ 64 → (abs (signed32 s) ≤ k) × (abs (signed32 (neg32 s)) ≤ k)
signed_abs s k lo hi h = ground arith

move_reports-AllModerate :
    (v : Vmouse)
    → IsValid v
    → AllModerate (move_reports (pos 0) (signed32 (neg32 v.move_speed)))
      × AllModerate (move_reports (pos 0) (signed32 v.move_speed))
      × AllModerate (move_reports (signed32 (neg32 v.move_speed)) (pos 0))
      × AllModerate (move_reports (signed32 v.move_speed) (pos 0))
unfolding move_reports
move_reports-AllModerate v h =
    let (lo, hi) = IsGear-bounds h.geared in
    let (p, n) = signed_abs v.move_speed 64 (omega arith) hi (omega arith) in
    (
      (omega arith, (n, (tt, tt))),
      (omega arith, (p, (tt, tt))),
      (n, (omega arith, (tt, tt))),
      (p, (omega arith, (tt, tt))),
    )

work_switch-IsValid :
    (code : KeyCode) (v : Vmouse)
    → IsValid v
    → IsValid (work_switch code v).0 × AllModerate (work_switch code v).1
unfolding work_switch
work_switch-IsValid key_p v h =
    let h' = shift_gear-IsValid v h in (h', (move_reports-AllModerate (shift_gear v) h').0)
work_switch-IsValid key_n v h =
    let h' = shift_gear-IsValid v h in (h', (move_reports-AllModerate (shift_gear v) h').1)
work_switch-IsValid key_b v h =
    let h' = shift_gear-IsValid v h in (h', (move_reports-AllModerate (shift_gear v) h').2)
work_switch-IsValid key_f v h =
    let h' = shift_gear-IsValid v h in (h', (move_reports-AllModerate (shift_gear v) h').3)
work_switch-IsValid key_v v h =
    (h, ((signed_abs v.wheel_speed 7 (omega arith) (omega arith) (omega arith)).1, (tt, tt)))
work_switch-IsValid key_u v h =
    (h, ((signed_abs v.wheel_speed 7 (omega arith) (omega arith) (omega arith)).0, (tt, tt)))
work_switch-IsValid key_space v h = (h, (tt, (tt, tt)))
work_switch-IsValid key_m v h = (h, (tt, (tt, tt)))
work_switch-IsValid _ v h = (h, tt)

pub vms_func-IsValid :
    (v : Vmouse) → IsValid v → IsValid (vms_func v).0 × AllModerate (vms_func v).1
unfolding vms_func
vms_func-IsValid v h =
    work_switch-IsValid v.event_code (record v { pending = false })
      (record { geared = h.geared; wheel_low = h.wheel_low; wheel_high = h.wheel_high })

Step-IsValid : {v w : Vmouse} {r : List Report} → Step v w r → IsValid v → IsValid w × AllModerate r
Step-IsValid (filtered type code value v) h = (vkbd_filter-IsValid type code value v h, tt)
Step-IsValid (worked v p) h = vms_func-IsValid v h
Step-IsValid (stored parsed count v) h = (wheel_speed_store-IsValid parsed count v h, tt)

abbrev pub EveryModerate : List (List Report) → Type 0
EveryModerate [] = Unit
EveryModerate (r ∷ rs) = AllModerate r × EveryModerate rs

-- In every run from a valid state, with keyboard events, queued work and wheel stores in any order,
-- the state stays valid, every pointer motion reported is at most 64 and every wheel motion at
-- most 7, either way.
pub Run-IsValid :
    {v w : Vmouse} {rs : List (List Report)} → Run v w rs → IsValid v → IsValid w × EveryModerate rs
Run-IsValid here h = (h, tt)
Run-IsValid (next r st) h =
    let (u, rest) = Run-IsValid r h in let (w, now) = Step-IsValid st u in (w, (now, rest))
