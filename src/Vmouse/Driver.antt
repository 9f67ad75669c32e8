-- ===== src/Vmouse/Driver.antt =====
-- vmouse_driver/vmouse.c at run time: the gearbox, the work function, the keyboard filter and the
-- wheel-speed attribute. The spin lock makes each of these one step; what can interleave is a
-- filter call and the work that an earlier one scheduled, which is `Step` below.
use linux_device_drivers.Common.{
  ℕ, zero, suc, ◌+◌, ◌*◌, ◌%◌, ◌^◌, ◌≡◌, Bool, true, false, ◌&&◌, not, List, [], ◌∷◌, ltb, ◌==◌,
  if◌then◌else◌, ℤ, pos, negsuc, ltb_ℤ, is_nonzero, signed32, neg32,
}

abbrev pub move_default_speed : ℕ
move_default_speed = 2

abbrev pub move_max_speed : ℕ
move_max_speed = 64

abbrev pub wheel_default_speed : ℕ
wheel_default_speed = 5

abbrev pub wheel_max_speed : ℤ
wheel_max_speed = pos 7

abbrev pub wheel_min_speed : ℤ
wheel_min_speed = pos 1

abbrev pub step_default_value : ℕ
step_default_value = 1

abbrev pub step_gain_value : ℕ
step_gain_value = 2

-- The key codes of linux/input-event-codes.h that the driver names; `other_key` is any other code.
pub data KeyCode : Type 0 where
  key_p key_n key_b key_f key_v key_u key_space key_m : KeyCode
  key_leftctrl key_leftalt key_capslock : KeyCode
  other_key : ℕ → KeyCode

-- EV_KEY, or another event type.
pub data EventType : Type 0 where
  ev_key ev_other : EventType

pub data Axis : Type 0 where
  rel_x rel_y rel_wheel : Axis

pub data Button : Type 0 where
  btn_left btn_right : Button

-- The calls `input_report_rel`, `input_report_key` and `input_sync`, with their arguments.
pub data Report : Type 0 where
  report_rel : Axis → ℤ → Report
  report_key : Button → ℤ → Report
  sync : Report

pub record KeyStatus : Type 0 where
  pub ctrl_key_down : ℤ
  pub alt_key_down : ℤ
  pub capslock_key_down : ℤ

-- The two `static int`s of `gearbox`. They start at 0 and 1 and stay small, so that the natural
-- numbers stand for them.
pub record Gear : Type 0 where
  pub count : ℕ
  pub step : ℕ

-- `struct vmouse`, the statics of `gearbox`, and whether `work` is queued. The unsigned speeds are
-- 32-bit patterns.
pub record Vmouse : Type 0 where
  pub value : ℤ
  pub event_code : KeyCode
  pub move_speed : ℕ
  pub wheel_speed : ℕ
  pub keep_speed : Bool
  pub key_status : KeyStatus
  pub gear : Gear
  pub pending : Bool

-- `check_val(val, max_val, min_val)`.
unfoldable pub check_val : ℤ → ℤ → ℤ → ℤ
check_val val max_val min_val =
    if ltb_ℤ val min_val then min_val else if ltb_ℤ max_val val then max_val else val

-- `unsigned int` from `int`.
abbrev pub to_unsigned : ℤ → ℕ
to_unsigned (pos n) = n % 2 ^ 32
to_unsigned (negsuc n) = neg32 (suc n)

-- `vmouse_wheel_speed_store`: `parsed` is what `sscanf` read from the buffer.
unfoldable pub wheel_speed_store : ℤ → ℕ → Vmouse → Vmouse × ℕ
unfolding check_val
wheel_speed_store parsed count vms = (
  record vms { wheel_speed = to_unsigned (check_val parsed wheel_max_speed wheel_min_speed) },
  count,
)

-- `vmouse_wheel_speed_show` prints this number.
unfoldable pub wheel_speed_show : Vmouse → ℕ
wheel_speed_show vms = vms.wheel_speed

-- KEY_VAL_PRESS with the speed not kept.
unfoldable pub press : ℕ → Gear → ℕ × Gear
press speed g =
    let count' = g.count + 1 in
    if count' == g.step
    then (if ltb speed move_max_speed
        then (speed * 2 % 2 ^ 32, record { count = 0; step = g.step + step_gain_value })
        else (speed, record g { count = 0 }))
    else (speed, record g { count = count' })

-- `gearbox`: the key values 0, 1 and 2 are KEY_VAL_UP, KEY_VAL_DOWN and KEY_VAL_PRESS.
unfoldable pub gearbox : ℤ → Bool → ℕ → Gear → ℕ × Gear
unfolding press
gearbox (pos zero) keep_speed speed g = (speed, record g { count = 0 })
gearbox (pos (suc zero)) keep_speed speed g =
    if not keep_speed
    then (move_default_speed, record { count = 0; step = step_default_value })
    else (speed, record g { count = 0 })
gearbox (pos (suc (suc zero))) keep_speed speed g =
    if not keep_speed then press speed g else (speed, g)
gearbox (pos (suc (suc (suc n)))) keep_speed speed g = (speed, g)
gearbox (negsuc n) keep_speed speed g = (speed, g)

-- `gearbox(vms->value, &vms->move_speed, vms->keep_speed)`.
unfoldable pub shift_gear : Vmouse → Vmouse
unfolding gearbox
shift_gear vms =
    let (speed, g) = gearbox vms.value vms.keep_speed vms.move_speed vms.gear in
    record vms { move_speed = speed; gear = g }

-- The cases of the `switch` of `vms_func` that move: the reports at the speed of `vms`.
unfoldable pub move_reports : ℤ → ℤ → List Report
move_reports x y = report_rel rel_x x ∷ report_rel rel_y y ∷ sync ∷ []

-- The `switch` of `vms_func`. A speed is reported as an `int`, negated as an `unsigned int`.
unfoldable pub work_switch : KeyCode → Vmouse → Vmouse × List Report
unfolding shift_gear move_reports
work_switch key_p vms =
    let v = shift_gear vms in (v, move_reports (pos 0) (signed32 (neg32 v.move_speed)))
work_switch key_n vms = let v = shift_gear vms in (v, move_reports (pos 0) (signed32 v.move_speed))
work_switch key_b vms =
    let v = shift_gear vms in (v, move_reports (signed32 (neg32 v.move_speed)) (pos 0))
work_switch key_f vms = let v = shift_gear vms in (v, move_reports (signed32 v.move_speed) (pos 0))
work_switch key_v vms = (vms, report_rel rel_wheel (signed32 (neg32 vms.wheel_speed)) ∷ sync ∷ [])
work_switch key_u vms = (vms, report_rel rel_wheel (signed32 vms.wheel_speed) ∷ sync ∷ [])
work_switch key_space vms = (vms, report_key btn_left vms.value ∷ sync ∷ [])
work_switch key_m vms = (vms, report_key btn_right vms.value ∷ sync ∷ [])
work_switch key_leftctrl vms = (vms, [])
work_switch key_leftalt vms = (vms, [])
work_switch key_capslock vms = (vms, [])
work_switch (other_key n) vms = (vms, [])

-- `vms_func`. The kernel clears the pending mark before it calls the function.
unfoldable pub vms_func : Vmouse → Vmouse × List Report
unfolding work_switch
vms_func vms = work_switch vms.event_code (record vms { pending = false })

-- The `switch` that ends `vkbd_filter`: whether the event is kept from other handlers.
unfoldable pub is_mouse_key : KeyCode → Bool
is_mouse_key key_p = true
is_mouse_key key_n = true
is_mouse_key key_b = true
is_mouse_key key_f = true
is_mouse_key key_space = true
is_mouse_key key_m = true
is_mouse_key key_v = true
is_mouse_key key_u = true
is_mouse_key key_leftctrl = false
is_mouse_key key_leftalt = false
is_mouse_key key_capslock = false
is_mouse_key (other_key n) = false

-- The part of `vkbd_filter` below its first `switch`.
unfoldable pub dispatch_event : KeyCode → ℤ → Vmouse → Vmouse × Bool
unfolding is_mouse_key
dispatch_event code value vms =
    if is_nonzero vms.key_status.ctrl_key_down && is_nonzero vms.key_status.alt_key_down
    then (record vms { event_code = code; value = value; pending = true }, is_mouse_key code)
    else (vms, false)

-- `key->capslock_key_down ? 0 : 1` on KEY_VAL_DOWN.
unfoldable pub toggle_capslock : ℤ → ℤ → ℤ
toggle_capslock (pos (suc zero)) down = if is_nonzero down then pos 0 else pos 1
toggle_capslock _ down = down

-- `vkbd_filter` for an event of type EV_KEY: its first `switch`, and what follows.
unfoldable pub filter_key : KeyCode → ℤ → Vmouse → Vmouse × Bool
unfolding dispatch_event toggle_capslock
filter_key key_leftctrl value vms =
    let v = record vms { key_status = record (vms.key_status) { ctrl_key_down = value } } in
    if v.keep_speed then (v, true) else dispatch_event key_leftctrl value v
filter_key key_leftalt value vms =
    let v = record vms { key_status = record (vms.key_status) { alt_key_down = value } } in
    if v.keep_speed then (v, true) else dispatch_event key_leftalt value v
filter_key key_capslock value vms =
    let caps = toggle_capslock value vms.key_status.capslock_key_down in
    dispatch_event key_capslock value (record vms {
      key_status = record (vms.key_status) { capslock_key_down = caps };
      keep_speed = is_nonzero caps;
    })
filter_key code value vms = dispatch_event code value vms

-- `vkbd_filter`.
unfoldable pub vkbd_filter : EventType → KeyCode → ℤ → Vmouse → Vmouse × Bool
unfolding filter_key
vkbd_filter ev_key code value vms = filter_key code value vms
vkbd_filter ev_other code value vms = (vms, false)

-- What can happen to a loaded driver, in any order: a keyboard event passes the filter, the
-- scheduled work runs, the wheel speed is stored. The last index is what was reported.
pub data Step : Vmouse → Vmouse → List Report → Type 0 where
  filtered :
      (type : EventType) (code : KeyCode) (value : ℤ) (v : Vmouse)
      → Step v (vkbd_filter type code value v).0 []
  worked : (v : Vmouse) → v.pending ≡ true → Step v (vms_func v).0 (vms_func v).1
  stored : (parsed : ℤ) (count : ℕ) (v : Vmouse) → Step v (wheel_speed_store parsed count v).0 []

-- A run from one state to another, with the reports of its last step first.
pub data Run (v : Vmouse) : Vmouse → List (List Report) → Type 0 where
  here : Run v v []
  next :
      {u w : Vmouse} {rs : List (List Report)} {r : List Report}
      → Run v u rs
      → Step u w r
      → Run v w (r ∷ rs)
