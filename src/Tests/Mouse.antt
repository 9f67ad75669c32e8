-- ===== src/Tests/Mouse.antt =====
-- The theorems of the virtual mouse on concrete events and answers.
use linux_device_drivers.Common.{◌≡◌, refl, true, false, some, List, [], ◌∷◌, arith, pos}
use linux_device_drivers.Vmouse.Driver.{
  Gear, Vmouse, vms_func, vkbd_filter, ev_key, key_n, key_p, here, next, filtered,
}
use linux_device_drivers.Vmouse.Burst.{filter_all, vms_func-filter_all}
use linux_device_drivers.Vmouse.Gear.{IsGear}
use linux_device_drivers.Vmouse.Speed.{IsValid, EveryModerate, Run-IsValid}
use linux_device_drivers.Vmouse.Setup.{
  Call, kzalloc_vms, input_register_handler, input_allocate_device, input_register_device,
  sysfs_create_file, ConnectAnswers, InitAnswers, vmouse_init, vms_memory, handler_registered,
  device, file,
}
use linux_device_drivers.Vmouse.Lifetime.{held, vmouse_init-held}

abbrev first_gear : Gear
first_gear = record { count = 0; step = 1 }

first_gear-IsGear : IsGear 2 first_gear
first_gear-IsGear = record {
  doubled = refl;
  odd = refl;
  capped = omega arith;
  turning = omega arith;
}

abbrev armed_state : Vmouse
armed_state = record {
  value = pos 0;
  event_code = key_p;
  move_speed = 2;
  wheel_speed = 1;
  keep_speed = false;
  key_status = record { ctrl_key_down = pos 1; alt_key_down = pos 1; capslock_key_down = pos 0 };
  gear = first_gear;
  pending = false;
}

armed_state-IsValid : IsValid armed_state
armed_state-IsValid = record {
  geared = first_gear-IsGear;
  wheel_low = omega arith;
  wheel_high = omega arith;
}

Run-IsValid_example :
    IsValid (vkbd_filter ev_key key_n (pos 1) armed_state).0 × EveryModerate ([] ∷ [])
Run-IsValid_example =
    Run-IsValid (next here (filtered ev_key key_n (pos 1) armed_state)) armed_state-IsValid

abbrev keyboard : ConnectAnswers
keyboard = record {
  keybit = λ i. true;
  has_ev_snd = false;
  handle_allocated = true;
  register_handle = pos 0;
  open_device = pos 0;
}

abbrev all_well : InitAnswers
all_well = record {
  vms_allocated = true;
  register_handler = pos 0;
  device_allocated = true;
  register_device = pos 0;
  create_file = pos 0;
}

abbrev vmouse_calls : List Call
vmouse_calls =
    kzalloc_vms true
    ∷ input_register_handler (pos 0)
    ∷ input_allocate_device true
    ∷ input_register_device (pos 0)
    ∷ sysfs_create_file (pos 0)
    ∷ []

vmouse_init-held_example :
    (held vmouse_calls [] ≡ some (file ∷ device ∷ handler_registered ∷ vms_memory ∷ []))
    × (pos 0 ≡ pos 0)
unfolding vmouse_init
vmouse_init-held_example = vmouse_init-held all_well refl

vms_func-filter_all_example :
    vms_func (filter_all ((key_p, pos 1) ∷ (key_n, pos 2) ∷ []) armed_state)
    ≡ vms_func (vkbd_filter ev_key key_n (pos 2) armed_state).0
vms_func-filter_all_example =
    vms_func-filter_all ((key_p, pos 1) ∷ []) key_n (pos 2) armed_state (refl, tt) refl refl
