-- ===== src/Vmouse/Setup.antt =====
-- vmouse_driver/vmouse.c outside run time: module initialisation and exit, and the input handler's
-- connect, disconnect and start. What the kernel answers is a parameter; each call is recorded with its answer,
-- and `accounting` states which of them take or give back a resource.
use linux_device_drivers.Common.{
  ℕ, zero, suc, ◌+◌, Bool, true, false, not, ◌&&◌, Option, none, some, List, [], ◌∷◌, ◌==◌,
  if◌then◌else◌, ℤ, pos, negsuc, is_nonzero, neg_errno, enodev, enomem, Effect, acquire, release,
  neutral, Accounting,
}
use linux_device_drivers.Vmouse.Driver.{
  Vmouse, other_key, move_default_speed, wheel_default_speed, step_default_value,
}

-- A kernel call, with its answer where it has one that decides what is held.
pub data Call : Type 0 where
  kzalloc_handle : Bool → Call
  kfree_handle : Call
  input_register_handle : ℤ → Call
  input_unregister_handle : Call
  input_open_device : ℤ → Call
  input_close_device : Call
  inject_led_capsl : Call
  inject_syn_report : Call
  kzalloc_vms : Bool → Call
  kfree_vms : Call
  input_register_handler : ℤ → Call
  input_unregister_handler : Call
  input_allocate_device : Bool → Call
  input_register_device : ℤ → Call
  input_unregister_device : Call
  sysfs_create_file : ℤ → Call
  sysfs_remove_file : Call

pub data Resource : Type 0 where
  handle_memory handle_registered device_open vms_memory handler_registered device file : Resource

abbrev pub resource_code : Resource → ℕ
resource_code handle_memory = 0
resource_code handle_registered = 1
resource_code device_open = 2
resource_code vms_memory = 3
resource_code handler_registered = 4
resource_code device = 5
resource_code file = 6

-- A call that returns an error number takes nothing.
abbrev pub acquire_on_zero : Resource → ℤ → Effect Resource
acquire_on_zero r ret = if is_nonzero ret then neutral else acquire r

abbrev pub acquire_on_true : Resource → Bool → Effect Resource
acquire_on_true r ok = if ok then acquire r else neutral

abbrev pub call_effect : Call → Effect Resource
call_effect (kzalloc_handle ok) = acquire_on_true handle_memory ok
call_effect kfree_handle = release handle_memory
call_effect (input_register_handle ret) = acquire_on_zero handle_registered ret
call_effect input_unregister_handle = release handle_registered
call_effect (input_open_device ret) = acquire_on_zero device_open ret
call_effect input_close_device = release device_open
call_effect inject_led_capsl = neutral
call_effect inject_syn_report = neutral
call_effect (kzalloc_vms ok) = acquire_on_true vms_memory ok
call_effect kfree_vms = release vms_memory
call_effect (input_register_handler ret) = acquire_on_zero handler_registered ret
call_effect input_unregister_handler = release handler_registered
call_effect (input_allocate_device ok) = acquire_on_true device ok
call_effect (input_register_device ret) = neutral
call_effect input_unregister_device = release device
call_effect (sysfs_create_file ret) = acquire_on_zero file ret
call_effect sysfs_remove_file = release file

abbrev pub accounting : Accounting Call Resource
accounting = record { effect = call_effect; same = λ r s. resource_code r == resource_code s }

-- KEY_RESERVED is 0 and BTN_MISC is 0x100 in linux/input-event-codes.h.
abbrev pub btn_misc : ℕ
btn_misc = 0x100

-- The `for` loop of `vkbd_connect`, with `rounds` indices left: the first set bit, or the end.
unfoldable pub first_key : ℕ → ℕ → (ℕ → Bool) → ℕ
first_key zero i keybit = i
first_key (suc rounds) i keybit =
    let rest = first_key rounds (i + 1) keybit in if keybit i then i else rest

-- What the kernel answers during `vkbd_connect`, and the device's capability bits.
pub record ConnectAnswers : Type 0 where
  pub keybit : ℕ → Bool
  pub has_ev_snd : Bool
  pub handle_allocated : Bool
  pub register_handle : ℤ
  pub open_device : ℤ

-- `vkbd_connect`: its calls and its result.
unfoldable pub vkbd_connect : ConnectAnswers → List Call × ℤ
vkbd_connect k =
    if first_key btn_misc 0 keybit == btn_misc && not has_ev_snd
    then ([], neg_errno enodev)
    else (if not handle_allocated
        then (kzalloc_handle false ∷ [], neg_errno enomem)
        else (if is_nonzero register_handle
            then (
              kzalloc_handle true ∷ input_register_handle register_handle ∷ kfree_handle ∷ [],
              register_handle,
            )
            else (if is_nonzero open_device
                then (
                  kzalloc_handle true
                      ∷ input_register_handle register_handle
                      ∷ input_open_device open_device
                      ∷ input_unregister_handle
                      ∷ kfree_handle
                      ∷ [],
                  open_device,
                )
                else (
                  kzalloc_handle true
                      ∷ input_register_handle register_handle
                      ∷ input_open_device open_device
                      ∷ [],
                  pos 0,
                ))))
  where
    open k use {keybit, has_ev_snd, handle_allocated, register_handle, open_device}

-- `vkbd_disconnect`.
unfoldable pub vkbd_disconnect : List Call
vkbd_disconnect = input_close_device ∷ input_unregister_handle ∷ kfree_handle ∷ []

-- `vkbd_start`.
unfoldable pub vkbd_start : List Call
vkbd_start = inject_led_capsl ∷ inject_syn_report ∷ []

-- The state that `vmouse_init` sets up: `kzalloc` zeroes the rest. (No event code is 0 among those
-- that the driver names.)
unfoldable pub initial_state : Vmouse
initial_state = record {
  value = pos 0;
  event_code = other_key 0;
  move_speed = move_default_speed;
  wheel_speed = wheel_default_speed;
  keep_speed = false;
  key_status = record { ctrl_key_down = pos 0; alt_key_down = pos 0; capslock_key_down = pos 0 };
  gear = record { count = 0; step = step_default_value };
  pending = false;
}

pub record InitAnswers : Type 0 where
  pub vms_allocated : Bool
  pub register_handler : ℤ
  pub device_allocated : Bool
  pub register_device : ℤ
  pub create_file : ℤ

-- `vmouse_init`: its calls and its result. `none` is the write through the null pointer that an
-- unchecked `kzalloc` leaves.
unfoldable pub vmouse_init : InitAnswers → Option (List Call × ℤ)
vmouse_init k =
    if not vms_allocated
    then none
    else (if is_nonzero register_handler
        then some
            (kzalloc_vms true ∷ input_register_handler register_handler ∷ [], register_handler)
        else (if not device_allocated
            then some (
              kzalloc_vms true
                  ∷ input_register_handler register_handler
                  ∷ input_allocate_device false
                  ∷ [],
              negsuc 0,
            )
            else some (
              kzalloc_vms true
                  ∷ input_register_handler register_handler
                  ∷ input_allocate_device true
                  ∷ input_register_device register_device
                  ∷ sysfs_create_file create_file
                  ∷ [],
              pos 0,
            )))
  where
    open k use {vms_allocated, register_handler, device_allocated, register_device, create_file}

-- `vmouse_exit`, where `vms->dev` is set, as it is after every `vmouse_init` that returns 0.
unfoldable pub vmouse_exit : List Call
vmouse_exit =
    sysfs_remove_file ∷ input_unregister_device ∷ input_unregister_handler ∷ kfree_vms ∷ []
