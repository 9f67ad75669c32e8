-- ===== src/Vmouse/Filter.antt =====
-- What `vkbd_filter` of vmouse_driver/vmouse.c keeps from other handlers, what it schedules, and
-- what becomes of two events that arrive before the work runs.
use linux_device_drivers.Common.{
  ◌≡◌, refl, Bool, true, false, ◌&&◌, ◌||◌, not, arith, ℤ, is_nonzero, if◌then◌else◌,
}
use linux_device_drivers.Vmouse.Driver.{
  Vmouse, KeyCode, EventType, ev_key, ev_other, key_leftctrl, key_leftalt, key_capslock,
  vkbd_filter, filter_key, dispatch_event, is_mouse_key,
}

abbrev pub is_key : EventType → Bool
is_key ev_key = true
is_key ev_other = false

abbrev pub is_modifier : KeyCode → Bool
is_modifier key_leftctrl = true
is_modifier key_leftalt = true
is_modifier _ = false

-- Both modifiers are down.
abbrev pub is_armed : Vmouse → Bool
is_armed v = is_nonzero v.key_status.ctrl_key_down && is_nonzero v.key_status.alt_key_down

-- An event is kept from other handlers exactly when it is a key event and either is a modifier
-- while the speed is kept, or is one of the eight mouse keys while, after it, Ctrl and Alt are both down.
pub vkbd_filter_swallows :
    (type : EventType) (code : KeyCode) (value : ℤ) (v : Vmouse)
    → (vkbd_filter type code value v).1 ≡ (
        is_key type
        && (is_modifier code && v.keep_speed
            || is_armed (vkbd_filter type code value v).0 && is_mouse_key code))
unfolding vkbd_filter filter_key dispatch_event
vkbd_filter_swallows ev_other code value v = refl
vkbd_filter_swallows ev_key key_leftctrl value v = ground arith
vkbd_filter_swallows ev_key key_leftalt value v = ground arith
vkbd_filter_swallows ev_key _ value v = ground arith

-- After an event the work is queued exactly when it was queued before, or the event is a key event
-- after which Ctrl and Alt are both down, other than a modifier while the speed is kept; in that
-- case it is queued with the code and the value of this event.
pub vkbd_filter_schedules :
    (type : EventType) (code : KeyCode) (value : ℤ) (v : Vmouse)
    → let w = (vkbd_filter type code value v).0 in
      let queued = is_key type && is_armed w && not (is_modifier code && v.keep_speed) in
      (w.pending ≡ (v.pending || queued))
      × (w.event_code ≡ (if queued then code else v.event_code))
      × (w.value ≡ (if queued then value else v.value))
unfolding vkbd_filter filter_key dispatch_event
vkbd_filter_schedules ev_other code value v = ground arith
vkbd_filter_schedules ev_key key_leftctrl value v = ground arith
vkbd_filter_schedules ev_key key_leftalt value v = ground arith
vkbd_filter_schedules ev_key _ value v = ground arith

abbrev pub is_plain : KeyCode → Bool
is_plain key_leftctrl = false
is_plain key_leftalt = false
is_plain key_capslock = false
is_plain _ = true

-- A key that is neither a modifier nor Caps Lock is dispatched as it is.
pub filter_plain :
    (code : KeyCode) (value : ℤ) (v : Vmouse)
    → is_plain code ≡ true
    → vkbd_filter ev_key code value v ≡ dispatch_event code value v
unfolding vkbd_filter filter_key
filter_plain key_leftctrl value v p = ground arith
filter_plain key_leftalt value v p = ground arith
filter_plain key_capslock value v p = ground arith
filter_plain _ value v p = refl

-- Of two keys, neither a modifier nor Caps Lock, that are both filtered before the work runs, the
-- first leaves no trace in the state: its motion is never reported.
pub vkbd_filter_overwrites :
    (c d : KeyCode) (x y : ℤ) (v : Vmouse)
    → is_plain c ≡ true
    → is_plain d ≡ true
    → is_armed v ≡ true
    → (vkbd_filter ev_key d y (vkbd_filter ev_key c x v).0).0 ≡ (vkbd_filter ev_key d y v).0
unfolding dispatch_event
vkbd_filter_overwrites c d x y v p q h =
    rw (filter_plain c x v p, filter_plain d y v q, filter_plain d y (dispatch_event c x v).0 q)
      (ground arith)
