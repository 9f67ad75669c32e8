-- ===== src/Vmouse/Burst.antt =====
-- What becomes of a burst of keys in vmouse_driver/vmouse.c, which pass the filter one after the
-- other before the work that the first of them scheduled runs.
use linux_device_drivers.Common.{◌≡◌, refl, ap, ◌∙◌, true, List, [], ◌∷◌, ◌++◌, arith, ℤ}
use linux_device_drivers.Vmouse.Driver.{
  Vmouse, KeyCode, ev_key, vkbd_filter, vms_func, dispatch_event,
}
use linux_device_drivers.Vmouse.Filter.{is_plain, is_armed, filter_plain, vkbd_filter_overwrites}

-- The filter for each of the keys with their values.
unfoldable pub filter_all : List (KeyCode × ℤ) → Vmouse → Vmouse
filter_all [] v = v
filter_all ((code, value) ∷ keys) v = filter_all keys (vkbd_filter ev_key code value v).0

abbrev pub AllPlain : List (KeyCode × ℤ) → Type 0
AllPlain [] = Unit
AllPlain ((code, value) ∷ keys) = (is_plain code ≡ true) × AllPlain keys

stays_armed :
    (code : KeyCode) (value : ℤ) (v : Vmouse)
    → is_plain code ≡ true
    → is_armed v ≡ true
    → is_armed (vkbd_filter ev_key code value v).0 ≡ true
unfolding dispatch_event
stays_armed code value v p h = rw (filter_plain code value v p) (ground arith)

burst_lem :
    (keys : List (KeyCode × ℤ)) (code : KeyCode) (value : ℤ) (v : Vmouse)
    → AllPlain keys
    → is_plain code ≡ true
    → is_armed v ≡ true
    → filter_all (keys ++ (code, value) ∷ []) v ≡ (vkbd_filter ev_key code value v).0
unfolding filter_all
burst_lem [] code value v ps p h = refl
burst_lem ((c, x) ∷ keys) code value v (q, ps) p h =
    burst_lem keys code value (vkbd_filter ev_key c x v).0 ps p (stays_armed c x v q h)
    ∙ vkbd_filter_overwrites c code x value v q p h

-- While Ctrl and Alt are down, of any number of keys, none a modifier or Caps Lock, that are filtered
-- before the work runs, only the last has an effect: the work leaves the state and makes the reports
-- that it would without all the others, whose motions are lost.
pub vms_func-filter_all :
    (keys : List (KeyCode × ℤ)) (code : KeyCode) (value : ℤ) (v : Vmouse)
    → AllPlain keys
    → is_plain code ≡ true
    → is_armed v ≡ true
    → vms_func (filter_all (keys ++ (code, value) ∷ []) v)
      ≡ vms_func (vkbd_filter ev_key code value v).0
vms_func-filter_all keys code value v ps p h = ap vms_func (burst_lem keys code value v ps p h)
