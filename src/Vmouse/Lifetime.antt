-- ===== src/Vmouse/Lifetime.antt =====
-- What vmouse_driver/vmouse.c holds after each way through connect and module initialisation.
use native.Mathlib.Decide.{dec_lt}
use linux_device_drivers.Common.{
  ◌≢◌, ℕ, zero, suc, ◌+◌, ◌≤◌, ◌<◌, ◌≡◌, Bool, true, false, not, Option, some, List, [], ◌∷◌, ◌++◌,
  arith, if◌then◌else◌, ℤ, pos, negsuc, is_nonzero, neg_errno, enodev, held_after,
}
use linux_device_drivers.Vmouse.Setup.{
  Call, Resource, handle_memory, handle_registered, device_open, vms_memory, handler_registered,
  device, file, accounting, first_key, ConnectAnswers, vkbd_connect, vkbd_disconnect, InitAnswers,
  vmouse_init, vmouse_exit, btn_misc,
}

abbrev pub held : List Call → List Resource → Option (List Resource)
held = held_after accounting

-- After `vkbd_connect` the driver holds an open, registered handle if the result is 0, and
-- nothing if it is not; in neither case has it given back what it did not hold.
pub vkbd_connect-held :
    (k : ConnectAnswers)
    → held (vkbd_connect k).0 []
      ≡ some (
          if is_nonzero (vkbd_connect k).1
          then []
          else device_open ∷ handle_registered ∷ handle_memory ∷ [])
unfolding vkbd_connect
vkbd_connect-held k = ground arith

-- A connection that succeeded is undone by `vkbd_disconnect`: nothing stays held.
pub connect_disconnect :
    (k : ConnectAnswers)
    → (vkbd_connect k).1 ≡ pos 0
    → held ((vkbd_connect k).0 ++ vkbd_disconnect) [] ≡ some []
unfolding vkbd_connect vkbd_disconnect
connect_disconnect k h = ground arith

first_key-lt :
    (rounds i j : ℕ) (keybit : ℕ → Bool)
    → i ≤ j
    → j < i + rounds
    → keybit j ≡ true
    → first_key rounds i keybit < i + rounds
unfolding first_key
first_key-lt zero i j keybit lo hi e = absurd (omega arith)
first_key-lt (suc rounds) i j keybit lo hi e = elim (dec_lt i j) [
  | yes p ↦ ground (arith, first_key-lt rounds (i + 1) j keybit)
  | no p ↦ let same : i ≡ j = omega arith in rw (same, e) (omega arith)
]

first_key-eq :
    (rounds i : ℕ) (keybit : ℕ → Bool)
    → ((j : ℕ) → j < i + rounds → keybit j ≡ false)
    → first_key rounds i keybit ≡ i + rounds
unfolding first_key
first_key-eq zero i keybit none_set = omega arith
first_key-eq (suc rounds) i keybit none_set =
    ground
      (arith, none_set i, first_key-eq rounds (i + 1) keybit (λ j lt. none_set j (omega arith)))

-- A device with one of the keys below BTN_MISC, or with EV_SND, is not refused: the driver goes on
-- to allocate a handle. A device with neither is refused with -ENODEV and no call.
pub vkbd_connect_matches :
    (k : ConnectAnswers)
    → ((j : ℕ) → j < btn_misc → k.keybit j ≡ true → (vkbd_connect k).0 ≢ [])
      × (k.has_ev_snd ≡ true → (vkbd_connect k).0 ≢ [])
      × (((j : ℕ) → j < btn_misc → k.keybit j ≡ false)
          → k.has_ev_snd ≡ false
          → vkbd_connect k ≡ ([], neg_errno enodev))
unfolding vkbd_connect
vkbd_connect_matches k = (
  λ j lt e. ground (arith, first_key-lt btn_misc 0 j k.keybit),
  λ e. ground arith,
  λ none_set e. ground (arith, first_key-eq btn_misc 0 k.keybit none_set),
)

-- What an initialisation that gets its memory holds at its end and returns: when the handler cannot
-- be registered, it returns that error with its memory still held; when the device cannot be
-- allocated, it returns -1 with its memory and the registered handler still held; otherwise it
-- returns 0, whatever the registration of the device and the creation of the file answer, and holds
-- everything, without the file if that was not made.
pub vmouse_init-held :
    (k : InitAnswers) {calls : List Call} {ret : ℤ}
    → vmouse_init k ≡ some (calls, ret)
    → held calls []
        ≡ some (
            if is_nonzero k.register_handler
            then vms_memory ∷ []
            else (if not k.device_allocated
                then handler_registered ∷ vms_memory ∷ []
                else (if is_nonzero k.create_file
                    then device ∷ handler_registered ∷ vms_memory ∷ []
                    else file ∷ device ∷ handler_registered ∷ vms_memory ∷ [])))
      × (ret ≡ (
          if is_nonzero k.register_handler
          then k.register_handler
          else (if not k.device_allocated then negsuc 0 else pos 0)))
unfolding vmouse_init
vmouse_init-held k e = ground arith

-- After an initialisation whose device and attribute could be set up, `vmouse_exit` gives back all
-- that is held.
pub vmouse_init_exit :
    (k : InitAnswers) {calls : List Call}
    → vmouse_init k ≡ some (calls, pos 0)
    → k.create_file ≡ pos 0
    → held (calls ++ vmouse_exit) [] ≡ some []
unfolding vmouse_init vmouse_exit
vmouse_init_exit k e h = ground arith
