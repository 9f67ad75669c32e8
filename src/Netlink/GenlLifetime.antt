-- ===== src/Netlink/GenlLifetime.antt =====
-- What netlink/genl_multicast.c holds after a run of its timer, after initialisation and after exit.
use linux_device_drivers.Common.{
  ◌≡◌, refl, true, Option, none, some, List, [], ◌∷◌, ◌++◌, arith, ℤ, pos, negsuc, is_negative,
  held_after, get_elem?, length, ◌-◌,
}
use linux_device_drivers.Netlink.Genl.{
  Call, Resource, armed_timer, mod_timer, accounting, SendAnswers, send_multicast, hello_init,
  hello_exit,
}

abbrev pub held : List Call → List Resource → Option (List Resource)
held = held_after accounting

-- Whatever fails in it, a run of the timer frees or hands over the message that it made, exactly
-- once, and ends by arming the timer again.
pub send_multicast-held :
    (k : SendAnswers)
    → (held (send_multicast k) [] ≡ some [])
      × (get_elem? (send_multicast k) (length (send_multicast k) - 1) ≡ some mod_timer)
unfolding send_multicast
send_multicast-held k = (ground arith, ground arith)

-- An initialisation whose `genl_register_family` returned 0 returns 0 too, but holds no family at
-- its end, only the timer; the exit then unregisters a family that is not registered.
pub hello_init_unregisters :
    (err : ℤ)
    → err ≡ pos 0
    → ((hello_init err).1 ≡ pos 0)
      × (held (hello_init err).0 [] ≡ some (armed_timer ∷ []))
      × (held ((hello_init err).0 ++ hello_exit) [] ≡ none)
unfolding hello_init hello_exit
hello_init_unregisters err e = rw e (refl, refl, refl)

-- An initialisation whose registration failed returns the error, arms no timer, and unregisters a
-- family that never was registered.
pub hello_init_refused :
    (err : ℤ)
    → is_negative err ≡ true
    → ((hello_init err).1 ≡ err) × (held (hello_init err).0 [] ≡ none)
unfolding hello_init
hello_init_refused (pos n) h = ground arith
hello_init_refused (negsuc n) h = (refl, refl)
