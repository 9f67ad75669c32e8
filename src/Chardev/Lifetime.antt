-- ===== src/Chardev/Lifetime.antt =====
-- What the character drivers hold after each way through initialisation, and after exit.
use linux_device_drivers.Common.{
  ◌≡◌, false, Option, none, some, List, [], ◌∷◌, ◌++◌, arith, if◌then◌else◌, pos, is_nonzero,
  is_negative, held_after,
}
use linux_device_drivers.Chardev.Calls.{
  Call, Resource, chrdev, class, device, accounting, InitAnswers,
}
use linux_device_drivers.Chardev.Mychar
use linux_device_drivers.Chardev.Ioctl
use linux_device_drivers.Chardev.Dram

abbrev pub held : List Call → List Resource → Option (List Resource)
held = held_after accounting

-- `mychar_init` holds its number, class and device if it returns 0, and nothing on any error.
pub mychar_init-held :
    (k : InitAnswers)
    → held (Mychar.mychar_init k).0 []
      ≡ some (if is_nonzero (Mychar.mychar_init k).1 then [] else device 0 ∷ class ∷ chrdev ∷ [])
unfolding Mychar.mychar_init
mychar_init-held k = ground arith

-- `mychar_exit`, after an initialisation that returned 0, gives the class back twice:
-- `class_unregister` is followed by `class_destroy`.
pub mychar_exit_twice :
    (k : InitAnswers)
    → (Mychar.mychar_init k).1 ≡ pos 0
    → held ((Mychar.mychar_init k).0 ++ Mychar.mychar_exit) [] ≡ none
unfolding Mychar.mychar_init Mychar.mychar_exit
mychar_exit_twice k h = ground arith

-- ioctl/ioctl.c holds its number, class and both devices if initialisation returns 0. On an error
-- it holds nothing, unless the second device could not be made: then the first one is left.
pub ioctl_init-held :
    (k : InitAnswers)
    → is_negative k.register_ret ≡ false
    → held (Ioctl.mychar_init k).0 []
      ≡ some (
          if is_nonzero k.class_error
          then []
          else (if is_nonzero (k.device_error 1)
              then []
              else (if is_nonzero (k.device_error 4)
                  then device 1 ∷ []
                  else device 4 ∷ device 1 ∷ class ∷ chrdev ∷ [])))
unfolding Ioctl.mychar_init
ioctl_init-held k h = ground arith

-- After an initialisation that returned 0 the exit of ioctl/ioctl.c gives everything back, once.
pub ioctl_init_exit :
    (k : InitAnswers)
    → (Ioctl.mychar_init k).1 ≡ pos 0
    → held ((Ioctl.mychar_init k).0 ++ Ioctl.mychar_exit) [] ≡ some []
unfolding Ioctl.mychar_init Ioctl.mychar_exit
ioctl_init_exit k h = ground arith

-- dram/dram.c locks its mutex once and unlocks it in every round that makes a device, so an
-- initialisation that gets past its class and its first device unlocks a mutex that it does not hold.
pub dram_init_unlocks_twice :
    (k : InitAnswers)
    → is_negative k.register_ret ≡ false
    → is_nonzero k.class_error ≡ false
    → is_nonzero (k.device_error 1) ≡ false
    → held (Dram.mychar_init k).0 [] ≡ none
unfolding Dram.mychar_init
dram_init_unlocks_twice k h c d = ground arith
