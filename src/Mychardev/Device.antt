-- ===== src/Mychardev/Device.antt =====
-- mychardev/mychardev.c: reading the fixed greeting, writing into a 30-byte buffer, and the setup
-- of its two devices.
use linux_device_drivers.Common.{
  ℕ, zero, suc, ◌+◌, Bool, true, false, Option, none, some, List, [], ◌∷◌, ◌++◌, length, take, ltb,
  ◌==◌, if◌then◌else◌, ℤ, pos, neg_errno, efault, is_negative, Effect, acquire, release, neutral,
  Accounting,
}

-- "Hello from the kernel world!\n".
abbrev pub greeting : List ℕ
greeting =
    72 ∷ 101 ∷ 108 ∷ 108 ∷ 111 ∷ 32 ∷ 102 ∷ 114 ∷ 111 ∷ 109 ∷ 32 ∷ 116 ∷ 104 ∷ 101 ∷ 32 ∷ 107 ∷ 101
    ∷ 114 ∷ 110 ∷ 101 ∷ 108 ∷ 32 ∷ 119 ∷ 111 ∷ 114 ∷ 108 ∷ 100 ∷ 33 ∷ 10 ∷ []

-- `mychardev_read`: `fails` is whether `copy_to_user` leaves bytes uncopied. The result has the
-- bytes for the user, the new offset and the return value.
unfoldable pub mychardev_read : Bool → ℕ → ℕ → List ℕ × ℕ × ℤ
mychardev_read fails count offset =
    if ltb 0 offset
    then ([], offset, pos 0)
    else (let datalen = length greeting in
        let len = if ltb count datalen then count else datalen in
        if fails
        then ([], offset, neg_errno efault)
        else (take len greeting, offset + len, pos len))

abbrev pub databuf_size : ℕ
databuf_size = 30

-- `mychardev_write`: the index at which the NUL is stored, and the return value. `none`: the index
-- is outside `databuf`. How much was copied changes only the log.
unfoldable pub mychardev_write : ℕ → Option (ℕ × ℤ)
mychardev_write count =
    let maxdatalen = if ltb count 30 then count else 30 in
    if ltb maxdatalen databuf_size then some (maxdatalen, pos count) else none

-- `mychardev_ioctl`, `mychardev_open` and `mychardev_release` only log.
unfoldable pub mychardev_ioctl : ℕ → ℕ → ℤ
mychardev_ioctl cmd arg = pos 0

unfoldable pub mychardev_open : ℤ
mychardev_open = pos 0

unfoldable pub mychardev_release : ℤ
mychardev_release = pos 0

-- "DEVMODE=0666", as `add_uevent_var` formats it.
abbrev pub devmode : List ℕ
devmode = 68 ∷ 69 ∷ 86 ∷ 77 ∷ 79 ∷ 68 ∷ 69 ∷ 61 ∷ 48 ∷ 54 ∷ 54 ∷ 54 ∷ []

-- `mychardev_uevent`: the variables of the event, to which one is added while there is room, and the
-- result.
unfoldable pub mychardev_uevent : Bool → List (List ℕ) → List (List ℕ) × ℤ
mychardev_uevent room env = ((if room then env ++ devmode ∷ [] else env), pos 0)

-- The calls that set the driver up and take it down, by minor number.
pub data Call : Type 0 where
  alloc_chrdev_region : ℤ → Call
  class_create : Call
  cdev_add : ℕ → Call
  device_create : ℕ → Call
  device_destroy : ℕ → Call
  class_destroy : Call
  unregister_chrdev_region : Call

pub data Resource : Type 0 where
  chrdev_region class : Resource
  cdev device : ℕ → Resource

abbrev pub resource_same : Resource → Resource → Bool
resource_same chrdev_region chrdev_region = true
resource_same class class = true
resource_same (cdev i) (cdev j) = i == j
resource_same (device i) (device j) = i == j
resource_same _ _ = false

abbrev pub call_effect : Call → Effect Resource
call_effect (alloc_chrdev_region err) = if is_negative err then neutral else acquire chrdev_region
call_effect class_create = acquire class
call_effect (cdev_add i) = acquire (cdev i)
call_effect (device_create i) = acquire (device i)
call_effect (device_destroy i) = release (device i)
call_effect class_destroy = release class
call_effect unregister_chrdev_region = release chrdev_region

abbrev pub accounting : Accounting Call Resource
accounting = record { effect = call_effect; same = resource_same }

abbrev pub max_dev : ℕ
max_dev = 2

-- The loop of `mychardev_init`, with `rounds` rounds left from minor number `i` on.
unfoldable pub add_devices : ℕ → ℕ → List Call
add_devices zero i = []
add_devices (suc rounds) i = cdev_add i ∷ device_create i ∷ add_devices rounds (i + 1)

-- `mychardev_init`, by what `alloc_chrdev_region` returns, when no later call fails. No answer is
-- looked at, and it always returns 0.
unfoldable pub mychardev_init : ℤ → List Call × ℤ
unfolding add_devices
mychardev_init err = (alloc_chrdev_region err ∷ class_create ∷ add_devices max_dev 0, pos 0)

-- The loop of `mychardev_exit`.
unfoldable pub remove_devices : ℕ → ℕ → List Call
remove_devices zero i = []
remove_devices (suc rounds) i = device_destroy i ∷ remove_devices rounds (i + 1)

-- `mychardev_exit`.
unfoldable pub mychardev_exit : List Call
unfolding remove_devices
mychardev_exit = remove_devices max_dev 0 ++ class_destroy ∷ unregister_chrdev_region ∷ []
