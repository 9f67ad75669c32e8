-- ===== src/Chardev/Calls.antt =====
-- The kernel calls by which mychar/mychar.c, ioctl/ioctl.c and dram/dram.c set themselves up and
-- take themselves down, and what each takes or gives back.
use linux_device_drivers.Common.{
  ℕ, ◌+◌, ◌==◌, if◌then◌else◌, ℤ, is_nonzero, is_negative, Effect, acquire, release, neutral,
  Accounting,
}

-- A call, with its answer where that decides what is held: a return value, or the error behind an
-- error pointer (0 for a good pointer). Device calls carry the minor number.
pub data Call : Type 0 where
  register_chrdev : ℤ → Call
  unregister_chrdev : Call
  class_create : ℤ → Call
  class_unregister : Call
  class_destroy : Call
  device_create : ℕ → ℤ → Call
  device_destroy : ℕ → Call
  mutex_lock : Call
  mutex_unlock : Call

pub data Resource : Type 0 where
  chrdev class mutex : Resource
  device : ℕ → Resource

abbrev pub resource_code : Resource → ℕ
resource_code chrdev = 0
resource_code class = 1
resource_code mutex = 2
resource_code (device minor) = 3 + minor

-- `class_destroy` unregisters the class, as `class_unregister` does.
abbrev pub call_effect : Call → Effect Resource
call_effect (register_chrdev ret) = if is_negative ret then neutral else acquire chrdev
call_effect unregister_chrdev = release chrdev
call_effect (class_create error) = if is_nonzero error then neutral else acquire class
call_effect class_unregister = release class
call_effect class_destroy = release class
call_effect (device_create minor error) =
    if is_nonzero error then neutral else acquire (device minor)
call_effect (device_destroy minor) = release (device minor)
call_effect mutex_lock = acquire mutex
call_effect mutex_unlock = release mutex

abbrev pub accounting : Accounting Call Resource
accounting = record { effect = call_effect; same = λ r s. resource_code r == resource_code s }

-- What the kernel answers during initialisation; `device_error` is by minor number.
pub record InitAnswers : Type 0 where
  pub register_ret : ℤ
  pub class_error : ℤ
  pub device_error : ℕ → ℤ
