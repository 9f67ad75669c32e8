-- ===== src/Chardev/Dram.antt =====
-- dram/dram.c: physical memory as a seekable device. Memory is a parameter, by page and offset.
use linux_device_drivers.Common.{
  ℕ, zero, suc, ◌+◌, ◌-◌, ◌*◌, ◌/◌, ◌%◌, ◌^◌, ◌||◌, Option, none, some, List, get_elem?, true,
  false, [], ◌∷◌, ◌++◌, ltb, leb, ◌==◌, if◌then◌else◌, ℤ, pos, is_negative, is_nonzero, neg_errno,
  efault, signed32,
}
use linux_device_drivers.Chardev.Calls.{
  Call, register_chrdev, unregister_chrdev, class_create, class_destroy, device_create,
  device_destroy, mutex_lock, mutex_unlock, InitAnswers,
}
use linux_device_drivers.Chardev.Message.{
  Printer, State, open_device, release_device, write_message,
}
use linux_device_drivers.Chardev.Ioctl.{
  DevName, minors_from_one, signed64, pattern64, seek_target, settle,
}

-- `devname_list`: minors 1 and 4 are named, the others are zero.
abbrev pub devname_list : List DevName
devname_list =
    record { named = false; mode = 0 }
    ∷ record { named = true; mode = 0o666 }
    ∷ record { named = false; mode = 0 }
    ∷ record { named = false; mode = 0 }
    ∷ record { named = true; mode = 0 }
    ∷ []

-- `mem_devnode`, as in ioctl/ioctl.c: what `*mode` becomes, where the caller passes `mode`.
unfoldable pub mem_devnode : ℕ → Option ℕ → Option (Option ℕ)
mem_devnode minor none = some none
mem_devnode minor (some mode) = elim (get_elem? devname_list minor) [
  | none ↦ none
  | some e ↦ some (some (if e.mode == 0 then mode else e.mode))
]

unfoldable pub dev_open : State → State × ℤ
unfolding open_device
dev_open = open_device

unfoldable pub dev_release : State → State × ℤ
unfolding release_device
dev_release = release_device

unfoldable pub dev_write : Printer → Option (List ℕ) → ℕ → State → Option (State × ℤ)
unfolding write_message
dev_write = write_message

-- `dram_size = get_num_physpages() << PAGE_SHIFT`.
unfoldable pub init_dram_size : ℕ → ℕ → ℕ
init_dram_size physpages page_shift = physpages * 2 ^ page_shift % 2 ^ 64

-- `count` bytes of the mapped page from `page_indent` on.
unfoldable pub mapped_bytes : (ℤ → ℕ → ℕ) → ℤ → ℕ → ℕ → List ℕ
mapped_bytes memory page_number page_indent zero = []
mapped_bytes memory page_number page_indent (suc count) =
    memory page_number page_indent ∷ mapped_bytes memory page_number (page_indent + 1) count

-- The clipping of `count` at the end of the page, in 64 bits.
unfoldable pub clip_count : ℕ → ℕ → ℕ → ℕ
clip_count page_size page_indent count =
    if ltb page_size ((page_indent + count) % 2 ^ 64) then page_size - page_indent else count

-- The end of `dev_read`, below `copy_to_user`.
unfoldable pub finish_read : ℕ → ℕ → ℕ → List ℕ → List ℕ × ℕ × ℤ
finish_read more at count bytes =
    if more == 0 then (bytes, at + count, pos count) else ([], at, neg_errno efault)

-- `dev_read`: `more` is what `copy_to_user` returns, `at` the file position, which is not negative.
-- The result has the bytes for the user, the new position and the return value. The page number is
-- an `int`.
unfoldable pub dev_read : (ℤ → ℕ → ℕ) → ℕ → ℕ → ℕ → ℕ → ℕ → List ℕ × ℕ × ℤ
unfolding finish_read
dev_read memory page_size dram_size more count at =
    if leb dram_size at
    then ([], at, pos 0)
    else (let page_number = signed32 (at / page_size % 2 ^ 32) in
        let page_indent = at % page_size in
        let n = clip_count page_size page_indent count in
        finish_read more at n (mapped_bytes memory page_number page_indent n))

-- `dev_lseek`: the new `file->f_pos` and the result. `dram_size` is an `unsigned long`, which the
-- second comparison is made in.
unfoldable pub dev_lseek : ℤ → ℕ → ℤ → ℕ → ℤ × ℤ
dev_lseek f_pos dram_size offset whence =
    let newpos = seek_target f_pos (signed64 dram_size) offset whence in
    settle f_pos newpos (is_negative newpos || ltb dram_size (pattern64 newpos))

-- The loop of `mychar_init` from minor number `minor` on: it unlocks the mutex in every round that
-- makes a device.
unfoldable pub create_devices : (ℕ → ℤ) → ℕ → List DevName → List Call × ℤ
create_devices device_error minor [] = ([], pos 0)
create_devices device_error minor (e ∷ es) =
    let (calls, ret) = create_devices device_error (minor + 1) es in
    if e.named
    then (if is_nonzero (device_error minor)
        then (
          device_create minor (device_error minor)
              ∷ mutex_unlock
              ∷ class_destroy
              ∷ unregister_chrdev
              ∷ [],
          device_error minor,
        )
        else (device_create minor (device_error minor) ∷ mutex_unlock ∷ calls, ret))
    else (calls, ret)

-- `mychar_init`: its calls and its result.
unfoldable pub mychar_init : InitAnswers → List Call × ℤ
unfolding create_devices
mychar_init k =
    if is_negative k.register_ret
    then (register_chrdev k.register_ret ∷ [], k.register_ret)
    else (if is_nonzero k.class_error
        then (
          register_chrdev k.register_ret ∷ class_create k.class_error ∷ unregister_chrdev ∷ [],
          k.class_error,
        )
        else (let (calls, ret) = create_devices k.device_error 1 (minors_from_one devname_list) in
            (
              register_chrdev k.register_ret ∷ class_create k.class_error ∷ mutex_lock ∷ calls,
              ret,
            )))

-- The loop of `mychar_exit`.
unfoldable pub destroy_devices : ℕ → List DevName → List Call
destroy_devices minor [] = []
destroy_devices minor (e ∷ es) =
    if e.named
    then device_destroy minor ∷ destroy_devices (minor + 1) es
    else destroy_devices (minor + 1) es

-- `mychar_exit`.
unfoldable pub mychar_exit : List Call
unfolding destroy_devices
mychar_exit =
    mutex_lock
    ∷ (destroy_devices 1 (minors_from_one devname_list)
        ++ mutex_unlock ∷ class_destroy ∷ unregister_chrdev ∷ [])
