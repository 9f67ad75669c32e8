-- ===== src/Chardev/Ioctl.antt =====
-- ioctl/ioctl.c: the message device with seeking, the ioctl commands, and devices made from a table.
use linux_device_drivers.Common.{
  ℕ, zero, suc, ◌+◌, ◌-◌, ◌%◌, ◌^◌, Bool, true, false, ◌||◌, Option, none, some, List, [], ◌∷◌,
  ◌++◌, get_elem?, ltb, ◌==◌, if◌then◌else◌, ℤ, pos, negsuc, ltb_ℤ, is_nonzero, is_negative,
  neg_errno, einval,
}
use linux_device_drivers.Chardev.Calls.{
  Call, register_chrdev, unregister_chrdev, class_create, class_destroy, device_create,
  device_destroy, InitAnswers,
}
use linux_device_drivers.Chardev.Message.{
  Printer, State, open_device, release_device, read_message, write_message,
}

-- An entry of `devname_list`: its mode, and whether it has a name.
pub record DevName : Type 0 where
  pub named : Bool
  pub mode : ℕ

-- `devname_list`: minors 1 and 4 are named, the others are zero.
abbrev pub devname_list : List DevName
devname_list =
    record { named = false; mode = 0 }
    ∷ record { named = true; mode = 0o666 }
    ∷ record { named = false; mode = 0 }
    ∷ record { named = false; mode = 0 }
    ∷ record { named = true; mode = 0 }
    ∷ []

-- `mem_devnode`: what `*mode` becomes, where the caller passes `mode`. `none`: a minor number
-- outside the table is read.
unfoldable pub mem_devnode : ℕ → Option ℕ → Option (Option ℕ)
mem_devnode minor none = some none
mem_devnode minor (some mode) = elim (get_elem? devname_list minor) [
  | none ↦ none
  | some e ↦ some (some (if e.mode == 0 then mode else e.mode))
]

unfoldable pub dev_open : State → State × ℤ
unfolding open_device
dev_open = open_device

unfoldable pub dev_release : State → State × ℤ
unfolding release_device
dev_release = release_device

unfoldable pub dev_read : ℕ → ℕ → State → State × List ℕ × ℤ
unfolding read_message
dev_read = read_message

unfoldable pub dev_write : Printer → Option (List ℕ) → ℕ → State → Option (State × ℤ)
unfolding write_message
dev_write = write_message

-- The 64-bit pattern of an integer, and the `loff_t` of a pattern.
abbrev pub pattern64 : ℤ → ℕ
pattern64 (pos n) = n % 2 ^ 64
pattern64 (negsuc n) = (2 ^ 64 - (n + 1) % 2 ^ 64) % 2 ^ 64

abbrev pub signed64 : ℕ → ℤ
signed64 w = if ltb w (2 ^ 63) then pos w else negsuc (2 ^ 64 - w - 1)

abbrev pub add_loff : ℤ → ℤ → ℤ
add_loff a b = signed64 ((pattern64 a + pattern64 b) % 2 ^ 64)

-- The `switch` of `dev_lseek`: SEEK_SET, SEEK_CUR, SEEK_END; any other value leaves -1.
unfoldable pub seek_target : ℤ → ℤ → ℤ → ℕ → ℤ
seek_target f_pos i_size offset zero = offset
seek_target f_pos i_size offset (suc zero) = add_loff f_pos offset
seek_target f_pos i_size offset (suc (suc zero)) = add_loff i_size offset
seek_target f_pos i_size offset (suc (suc (suc n))) = negsuc 0

-- The end of `dev_lseek`, by its test: the new `file->f_pos` and the result.
unfoldable pub settle : ℤ → ℤ → Bool → ℤ × ℤ
settle f_pos newpos true = (f_pos, neg_errno einval)
settle f_pos newpos false = (newpos, newpos)

-- `dev_lseek`.
unfoldable pub dev_lseek : ℤ → ℤ → ℤ → ℕ → ℤ × ℤ
dev_lseek f_pos i_size offset whence =
    let newpos = seek_target f_pos i_size offset whence in
    settle f_pos newpos (is_negative newpos || ltb_ℤ i_size newpos)

-- WR_VALUE, RD_VALUE, or another command.
pub data Command : Type 0 where
  wr_value rd_value other_command : Command

-- The two integers of the driver.
pub record Values : Type 0 where
  pub value : ℤ
  pub value_sent_to_user : ℤ

-- `dev_ioctl`: `user` is the integer at the user's address, `fails` is whether the copy fails, and
-- `left` what a failed copy, which may stop half way, leaves at its destination. The result has the
-- driver's integers, the user's, and 0.
unfoldable pub dev_ioctl : Command → Bool → ℤ → ℤ → Values → Values × ℤ × ℤ
dev_ioctl wr_value fails left user v =
    (record v { value = if fails then left else user }, user, pos 0)
dev_ioctl rd_value fails left user v = (v, if fails then left else v.value_sent_to_user, pos 0)
dev_ioctl other_command fails left user v = (v, user, pos 0)

-- The loop of `mychar_init` from minor number `minor` on: the calls, and the error that ended it.
-- A device that cannot be made ends the loop behind `class_destroy` and `unregister_chrdev`.
unfoldable pub create_devices : (ℕ → ℤ) → ℕ → List DevName → List Call × ℤ
create_devices device_error minor [] = ([], pos 0)
create_devices device_error minor (e ∷ es) =
    let (calls, ret) = create_devices device_error (minor + 1) es in
    if e.named
    then (if is_nonzero (device_error minor)
        then (
          device_create minor (device_error minor) ∷ class_destroy ∷ unregister_chrdev ∷ [],
          device_error minor,
        )
        else (device_create minor (device_error minor) ∷ calls, ret))
    else (calls, ret)

-- The entries from minor number 1 on.
abbrev pub minors_from_one : List DevName → List DevName
minors_from_one [] = []
minors_from_one (e ∷ es) = es

-- `mychar_init`: its calls and its result.
unfoldable pub mychar_init : InitAnswers → List Call × ℤ
unfolding create_devices
mychar_init k =
    if is_negative k.register_ret
    then (register_chrdev k.register_ret ∷ [], k.register_ret)
    else (if is_nonzero k.class_error
        then (
          register_chrdev k.register_ret ∷ class_create k.class_error ∷ unregister_chrdev ∷ [],
          k.class_error,
        )
        else (let (calls, ret) = create_devices k.device_error 1 (minors_from_one devname_list) in
            (register_chrdev k.register_ret ∷ class_create k.class_error ∷ calls, ret)))

-- The loop of `mychar_exit`.
unfoldable pub destroy_devices : ℕ → List DevName → List Call
destroy_devices minor [] = []
destroy_devices minor (e ∷ es) =
    if e.named
    then device_destroy minor ∷ destroy_devices (minor + 1) es
    else destroy_devices (minor + 1) es

-- `mychar_exit`.
unfoldable pub mychar_exit : List Call
unfolding destroy_devices
mychar_exit =
    destroy_devices 1 (minors_from_one devname_list) ++ class_destroy ∷ unregister_chrdev ∷ []
