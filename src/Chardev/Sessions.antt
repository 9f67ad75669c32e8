-- ===== src/Chardev/Sessions.antt =====
-- ioctl/ioctl.c: the driver as a whole, as its table `fops` serves the calls of its users.
use linux_device_drivers.Common.{
  ℕ, ◌≤◌, ◌≡◌, refl, ap, inl, inr, Bool, true, Option, none, some, List, [], ◌∷◌, length,
  Bool-cases, ◌==◌, ℤ, pos,
}
use linux_device_drivers.Chardev.Message.{
  Printer, State, open_device, release_device, read_message, write_message,
}
use linux_device_drivers.Chardev.Mychar
use linux_device_drivers.Chardev.Ioctl.{
  Command, Values, dev_open, dev_release, dev_read, dev_write, dev_lseek, dev_ioctl,
}
use linux_device_drivers.Chardev.Exchange.{IsValid, dev_write_safe}
use linux_device_drivers.Chardev.Seek.{IsInside, dev_lseek-IsInside}

-- The statics of the driver, and the position of a file that is open on it.
pub record Device : Type 0 where
  pub message : State
  pub f_pos : ℤ
  pub values : Values

-- A call of a user, with what the kernel answers in it. A write comes with a text that the kernel can
-- read.
pub data Operation : Type 0 where
  open_file release_file : Operation
  read_file : (error_count len : ℕ) → Operation
  write_file : (buffer : List ℕ) (len : ℕ) → Operation
  seek_file : (offset : ℤ) (whence : ℕ) → Operation
  control : Command → (fails : Bool) (left user : ℤ) → Operation

-- The end of a write.
abbrev pub after_write : Device → Option (State × ℤ) → Option Device
after_write d none = none
after_write d (some (s, ret)) = some (record d { message = s })

-- `fops`: the function for each call. `none` is a fault of the driver.
unfoldable pub serve : Printer → ℕ → Operation → Device → Option Device
serve printer i_size open_file d = some (record d { message = (dev_open d.message).0 })
serve printer i_size release_file d = some (record d { message = (dev_release d.message).0 })
serve printer i_size (read_file error_count len) d =
    some (record d { message = (dev_read error_count len d.message).0 })
serve printer i_size (write_file buffer len) d =
    after_write d (dev_write printer (some buffer) len d.message)
serve printer i_size (seek_file offset whence) d =
    some (record d { f_pos = (dev_lseek d.f_pos (pos i_size) offset whence).0 })
serve printer i_size (control cmd fails left user) d =
    some (record d { values = (dev_ioctl cmd fails left user d.values).0 })

-- The states that a device can get into from a state by calls that do not fault, with those calls.
pub data Session (printer : Printer) (i_size : ℕ) : Device → List Operation → Device → Type 0 where
  idle : (d : Device) → Session printer i_size d [] d
  call :
      (d next last : Device) (op : Operation) (ops : List Operation)
      → serve printer i_size op d ≡ some next
      → Session printer i_size next ops last
      → Session printer i_size d (op ∷ ops) last

-- The invariant: the message's size is that of its text or 0, it fits its array, and the position is
-- inside the file.
pub record IsSound (i_size : ℕ) (d : Device) : Type 0 where
  pub message_valid : IsValid d.message
  pub position_inside : IsInside d.f_pos i_size

-- A call that writes writes at most 225 characters before the NUL.
abbrev pub IsShort : Operation → Type 0
IsShort open_file = true ≡ true
IsShort release_file = true ≡ true
IsShort (read_file error_count len) = true ≡ true
IsShort (write_file buffer len) = length buffer ≤ 225
IsShort (seek_file offset whence) = true ≡ true
IsShort (control cmd fails left user) = true ≡ true

abbrev pub AllShort : List Operation → Type 0
AllShort [] = true ≡ true
AllShort (op ∷ ops) = IsShort op × AllShort ops

open-IsValid : (s : State) → IsValid s → IsValid (dev_open s).0
unfolding dev_open open_device
open-IsValid s v = record { sized = v.sized; fits = v.fits }

release-IsValid : (s : State) → IsValid s → IsValid (dev_release s).0
unfolding dev_release release_device
release-IsValid s v = v

read-IsValid :
    (error_count len : ℕ) (s : State) → IsValid s → IsValid (dev_read error_count len s).0
unfolding dev_read read_message
read-IsValid error_count len s v = elim (Bool-cases (error_count == 0)) [
  | inl copied ↦ rw copied (record { sized = inr refl; fits = v.fits })
  | inr failed ↦ rw failed v
]

write_safe :
    (printer : Printer) (buffer : List ℕ) (len : ℕ) (s : State)
    → length buffer ≤ 225
    → (t : State) × (dev_write printer (some buffer) len s ≡ some (t, pos len)) × IsValid t
unfolding dev_write Mychar.dev_write write_message
write_safe printer buffer len s h = dev_write_safe printer buffer len s h

-- A call on a sound device.
serve-IsSound :
    (printer : Printer) (i_size : ℕ) (op : Operation) (d : Device)
    → IsShort op
    → IsSound i_size d
    → (next : Device) × (serve printer i_size op d ≡ some next) × IsSound i_size next
unfolding serve
serve-IsSound printer i_size open_file d h v = (
  _,
  refl,
  record {
    message_valid = open-IsValid d.message v.message_valid;
    position_inside = v.position_inside;
  },
)
serve-IsSound printer i_size release_file d h v = (
  _,
  refl,
  record {
    message_valid = release-IsValid d.message v.message_valid;
    position_inside = v.position_inside;
  },
)
serve-IsSound printer i_size (read_file error_count len) d h v = (
  _,
  refl,
  record {
    message_valid = read-IsValid error_count len d.message v.message_valid;
    position_inside = v.position_inside;
  },
)
serve-IsSound printer i_size (write_file buffer len) d h v =
    let (t, e, valid) = write_safe printer buffer len d.message h in
    (
      record d { message = t },
      ap (after_write d) e,
      record { message_valid = valid; position_inside = v.position_inside },
    )
serve-IsSound printer i_size (seek_file offset whence) d h v = (
  _,
  refl,
  record {
    message_valid = v.message_valid;
    position_inside = (dev_lseek-IsInside d.f_pos i_size offset whence v.position_inside).0;
  },
)
serve-IsSound printer i_size (control cmd fails left user) d h v =
    (_, refl, record { message_valid = v.message_valid; position_inside = v.position_inside })

-- From a sound device every sequence of calls can be served to its end, as long as no write has more
-- than 225 characters before its NUL: none of them faults, and the device is sound after them.
pub serve_total :
    (printer : Printer) (i_size : ℕ) (ops : List Operation) (d : Device)
    → AllShort ops
    → IsSound i_size d
    → (last : Device) × Session printer i_size d ops last × IsSound i_size last
serve_total printer i_size [] d h v = (d, idle d, v)
serve_total printer i_size (op ∷ ops) d (short, others) v =
    let (next, e, sound) = serve-IsSound printer i_size op d short v in
    let (last, session, sound') = serve_total printer i_size ops next others sound in
    (last, call d next last op ops e session, sound')
