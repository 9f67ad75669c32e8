-- ===== src/Chardev/Parts.antt =====
-- ioctl/ioctl.c as a whole, with its answers: three objects that do not touch each other, a box with
-- one message, a position in a file, and the two integers.
use linux_device_drivers.Common.{
  ℕ, ◌-◌, ◌≤◌, take, Option, none, some, List, [], ◌∷◌, length, ◌==◌, if◌then◌else◌, ℤ, pos,
  neg_errno, efault,
}
use linux_device_drivers.Chardev.Message.{Printer, State, formatted}
use linux_device_drivers.Chardev.Ioctl.{
  Values, wr_value, rd_value, other_command, dev_open, dev_release, dev_read, dev_write, dev_lseek,
  dev_ioctl,
}
use linux_device_drivers.Chardev.DramFile.{sought, moved_to}
use linux_device_drivers.Chardev.Mailbox.{unread}
use linux_device_drivers.Chardev.Seek.{IsLoff}
use linux_device_drivers.Chardev.Sessions.{
  Device, Operation, open_file, release_file, read_file, write_file, seek_file, control,
}

-- What the user gets: the bytes of a read or the integer of a command, and the return value.
pub data Answer : Type 0 where
  plain : ℤ → Answer
  text : List ℕ → ℤ → Answer
  number : ℤ → ℤ → Answer

abbrev pub after_write : Device → Option (State × ℤ) → Option (Device × Answer)
after_write d none = none
after_write d (some (s, ret)) = some (record d { message = s }, plain ret)

-- `fops`: the function for each call, with its answer. `none` is a fault of the driver.
unfoldable pub answer_call : Printer → ℕ → Operation → Device → Option (Device × Answer)
answer_call printer i_size open_file d =
    let (s, ret) = dev_open d.message in some (record d { message = s }, plain ret)
answer_call printer i_size release_file d =
    let (s, ret) = dev_release d.message in some (record d { message = s }, plain ret)
answer_call printer i_size (read_file error_count len) d =
    let (s, bytes, ret) = dev_read error_count len d.message in
    some (record d { message = s }, text bytes ret)
answer_call printer i_size (write_file buffer len) d =
    after_write d (dev_write printer (some buffer) len d.message)
answer_call printer i_size (seek_file offset whence) d =
    let (f_pos, ret) = dev_lseek d.f_pos (pos i_size) offset whence in
    some (record d { f_pos = f_pos }, plain ret)
answer_call printer i_size (control cmd fails left user) d =
    let (v, user', ret) = dev_ioctl cmd fails left user d.values in
    some (record d { values = v }, number user' ret)

-- Calls one after the other, with their answers.
unfoldable pub answer_all : Printer → ℕ → List Operation → Device → Option (Device × List Answer)
answer_all printer i_size [] d = some (d, [])
answer_all printer i_size (op ∷ ops) d = elim (answer_call printer i_size op d) [
  | none ↦ none
  | some (d', answer) ↦ elim (answer_all printer i_size ops d') [
    | none ↦ none
    | some (last, answers) ↦ some (last, answer ∷ answers)
  ]
]

-- The three objects; the integers are an inbox that only users write, and an outbox that only they
-- read.
pub record Parts : Type 0 where
  pub box : List ℕ
  pub cursor : ℕ
  pub inbox : ℤ
  pub outbox : ℤ

-- Each call is one on a single object.
abbrev pub parts_step : Printer → ℕ → Operation → Parts → Answer × Parts
parts_step printer size open_file p = (plain (pos 0), p)
parts_step printer size release_file p = (plain (pos 0), p)
parts_step printer size (read_file error_count len) p =
    if error_count == 0
    then (text p.box (pos 0), record p { box = [] })
    else (text (take (length p.box - error_count) p.box) (neg_errno efault), p)
parts_step printer size (write_file buffer len) p =
    (plain (pos len), record p { box = formatted printer buffer len })
parts_step printer size (seek_file offset whence) p =
    let (to, ret) = moved_to size p.cursor (sought size p.cursor offset whence) in
    (plain ret, record p { cursor = to })
parts_step printer size (control wr_value fails left user) p =
    (number user (pos 0), record p { inbox = if fails then left else user })
parts_step printer size (control rd_value fails left user) p =
    (number (if fails then left else p.outbox) (pos 0), p)
parts_step printer size (control other_command fails left user) p = (number user (pos 0), p)

abbrev pub run_parts : Printer → ℕ → List Operation → Parts → List Answer × Parts
run_parts printer size [] p = ([], p)
run_parts printer size (op ∷ ops) p =
    let (answer, p') = parts_step printer size op p in
    let (answers, last) = run_parts printer size ops p' in (answer ∷ answers, last)

-- A device with an open file at a position, and its parts.
abbrev pub device_at : State → ℕ → Values → Device
device_at s at v = record { message = s; f_pos = pos at; values = v }

abbrev pub parts_at : State → ℕ → Values → Parts
parts_at s at v = record {
  box = unread s;
  cursor = at;
  inbox = v.value;
  outbox = v.value_sent_to_user;
}

-- A write has at most 225 characters before its NUL, an offset is a `loff_t`.
abbrev pub IsProper : Operation → Type 0
IsProper open_file = Unit
IsProper release_file = Unit
IsProper (read_file error_count len) = Unit
IsProper (write_file buffer len) = length buffer ≤ 225
IsProper (seek_file offset whence) = IsLoff offset
IsProper (control cmd fails left user) = Unit

abbrev pub AllProper : List Operation → Type 0
AllProper [] = Unit
AllProper (op ∷ ops) = IsProper op × AllProper ops
