-- ===== src/Chardev/Message.antt =====
-- The message device that mychar/mychar.c, ioctl/ioctl.c and dram/dram.c hold copies of: the static
-- `message[256]`, `size_of_message` and `numberOpens`, and the operations on them. The kernel's
-- `sprintf` of a `%zu` is a parameter.
use linux_device_drivers.Common.{
  ℕ, ◌+◌, ◌-◌, ◌%◌, ◌^◌, ◌≤◌, Option, none, some, List, [], ◌∷◌, ◌++◌, length, take, ltb, ◌==◌,
  if◌then◌else◌, ℤ, pos, neg_errno, efault,
}

-- `%zu`: the digits of a `size_t`. They are not NUL, and there are at most twenty of them.
pub record Printer : Type 0 where
  pub print_zu : ℕ → List ℕ
  pub length-print_zu : (n : ℕ) → length (print_zu n) ≤ 20

-- The statics. `message` is the text before the terminating NUL; `size_of_message` is a `short`,
-- and is never negative here.
pub record State : Type 0 where
  pub message : List ℕ
  pub size_of_message : ℕ
  pub number_opens : ℕ

abbrev pub message_capacity : ℕ
message_capacity = 256

-- " letters)" and "(".
abbrev pub letters : List ℕ
letters = 32 ∷ 108 ∷ 101 ∷ 116 ∷ 116 ∷ 101 ∷ 114 ∷ 115 ∷ 41 ∷ []

-- The text that "%s(%zu letters)" prints for a NUL-terminated `buffer`.
abbrev pub formatted : Printer → List ℕ → ℕ → List ℕ
formatted printer buffer len = buffer ++ (40 ∷ (printer.print_zu len ++ letters))

-- `dev_open`: `numberOpens` is an `int`.
unfoldable pub open_device : State → State × ℤ
open_device s = (record s { number_opens = (s.number_opens + 1) % 2 ^ 32 }, pos 0)

-- `dev_release`.
unfoldable pub release_device : State → State × ℤ
release_device s = (s, pos 0)

-- `dev_read`: `error_count` is what `copy_to_user` returns, the number of bytes at the end that it
-- could not copy. The list is what it copies to the user.
unfoldable pub read_message : ℕ → ℕ → State → State × List ℕ × ℤ
read_message error_count len s =
    let text = take s.size_of_message s.message in
    if error_count == 0
    then (record s { size_of_message = 0 }, text, pos 0)
    else (s, take (length text - error_count) text, neg_errno efault)

-- `dev_write`: `buffer` is the text before its NUL, wherever that is, or `none`, if the kernel cannot
-- follow the user's pointer, which `sprintf` reads directly. The result is `none`, a fault, there, and
-- where `sprintf` writes behind the end of `message`.
unfoldable pub write_message : Printer → Option (List ℕ) → ℕ → State → Option (State × ℤ)
write_message printer none len s = none
write_message printer (some buffer) len s =
    let text = formatted printer buffer len in
    if ltb (length text) message_capacity
    then some (record s { message = text; size_of_message = length text }, pos len)
    else none
