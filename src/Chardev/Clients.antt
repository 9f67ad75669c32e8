-- ===== src/Chardev/Clients.antt =====
-- mychar/testmychar.c over the driver of mychar/mychar.c, and ioctl/testmyioctl.c over the driver of
-- ioctl/ioctl.c.
use linux_device_drivers.Common.{
  ℕ, ◌≤◌, ◌≡◌, ◌≢◌, leb, refl, Bool, true, false, not, Option, none, some, List, length, arith,
  if◌then◌else◌, ℤ, is_negative,
}
use linux_device_drivers.Chardev.Message.{Printer, State, formatted}
use linux_device_drivers.Chardev.Mychar.{dev_open, dev_read, dev_write}
use linux_device_drivers.Chardev.Ioctl.{Values, wr_value, rd_value, dev_ioctl}
use linux_device_drivers.Chardev.Exchange.{dev_write_safe, write_then_read}

-- How testmychar.c ends: a call fails with so much, or the text that was received is shown.
pub data Chat : Type 0 where
  open_fails write_fails read_fails : Chat
  shows : List ℕ → State → Chat

-- The end of `main`, below `read`.
abbrev pub finish_chat : State × List ℕ × ℤ → Chat
finish_chat (s, receive, ret) = if is_negative ret then read_fails else shows receive s

abbrev pub read_back : ℕ → State × ℤ → Chat
read_back error_count (s, ret) =
    if is_negative ret then write_fails else finish_chat (dev_read error_count 256 s)

-- `main` of testmychar.c with the text that is typed, by whether the device can be opened and what
-- `copy_to_user` returns; `none` is a fault in the driver, or a text that overruns the array of 256.
unfoldable pub test_mychar : Printer → Bool → ℕ → List ℕ → State → Option Chat
test_mychar printer opened error_count string_to_send s =
    if not opened
    then some open_fails
    else (if leb 256 (length string_to_send)
        then none
        else elim (dev_write printer (some string_to_send) (length string_to_send) (dev_open s).0) [
          | none ↦ none
          | some answer ↦ some (read_back error_count answer)
        ])

-- A text of at most 225 characters, typed into testmychar.c whatever the driver held before, is
-- shown with its length behind it, and the driver has no message left. When the copy to the user
-- fails, the read fails, and nothing is shown.
pub test_mychar_lem :
    (printer : Printer) (error_count : ℕ) (text : List ℕ) (s : State)
    → length text ≤ 225
    → error_count ≢ 0
    → (t : State) × (test_mychar printer true 0 text s
        ≡ some (shows (formatted printer text (length text)) t))
      × (t.size_of_message ≡ 0)
      × (test_mychar printer true error_count text s ≡ some read_fails)
unfolding test_mychar
test_mychar_lem printer error_count text s h c =
    let (t, e, valid) = dev_write_safe printer text (length text) (dev_open s).0 h in
    let (first, second, fails) =
      write_then_read printer text (length text) 256 error_count (dev_open s).0 c e in
    let short : leb 256 (length text) ≡ false = ground arith in
    (record t { size_of_message = 0 }, rw (short, e, first) refl, refl, rw (short, e, fails) refl)

-- `main` of testmyioctl.c: it sends `number`, then reads into `value`, and shows that. By whether
-- the device can be opened, and for each call whether its copy fails and what it leaves then; the
-- results of the calls are ignored. `none`: the device cannot be opened.
unfoldable pub test_myioctl : Bool → Bool → ℤ → Bool → ℤ → ℤ → ℤ → Values → Option (Values × ℤ)
test_myioctl opened wr_fails wr_left rd_fails rd_left number value v =
    if not opened
    then none
    else (let (v', number', wr_ret) = dev_ioctl wr_value wr_fails wr_left number v in
        let (v'', value', rd_ret) = dev_ioctl rd_value rd_fails rd_left value v' in
        some (v'', value'))

-- When both copies succeed, testmyioctl.c leaves its number in the driver and shows the driver's
-- other integer, whatever the number is; when the second copy fails, it shows what that leaves.
pub test_myioctl_lem :
    (wr_left rd_left number value : ℤ) (v : Values)
    → (test_myioctl true false wr_left false rd_left number value v
        ≡ some (record v { value = number }, v.value_sent_to_user))
      × (test_myioctl true false wr_left true rd_left number value v
          ≡ some (record v { value = number }, rd_left))
unfolding test_myioctl dev_ioctl
test_myioctl_lem wr_left rd_left number value v = (refl, refl)
