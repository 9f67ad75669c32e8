-- ===== src/Chardev/DramClients.antt =====
-- dram/testmychar.c over the driver of dram/dram.c, and the modes of the driver's device files.
use linux_device_drivers.Common.{
  ℕ, ◌≤◌, ◌<◌, ◌≡◌, ◌≢◌, refl, Bool, true, false, not, Option, none, some, List, length, leb, arith,
  if◌then◌else◌, ℤ, pos, is_negative,
}
use linux_device_drivers.Chardev.Message.{Printer, State}
use linux_device_drivers.Chardev.Dram.{dev_open, dev_read, dev_write}
use linux_device_drivers.Chardev.Mychar
use linux_device_drivers.Chardev.Clients.{Chat, open_fails, write_fails, read_fails, shows}
use linux_device_drivers.Chardev.Exchange.{dev_write_safe}
use linux_device_drivers.Chardev.Memory.{bytes_at, read_inside, dev_read_fails}

-- The end of `main`, below `read`.
abbrev pub finish_chat : State → List ℕ × ℕ × ℤ → Chat
finish_chat s (receive, at, ret) = if is_negative ret then read_fails else shows receive s

-- A file that is opened stands at position 0, and a write does not move it.
abbrev pub read_back : (ℤ → ℕ → ℕ) → ℕ → ℕ → State × ℤ → Chat
read_back memory dram_size more (s, ret) =
    if is_negative ret
    then write_fails
    else finish_chat s (dev_read memory 4096 dram_size more 256 0)

-- `main` with the text that is typed, by whether the device can be opened and what `copy_to_user`
-- returns; `none` is a fault in the driver, or a text that overruns the array of 256.
unfoldable pub test_dram : Printer → (ℤ → ℕ → ℕ) → ℕ → Bool → ℕ → List ℕ → State → Option Chat
test_dram printer memory dram_size opened more string_to_send s =
    if not opened
    then some open_fails
    else (if leb 256 (length string_to_send)
        then none
        else elim (dev_write printer (some string_to_send) (length string_to_send) (dev_open s).0) [
          | none ↦ none
          | some answer ↦ some (read_back memory dram_size more answer)
        ])

-- Whatever text of at most 225 characters is typed, and whatever the driver held, the program shows
-- the first 256 bytes of physical memory, not the text; a failed copy makes the read fail. The
-- memory is not empty and has fewer than 2^43 bytes.
pub test_dram_lem :
    (printer : Printer) (memory : ℤ → ℕ → ℕ) (dram_size more : ℕ) (text : List ℕ) (s : State)
    → 0 < dram_size
    → length text ≤ 225
    → more ≢ 0
    → (t : State) × (test_dram printer memory dram_size true 0 text s
        ≡ some (shows (bytes_at memory 4096 0 256) t))
      × (test_dram printer memory dram_size true more text s ≡ some read_fails)
unfolding test_dram dev_write Mychar.dev_write
test_dram_lem printer memory dram_size more text s z h c =
    let (t, e, valid) = dev_write_safe printer text (length text) (dev_open s).0 h in
    let short : leb 256 (length text) ≡ false = ground arith in
    let got : dev_read memory 4096 dram_size 0 256 0 ≡ (bytes_at memory 4096 0 256, 256, pos 256) =
      read_inside memory dram_size 256 0 (omega arith) (omega arith) z in
    (t, rw (short, e, got) refl, rw (short, e, dev_read_fails memory dram_size more 256 0 c z) refl)
