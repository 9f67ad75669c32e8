-- ===== src/Chardev/DramFile.antt =====
-- dram/dram.c: the driver as a whole, as its table `fops` serves the calls on an open file.
use linux_device_drivers.Common.{
  ℕ, zero, suc, ◌+◌, ◌^◌, ◌≤◌, ◌<◌, ◌≢◌, Option, none, some, List, [], ◌∷◌, length, leb,
  if◌then◌else◌, ℤ, pos, negsuc, ◌+ℤ◌, neg_errno, efault, einval,
}
use linux_device_drivers.Chardev.Message.{Printer, State}
use linux_device_drivers.Chardev.Dram.{dev_open, dev_release, dev_read, dev_write, dev_lseek}
use linux_device_drivers.Chardev.Memory.{bytes_at}
use linux_device_drivers.Chardev.Showgdt.{position}
use linux_device_drivers.Chardev.Seek.{IsLoff}

-- The statics of the message, and the position of a file that is open on the device.
pub record Device : Type 0 where
  pub message : State
  pub f_pos : ℤ

-- A call of a user, with what the kernel answers in it.
pub data FileCall : Type 0 where
  opening releasing : FileCall
  reading : (more count : ℕ) → FileCall
  writing : (buffer : List ℕ) (len : ℕ) → FileCall
  seeking : (offset : ℤ) (whence : ℕ) → FileCall

-- What the user gets: the bytes, and the return value.
abbrev pub Answer : Type 0
Answer = List ℕ × ℤ

abbrev pub after_write : Device → Option (State × ℤ) → Option (Device × Answer)
after_write d none = none
after_write d (some (s, ret)) = some (record d { message = s }, ([], ret))

-- `fops`: the function for each call, on pages of 4096 bytes. `none` is a fault of the driver.
unfoldable pub serve : Printer → (ℤ → ℕ → ℕ) → ℕ → FileCall → Device → Option (Device × Answer)
serve printer memory dram_size opening d =
    let (s, ret) = dev_open d.message in some (record d { message = s }, ([], ret))
serve printer memory dram_size releasing d =
    let (s, ret) = dev_release d.message in some (record d { message = s }, ([], ret))
serve printer memory dram_size (reading more count) d =
    let (bytes, at, ret) = dev_read memory 4096 dram_size more count (position d.f_pos) in
    some (record d { f_pos = pos at }, (bytes, ret))
serve printer memory dram_size (writing buffer len) d =
    after_write d (dev_write printer (some buffer) len d.message)
serve printer memory dram_size (seeking offset whence) d =
    let (f_pos, ret) = dev_lseek d.f_pos dram_size offset whence in
    some (record d { f_pos = f_pos }, ([], ret))

-- Calls one after the other, with their answers.
unfoldable pub serve_all :
    Printer → (ℤ → ℕ → ℕ) → ℕ → List FileCall → Device → Option (Device × List Answer)
serve_all printer memory dram_size [] d = some (d, [])
serve_all printer memory dram_size (c ∷ cs) d = elim (serve printer memory dram_size c d) [
  | none ↦ none
  | some (d', answer) ↦ elim (serve_all printer memory dram_size cs d') [
    | none ↦ none
    | some (last, answers) ↦ some (last, answer ∷ answers)
  ]
]

-- Where a seek leads, as a number: from the start, from the position, from the end.
abbrev pub sought : ℕ → ℕ → ℤ → ℕ → ℤ
sought size at offset zero = offset
sought size at offset (suc zero) = pos at +ℤ offset
sought size at offset (suc (suc zero)) = pos size +ℤ offset
sought size at offset (suc (suc (suc n))) = negsuc 0

-- The position after a seek to a number, and what the seek returns.
abbrev pub moved_to : ℕ → ℕ → ℤ → ℕ × ℤ
moved_to size at (negsuc n) = (at, neg_errno einval)
moved_to size at (pos n) = if leb n size then (n, pos n) else (at, neg_errno einval)

-- A file of `size` bytes, as the calls on it promise: what each may answer at a position, and the
-- position that it leaves. A read gives the bytes from the position on, some number of them up to the
-- one asked for, and at least one while there are any.
pub data FileStep (memory : ℤ → ℕ → ℕ) (size at : ℕ) : FileCall → Answer → ℕ → Type 0 where
  opens : FileStep memory size at opening ([], pos 0) at
  releases : FileStep memory size at releasing ([], pos 0) at
  reads :
      (count n : ℕ)
      → n ≤ count
      → at + n ≤ size
      → (0 < count → at < size → 0 < n)
      → FileStep memory size at (reading 0 count) (bytes_at memory 4096 at n, pos n) (at + n)
  ends : (more count : ℕ) → size ≤ at → FileStep memory size at (reading more count) ([], pos 0) at
  faults :
      (more count : ℕ)
      → more ≢ 0
      → at < size
      → FileStep memory size at (reading more count) ([], neg_errno efault) at
  writes :
      (buffer : List ℕ) (len : ℕ) → FileStep memory size at (writing buffer len) ([], pos len) at
  seeks :
      (offset : ℤ) (whence : ℕ)
      → FileStep memory size at
          (seeking offset whence)
          ([], (moved_to size at (sought size at offset whence)).1)
          (moved_to size at (sought size at offset whence)).0

-- The runs of such a file.
pub data FileRun (memory : ℤ → ℕ → ℕ) (size : ℕ)
    : ℕ → List FileCall → List Answer → ℕ → Type 0 where
  rests : (at : ℕ) → FileRun memory size at [] [] at
  steps :
      (at next last : ℕ) (c : FileCall) (answer : Answer) (cs : List FileCall)
      (answers : List Answer)
      → FileStep memory size at c answer next
      → FileRun memory size next cs answers last
      → FileRun memory size at (c ∷ cs) (answer ∷ answers) last

-- A call that keeps to the types: a write of at most 225 characters before its NUL, a count of 63
-- bits, an offset that is a `loff_t`.
abbrev pub IsProper : FileCall → Type 0
IsProper opening = Unit
IsProper releasing = Unit
IsProper (reading more count) = count < 2 ^ 63
IsProper (writing buffer len) = length buffer ≤ 225
IsProper (seeking offset whence) = IsLoff offset

abbrev pub AllProper : List FileCall → Type 0
AllProper [] = Unit
AllProper (c ∷ cs) = IsProper c × AllProper cs
