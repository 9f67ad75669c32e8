-- ===== src/Chardev/DramRefinement.antt =====
-- The driver of dram/dram.c keeps the promises of a file.
use native.Mathlib.Decide.{dec_le}
use linux_device_drivers.Common.{
  ℕ, zero, suc, ◌+◌, ◌-◌, ◌%◌, ◌^◌, ◌≤◌, ◌<◌, ◌≡◌, min, refl, ap, some, List, [], ◌∷◌, arith, ℤ,
  pos, neg_errno, efault,
}
use linux_device_drivers.Chardev.Message.{
  Printer, State, open_device, release_device, write_message,
}
use linux_device_drivers.Chardev.Mychar
use linux_device_drivers.Chardev.Dram.{dev_open, dev_release, dev_read, dev_write}
use linux_device_drivers.Chardev.Exchange.{IsValid, dev_write_safe}
use linux_device_drivers.Chardev.Memory.{bytes_at, read_inside, read_past, dev_read_fails}
use linux_device_drivers.Chardev.DramFile.{
  Device, FileCall, opening, releasing, reading, writing, seeking, Answer, after_write, serve,
  serve_all, sought, moved_to, FileStep, opens, releases, reads, ends, faults, writes, seeks,
  FileRun, rests, steps, IsProper, AllProper,
}
use linux_device_drivers.Chardev.DramSeek.{lseek_lem, moved_inside}

abbrev device : State → ℕ → Device
device s at = record { message = s; f_pos = pos at }

module _ (printer : Printer) (memory : ℤ → ℕ → ℕ) (size : ℕ) where
  -- What a call owes: it does not fault, keeps the message valid and the position inside, and is a
  -- step of the file.
  abbrev Keeps : State → ℕ → FileCall → Type 0
  Keeps s at c =
      (s' : State) × (at' : ℕ) × (answer : Answer) × (serve printer memory size c (device s at)
        ≡ some (device s' at', answer))
      × IsValid s'
      × (at' ≤ size)
      × FileStep memory size at c answer at'

  serve_reading :
      (more count at : ℕ) (s : State) (bytes : List ℕ) (at' : ℕ) (ret : ℤ)
      → dev_read memory 4096 size more count at ≡ (bytes, at', ret)
      → serve printer memory size (reading more count) (device s at)
        ≡ some (device s at', (bytes, ret))
  unfolding serve
  serve_reading more count at s bytes at' ret e =
      ap (λ (r : List ℕ × ℕ × ℤ). some (device s r.1, (r.0, r.2))) e

  inside-Keeps :
      (more count at : ℕ) (s : State)
      → size < 2 ^ 43
      → size % 4096 ≡ 0
      → count < 2 ^ 63
      → IsValid s
      → at < size
      → Keeps s at (reading more count)
  inside-Keeps zero count at s z w c v h =
      let n : ℕ = min count (4096 - at % 4096) in
      (
        s,
        at + n,
        (bytes_at memory 4096 at n, pos n),
        serve_reading 0 count at s (bytes_at memory 4096 at n) (at + n) (pos n)
            (read_inside memory size count at (omega arith) c h),
        v,
        omega arith,
        reads count n (omega arith) (omega arith) (λ a b. omega arith),
      )
  inside-Keeps (suc more) count at s z w c v h = (
    s,
    at,
    ([], neg_errno efault),
    serve_reading (suc more) count at s [] at (neg_errno efault)
        (dev_read_fails memory size (suc more) count at (λ e. omega arith) h),
    v,
    omega arith,
    faults (suc more) count (λ e. omega arith) h,
  )

  read-Keeps :
      (more count at : ℕ) (s : State)
      → size < 2 ^ 43
      → size % 4096 ≡ 0
      → count < 2 ^ 63
      → IsValid s
      → at ≤ size
      → Keeps s at (reading more count)
  read-Keeps more count at s z w c v h = elim (dec_le size at) [
    | yes past ↦ (
      s,
      at,
      ([], pos 0),
      serve_reading more count at s [] at (pos 0) (read_past memory size more count at past),
      v,
      h,
      ends more count past,
    )
    | no before ↦ inside-Keeps more count at s z w c v (omega arith)
  ]

  open-IsValid : (s : State) → IsValid s → IsValid (dev_open s).0
  unfolding dev_open open_device
  open-IsValid s v = record { sized = v.sized; fits = v.fits }

  serve-Keeps :
      (c : FileCall) (s : State) (at : ℕ)
      → size < 2 ^ 43
      → size % 4096 ≡ 0
      → IsProper c
      → IsValid s
      → at ≤ size
      → Keeps s at c
  unfolding serve dev_open open_device dev_release release_device dev_write write_message
      Mychar.dev_write
  serve-Keeps opening s at z w c v h =
      ((dev_open s).0, at, ([], pos 0), refl, open-IsValid s v, h, opens)
  serve-Keeps releasing s at z w c v h = (s, at, ([], pos 0), refl, v, h, releases)
  serve-Keeps (reading more count) s at z w c v h = read-Keeps more count at s z w c v h
  serve-Keeps (writing buffer len) s at z w c v h =
      let (t, e, valid) = dev_write_safe printer buffer len s c in
      (t, at, ([], pos len), ap (after_write (device s at)) e, valid, h, writes buffer len)
  serve-Keeps (seeking offset whence) s at z w c v h =
      let to = sought size at offset whence in
      (
        s,
        (moved_to size at to).0,
        ([], (moved_to size at to).1),
        ap (λ (r : ℤ × ℤ). some (record { message = s; f_pos = r.0 }, ([], r.1)))
            (lseek_lem size at offset whence z h c),
        v,
        moved_inside size at to h,
        seeks offset whence,
      )

  -- One call, then the others.
  serve_cons :
      (c : FileCall) (cs : List FileCall) (d next last : Device) (answer : Answer)
      (answers : List Answer)
      → serve printer memory size c d ≡ some (next, answer)
      → serve_all printer memory size cs next ≡ some (last, answers)
      → serve_all printer memory size (c ∷ cs) d ≡ some (last, answer ∷ answers)
  unfolding serve_all
  serve_cons c cs d next last answer answers e f = ground arith

  -- Every sequence of proper calls on the driver of a memory of whole pages, below 2^43 bytes, is
  -- served to its end without a fault, and is a run of a file of that size: its reads give the
  -- memory's bytes, in order, and make progress, its seeks go where the numbers say or fail and move
  -- nothing, failed copies move nothing; and at the end the message is valid and the position is
  -- inside the memory.
  pub serve_all_refines :
      (cs : List FileCall) (s : State) (at : ℕ)
      → size < 2 ^ 43
      → size % 4096 ≡ 0
      → AllProper cs
      → IsValid s
      → at ≤ size
      → (s' : State) × (at' : ℕ) × (answers : List Answer) × (serve_all printer memory size cs
            (device s at)
          ≡ some (device s' at', answers))
        × FileRun memory size at cs answers at'
        × IsValid s'
        × (at' ≤ size)
  unfolding serve_all
  serve_all_refines [] s at z w c v h = (s, at, [], refl, rests at, v, h)
  serve_all_refines (c ∷ cs) s at z w (proper, others) v h =
      let (s', next, answer, served, v', h', step) = serve-Keeps c s at z w proper v h in
      let (s'', at', answers, run, runs, v'', h'') =
        serve_all_refines cs s' next z w others v' h' in
      (
        s'',
        at',
        answer ∷ answers,
        serve_cons c cs (device s at) (device s' next) (device s'' at') answer answers served run,
        steps at next at' c answer cs answers step runs,
        v'',
        h'',
      )
