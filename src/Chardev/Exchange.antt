-- ===== src/Chardev/Exchange.antt =====
-- What a user of the message device of mychar/mychar.c (and of its copies in ioctl/ioctl.c and
-- dram/dram.c) gets back for what it sends.
use linux_device_drivers.Common.{
  ℕ, ◌+◌, ◌-◌, ◌==◌, false, ◌≤◌, ◌<◌, ◌≡◌, refl, sym, ap, ◌⊎◌, ◌≢◌, neg_errno, efault, none, some,
  List, [], ◌∷◌, ◌++◌, arith, length, take, take_all, length-append, ltb, if◌then◌else◌, pos, ◌∙◌,
}
use linux_device_drivers.Chardev.Message.{Printer, State, formatted, letters, message_capacity}
use linux_device_drivers.Chardev.Mychar.{dev_read, dev_write}

length-formatted :
    (printer : Printer) (buffer : List ℕ) (len : ℕ)
    → length (formatted printer buffer len) ≡ length buffer + length (printer.print_zu len) + 10
length-formatted printer buffer len = omega (
  arith,
  length-append buffer (40 ∷ (printer.print_zu len ++ letters)),
  length-append (printer.print_zu len) letters,
)

-- The invariant: the size is the length of the text, or 0 once it has been read.
pub record IsValid (s : State) : Type 0 where
  pub sized : (s.size_of_message ≡ length s.message) ⊎ (s.size_of_message ≡ 0)
  pub fits : length s.message < message_capacity

-- A write reports `len` and leaves the text "%s(%zu letters)" as the unread message exactly when
-- the text before the NUL and the digits of `len` together have at most 245 characters; otherwise
-- `sprintf` writes behind the end of the array.
pub dev_write_lem :
    (printer : Printer) (buffer : List ℕ) (len : ℕ) (s : State)
    → dev_write printer (some buffer) len s ≡ (
        if ltb (length buffer + length (printer.print_zu len)) 246
        then some (
          record s {
            message = formatted printer buffer len;
            size_of_message = length (formatted printer buffer len);
          },
          pos len,
        )
        else none)
unfolding dev_write
dev_write_lem printer buffer len s = ground (arith, length-formatted printer buffer len)

-- A message of at most 225 characters before its NUL is safe, whatever length the caller claims.
pub dev_write_safe :
    (printer : Printer) (buffer : List ℕ) (len : ℕ) (s : State)
    → length buffer ≤ 225
    → (t : State) × (dev_write printer (some buffer) len s ≡ some (t, pos len)) × IsValid t
unfolding dev_write
dev_write_safe printer buffer len s h = (
  record s {
    message = formatted printer buffer len;
    size_of_message = length (formatted printer buffer len);
  },
  ground (arith, length-formatted printer buffer len, printer.length-print_zu len),
  ground (arith, length-formatted printer buffer len, printer.length-print_zu len),
)

take-length : (n : ℕ) (xs : List ℕ) → n ≡ length xs → take n xs ≡ xs
take-length n xs e = take_all n xs (omega arith)

written :
    (printer : Printer) (buffer : List ℕ) (len : ℕ) (s : State) {t : State}
    → dev_write printer (some buffer) len s ≡ some (t, pos len)
    → (t.message ≡ formatted printer buffer len)
      × (t.size_of_message ≡ length (formatted printer buffer len))
unfolding dev_write
written printer buffer len s e = ground arith

-- After a write that fits, a read whose copy succeeds gives the user the whole text, whatever
-- length it asked for, but returns 0; a second read gives nothing; and while copies fail, reads return
-- -EFAULT, the user has the text without the end that could not be copied, and the message stays
-- unread.
pub write_then_read :
    (printer : Printer) (buffer : List ℕ) (len asked error_count : ℕ) (s : State) {t : State}
    → error_count ≢ 0
    → dev_write printer (some buffer) len s ≡ some (t, pos len)
    → (dev_read 0 asked t ≡ (record t { size_of_message = 0 }, formatted printer buffer len, pos 0))
      × ((dev_read 0 asked (dev_read 0 asked t).0).1 ≡ [])
      × (dev_read error_count asked t ≡ (
        t,
        take (length (formatted printer buffer len) - error_count) (formatted printer buffer len),
        neg_errno efault,
      ))
unfolding dev_write dev_read
write_then_read printer buffer len asked error_count s {t} c e =
    let (text, size) = written printer buffer len s e in
    let whole : take t.size_of_message t.message ≡ formatted printer buffer len =
      take-length t.size_of_message t.message (size ∙ ap length (sym text)) ∙ text in
    let fails : (error_count == 0) ≡ false = ground arith in
    (ap (λ b. (record t { size_of_message = 0 }, b, pos 0)) whole, refl, rw (fails, whole) refl)
