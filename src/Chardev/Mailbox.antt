-- ===== src/Chardev/Mailbox.antt =====
-- mychar/mychar.c: the driver as a whole, as its table `fops` serves the calls of its users, against
-- a box that holds one message.
use linux_device_drivers.Common.{
  ℕ, ◌-◌, ◌≤◌, ◌≡◌, refl, sym, ap, inl, inr, Bool-cases, Option, none, some, List, [], ◌∷◌, length,
  take, ◌==◌, if◌then◌else◌, arith, ℤ, pos, neg_errno, efault,
}
use linux_device_drivers.Chardev.Message.{
  Printer, State, formatted, open_device, release_device, read_message,
}
use linux_device_drivers.Chardev.Mychar.{dev_open, dev_release, dev_read, dev_write}
use linux_device_drivers.Chardev.Exchange.{dev_write_safe, write_then_read}

-- A call of a user, with what the kernel answers in it. A write comes with a text that the kernel can
-- read.
pub data UserCall : Type 0 where
  opening releasing : UserCall
  reading : (error_count len : ℕ) → UserCall
  writing : (buffer : List ℕ) (len : ℕ) → UserCall

-- What the user gets: the bytes, and the return value.
abbrev pub Answer : Type 0
Answer = List ℕ × ℤ

abbrev pub after_write : Option (State × ℤ) → Option (State × Answer)
after_write none = none
after_write (some (s, ret)) = some (s, ([], ret))

-- `fops`: the function for each call. `none` is a fault of the driver.
unfoldable pub serve : Printer → UserCall → State → Option (State × Answer)
serve printer opening s = let (s', ret) = dev_open s in some (s', ([], ret))
serve printer releasing s = let (s', ret) = dev_release s in some (s', ([], ret))
serve printer (reading error_count len) s =
    let (s', bytes, ret) = dev_read error_count len s in some (s', (bytes, ret))
serve printer (writing buffer len) s = after_write (dev_write printer (some buffer) len s)

-- Calls one after the other, with their answers.
unfoldable pub serve_all : Printer → List UserCall → State → Option (State × List Answer)
serve_all printer [] s = some (s, [])
serve_all printer (c ∷ cs) s = elim (serve printer c s) [
  | none ↦ none
  | some (s', answer) ↦ elim (serve_all printer cs s') [
    | none ↦ none
    | some (last, answers) ↦ some (last, answer ∷ answers)
  ]
]

-- The box: the text in it is the last one written, until it is read.
abbrev pub mailbox_step : Printer → UserCall → List ℕ → Answer × List ℕ
mailbox_step printer opening box = (([], pos 0), box)
mailbox_step printer releasing box = (([], pos 0), box)
mailbox_step printer (reading error_count len) box =
    if error_count == 0
    then ((box, pos 0), [])
    else ((take (length box - error_count) box, neg_errno efault), box)
mailbox_step printer (writing buffer len) box = (([], pos len), formatted printer buffer len)

abbrev pub mailbox : Printer → List UserCall → List ℕ → List Answer × List ℕ
mailbox printer [] box = ([], box)
mailbox printer (c ∷ cs) box =
    let (answer, box') = mailbox_step printer c box in
    let (answers, last) = mailbox printer cs box' in (answer ∷ answers, last)

-- What the driver holds unread.
abbrev pub unread : State → List ℕ
unread s = take s.size_of_message s.message

-- A write has at most 225 characters before its NUL.
abbrev pub IsShort : UserCall → Type 0
IsShort opening = Unit
IsShort releasing = Unit
IsShort (reading error_count len) = Unit
IsShort (writing buffer len) = length buffer ≤ 225

abbrev pub AllShort : List UserCall → Type 0
AllShort [] = Unit
AllShort (c ∷ cs) = IsShort c × AllShort cs

module _ (printer : Printer) where
  -- What a call owes to the box.
  abbrev Keeps : State → UserCall → Type 0
  Keeps s c =
      (s' : State) × (answer : Answer) × (serve printer c s ≡ some (s', answer))
      × (mailbox_step printer c (unread s) ≡ (answer, unread s'))

  -- A write that fits is then unread.
  pub write_unread :
      (buffer : List ℕ) (len : ℕ) (s : State)
      → length buffer ≤ 225
      → (t : State) × (dev_write printer (some buffer) len s ≡ some (t, pos len))
        × (unread t ≡ formatted printer buffer len)
  unfolding dev_read read_message
  write_unread buffer len s h =
      let (t, e, valid) = dev_write_safe printer buffer len s h in
      let (first, second, fails) = write_then_read printer buffer len 0 1 s (λ z. omega arith) e in
      (t, e, ap (λ (r : State × List ℕ × ℤ). r.1) first)

  serve-Keeps : (c : UserCall) (s : State) → IsShort c → Keeps s c
  unfolding serve dev_open open_device dev_release release_device dev_read read_message
  serve-Keeps opening s h = (_, _, refl, refl)
  serve-Keeps releasing s h = (_, _, refl, refl)
  serve-Keeps (reading error_count len) s h = elim (Bool-cases (error_count == 0)) [
    | inl copied ↦
        (record s { size_of_message = 0 }, (unread s, pos 0), rw copied refl, rw copied refl)
    | inr failed ↦ (
      s,
      (take (length (unread s) - error_count) (unread s), neg_errno efault),
      rw failed refl,
      rw failed refl,
    )
  ]
  serve-Keeps (writing buffer len) s h =
      let (t, e, text) = write_unread buffer len s h in
      (t, ([], pos len), ap after_write e, ap (λ b. (([], pos len), b)) (sym text))

  serve_cons :
      (c : UserCall) (cs : List UserCall) (s next last : State) (answer : Answer)
      (answers : List Answer)
      → serve printer c s ≡ some (next, answer)
      → serve_all printer cs next ≡ some (last, answers)
      → serve_all printer (c ∷ cs) s ≡ some (last, answer ∷ answers)
  unfolding serve_all
  serve_cons c cs s next last answer answers e f = ground arith

  mailbox_cons :
      (c : UserCall) (cs : List UserCall) (box box' last : List ℕ) (answer : Answer)
      (answers : List Answer)
      → mailbox_step printer c box ≡ (answer, box')
      → mailbox printer cs box' ≡ (answers, last)
      → mailbox printer (c ∷ cs) box ≡ (answer ∷ answers, last)
  mailbox_cons c cs box box' last answer answers e f = ground arith

  -- Calls of any number of users, in any order, whose writes are texts of at most 225 characters
  -- before a NUL that the kernel can read, are all served, and the driver is a box with one message: each answers what the box
  -- answers. So a reader gets the text of the last write whole, whatever length it asks for,
  -- together with a return value of 0; the readers after it get nothing; and a reader whose copy
  -- fails gets the part that was copied, and leaves the whole text for the next.
  pub serve_all-mailbox :
      (cs : List UserCall) (s : State)
      → AllShort cs
      → (last : State) × (answers : List Answer) × (serve_all printer cs s ≡ some (last, answers))
        × (mailbox printer cs (unread s) ≡ (answers, unread last))
  unfolding serve_all
  serve_all-mailbox [] s h = (s, [], refl, refl)
  serve_all-mailbox (c ∷ cs) s (short, others) =
      let (next, answer, served, step) = serve-Keeps c s short in
      let (last, answers, run, box) = serve_all-mailbox cs next others in
      (
        last,
        answer ∷ answers,
        serve_cons c cs s next last answer answers served run,
        mailbox_cons c cs (unread s) (unread next) (unread last) answer answers step box,
      )
