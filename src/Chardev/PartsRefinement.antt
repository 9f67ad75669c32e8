-- ===== src/Chardev/PartsRefinement.antt =====
-- ioctl/ioctl.c is the three objects of Parts, call by call.
use linux_device_drivers.Common.{
  ℕ, if◌then◌else◌, ◌-◌, ◌^◌, take, length, ◌≤◌, ◌<◌, ◌≡◌, refl, sym, ap, ◌∙◌, inl, inr, ◌||◌,
  Bool-cases, some, List, [], ◌∷◌, ◌==◌, arith, ltb, ltb_ℤ, ℤ, pos, negsuc, is_negative, neg_errno,
  efault,
}
use linux_device_drivers.Chardev.Message.{Printer, State, open_device, release_device, read_message}
use linux_device_drivers.Chardev.Mychar
use linux_device_drivers.Chardev.Ioctl.{
  Values, wr_value, rd_value, other_command, dev_open, dev_release, dev_read, dev_write, dev_lseek,
  dev_ioctl, seek_target, settle, signed64, pattern64,
}
use linux_device_drivers.Chardev.Dram
use linux_device_drivers.Chardev.DramFile.{sought, moved_to}
use linux_device_drivers.Chardev.DramSeek.{landed, lseek_lem, moved_inside}
use linux_device_drivers.Chardev.Mailbox.{unread, write_unread}
use linux_device_drivers.Chardev.Seek.{IsLoff, seek_target-IsLoff}
use linux_device_drivers.Chardev.Sessions.{
  Device, Operation, open_file, release_file, read_file, write_file, seek_file, control,
}
use linux_device_drivers.Chardev.Parts.{
  Answer, plain, text, after_write, answer_call, answer_all, Parts, parts_step, run_parts,
  device_at, parts_at, IsProper, AllProper,
}

same_test :
    (size : ℕ) (newpos : ℤ)
    → IsLoff newpos
    → (is_negative newpos || ltb_ℤ (pos size) newpos)
      ≡ (is_negative newpos || ltb size (pattern64 newpos))
same_test size (pos n) l = ground arith
same_test size (negsuc n) l = refl

-- A seek of this driver moves as in a file.
ioctl_lseek :
    (size at : ℕ) (offset : ℤ) (whence : ℕ)
    → size < 2 ^ 43
    → at ≤ size
    → IsLoff offset
    → dev_lseek (pos at) (pos size) offset whence
      ≡ landed (moved_to size at (sought size at offset whence))
unfolding dev_lseek Dram.dev_lseek
ioctl_lseek size at offset whence s h l =
    let plain_size : signed64 size ≡ pos size = ground arith in
    let newpos = seek_target (pos at) (pos size) offset whence in
    ap (settle (pos at) newpos)
      (same_test size newpos (seek_target-IsLoff (pos at) (pos size) offset whence l))
    ∙ rw (← plain_size) (lseek_lem size at offset whence s h l)

module _ (printer : Printer) (size : ℕ) where
  -- What a call owes to the objects.
  abbrev Keeps : State → ℕ → Values → Operation → Type 0
  Keeps s at v op =
      (s' : State) × (at' : ℕ) × (v' : Values) × (answer : Answer) × (answer_call printer size op
          (device_at s at v)
        ≡ some (device_at s' at' v', answer))
      × (parts_step printer size op (parts_at s at v) ≡ (answer, parts_at s' at' v'))
      × (at' ≤ size)

  read-Keeps :
      (error_count len : ℕ) (s : State) (at : ℕ) (v : Values)
      → at ≤ size
      → Keeps s at v (read_file error_count len)
  unfolding answer_call dev_read read_message
  read-Keeps error_count len s at v h = elim (Bool-cases (error_count == 0)) [
    | inl copied ↦ (
      record s { size_of_message = 0 },
      at,
      v,
      text (unread s) (pos 0),
      rw copied refl,
      rw copied refl,
      h,
    )
    | inr failed ↦ (
      s,
      at,
      v,
      text (take (length (unread s) - error_count) (unread s)) (neg_errno efault),
      rw failed refl,
      rw failed refl,
      h,
    )
  ]

  answer_call-Keeps :
      (op : Operation) (s : State) (at : ℕ) (v : Values)
      → size < 2 ^ 43
      → IsProper op
      → at ≤ size
      → Keeps s at v op
  unfolding answer_call dev_open open_device dev_release release_device dev_write Mychar.dev_write
      dev_ioctl
  answer_call-Keeps open_file s at v z p h = (_, at, v, plain (pos 0), refl, refl, h)
  answer_call-Keeps release_file s at v z p h = (s, at, v, plain (pos 0), refl, refl, h)
  answer_call-Keeps (read_file error_count len) s at v z p h = read-Keeps error_count len s at v h
  answer_call-Keeps (write_file buffer len) s at v z p h =
      let (t, e, same) = write_unread printer buffer len s p in
      (
        t,
        at,
        v,
        plain (pos len),
        ap (after_write (device_at s at v)) e,
        ap (λ b. (plain (pos len), record (parts_at s at v) { box = b })) (sym same),
        h,
      )
  answer_call-Keeps (seek_file offset whence) s at v z p h =
      let to = sought size at offset whence in
      (
        s,
        (moved_to size at to).0,
        v,
        plain (moved_to size at to).1,
        ap (λ (r : ℤ × ℤ). some (record { message = s; f_pos = r.0; values = v }, plain r.1))
            (ioctl_lseek size at offset whence z h p),
        refl,
        moved_inside size at to h,
      )
  answer_call-Keeps (control wr_value fails left user) s at v z p h =
      (s, at, record v { value = if fails then left else user }, _, refl, refl, h)
  answer_call-Keeps (control rd_value fails left user) s at v z p h = (s, at, v, _, refl, refl, h)
  answer_call-Keeps (control other_command fails left user) s at v z p h =
      (s, at, v, _, refl, refl, h)

  answer_cons :
      (op : Operation) (ops : List Operation) (d next last : Device) (answer : Answer)
      (answers : List Answer)
      → answer_call printer size op d ≡ some (next, answer)
      → answer_all printer size ops next ≡ some (last, answers)
      → answer_all printer size (op ∷ ops) d ≡ some (last, answer ∷ answers)
  unfolding answer_all
  answer_cons op ops d next last answer answers e f = ground arith

  parts_cons :
      (op : Operation) (ops : List Operation) (p p' last : Parts) (answer : Answer)
      (answers : List Answer)
      → parts_step printer size op p ≡ (answer, p')
      → run_parts printer size ops p' ≡ (answers, last)
      → run_parts printer size (op ∷ ops) p ≡ (answer ∷ answers, last)
  parts_cons op ops p p' last answer answers e f = ground arith

  -- Every sequence of calls on the driver, with writes of at most 225 characters before a NUL that the
  -- kernel can read and
  -- offsets that are a `loff_t`, on a file of fewer than 2^43 bytes, is served without a fault, and
  -- each call answers as one on a single one of three objects does: a box with one message, a
  -- position that is moved as the numbers say and stays inside the file, and two integers, one of which
  -- WR_VALUE sets to the user's and the other of which RD_VALUE hands out, unless the copy fails. At the end the driver holds what the objects hold.
  pub answer_all-run_parts :
      (ops : List Operation) (s : State) (at : ℕ) (v : Values)
      → size < 2 ^ 43
      → AllProper ops
      → at ≤ size
      → (s' : State) × (at' : ℕ) × (v' : Values) × (answers : List Answer) × (answer_all printer
            size ops
            (device_at s at v)
          ≡ some (device_at s' at' v', answers))
        × (run_parts printer size ops (parts_at s at v) ≡ (answers, parts_at s' at' v'))
        × (at' ≤ size)
  unfolding answer_all
  answer_all-run_parts [] s at v z p h = (s, at, v, [], refl, refl, h)
  answer_all-run_parts (op ∷ ops) s at v z (proper, others) h =
      let (s', next, v', answer, served, step, inside) = answer_call-Keeps op s at v z proper h in
      let (s'', at', v'', answers, run, runs, inside') =
        answer_all-run_parts ops s' next v' z others inside in
      (
        s'',
        at',
        v'',
        answer ∷ answers,
        answer_cons op ops (device_at s at v) (device_at s' next v') (device_at s'' at' v'') answer
            answers served run,
        parts_cons op ops (parts_at s at v) (parts_at s' next v') (parts_at s'' at' v'') answer
            answers step runs,
        inside',
      )
