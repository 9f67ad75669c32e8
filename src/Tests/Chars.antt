-- ===== src/Tests/Chars.antt =====
-- The theorems of the character drivers on concrete messages, positions and answers.
use linux_device_drivers.Common.{
  inl, List, ◌≤◌, some, false, ℕ, ◌+◌, ◌%◌, ◌≡◌, refl, [], ◌∷◌, arith, ℤ, pos, length,
}
use linux_device_drivers.Chardev.Message.{Printer, State, formatted}
use linux_device_drivers.Chardev.Ioctl.{Values, rd_value}
use linux_device_drivers.Chardev.Sessions.{
  Operation, open_file, release_file, read_file, write_file, seek_file, control,
}
use linux_device_drivers.Chardev.Exchange.{IsValid}
use linux_device_drivers.Chardev.DramFile.{
  FileCall, opening, releasing, reading, writing, seeking, Answer, serve_all, FileRun,
}
use linux_device_drivers.Chardev.Mailbox
use linux_device_drivers.Chardev.Mailbox.{UserCall, mailbox, unread, serve_all-mailbox}
use linux_device_drivers.Chardev.Parts.{
  Answer as PartsAnswer, answer_all, run_parts, device_at, parts_at,
}
use linux_device_drivers.Chardev.PartsRefinement.{answer_all-run_parts}
use linux_device_drivers.Chardev.DramRefinement.{serve_all_refines}
use linux_device_drivers.Chardev.Memory.{bytes_at, read_all, read_all_reaches}

-- A printer for sizes below ten.
abbrev one_digit : Printer
one_digit = record { print_zu = λ n. (48 + n % 10) ∷ []; length-print_zu = λ n. omega arith }

abbrev closed : State
closed = record { message = []; size_of_message = 0; number_opens = 0 }

abbrev greeted : State
greeted = record {
  message = formatted one_digit (104 ∷ 105 ∷ []) 3;
  size_of_message = length (formatted one_digit (104 ∷ 105 ∷ []) 3);
  number_opens = 0;
}

abbrev counting : ℤ → ℕ → ℕ
counting page indent = indent % 256

read_all_reaches_example : read_all counting 4096 3 4 4092 ≡ (bytes_at counting 4096 4092 4, 4096)
read_all_reaches_example =
    read_all_reaches counting 4096 3 4 4092 (omega arith) refl (omega arith) (omega arith)
      (omega arith) (omega arith)

-- It is opened, and "hi" is written, read back, and a position outside the file sought.
abbrev some_calls : List Operation
some_calls =
    open_file
    ∷ write_file (104 ∷ 105 ∷ []) 2
    ∷ read_file 0 256
    ∷ seek_file (pos 12) 0
    ∷ control rd_value false (pos 0) (pos 1)
    ∷ release_file
    ∷ []

abbrev file_calls : List FileCall
file_calls =
    opening
    ∷ seeking (pos 4090) 0
    ∷ reading 0 10
    ∷ writing (104 ∷ []) 1
    ∷ reading 3 1
    ∷ releasing
    ∷ []

serve_all_refines_example :
    (s' : State) × (at' : ℕ) × (answers : List Answer) × (serve_all one_digit counting 8192
        file_calls
        (record { message = closed; f_pos = pos 0 })
      ≡ some (record { message = s'; f_pos = pos at' }, answers))
    × FileRun counting 8192 0 file_calls answers at'
    × IsValid s'
    × (at' ≤ 8192)
serve_all_refines_example =
    serve_all_refines one_digit counting 8192 file_calls closed 0 (omega arith) refl
      (tt, (omega arith, (omega arith, (omega arith, (omega arith, (tt, tt))))))
      (record { sized = inl refl; fits = omega arith }) (omega arith)

abbrev user_calls : List UserCall
user_calls =
    Mailbox.opening
    ∷ Mailbox.writing (104 ∷ 105 ∷ []) 3
    ∷ Mailbox.reading 2 1
    ∷ Mailbox.reading 0 1
    ∷ Mailbox.releasing
    ∷ []

serve_all-mailbox_example :
    (last : State) × (answers : List Answer) × (Mailbox.serve_all one_digit user_calls closed
      ≡ some (last, answers))
    × (mailbox one_digit user_calls [] ≡ (answers, unread last))
serve_all-mailbox_example =
    serve_all-mailbox one_digit user_calls closed (tt, (omega arith, (tt, (tt, (tt, tt)))))

abbrev fresh_values : Values
fresh_values = record { value = pos 0; value_sent_to_user = pos 9999 }

answer_all-run_parts_example :
    (s' : State) × (at' : ℕ) × (v' : Values) × (answers : List PartsAnswer) × (answer_all one_digit
        10 some_calls
        (device_at closed 0 fresh_values)
      ≡ some (device_at s' at' v', answers))
    × (run_parts one_digit 10 some_calls (parts_at closed 0 fresh_values)
        ≡ (answers, parts_at s' at' v'))
    × (at' ≤ 10)
answer_all-run_parts_example =
    answer_all-run_parts one_digit 10 some_calls closed 0 fresh_values (omega arith)
      (tt, (omega arith, (tt, (omega arith, (tt, (tt, tt)))))) (omega arith)
