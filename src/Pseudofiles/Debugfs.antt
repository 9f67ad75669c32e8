-- ===== src/Pseudofiles/Debugfs.antt =====
-- debugfs_file/debugfs_file.c: the file's operations and the module's setup. The kernel's
-- simple_read_from_buffer is a parameter.
use linux_device_drivers.Common.{
  ℕ, zero, suc, ◌+◌, ◌≡◌, refl, ◌∙◌, Bool, not, Option, none, some, List, [], ◌∷◌, ◌++◌, length,
  take, drop, take-add, drop-drop, length-append, sym, arith, if◌then◌else◌, ℤ, pos, neg_errno,
  efault, eio,
}

-- `struct pks_test_ctx`, as far as the file reads it, and the file's `private_data`.
pub record Context : Type 0 where
  pub pass : Bool

abbrev pub not_run : List ℕ
not_run = 110 ∷ 111 ∷ 116 ∷ 32 ∷ 114 ∷ 117 ∷ 110 ∷ 10 ∷ []

abbrev pub pass_text : List ℕ
pass_text = 80 ∷ 65 ∷ 83 ∷ 83 ∷ 10 ∷ []

abbrev pub fail_text : List ℕ
fail_text = 70 ∷ 65 ∷ 73 ∷ 76 ∷ 10 ∷ []

-- What simple_read_from_buffer documents, for copies that succeed: from `count`, the position and
-- the buffer, the bytes for the user, the new position and the result.
pub record Reader : Type 0 where
  pub simple_read : ℕ → ℕ → List ℕ → List ℕ × ℕ × ℤ
  pub simple_read_lem :
      (count at : ℕ) (buffer : List ℕ)
      → let bytes = take count (drop at buffer) in
        simple_read count at buffer ≡ (bytes, at + length bytes, pos (length bytes))

-- The text that a context gives.
abbrev pub verdict : Option Context → List ℕ
verdict none = not_run
verdict (some ctx) = if ctx.pass then pass_text else fail_text

-- `pks_read_file`.
unfoldable pub pks_read_file : Reader → Option Context → ℕ → ℕ → List ℕ × ℕ × ℤ
pks_read_file r private_data count at = r.simple_read count at (verdict private_data)

-- `pks_write_file`, by whether the copy of one byte fails; the byte is not used.
unfoldable pub pks_write_file : Bool → ℕ → ℤ
pks_write_file fails count = if fails then neg_errno efault else pos count

pub data Call : Type 0 where
  kfree : Call
  debugfs_create_dir debugfs_create_file : Bool → Call
  debugfs_remove_recursive : Call

-- `pks_release_file`: a context is not freed; the statements behind the first `return` are never
-- reached.
unfoldable pub pks_release_file : Option Context → List Call × ℤ
pks_release_file none = ([], pos 0)
pks_release_file (some ctx) = ([], pos 0)

-- `pks_test_init`, by whether the directory and the file can be made: a file that cannot be made is
-- only logged.
unfoldable pub pks_test_init : Bool → Bool → List Call × ℤ
pks_test_init dir_made file_made =
    if not dir_made
    then (debugfs_create_dir dir_made ∷ [], neg_errno eio)
    else (debugfs_create_dir dir_made ∷ debugfs_create_file file_made ∷ [], pos 0)

unfoldable pub pks_test_exit : List Call
pks_test_exit = debugfs_remove_recursive ∷ []

-- Reads in a row, one for each count, from a position: their bytes put together and the last position.
unfoldable pub read_file : Reader → Option Context → List ℕ → ℕ → List ℕ × ℕ
read_file r private_data [] at = ([], at)
read_file r private_data (count ∷ counts) at =
    let (bytes, at', ret) = pks_read_file r private_data count at in
    let (rest, last) = read_file r private_data counts at' in (bytes ++ rest, last)

abbrev pub total : List ℕ → ℕ
total [] = 0
total (count ∷ counts) = count + total counts

drop-length-take {ℓ} : {A : Type ℓ} (n : ℕ) (xs : List A) → drop (length (take n xs)) xs ≡ drop n xs
drop-length-take zero xs = refl
drop-length-take (suc n) [] = refl
drop-length-take (suc n) (x ∷ xs) = drop-length-take n xs

-- Reads of any counts from any position give the text from there on, as much of it as the counts
-- ask for together, without a gap or a repetition: "PASS" or "FAIL" for a context, "not run" without.
pub read_file_lem :
    (r : Reader) (private_data : Option Context) (counts : List ℕ) (at : ℕ)
    → read_file r private_data counts at ≡ (
        let bytes = take (total counts) (drop at (verdict private_data)) in
        (bytes, at + length bytes))
unfolding read_file pks_read_file
read_file_lem r private_data [] at = let e : at + 0 ≡ at = omega arith in rw e refl
read_file_lem r private_data (count ∷ counts) at =
    let text = verdict private_data in
    let bytes = take count (drop at text) in
    let rest = take (total counts) (drop count (drop at text)) in
    let moved : drop (at + length bytes) text ≡ drop count (drop at text) =
      sym (drop-drop at (length bytes) text) ∙ drop-length-take count (drop at text) in
    let whole = take-add count (total counts) (drop at text) in
    let e : at + length bytes + length rest ≡ at + length (bytes ++ rest) =
      omega (arith, length-append bytes rest) in
    rw (r.simple_read_lem count at text)
      (rw (read_file_lem r private_data counts (at + length bytes), moved, e, whole) refl)
