-- ===== src/Chardev/Memory.antt =====
-- Reading physical memory through dram/dram.c.
use native.Mathlib.Decide.{dec_lt}
use linux_device_drivers.Common.{
  ℕ, zero, suc, ◌+◌, ◌-◌, ◌*◌, ◌/◌, ◌%◌, ◌^◌, ◌≤◌, ◌<◌, min, ◌≡◌, ◌≢◌, refl, ap, ◌∙◌, List, [], ◌∷◌,
  ◌++◌, arith, leb, if◌then◌else◌, ℤ, pos, neg_errno, efault, signed32,
}
use linux_device_drivers.Chardev.Dram.{mapped_bytes, clip_count, finish_read, dev_read}

-- The byte of memory at a physical address, read through its page.
abbrev pub byte_at : (ℤ → ℕ → ℕ) → ℕ → ℕ → ℕ
byte_at memory page_size addr = memory (pos (addr / page_size)) (addr % page_size)

-- `count` bytes from a physical address on.
abbrev pub bytes_at : (ℤ → ℕ → ℕ) → ℕ → ℕ → ℕ → List ℕ
bytes_at memory page_size addr zero = []
bytes_at memory page_size addr (suc count) =
    byte_at memory page_size addr ∷ bytes_at memory page_size (addr + 1) count

-- Within a page, mapped bytes are memory bytes. The page size is 4096.
mapped_bytes_lem :
    (memory : ℤ → ℕ → ℕ) (addr count page indent : ℕ)
    → addr ≡ page * 4096 + indent
    → indent + count ≤ 4096
    → mapped_bytes memory (pos page) indent count ≡ bytes_at memory 4096 addr count
unfolding mapped_bytes
mapped_bytes_lem memory addr zero page indent e h = refl
mapped_bytes_lem memory addr (suc count) page indent e h =
    let p : addr / 4096 ≡ page = omega arith in
    let i : addr % 4096 ≡ indent = omega arith in
    rw
      (p, i, mapped_bytes_lem memory (addr + 1) count page (indent + 1) (omega arith) (omega arith))

clip_count_lem :
    (indent count : ℕ)
    → indent < 4096
    → count < 2 ^ 63
    → clip_count 4096 indent count ≡ min count (4096 - indent)
unfolding clip_count
clip_count_lem indent count h k = ground arith

page_number : (at : ℕ) → at < 2 ^ 43 → signed32 (at / 4096 % 2 ^ 32) ≡ pos (at / 4096)
page_number at h = ground arith

-- A read at a position below 2^43 whose copy succeeds: at the end of the memory it returns 0 and
-- moves nothing; before it, it returns the number of bytes asked for or left in the page,
-- whichever is less, gives exactly the memory's bytes from the position on, and advances the
-- position by that number.
pub dev_read_lem :
    (memory : ℤ → ℕ → ℕ) (dram_size count at : ℕ)
    → at < 2 ^ 43
    → count < 2 ^ 63
    → let n = min count (4096 - at % 4096) in
      dev_read memory 4096 dram_size 0 count at
      ≡ (if leb dram_size at then ([], at, pos 0) else (bytes_at memory 4096 at n, at + n, pos n))
unfolding dev_read finish_read
dev_read_lem memory dram_size count at h k =
    let n : ℕ = min count (4096 - at % 4096) in
    ground (
      arith,
      clip_count_lem (at % 4096) count,
      page_number at,
      mapped_bytes_lem memory at n (at / 4096) (at % 4096) (omega arith) (omega arith),
    )

-- A read inside the memory.
pub read_inside :
    (memory : ℤ → ℕ → ℕ) (dram_size count at : ℕ)
    → at < 2 ^ 43
    → count < 2 ^ 63
    → at < dram_size
    → let n = min count (4096 - at % 4096) in
      dev_read memory 4096 dram_size 0 count at ≡ (bytes_at memory 4096 at n, at + n, pos n)
read_inside memory dram_size count at h k p =
    ground (arith, dev_read_lem memory dram_size count at h k)

read_end :
    (memory : ℤ → ℕ → ℕ) (dram_size count at : ℕ)
    → at < 2 ^ 43
    → count < 2 ^ 63
    → dram_size ≤ at
    → dev_read memory 4096 dram_size 0 count at ≡ ([], at, pos 0)
read_end memory dram_size count at h k p =
    ground (arith, dev_read_lem memory dram_size count at h k)

-- Behind the end a read gives nothing, whatever the copy would do.
pub read_past :
    (memory : ℤ → ℕ → ℕ) (dram_size more count at : ℕ)
    → dram_size ≤ at
    → dev_read memory 4096 dram_size more count at ≡ ([], at, pos 0)
unfolding dev_read
read_past memory dram_size more count at h = ground arith

-- A copy that fails returns -EFAULT, gives nothing and moves nothing.
pub dev_read_fails :
    (memory : ℤ → ℕ → ℕ) (dram_size more count at : ℕ)
    → more ≢ 0
    → at < dram_size
    → dev_read memory 4096 dram_size more count at ≡ ([], at, neg_errno efault)
unfolding dev_read finish_read
dev_read_fails memory dram_size more count at h k = ground arith

-- `reads` reads in a row of `count` bytes each, every copy succeeding: the bytes and the position.
unfoldable pub read_all : (ℤ → ℕ → ℕ) → ℕ → ℕ → ℕ → ℕ → List ℕ × ℕ
read_all memory dram_size count zero at = ([], at)
read_all memory dram_size count (suc reads) at =
    let (bytes, at', ret) = dev_read memory 4096 dram_size 0 count at in
    let (rest, last) = read_all memory dram_size count reads at' in (bytes ++ rest, last)

bytes_at-append :
    (memory : ℤ → ℕ → ℕ) (addr m n next : ℕ)
    → next ≡ addr + m
    → bytes_at memory 4096 addr m ++ bytes_at memory 4096 next n ≡ bytes_at memory 4096 addr (m + n)
bytes_at-append memory addr zero n next e =
    let p : next ≡ addr = omega arith in let q : 0 + n ≡ n = omega arith in rw (p, q)
bytes_at-append memory addr (suc m) n next e =
    let q : suc m + n ≡ suc (m + n) = omega arith in
    rw q (
      ap (λ l. byte_at memory 4096 addr ∷ l)
        (bytes_at-append memory (addr + 1) m n next (omega arith)))

-- Reading on and on, with copies that succeed and a positive count, gives the memory's bytes in
-- order without a gap, never goes past the end of a memory of whole pages, and with as many reads
-- as there are bytes left reaches the end.
pub read_all_lem :
    (memory : ℤ → ℕ → ℕ) (dram_size count reads at : ℕ)
    → dram_size < 2 ^ 43
    → dram_size % 4096 ≡ 0
    → 0 < count
    → count < 2 ^ 63
    → at ≤ dram_size
    → let (bytes, last) = read_all memory dram_size count reads at in
      (bytes ≡ bytes_at memory 4096 at (last - at))
      × (at ≤ last)
      × (last ≤ dram_size)
      × (dram_size ≤ at + reads → last ≡ dram_size)
unfolding read_all
read_all_lem memory dram_size count zero at a b c d h =
    let z : at - at ≡ 0 = omega arith in (rw z, omega arith, h, λ e. omega arith)
read_all_lem memory dram_size count (suc reads) at a b c d h = elim (dec_lt at dram_size) [
  | yes p ↦
      let k : ℕ = min count (4096 - at % 4096) in
      let (same, lo, hi, done) =
        read_all_lem memory dram_size count reads (at + k) a b c d (omega arith) in
      let last : ℕ = (read_all memory dram_size count reads (at + k)).1 in
      let whole : k + (last - (at + k)) ≡ last - at = omega arith in
      rw (read_inside memory dram_size count at (omega arith) d p) (
        ap (λ l. bytes_at memory 4096 at k ++ l) same
            ∙ bytes_at-append memory at k (last - (at + k)) (at + k) refl
            ∙ ap (bytes_at memory 4096 at) whole,
        omega arith,
        hi,
        λ e. done (omega arith),
      )
  | no p ↦ rw (read_end memory dram_size count at (omega arith) d (omega arith)) (
      let (same, lo, hi, done) = read_all_lem memory dram_size count reads at a b c d h in
      (same, lo, hi, λ e. omega arith))
]

-- From any position inside a memory of whole pages, as many reads as there are bytes left, with a
-- positive count and copies that succeed, give exactly those bytes, in order, and end at the end.
pub read_all_reaches :
    (memory : ℤ → ℕ → ℕ) (dram_size count reads at : ℕ)
    → dram_size < 2 ^ 43
    → dram_size % 4096 ≡ 0
    → 0 < count
    → count < 2 ^ 63
    → at ≤ dram_size
    → dram_size ≤ at + reads
    → read_all memory dram_size count reads at
      ≡ (bytes_at memory 4096 at (dram_size - at), dram_size)
read_all_reaches memory dram_size count reads at a b c d h enough =
    let (same, lo, hi, done) = read_all_lem memory dram_size count reads at a b c d h in
    ap (λ b. (b, (read_all memory dram_size count reads at).1)) same
    ∙ ap (λ l. (bytes_at memory 4096 at (l - at), l)) (done enough)
