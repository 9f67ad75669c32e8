-- ===== src/Chardev/DramSeek.antt =====
-- Seeking in dram/dram.c, whose arithmetic is of 64 bits, against the seek of a file, whose
-- arithmetic is of numbers.
use native.Mathlib.Decide.{dec_lt}
use linux_device_drivers.Common.{
  ℕ, zero, suc, ◌+◌, ◌%◌, ◌^◌, ◌≤◌, ◌<◌, ◌≡◌, refl, ◌∙◌, false, ◌||◌, arith, ltb, ℤ, pos, negsuc,
  ◌+ℤ◌, is_negative, neg_errno, einval,
}
use linux_device_drivers.Chardev.Ioctl.{seek_target, settle, signed64, pattern64, add_loff}
use linux_device_drivers.Chardev.Dram.{dev_lseek}
use linux_device_drivers.Chardev.Seek.{IsLoff}
use linux_device_drivers.Chardev.DramFile.{sought, moved_to}

-- The end of a seek, by its target.
abbrev settled : ℕ → ℕ → ℤ → ℤ × ℤ
settled size at newpos = settle (pos at) newpos (is_negative newpos || ltb size (pattern64 newpos))

abbrev pub landed : ℕ × ℤ → ℤ × ℤ
landed (to, ret) = (pos to, ret)

settled_plain :
    (size at : ℕ) (newpos : ℤ)
    → size < 2 ^ 43
    → IsLoff newpos
    → settled size at newpos ≡ landed (moved_to size at newpos)
unfolding settle
settled_plain size at (pos n) s l = ground arith
settled_plain size at (negsuc n) s l = refl

-- A sum that is a `loff_t` is computed as it is.
add_loff_exact :
    (base : ℕ) (offset : ℤ)
    → base < 2 ^ 43
    → IsLoff offset
    → IsLoff (pos base +ℤ offset)
    → add_loff (pos base) offset ≡ pos base +ℤ offset
add_loff_exact base (pos n) s l k = ground arith
add_loff_exact base (negsuc n) s l k = ground arith

settled_overflow :
    (size at base n : ℕ)
    → size < 2 ^ 43
    → base ≤ size
    → n < 2 ^ 63
    → 2 ^ 63 ≤ base + n
    → settled size at (add_loff (pos base) (pos n)) ≡ (pos at, neg_errno einval)
unfolding settle
settled_overflow size at base n s b l k =
    let sum : (base % 2 ^ 64 + n % 2 ^ 64) % 2 ^ 64 ≡ base + n = omega arith in
    let wraps : ltb (base + n) (2 ^ 63) ≡ false = ground arith in rw (sum, wraps) refl

settled_sum :
    (size at base : ℕ) (offset : ℤ)
    → size < 2 ^ 43
    → base ≤ size
    → IsLoff offset
    → settled size at (add_loff (pos base) offset) ≡ landed (moved_to size at (pos base +ℤ offset))
settled_sum size at base (pos n) s b l = elim (dec_lt (base + n) (2 ^ 63)) [
  | yes p ↦
      let k : IsLoff (pos base +ℤ pos n) = ground arith in
      rw (add_loff_exact base (pos n) (omega arith) l k)
        (settled_plain size at (pos base +ℤ pos n) s k)
  | no p ↦ settled_overflow size at base n s b l (omega arith) ∙ ground arith
]
settled_sum size at base (negsuc n) s b l =
    let k : IsLoff (pos base +ℤ negsuc n) = ground arith in
    rw (add_loff_exact base (negsuc n) (omega arith) l k)
      (settled_plain size at (pos base +ℤ negsuc n) s k)

-- A seek of the driver from a position inside the memory moves as in a file.
pub lseek_lem :
    (size at : ℕ) (offset : ℤ) (whence : ℕ)
    → size < 2 ^ 43
    → at ≤ size
    → IsLoff offset
    → dev_lseek (pos at) size offset whence
      ≡ landed (moved_to size at (sought size at offset whence))
unfolding dev_lseek seek_target
lseek_lem size at offset zero s h l = settled_plain size at offset s l
lseek_lem size at offset (suc zero) s h l = settled_sum size at at offset s h l
lseek_lem size at offset (suc (suc zero)) s h l =
    let plain : signed64 size ≡ pos size = ground arith in
    rw plain (settled_sum size at size offset s (omega arith) l)
lseek_lem size at offset (suc (suc (suc n))) s h l =
    settled_plain size at (negsuc 0) s (omega arith)

-- The position after a seek is inside the file.
pub moved_inside : (size at : ℕ) (to : ℤ) → at ≤ size → (moved_to size at to).0 ≤ size
moved_inside size at (pos n) h = ground arith
moved_inside size at (negsuc n) h = h
