-- ===== src/Chardev/Seek.antt =====
-- Seeking in ioctl/ioctl.c and dram/dram.c.
use linux_device_drivers.Common.{
  ℕ, zero, suc, ◌^◌, ◌≤◌, ◌<◌, ◌≡◌, refl, ◌⊎◌, inl, inr, Bool, true, false, ◌||◌, arith, ltb,
  if◌then◌else◌, ℤ, pos, negsuc, is_negative, neg_errno, einval, ltb_ℤ,
}
use linux_device_drivers.Chardev.Ioctl
use linux_device_drivers.Chardev.Ioctl.{seek_target, settle, signed64, pattern64}
use linux_device_drivers.Chardev.Dram

-- A position inside a file of this size.
abbrev pub IsInside : ℤ → ℕ → Type 0
IsInside (pos n) size = n ≤ size
IsInside (negsuc n) size = ⊥

settle-IsInside :
    (f_pos newpos : ℤ) (size : ℕ) (outside : Bool)
    → (outside ≡ false → IsInside newpos size)
    → IsInside f_pos size
    → IsInside (settle f_pos newpos outside).0 size
      × (((settle f_pos newpos outside).1 ≡ (settle f_pos newpos outside).0)
          ⊎ (((settle f_pos newpos outside).1 ≡ neg_errno einval)
              × ((settle f_pos newpos outside).0 ≡ f_pos)))
unfolding settle
settle-IsInside f_pos newpos size true h k = (k, inr (refl, refl))
settle-IsInside f_pos newpos size false h k = (h refl, inl refl)

within :
    (newpos : ℤ) (size : ℕ)
    → (is_negative newpos || ltb_ℤ (pos size) newpos) ≡ false
    → IsInside newpos size
within (pos n) size h = ground arith
within (negsuc n) size h = ground arith

-- Whatever the offset and `whence`, a position of ioctl/ioctl.c inside the file stays inside; the
-- result is the new position, or it is -EINVAL and the position has not moved.
pub dev_lseek-IsInside :
    (f_pos : ℤ) (size : ℕ) (offset : ℤ) (whence : ℕ)
    → IsInside f_pos size
    → let (f_pos', ret) = Ioctl.dev_lseek f_pos (pos size) offset whence in
      IsInside f_pos' size × ((ret ≡ f_pos') ⊎ ((ret ≡ neg_errno einval) × (f_pos' ≡ f_pos)))
unfolding Ioctl.dev_lseek
dev_lseek-IsInside f_pos size offset whence h =
    let newpos = seek_target f_pos (pos size) offset whence in
    settle-IsInside f_pos newpos size _ (within newpos size) h

-- A seek from the start to an offset that is not negative succeeds exactly for the offsets up to the
-- size, and moves there; to a negative offset it fails.
pub dev_lseek_set :
    (f_pos : ℤ) (size offset : ℕ)
    → (Ioctl.dev_lseek f_pos (pos size) (pos offset) 0
        ≡ (if ltb size offset then (f_pos, neg_errno einval) else (pos offset, pos offset)))
      × (Ioctl.dev_lseek f_pos (pos size) (negsuc offset) 0 ≡ (f_pos, neg_errno einval))
unfolding Ioctl.dev_lseek Ioctl.seek_target settle
dev_lseek_set f_pos size offset = (ground arith, refl)

-- A `loff_t`.
abbrev pub IsLoff : ℤ → Type 0
IsLoff (pos n) = n < 2 ^ 63
IsLoff (negsuc n) = n < 2 ^ 63

signed64-IsLoff : (w : ℕ) → w < 2 ^ 64 → IsLoff (signed64 w)
signed64-IsLoff w h = ground arith

-- Where a seek leads is a `loff_t`.
pub seek_target-IsLoff :
    (f_pos i_size offset : ℤ) (whence : ℕ)
    → IsLoff offset
    → IsLoff (seek_target f_pos i_size offset whence)
unfolding seek_target
seek_target-IsLoff f_pos i_size offset zero h = h
seek_target-IsLoff f_pos i_size offset (suc zero) h = signed64-IsLoff _ (omega arith)
seek_target-IsLoff f_pos i_size offset (suc (suc zero)) h = signed64-IsLoff _ (omega arith)
seek_target-IsLoff f_pos i_size offset (suc (suc (suc n))) h = omega arith

within_memory :
    (newpos : ℤ) (size : ℕ)
    → IsLoff newpos
    → (is_negative newpos || ltb size (pattern64 newpos)) ≡ false
    → IsInside newpos size
within_memory (pos n) size l h = ground arith
within_memory (negsuc n) size l h = ground arith

-- The same of dram/dram.c: for any `loff_t` offset and any `whence`, seeking keeps a position inside
-- the memory inside it, and returns the new position, or -EINVAL with the position not moved.
pub dram_lseek-IsInside :
    (f_pos : ℤ) (dram_size : ℕ) (offset : ℤ) (whence : ℕ)
    → IsLoff offset
    → IsInside f_pos dram_size
    → let (f_pos', ret) = Dram.dev_lseek f_pos dram_size offset whence in
      IsInside f_pos' dram_size × ((ret ≡ f_pos') ⊎ ((ret ≡ neg_errno einval) × (f_pos' ≡ f_pos)))
unfolding Dram.dev_lseek
dram_lseek-IsInside f_pos dram_size offset whence l h =
    let newpos = seek_target f_pos (signed64 dram_size) offset whence in
    settle-IsInside f_pos newpos dram_size _
      (within_memory newpos dram_size
        (seek_target-IsLoff f_pos (signed64 dram_size) offset whence l))
      h
