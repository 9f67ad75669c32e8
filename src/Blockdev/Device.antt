-- ===== src/Blockdev/Device.antt =====
-- test_blockdev/test_blockdev.c at run time: the request handler and the queue callback. `loff_t`,
-- `sector_t` and `unsigned long` are 64-bit patterns, `unsigned int` is a 32-bit pattern.
use linux_device_drivers.Common.{
  ℕ, ◌+◌, ◌-◌, ◌*◌, ◌%◌, ◌^◌, Bool, ◌&&◌, Option, none, some, List, [], ◌∷◌, ◌++◌, length, drop,
  slice, overwrite, ltb, leb, if◌then◌else◌, ℤ, pos, neg_errno, enotty, is_nonzero,
}

-- `struct block_dev`: the fields that serve requests. `data` is what `kmalloc(capacity << 9)` gave.
pub record BlockDev : Type 0 where
  pub capacity : ℕ
  pub data_bytes : List ℕ

abbrev pub sector_shift : ℕ
sector_shift = 9

-- `loff_t`, `unsigned long`: 64-bit arithmetic.
abbrev pub u64 : ℕ → ℕ
u64 n = n % 2 ^ 64

abbrev pub sub64 : ℕ → ℕ → ℕ
sub64 a b = (a % 2 ^ 64 + 2 ^ 64 - b % 2 ^ 64) % 2 ^ 64

pub data Direction : Type 0 where
  dir_read dir_write : Direction

-- A segment: the bytes of its buffer; `bv_len` is their number.
abbrev pub Segment : Type 0
Segment = List ℕ

-- `struct request`: its first sector, its direction and its segments.
pub record Request : Type 0 where
  pub sector : ℕ
  pub direction : Direction
  pub segments : List Segment

-- The clipping of `b_len`; the comparison converts both sides to `unsigned long`.
unfoldable pub clip : ℕ → ℕ → ℕ → ℕ
clip at b_len dev_size = if ltb (u64 dev_size) (u64 (at + b_len)) then sub64 dev_size at else b_len

-- The two `memcpy` calls of `do_request`. `none`: the copy leaves the device's memory or the
-- segment's buffer.
unfoldable pub transfer : Direction → ℕ → ℕ → List ℕ → Segment → Option (List ℕ × Segment)
transfer dir_write at n bytes seg =
    if leb (at + n) (length bytes) && leb n (length seg)
    then some (overwrite at (slice 0 n seg) bytes, seg)
    else none
transfer dir_read at n bytes seg =
    if leb (at + n) (length bytes) && leb n (length seg)
    then some (bytes, slice at n bytes ++ drop n seg)
    else none

-- The loop `rq_for_each_segment` of `do_request`: the device's memory, the segments' buffers and
-- `*nr_bytes` after it.
unfoldable pub serve_segments :
    Direction → ℕ → List Segment → ℕ → ℕ → List ℕ → Option (List ℕ × List Segment × ℕ)
serve_segments dir dev_size [] at nr_bytes bytes = some (bytes, [], nr_bytes)
serve_segments dir dev_size (seg ∷ segs) at nr_bytes bytes =
    let n = clip at (length seg) dev_size in
    elim (transfer dir at n bytes seg) [
      | none ↦ none
      | some (bytes', seg') ↦
          elim (serve_segments dir dev_size segs (u64 (at + n)) ((nr_bytes + n) % 2 ^ 32) bytes') [
            | none ↦ none
            | some (out, segs', nr') ↦ some (out, seg' ∷ segs', nr')
          ]
    ]

pub record Served : Type 0 where
  pub device : BlockDev
  pub segments_after : List Segment
  pub nr_bytes : ℕ
  pub ret : ℤ

-- The end of `do_request`: it always returns 0.
unfoldable pub finish : BlockDev → Option (List ℕ × List Segment × ℕ) → Option Served
finish dev none = none
finish dev (some (bytes, segs, nr)) = some (record {
  device = record dev { data_bytes = bytes };
  segments_after = segs;
  nr_bytes = nr;
  ret = pos 0;
})

-- `do_request`, with `*nr_bytes` 0 at the call.
unfoldable pub do_request : Request → BlockDev → Option Served
unfolding finish
do_request rq dev =
    let at = u64 (rq.sector * 2 ^ sector_shift) in
    let dev_size = u64 (dev.capacity * 2 ^ sector_shift) in
    finish dev (serve_segments rq.direction dev_size rq.segments at 0 dev.data_bytes)

pub data BlkStatus : Type 0 where
  blk_sts_ok blk_sts_ioerr : BlkStatus

-- How `queue_rq` ends: by returning, by BUG(), or by a copy out of bounds in `do_request`.
pub data Queued : Type 0 where
  ended : BlkStatus → Served → Queued
  bug : Served → Queued
  wild_copy : Queued

-- `queue_rq`; `update` is `blk_update_request`, which says whether the request has bytes left.
unfoldable pub queue_rq : (BlkStatus → ℕ → Bool) → Request → BlockDev → Queued
queue_rq update rq dev = elim (do_request rq dev) [
  | none ↦ wild_copy
  | some s ↦
      let status = if is_nonzero s.ret then blk_sts_ioerr else blk_sts_ok in
      if update status s.nr_bytes then bug s else ended status s
]

-- `blockdev_ioctl` refuses every command.
unfoldable pub blockdev_ioctl : ℕ → ℕ → ℤ
blockdev_ioctl cmd arg = neg_errno enotty

-- `blockdev_open` and `blockdev_release` only log.
unfoldable pub blockdev_open : ℤ
blockdev_open = pos 0

unfoldable pub blockdev_release : BlockDev → BlockDev
blockdev_release dev = dev
