-- ===== src/Blockdev/Faults.antt =====
-- Requests of test_blockdev/test_blockdev.c at and past the end of the device, and how the queue
-- callback ends for every request.
use linux_device_drivers.Common.{
  ℕ, ◌+◌, ◌-◌, ◌*◌, ◌^◌, ◌≤◌, ◌<◌, min, ◌≡◌, refl, ap, ◌∙◌, Bool, none, some, List, ◌∷◌, arith,
  length, concat, ltb, if◌then◌else◌, pos,
}
use linux_device_drivers.Blockdev.Device.{
  BlockDev, u64, Direction, dir_read, dir_write, Segment, Request, clip, transfer, serve_segments,
  Served, do_request, BlkStatus, blk_sts_ok, ended, bug, queue_rq,
}
use linux_device_drivers.Blockdev.Requests.{
  IsDevice, IsRequest, moved, do_request_write, do_request_read,
}

-- Past the end `dev_size - pos` is negative, and as an `unsigned long` it is larger than the device.
clip_past :
    (at b_len dev_size : ℕ)
    → dev_size < at
    → at < 2 ^ 63
    → b_len < 2 ^ 63
    → clip at b_len dev_size ≡ 2 ^ 64 - (at - dev_size)
unfolding clip
clip_past at b_len dev_size h k l = ground arith

transfer_past :
    (dir : Direction) (at n : ℕ) (bytes : List ℕ) (seg : Segment)
    → length bytes < at + n
    → transfer dir at n bytes seg ≡ none
unfolding transfer
transfer_past dir_read at n bytes seg h = ground arith
transfer_past dir_write at n bytes seg h = ground arith

serve_past :
    (dir : Direction) (dev_size at nr : ℕ) (bytes : List ℕ) (seg : Segment) (segs : List Segment)
    → length bytes ≡ dev_size
    → dev_size < at
    → at < 2 ^ 63
    → length seg < 2 ^ 63
    → serve_segments dir dev_size (seg ∷ segs) at nr bytes ≡ none
unfolding serve_segments
serve_past dir dev_size at nr bytes seg segs e h k l = rw (
  transfer_past dir at (clip at (length seg) dev_size) bytes seg
      (omega (arith, clip_past at (length seg) dev_size h k l)),
  serve_segments,
)

-- A request whose first segment starts behind the end of the device: the length that is copied is
-- clipped to the distance from there back to the end, a negative number, which as the `size_t` that
-- `memcpy` takes is 2^64 less that distance, whatever the length of the segment; and the request is
-- not served, since that copy is out of bounds.
pub do_request_past_end :
    (dir : Direction) (sector : ℕ) (seg : Segment) (segs : List Segment) (dev : BlockDev)
    → IsDevice dev
    → dev.capacity < sector
    → sector * 512 < 2 ^ 63
    → length seg < 2 ^ 63
    → (clip (sector * 512) (length seg) (dev.capacity * 512)
        ≡ 2 ^ 64 - (sector * 512 - dev.capacity * 512))
      × (do_request (record { sector = sector; direction = dir; segments = seg ∷ segs }) dev ≡ none)
unfolding do_request
do_request_past_end dir sector seg segs dev d h k l =
    let p : u64 (sector * 512) ≡ sector * 512 = omega arith in
    let q : u64 (dev.capacity * 512) ≡ dev.capacity * 512 = omega arith in
    (
      clip_past (sector * 512) (length seg) (dev.capacity * 512) (omega arith) k l,
      rw (
        p,
        q,
        serve_past dir (dev.capacity * 512) (sector * 512) 0 dev.data_bytes seg segs d.sized
            (omega arith) k l,
      ),
    )

-- What the block layer documents of `blk_update_request`: it is true while bytes are left.
abbrev pub Updates : (BlkStatus → ℕ → Bool) → ℕ → Type 0
Updates update total = (st : BlkStatus) (n : ℕ) → update st n ≡ ltb n total

queue_served :
    (update : BlkStatus → ℕ → Bool) (rq : Request) (dev : BlockDev) (s : Served)
    → do_request rq dev ≡ some s
    → s.ret ≡ pos 0
    → queue_rq update rq dev ≡ (if update blk_sts_ok s.nr_bytes then bug s else ended blk_sts_ok s)
unfolding queue_rq
queue_served update rq dev s e r = ground arith

overruns :
    (size at total : ℕ) → at ≤ size → ltb (min total (size - at)) total ≡ ltb size (at + total)
overruns size at total h = ground arith

abbrev pub request : Direction → ℕ → List Segment → Request
request dir sector segs = record { sector = sector; direction = dir; segments = segs }

-- How the queue callback ends a request that `do_request` has served this way.
pub queue_end :
    (update : BlkStatus → ℕ → Bool) (dir : Direction) (sector : ℕ) (segs : List Segment)
    (dev : BlockDev) (s : Served)
    → Updates update (length (concat segs))
    → sector ≤ dev.capacity
    → do_request (request dir sector segs) dev ≡ some s
    → s.ret ≡ pos 0
    → s.nr_bytes ≡ moved dev sector segs
    → queue_rq update (request dir sector segs) dev ≡ (
        if ltb (dev.capacity * 512) (sector * 512 + length (concat segs))
        then bug s
        else ended blk_sts_ok s)
queue_end update dir sector segs dev s u h e r n =
    queue_served update (request dir sector segs) dev s e r
    ∙ ap (λ b. if b then bug s else ended blk_sts_ok s)
        (u blk_sts_ok s.nr_bytes
          ∙ ap (λ m. ltb m (length (concat segs))) n
          ∙ overruns (dev.capacity * 512) (sector * 512) (length (concat segs)) (omega arith))

-- The queue callback, for a request of either direction that starts within the device: it serves the
-- request, ends it with success if it also ends within the device, and otherwise, having served only
-- a part, runs into BUG().
pub queue_rq_lem :
    (update : BlkStatus → ℕ → Bool) (dir : Direction) (sector : ℕ) (segs : List Segment)
    (dev : BlockDev)
    → Updates update (length (concat segs))
    → IsDevice dev
    → IsRequest dev sector segs
    → (s : Served) × (do_request (request dir sector segs) dev ≡ some s)
      × (queue_rq update (request dir sector segs) dev ≡ (
          if ltb (dev.capacity * 512) (sector * 512 + length (concat segs))
          then bug s
          else ended blk_sts_ok s))
queue_rq_lem update dir_write sector segs dev u d r =
    let run = do_request_write sector segs dev d r in
    (_, run, queue_end update dir_write sector segs dev _ u r.starts_within run refl refl)
queue_rq_lem update dir_read sector segs dev u d r =
    let (filled, run, eq) = do_request_read sector segs dev d r in
    (_, run, queue_end update dir_read sector segs dev _ u r.starts_within run refl refl)
