-- ===== src/Blockdev/Queue.antt =====
-- What the queue callback of test_blockdev/test_blockdev.c does with request after request, against
-- the operations on the abstract device.
use mathlib.Core.List.{map}
use mathlib.Core.Path.{ap₂}
use linux_device_drivers.Common.{
  ℕ, ◌+◌, ◌-◌, ◌*◌, ◌≤◌, ◌≡◌, refl, ap, sym, ◌∙◌, Bool, false, Option, none, some, List, [], ◌∷◌,
  ◌++◌, append-nil, pos, arith, length, drop, drop_all, take_all, slice, overwrite, concat,
  get_elem?, length-overwrite, ltb, if◌then◌else◌,
}
use linux_device_drivers.Blockdev.Device.{
  BlockDev, Direction, dir_read, dir_write, Segment, Request, Served, BlkStatus, blk_sts_ok,
  blk_sts_ioerr, ended, do_request, bug, wild_copy, Queued, queue_rq,
}
use linux_device_drivers.Blockdev.Requests.{
  IsDevice, IsRequest, moved, do_request_write, do_request_read,
}
use linux_device_drivers.Blockdev.Faults.{Updates, request, queue_end}
use linux_device_drivers.Blockdev.Disk.{
  Disk, contents, look, disk_step, run_disk, look-slice, put_bytes-overwrite,
}

-- What the abstract device is asked for: requests that start and end within it.
abbrev pub Fits : BlockDev → Request → Type 0
Fits dev rq =
    IsRequest dev rq.sector rq.segments
    × (rq.sector * 512 + length (concat rq.segments) ≤ dev.capacity * 512)

-- What the queue callback owes to the abstract device for one request.
abbrev pub Implements : (BlkStatus → ℕ → Bool) → Request → BlockDev → Type 0
Implements update rq dev =
    let (answer, disk) = disk_step rq (contents dev) in
    (s : Served) × (queue_rq update rq dev ≡ ended blk_sts_ok s)
    × IsDevice s.device
    × (s.device.capacity ≡ dev.capacity)
    × (map some (concat s.segments_after) ≡ answer)
    × (contents s.device ≡ disk)

queue-Fits :
    (update : BlkStatus → ℕ → Bool) (dir : Direction) (sector : ℕ) (segs : List Segment)
    (dev : BlockDev) (s : Served)
    → Updates update (length (concat segs))
    → Fits dev (request dir sector segs)
    → do_request (request dir sector segs) dev ≡ some s
    → s.ret ≡ pos 0
    → s.nr_bytes ≡ moved dev sector segs
    → queue_rq update (request dir sector segs) dev ≡ ended blk_sts_ok s
queue-Fits update dir sector segs dev s u (r, fits) run ret n =
    let e : ltb (dev.capacity * 512) (sector * 512 + length (concat segs)) ≡ false = ground arith in
    queue_end update dir sector segs dev s u r.starts_within run ret n
    ∙ ap (λ b. if b then bug s else ended blk_sts_ok s) e

read_fits :
    (at n m size : ℕ) (old bytes filled : List ℕ)
    → filled ≡ slice at m bytes ++ drop m old
    → n ≡ length old
    → m ≡ n
    → at + n ≤ length bytes
    → map some filled ≡ look at n (get_elem? bytes)
read_fits at n m size old bytes filled eq e f h =
    rw (eq, f, drop_all n old (omega arith), append-nil (slice at n bytes))
      (sym (look-slice n at bytes h))

queue-Implements :
    (update : BlkStatus → ℕ → Bool) (dir : Direction) (sector : ℕ) (segs : List Segment)
    (dev : BlockDev)
    → Updates update (length (concat segs))
    → IsDevice dev
    → Fits dev (request dir sector segs)
    → Implements update (request dir sector segs) dev
queue-Implements update dir_write sector segs dev u d (r, fits) =
    let run = do_request_write sector segs dev d r in
    let all = take_all (dev.capacity * 512 - sector * 512) (concat segs) (omega arith) in
    (
      _,
      queue-Fits update dir_write sector segs dev _ u (r, fits) run refl refl,
      record {
        sized = length-overwrite (sector * 512) _ dev.data_bytes ∙ d.sized;
        representable = d.representable;
      },
      refl,
      refl,
      ap (λ l. get_elem? (overwrite (sector * 512) l dev.data_bytes)) all
          ∙ put_bytes-overwrite (sector * 512) (concat segs) dev.data_bytes
              (omega (arith, d.sized)),
    )
queue-Implements update dir_read sector segs dev u d (r, fits) =
    let (filled, run, eq) = do_request_read sector segs dev d r in
    (
      _,
      queue-Fits update dir_read sector segs dev _ u (r, fits) run refl refl,
      d,
      refl,
      read_fits (sector * 512) (length (concat segs)) (moved dev sector segs) dev.capacity
          (concat segs) dev.data_bytes (concat filled) eq refl (omega arith)
          (omega (arith, d.sized)),
      refl,
    )

-- The queue's requests, served one after the other: what the segments of each hold at its end, and
-- the device then; `none`, as soon as one does not end with success.
abbrev pub serve_next : Queued → Option Served
serve_next (ended blk_sts_ok s) = some s
serve_next (ended blk_sts_ioerr s) = none
serve_next (bug s) = none
serve_next wild_copy = none

abbrev pub serve_queue :
    (Request → BlkStatus → ℕ → Bool) → List Request → BlockDev → Option (List (List ℕ) × BlockDev)
serve_queue update [] dev = some ([], dev)
serve_queue update (rq ∷ rqs) dev = elim (serve_next (queue_rq (update rq) rq dev)) [
  | none ↦ none
  | some s ↦ elim (serve_queue update rqs s.device) [
    | none ↦ none
    | some (held, last) ↦ some (concat s.segments_after ∷ held, last)
  ]
]

abbrev pub AllFit : BlockDev → List Request → Type 0
AllFit dev [] = Unit
AllFit dev (rq ∷ rqs) = Fits dev rq × AllFit dev rqs

Fits-capacity :
    (dev dev' : BlockDev) (rq : Request) → dev'.capacity ≡ dev.capacity → Fits dev rq → Fits dev' rq
Fits-capacity dev dev' rq e (r, fits) = (
  record {
    starts_within = omega (arith, r.starts_within);
    segments_small = r.segments_small;
    total_small = r.total_small;
  },
  omega (arith, fits),
)

AllFit-capacity :
    (dev dev' : BlockDev) (rqs : List Request)
    → dev'.capacity ≡ dev.capacity
    → AllFit dev rqs
    → AllFit dev' rqs
AllFit-capacity dev dev' [] e h = h
AllFit-capacity dev dev' (rq ∷ rqs) e (h, others) =
    (Fits-capacity dev dev' rq e h, AllFit-capacity dev dev' rqs e others)

serve_cons :
    (update : Request → BlkStatus → ℕ → Bool) (rq : Request) (rqs : List Request)
    (dev last : BlockDev) (s : Served) (held : List (List ℕ))
    → queue_rq (update rq) rq dev ≡ ended blk_sts_ok s
    → serve_queue update rqs s.device ≡ some (held, last)
    → serve_queue update (rq ∷ rqs) dev ≡ some (concat s.segments_after ∷ held, last)
serve_cons update rq rqs dev last s held e f = ground arith

run_cons :
    (rq : Request) (rqs : List Request) (disk disk' last : Disk) (answer : List (Option ℕ))
    (answers : List (List (Option ℕ)))
    → disk_step rq disk ≡ (answer, disk')
    → run_disk rqs disk' ≡ (answers, last)
    → run_disk (rq ∷ rqs) disk ≡ (answer ∷ answers, last)
run_cons rq rqs disk disk' last answer answers e f = rw (e, f) refl

-- Requests of both directions that each start and end within the device, in any number and order,
-- are all served with success, and the device refines the abstract one: at the end every position
-- holds the byte that the same operations leave on the abstract device, and each request's segments
-- hold what they give there, so that a read finds the bytes of the last writes before it.
pub serve_queue_refines :
    (update : Request → BlkStatus → ℕ → Bool) (rqs : List Request) (dev : BlockDev)
    → ((rq : Request) → Updates (update rq) (length (concat rq.segments)))
    → IsDevice dev
    → AllFit dev rqs
    → (held : List (List ℕ)) × (last : BlockDev) × (serve_queue update rqs dev ≡ some (held, last))
      × IsDevice last
      × (run_disk rqs (contents dev) ≡ (map (map some) held, contents last))
serve_queue_refines update [] dev u d h = ([], dev, refl, d, refl)
serve_queue_refines update (rq ∷ rqs) dev u d (h, others) =
    let (s, ends, d', c, answer, disk) =
      queue-Implements (update rq) rq.direction rq.sector rq.segments dev (u rq) d h in
    let (held, last, run, d'', eq) =
      serve_queue_refines update rqs s.device u d' (AllFit-capacity dev s.device rqs c others) in
    (
      concat s.segments_after ∷ held,
      last,
      serve_cons update rq rqs dev last s held ends run,
      d'',
      run_cons rq rqs (contents dev) (contents s.device) (contents last)
          (map some (concat s.segments_after)) (map (map some) held)
          (ap₂ (λ a b. (a, b)) (sym answer) (sym disk)) eq,
    )
