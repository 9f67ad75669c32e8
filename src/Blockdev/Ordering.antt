-- ===== src/Blockdev/Ordering.antt =====
-- Requests of test_blockdev/test_blockdev.c whose order does not matter. The driver has a hardware queue
-- for each processor, so that nothing else orders them.
use mathlib.Core.List.{map}
use mathlib.Core.Path.{ap₂}
use linux_device_drivers.Common.{
  ℕ, zero, suc, ◌+◌, ◌*◌, ◌≤◌, ◌<◌, ◌≡◌, refl, sym, ap, ◌∙◌, ◌⊎◌, fun_ext, Bool, Option, some, List,
  [], ◌∷◌, arith, length, concat,
}
use linux_device_drivers.Blockdev.Device.{
  BlockDev, Direction, dir_read, dir_write, Segment, Request, BlkStatus,
}
use linux_device_drivers.Blockdev.Disk.{Disk, contents, put_bytes, look, disk_step, run_disk}
use linux_device_drivers.Blockdev.Requests.{IsDevice}
use linux_device_drivers.Blockdev.Faults.{Updates, request}
use linux_device_drivers.Blockdev.Queue.{Fits, serve_queue, serve_queue_refines}

-- Two ranges of bytes without a common one.
abbrev pub IsDisjoint : ℕ → ℕ → ℕ → ℕ → Type 0
IsDisjoint at m to n = (at + m ≤ to) ⊎ (to + n ≤ at)

put_bytes-outside :
    (at : ℕ) (bytes : List ℕ) (disk : Disk) (j : ℕ)
    → (j < at) ⊎ (at + length bytes ≤ j)
    → put_bytes at bytes disk j ≡ disk j
put_bytes-outside at bytes disk j h = ground arith

look-put_bytes :
    (n at to : ℕ) (bytes : List ℕ) (disk : Disk)
    → IsDisjoint at n to (length bytes)
    → look at n (put_bytes to bytes disk) ≡ look at n disk
look-put_bytes zero at to bytes disk h = refl
look-put_bytes (suc n) at to bytes disk h =
    ap₂ (λ b l. b ∷ l) (put_bytes-outside to bytes disk at (omega arith))
      (look-put_bytes n (at + 1) to bytes disk (omega arith))

put_bytes-put_bytes :
    (at to : ℕ) (xs ys : List ℕ) (disk : Disk)
    → IsDisjoint at (length xs) to (length ys)
    → put_bytes at xs (put_bytes to ys disk) ≡ put_bytes to ys (put_bytes at xs disk)
put_bytes-put_bytes at to xs ys disk h = fun_ext λ j. ground arith

-- The requests' ranges.
abbrev pub IsApart : Request → Request → Type 0
IsApart a b =
    IsDisjoint (a.sector * 512) (length (concat a.segments)) (b.sector * 512)
      (length (concat b.segments))

-- What the two requests give, and the device after both, are the same in either order.
abbrev Commutes : Request → Request → Disk → Type 0
Commutes a b disk =
    let (x, first) = disk_step a disk in
    let (y, both) = disk_step b first in
    let (y', second) = disk_step b disk in
    let (x', both') = disk_step a second in (x ≡ x') × (y ≡ y') × (both ≡ both')

disk_step-Commutes :
    (dir dir' : Direction) (sector sector' : ℕ) (segs segs' : List Segment) (disk : Disk)
    → IsApart (request dir sector segs) (request dir' sector' segs')
    → Commutes (request dir sector segs) (request dir' sector' segs') disk
disk_step-Commutes dir_read dir_read sector sector' segs segs' disk h = (refl, refl, refl)
disk_step-Commutes dir_read dir_write sector sector' segs segs' disk h = (
  sym (look-put_bytes (length (concat segs)) (sector * 512) (sector' * 512) (concat segs') disk h),
  refl,
  refl,
)
disk_step-Commutes dir_write dir_read sector sector' segs segs' disk h = (
  refl,
  look-put_bytes (length (concat segs')) (sector' * 512) (sector * 512) (concat segs) disk
      (omega arith),
  refl,
)
disk_step-Commutes dir_write dir_write sector sector' segs segs' disk h = (
  refl,
  refl,
  sym (put_bytes-put_bytes (sector * 512) (sector' * 512) (concat segs) (concat segs') disk h),
)

run_two :
    (a b : Request) (disk : Disk)
    → IsApart a b
    → ((run_disk (a ∷ b ∷ []) disk).1 ≡ (run_disk (b ∷ a ∷ []) disk).1)
      × ((x : List (Option ℕ)) × (y : List (Option ℕ)) × ((run_disk (a ∷ b ∷ []) disk).0
            ≡ x ∷ y ∷ [])
          × ((run_disk (b ∷ a ∷ []) disk).0 ≡ y ∷ x ∷ []))
run_two a b disk h =
    let (x, y, both) =
      disk_step-Commutes a.direction b.direction a.sector b.sector a.segments b.segments disk h in
    (both, (_, _, refl, ap₂ (λ p q. p ∷ q ∷ []) (sym y) (sym x)))

-- Two requests that fit the device and have no byte in common may be served in either order: in both
-- orders they are served with success, each one's segments hold the same at the end, and the device
-- holds the same bytes.
pub serve_queue-swap :
    (update : Request → BlkStatus → ℕ → Bool) (a b : Request) (dev : BlockDev)
    → ((rq : Request) → Updates (update rq) (length (concat rq.segments)))
    → IsDevice dev
    → Fits dev a
    → Fits dev b
    → IsApart a b
    → (held : List (List ℕ)) × (last : BlockDev) × (held' : List (List ℕ)) × (last' : BlockDev)
      × (serve_queue update (a ∷ b ∷ []) dev ≡ some (held, last))
      × (serve_queue update (b ∷ a ∷ []) dev ≡ some (held', last'))
      × (contents last ≡ contents last')
      × ((x : List (Option ℕ)) × (y : List (Option ℕ)) × (map (map some) held ≡ x ∷ y ∷ [])
          × (map (map some) held' ≡ y ∷ x ∷ []))
serve_queue-swap update a b dev u d fa fb apart =
    let (held, last, run, d', eq) =
      serve_queue_refines update (a ∷ b ∷ []) dev u d (fa, (fb, tt)) in
    let (held', last', run', d'', eq') =
      serve_queue_refines update (b ∷ a ∷ []) dev u d (fb, (fa, tt)) in
    let (same, (x, y, xy, yx)) = run_two a b (contents dev) apart in
    (
      held,
      last,
      held',
      last',
      run,
      run',
      sym (ap (λ r. r.1) eq) ∙ same ∙ ap (λ r. r.1) eq',
      (x, y, sym (ap (λ r. r.0) eq) ∙ xy, sym (ap (λ r. r.0) eq') ∙ yx),
    )
