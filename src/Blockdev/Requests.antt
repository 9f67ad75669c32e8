-- ===== src/Blockdev/Requests.antt =====
-- Requests of test_blockdev/test_blockdev.c: what is written, what is read back, how much of a
-- request is served, and how the queue callback ends.
use mathlib.Core.Option.{some-injective}
use linux_device_drivers.Common.{
  sym, ℕ, ◌+◌, ◌-◌, ◌*◌, ◌^◌, ◌≤◌, ◌<◌, ◌≡◌, ap, ◌∙◌, some, List, ◌++◌, append-nil, arith, length,
  take, drop, slice, overwrite, concat, length-overwrite, take_all, drop_all, slice-overwrite,
  get_elem?, get_elem?-overwrite, length-take, pos, ◌⊎◌,
}
use linux_device_drivers.Blockdev.Device.{
  BlockDev, u64, Direction, dir_read, dir_write, Segment, Request, serve_segments, Served,
  do_request,
}
use linux_device_drivers.Blockdev.Loop.{served, AllSmall, serve_write, serve_read}

-- What `myblock_driver_init` sets up: `capacity << 9` bytes of memory, a 63-bit number of them.
pub record IsDevice (dev : BlockDev) : Type 0 where
  pub sized : length dev.data_bytes ≡ dev.capacity * 512
  pub representable : dev.capacity * 512 < 2 ^ 63

-- The bytes from `sector` to the end of the device that a request with these segments moves.
abbrev pub moved : BlockDev → ℕ → List Segment → ℕ
moved dev sector segs = served (dev.capacity * 512) (sector * 512) segs

-- The request is within the device at its start, and its length is an `unsigned int`.
pub record IsRequest (dev : BlockDev) (sector : ℕ) (segs : List Segment) : Type 0 where
  pub starts_within : sector ≤ dev.capacity
  pub segments_small : AllSmall segs
  pub total_small : length (concat segs) < 2 ^ 32

abbrev pub write_to : ℕ → List Segment → Request
write_to sector segs = record { sector = sector; direction = dir_write; segments = segs }

abbrev pub read_from : ℕ → List Segment → Request
read_from sector segs = record { sector = sector; direction = dir_read; segments = segs }

run_loop :
    (dir : Direction) (sector : ℕ) (segs filled : List Segment) (dev : BlockDev) (out : List ℕ)
    (nr : ℕ)
    → dev.capacity * 512 < 2 ^ 63
    → sector ≤ dev.capacity
    → serve_segments dir (dev.capacity * 512) segs (sector * 512) 0 dev.data_bytes
      ≡ some (out, filled, nr)
    → do_request (record { sector = sector; direction = dir; segments = segs }) dev
      ≡ some (record {
        device = record dev { data_bytes = out };
        segments_after = filled;
        nr_bytes = nr;
        ret = pos 0;
      })
unfolding do_request
run_loop dir sector segs filled dev out nr h k e =
    let p : u64 (sector * 512) ≡ sector * 512 = omega arith in
    let q : u64 (dev.capacity * 512) ≡ dev.capacity * 512 = omega arith in rw (p, q, e)

-- A write request puts its segments' bytes, one behind the other, at its sector, as many as fit
-- before the end of the device; it changes nothing else, and reports that number and success.
pub do_request_write :
    (sector : ℕ) (segs : List Segment) (dev : BlockDev)
    → IsDevice dev
    → IsRequest dev sector segs
    → do_request (write_to sector segs) dev
      ≡ some (record {
        device = record dev {
          data_bytes =
              overwrite
                (sector * 512)
                (take (dev.capacity * 512 - sector * 512) (concat segs))
                dev.data_bytes;
        };
        segments_after = segs;
        nr_bytes = moved dev sector segs;
        ret = pos 0;
      })
do_request_write sector segs dev d r =
    run_loop dir_write sector segs segs dev _ (moved dev sector segs) d.representable
      r.starts_within
      (serve_write (dev.capacity * 512) segs (sector * 512) 0 dev.data_bytes d.sized d.representable
          r.segments_small (omega arith) (omega arith)
        ∙ ap
            (λ m. some (
              overwrite (sector * 512) (take (dev.capacity * 512 - sector * 512) (concat segs))
                  dev.data_bytes,
              segs,
              m,
            ))
            {x = 0 + moved dev sector segs} {y = moved dev sector segs} (omega arith))

-- A read request fills its segments, taken together, from their start with the device's bytes from
-- its sector on, as many as both hold; the device is unchanged, and the number and success are
-- reported.
pub do_request_read :
    (sector : ℕ) (segs : List Segment) (dev : BlockDev)
    → IsDevice dev
    → IsRequest dev sector segs
    → (filled : List Segment) × (do_request (read_from sector segs) dev
        ≡ some (record {
          device = dev;
          segments_after = filled;
          nr_bytes = moved dev sector segs;
          ret = pos 0;
        }))
      × (concat filled
          ≡ slice (sector * 512) (moved dev sector segs) dev.data_bytes
            ++ drop (moved dev sector segs) (concat segs))
do_request_read sector segs dev d r =
    let (filled, run, eq) =
      serve_read (dev.capacity * 512) segs (sector * 512) 0 dev.data_bytes d.sized d.representable
        r.segments_small (omega arith) (omega arith) in
    (
      filled,
      run_loop dir_read sector segs filled dev dev.data_bytes (moved dev sector segs)
          d.representable r.starts_within
          (run ∙ ap (λ m. some (dev.data_bytes, filled, m)) (omega arith)),
      eq,
    )

-- A write that fits before the end of the device, followed by a read of as many bytes at the same
-- sector, fills the read's segments with exactly the bytes that were written.
pub read_after_write :
    (sector : ℕ) (written room : List Segment) (dev : BlockDev)
    → IsDevice dev
    → IsRequest dev sector written
    → IsRequest dev sector room
    → sector * 512 + length (concat written) ≤ dev.capacity * 512
    → length (concat room) ≡ length (concat written)
    → (s : Served) × (t : Served) × (do_request (write_to sector written) dev ≡ some s)
      × (do_request (read_from sector room) s.device ≡ some t)
      × (concat t.segments_after ≡ concat written)
read_after_write sector written room dev d w r fits same =
    let size : ℕ = dev.capacity * 512 - sector * 512 in
    let bytes : List ℕ = overwrite (sector * 512) (take size (concat written)) dev.data_bytes in
    let dev' : BlockDev = record dev { data_bytes = bytes } in
    let d' : IsDevice dev' = record {
      sized = length-overwrite (sector * 512) (take size (concat written)) dev.data_bytes ∙ d.sized;
      representable = d.representable;
    } in
    let r' : IsRequest dev' sector room = record {
      starts_within = r.starts_within;
      segments_small = r.segments_small;
      total_small = r.total_small;
    } in
    let (filled, run, eq) = do_request_read sector room dev' d' r' in
    (
      _,
      _,
      do_request_write sector written dev d w,
      run,
      eq ∙ filled_lem (take_all size (concat written) (omega arith)) (omega arith),
    )
  where
    filled_lem :
        {l : List ℕ} {n : ℕ}
        → l ≡ concat written
        → n ≡ length (concat written)
        → slice (sector * 512) n (overwrite (sector * 512) l dev.data_bytes) ++ drop n (concat room)
          ≡ concat written
    filled_lem {l} {n} p q =
        rw
          (
            p,
            drop_all n (concat room) (omega arith),
            slice-overwrite (sector * 512) n (concat written) dev.data_bytes q (omega arith),
          )
          (append-nil (concat written))

-- A write request leaves every byte of the device outside its own range as it was.
pub do_request_frame :
    (sector : ℕ) (segs : List Segment) (dev : BlockDev) {s : Served} (j : ℕ)
    → IsDevice dev
    → IsRequest dev sector segs
    → do_request (write_to sector segs) dev ≡ some s
    → (j < sector * 512) ⊎ (sector * 512 + moved dev sector segs ≤ j)
    → get_elem? s.device.data_bytes j ≡ get_elem? dev.data_bytes j
do_request_frame sector segs dev {s} j d r e h =
    let size : ℕ = dev.capacity * 512 - sector * 512 in
    ap (λ (t : Served). get_elem? t.device.data_bytes j)
      (some-injective s _ (sym e ∙ do_request_write sector segs dev d r))
    ∙ get_elem?-overwrite (sector * 512) j (take size (concat segs)) dev.data_bytes
        (omega (arith, length-take size (concat segs)))
