-- ===== src/Tests/Block.antt =====
-- The theorems of the block device on a device of one sector.
use mathlib.Core.List.{map}
use linux_device_drivers.Common.{
  ◌-◌, ◌^◌, ℕ, Option, inl, length, ◌+◌, ◌*◌, ◌≡◌, refl, true, none, some, List, [], ◌∷◌, ◌++◌,
  arith, pos, negsuc, if◌then◌else◌, ltb, replicate, concat, slice, overwrite, take, drop,
}
use linux_device_drivers.Blockdev.Device.{
  clip, BlockDev, Segment, Request, dir_read, dir_write, Served, do_request, queue_rq, bug, ended,
  blk_sts_ok,
}
use linux_device_drivers.Blockdev.Requests.{
  IsDevice, IsRequest, moved, write_to, read_from, do_request_write, do_request_read,
  read_after_write,
}
use linux_device_drivers.Blockdev.Faults.{request, do_request_past_end, queue_rq_lem}
use linux_device_drivers.Blockdev.Disk.{contents, run_disk}
use linux_device_drivers.Blockdev.Queue.{serve_queue, serve_queue_refines}
use linux_device_drivers.Blockdev.Ordering.{serve_queue-swap}
use linux_device_drivers.Blockdev.Setup.{
  Call, blk_mq_alloc_disk, add_disk, put_disk, allocations, InitAnswers, myblock_driver_init,
  tag_set, data_memory, block_dev_memory, major, init_disk,
}
use linux_device_drivers.Blockdev.Lifetime.{held, blockdev_init-held}

abbrev one_sector : BlockDev
one_sector = record { capacity = 1; data_bytes = replicate 512 0 }

one_sector-IsDevice : IsDevice one_sector
one_sector-IsDevice = record { sized = refl; representable = omega arith }

abbrev two_bytes : List Segment
two_bytes = (1 ∷ 2 ∷ []) ∷ []

abbrev two_zeros : List Segment
two_zeros = (0 ∷ []) ∷ (0 ∷ []) ∷ []

two_bytes-IsRequest : IsRequest one_sector 0 two_bytes
two_bytes-IsRequest = record {
  starts_within = omega arith;
  segments_small = (omega arith, tt);
  total_small = omega arith;
}

two_zeros-IsRequest : IsRequest one_sector 0 two_zeros
two_zeros-IsRequest = record {
  starts_within = omega arith;
  segments_small = (omega arith, (omega arith, tt));
  total_small = omega arith;
}

do_request_write_example :
    do_request (write_to 0 two_bytes) one_sector
    ≡ some (record {
      device = record one_sector {
        data_bytes = overwrite 0 (take 512 (1 ∷ 2 ∷ [])) (replicate 512 0);
      };
      segments_after = two_bytes;
      nr_bytes = moved one_sector 0 two_bytes;
      ret = pos 0;
    })
do_request_write_example =
    do_request_write 0 two_bytes one_sector one_sector-IsDevice two_bytes-IsRequest

do_request_read_example :
    (filled : List Segment) × (do_request (read_from 0 two_zeros) one_sector
      ≡ some (record {
        device = one_sector;
        segments_after = filled;
        nr_bytes = moved one_sector 0 two_zeros;
        ret = pos 0;
      }))
    × (concat filled
        ≡ slice 0 (moved one_sector 0 two_zeros) one_sector.data_bytes
          ++ drop (moved one_sector 0 two_zeros) (0 ∷ 0 ∷ []))
do_request_read_example =
    do_request_read 0 two_zeros one_sector one_sector-IsDevice two_zeros-IsRequest

read_after_write_example :
    (s : Served) × (t : Served) × (do_request (write_to 0 two_bytes) one_sector ≡ some s)
    × (do_request (read_from 0 two_zeros) s.device ≡ some t)
    × (concat t.segments_after ≡ 1 ∷ 2 ∷ [])
read_after_write_example =
    read_after_write 0 two_bytes two_zeros one_sector one_sector-IsDevice two_bytes-IsRequest
      two_zeros-IsRequest (omega arith) refl

abbrev written : Served
written = record {
  device = record one_sector { data_bytes = overwrite 0 (take 512 (1 ∷ 2 ∷ [])) (replicate 512 0) };
  segments_after = two_bytes;
  nr_bytes = moved one_sector 0 two_bytes;
  ret = pos 0;
}

do_request_past_end_example :
    (clip 1024 2 512 ≡ 2 ^ 64 - 512)
    × (do_request (record { sector = 2; direction = dir_read; segments = two_bytes }) one_sector
        ≡ none)
do_request_past_end_example =
    do_request_past_end dir_read 2 (1 ∷ 2 ∷ []) [] one_sector one_sector-IsDevice (omega arith)
      (omega arith) (omega arith)

queue_rq_lem_example :
    (s : Served) × (do_request (request dir_write 0 two_bytes) one_sector ≡ some s)
    × (queue_rq (λ st n. ltb n 2) (request dir_write 0 two_bytes) one_sector
        ≡ (if ltb (1 * 512) (0 * 512 + 2) then bug s else ended blk_sts_ok s))
queue_rq_lem_example =
    queue_rq_lem (λ st n. ltb n 2) dir_write 0 two_bytes one_sector (λ st n. refl)
      one_sector-IsDevice two_bytes-IsRequest

abbrev add_disk_fails : InitAnswers
add_disk_fails = record {
  major_number = pos 240;
  block_dev_allocated = true;
  data_allocated = true;
  tag_set_error = pos 0;
  disk_allocated = true;
  has_queue = true;
  add_disk_error = negsuc 11;
}

abbrev all_well : InitAnswers
all_well = record add_disk_fails { add_disk_error = pos 0 }

abbrev failing_calls : List Call
failing_calls =
    allocations add_disk_fails ++ (blk_mq_alloc_disk ∷ add_disk (negsuc 11) ∷ put_disk ∷ [])

abbrev good_calls : List Call
good_calls = allocations all_well ++ (blk_mq_alloc_disk ∷ add_disk (pos 0) ∷ [])

blockdev_init-held_example :
    (held failing_calls [] ≡ some (tag_set ∷ data_memory ∷ block_dev_memory ∷ major ∷ []))
    × (add_disk_fails.add_disk_error ≡ add_disk_fails.add_disk_error)
unfolding myblock_driver_init init_disk
blockdev_init-held_example = blockdev_init-held add_disk_fails refl refl

abbrev requests : List Request
requests = write_to 0 two_bytes ∷ read_from 0 two_zeros ∷ []

serve_queue_refines_example :
    (held : List (List ℕ)) × (last : BlockDev) × (serve_queue
        (λ rq st n. ltb n (length (concat rq.segments)))
        requests
        one_sector
      ≡ some (held, last))
    × IsDevice last
    × (run_disk requests (contents one_sector) ≡ (map (map some) held, contents last))
serve_queue_refines_example =
    serve_queue_refines (λ rq st n. ltb n (length (concat rq.segments))) requests one_sector
      (λ rq st n. refl) one_sector-IsDevice
      ((two_bytes-IsRequest, omega arith), ((two_zeros-IsRequest, omega arith), tt))

abbrev two_sectors : BlockDev
two_sectors = record { capacity = 2; data_bytes = replicate 1024 0 }

serve_queue-swap_example :
    (held : List (List ℕ)) × (last : BlockDev) × (held' : List (List ℕ)) × (last' : BlockDev)
    × (serve_queue
          (λ rq st n. ltb n (length (concat rq.segments)))
          (write_to 0 two_bytes ∷ read_from 1 two_zeros ∷ [])
          two_sectors
        ≡ some (held, last))
    × (serve_queue
          (λ rq st n. ltb n (length (concat rq.segments)))
          (read_from 1 two_zeros ∷ write_to 0 two_bytes ∷ [])
          two_sectors
        ≡ some (held', last'))
    × (contents last ≡ contents last')
    × ((x : List (Option ℕ)) × (y : List (Option ℕ)) × (map (map some) held ≡ x ∷ y ∷ [])
        × (map (map some) held' ≡ y ∷ x ∷ []))
serve_queue-swap_example =
    serve_queue-swap (λ rq st n. ltb n (length (concat rq.segments))) (write_to 0 two_bytes)
      (read_from 1 two_zeros) two_sectors (λ rq st n. refl)
      (record { sized = refl; representable = omega arith })
      (
        record {
          starts_within = omega arith;
          segments_small = (omega arith, tt);
          total_small = omega arith;
        },
        omega arith,
      )
      (
        record {
          starts_within = omega arith;
          segments_small = (omega arith, (omega arith, tt));
          total_small = omega arith;
        },
        omega arith,
      )
      (inl (omega arith))
