-- ===== src/Tests/Pcis.antt =====
-- The theorems of the PCI driver, of the multiprocessor tables, of the ftrace thread and of the work
-- item on concrete inputs.
use linux_device_drivers.Workers.Kworker.{
  WorkQueue, schedule_work_successful, mod_init, mod_exit, work, mod_init-exit,
}
use linux_device_drivers.Common.{
  ℕ, ◌<◌, ◌≤◌, ◌≡◌, ◌⊎◌, ◌+◌, refl, Bool, true, false, some, List, [], ◌∷◌, ◌++◌, pos, negsuc,
  if◌then◌else◌, ◌==◌,
}
use linux_device_drivers.Pci.Driver.{
  ProbeAnswers, my_driver_probe, mapping, priv_memory, region, enabled,
}
use linux_device_drivers.Pci.Lifetime.{held, my_driver_probe-held}
use linux_device_drivers.Smpinfo.Output.{show_bytes, bytes_from, show_bytes_lem}
use linux_device_drivers.Smpinfo.Tables.{Tables}
use linux_device_drivers.Ftrace.Thread.{start}
use linux_device_drivers.Ftrace.Toggle.{registered, all_current, rounds, rounds_lem}

abbrev no_vectors : ProbeAnswers
no_vectors = record {
  enable_error = pos 0;
  region_error = pos 0;
  priv_allocated = true;
  mapped = true;
  alloc_vectors_ret = negsuc 27;
  request_irq_ret = pos 0;
}

abbrev all_well : ProbeAnswers
all_well = record no_vectors { alloc_vectors_ret = pos 1 }

my_driver_probe-held_example :
    (held (my_driver_probe no_vectors).0 [] ≡ some (mapping ∷ priv_memory ∷ region ∷ enabled ∷ []))
    × ((my_driver_probe no_vectors).1 ≡ no_vectors.alloc_vectors_ret)
my_driver_probe-held_example = my_driver_probe-held no_vectors

-- Memory with a structure at 0xF0010 and zeros elsewhere.
abbrev memory : ℕ → ℕ
memory at =
    if at == 983056
    then 95
    else (if at == 983057
        then 77
        else (if at == 983058 then 80 else (if at == 983059 then 95 else 0)))

abbrev some_tables : Tables
some_tables = record { mpfp = 983040; mpct = 0; baselen = 70 }

rounds_lem_example :
    (registered 0 (rounds (pos 0 ∷ negsuc 18 ∷ pos 0 ∷ []) start).1
      ≡ (rounds (pos 0 ∷ negsuc 18 ∷ pos 0 ∷ []) start).0.my_tramp)
    × (all_current 0 (rounds (pos 0 ∷ negsuc 18 ∷ pos 0 ∷ []) start).1 ≡ true)
rounds_lem_example = rounds_lem (pos 0 ∷ negsuc 18 ∷ pos 0 ∷ []) start

abbrev sixty_bytes : Tables
sixty_bytes = record { mpfp = 983040; mpct = 1000; baselen = 60 }

-- A table of 60 bytes with one entry of 20.
show_bytes_lem_example :
    (header : List ℕ) × (entries : List ℕ) × (n : ℕ) × (show_bytes (λ at. 0) sixty_bytes
      ≡ some (bytes_from (λ at. 0) 983040 16, header, entries))
    × (header ++ entries ≡ bytes_from (λ at. 0) 1000 n)
    × (44 ≤ n)
    × (60 ≤ n)
    × ((n ≡ 44) ⊎ (n < 80))
show_bytes_lem_example = show_bytes_lem (λ at. 0) sixty_bytes

-- A queue that holds whether the item waits, and how often its function has run.
abbrev plain_queue : WorkQueue
plain_queue = record {
  Queue = Bool × ℕ;
  waits = λ q. q.0;
  runs = λ q. q.1;
  schedule_work = λ q. if q.0 then (q, false) else ((true, q.1), true);
  worker = λ q. if q.0 then (false, q.1 + 1) else q;
  flush_scheduled_work = λ q. if q.0 then (false, q.1 + 1) else q;
  schedule-refuses = λ q h. rw h refl;
  schedule-takes = λ q h. rw h (refl, refl, refl);
  worker_runs = λ q h. rw h (refl, refl);
  worker_idles = λ q h. rw h refl;
  flush_runs = λ q h. rw h (refl, refl);
  flush_idles = λ q h. rw h refl;
}

mod_init-exit_example :
    let (q', logged, ret) = mod_init plain_queue (false, 4) in
    let last = mod_exit plain_queue (work plain_queue 2 q') in
    (logged ≡ schedule_work_successful)
    × (ret ≡ pos 0)
    × (plain_queue.waits last ≡ false)
    × (plain_queue.runs last ≡ 5)
mod_init-exit_example = mod_init-exit plain_queue 2 (false, 4) refl
