-- ===== src/Pci/Lifetime.antt =====
-- What test_pci_module/test_pci_module.c holds after each way through probing, and after removal.
use linux_device_drivers.Common.{
  ◌≡◌, true, not, ◌||◌, ◌&&◌, Option, none, some, List, [], ◌∷◌, ◌++◌, arith, if◌then◌else◌, pos,
  neg_errno, enomem, eio, is_nonzero, is_negative, held_after,
}
use linux_device_drivers.Pci.Driver.{
  Call, Resource, enabled, region, priv_memory, mapping, vectors, irq, accounting, ProbeAnswers,
  my_driver_probe, my_driver_remove,
}

abbrev pub held : List Call → List Resource → Option (List Resource)
held = held_after accounting

-- What a probe holds at its end and returns, by the first answer that fails: nothing, and that error,
-- if the device or the region cannot be had; if there is no memory, or no mapping, it gives back an
-- interrupt that it never requested, which is a fault, on its way to -ENOMEM or -EIO; if the vectors,
-- or the interrupt, cannot be had, it returns that error and still holds everything that it took
-- before; with no failure it holds all six resources and returns 0.
pub my_driver_probe-held :
    (k : ProbeAnswers)
    → (held (my_driver_probe k).0 [] ≡ (
        if is_nonzero k.enable_error || is_nonzero k.region_error
        then some []
        else (if not (k.priv_allocated && k.mapped)
            then none
            else (if is_negative k.alloc_vectors_ret
                then some (mapping ∷ priv_memory ∷ region ∷ enabled ∷ [])
                else (if is_nonzero k.request_irq_ret
                    then some (vectors ∷ mapping ∷ priv_memory ∷ region ∷ enabled ∷ [])
                    else some (irq ∷ vectors ∷ mapping ∷ priv_memory ∷ region ∷ enabled ∷ []))))))
      × ((my_driver_probe k).1 ≡ (
          if is_nonzero k.enable_error
          then k.enable_error
          else (if is_nonzero k.region_error
              then k.region_error
              else (if not k.priv_allocated
                  then neg_errno enomem
                  else (if not k.mapped
                      then neg_errno eio
                      else (if is_negative k.alloc_vectors_ret
                          then k.alloc_vectors_ret
                          else (if is_nonzero k.request_irq_ret
                              then k.request_irq_ret
                              else pos 0)))))))
unfolding my_driver_probe
my_driver_probe-held k = ground arith

-- A device whose probe returned 0 is given back completely by `my_driver_remove`, and nothing twice.
pub probe_remove :
    (k : ProbeAnswers)
    → (my_driver_probe k).1 ≡ pos 0
    → held ((my_driver_probe k).0 ++ my_driver_remove true true) [] ≡ some []
unfolding my_driver_probe my_driver_remove
probe_remove k h = ground arith
