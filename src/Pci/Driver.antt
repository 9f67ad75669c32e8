-- ===== src/Pci/Driver.antt =====
-- test_pci_module/test_pci_module.c: probing and removing a device. What the kernel answers is a
-- parameter; each call that takes or gives back a resource, or writes to the device, is recorded.
use linux_device_drivers.Common.{
  ℕ, Bool, true, false, not, List, [], ◌∷◌, ◌++◌, ◌==◌, if◌then◌else◌, ℤ, is_nonzero, is_negative,
  neg_errno, enomem, eio, Effect, acquire, release, neutral, Accounting,
}

pub data Call : Type 0 where
  pci_register_driver pci_unregister_driver : Call
  pci_enable_device_mem : ℤ → Call
  pci_request_region : ℤ → Call
  kzalloc_priv : Bool → Call
  ioremap : Bool → Call
  iowrite32 : ℕ → Call
  pci_alloc_irq_vectors : ℤ → Call
  request_threaded_irq : ℤ → Call
  free_irq pci_release_region pci_disable_device iounmap pci_free_irq_vectors kfree_priv : Call

pub data Resource : Type 0 where
  enabled region priv_memory mapping vectors irq : Resource

abbrev pub resource_code : Resource → ℕ
resource_code enabled = 0
resource_code region = 1
resource_code priv_memory = 2
resource_code mapping = 3
resource_code vectors = 4
resource_code irq = 5

abbrev pub call_effect : Call → Effect Resource
call_effect pci_register_driver = neutral
call_effect pci_unregister_driver = neutral
call_effect (pci_enable_device_mem err) = if is_nonzero err then neutral else acquire enabled
call_effect (pci_request_region err) = if is_nonzero err then neutral else acquire region
call_effect (kzalloc_priv ok) = if ok then acquire priv_memory else neutral
call_effect (ioremap ok) = if ok then acquire mapping else neutral
call_effect (iowrite32 data_to_write) = neutral
call_effect (pci_alloc_irq_vectors ret) = if is_negative ret then neutral else acquire vectors
call_effect (request_threaded_irq ret) = if is_nonzero ret then neutral else acquire irq
call_effect free_irq = release irq
call_effect pci_release_region = release region
call_effect pci_disable_device = release enabled
call_effect iounmap = release mapping
call_effect pci_free_irq_vectors = release vectors
call_effect kfree_priv = release priv_memory

abbrev pub accounting : Accounting Call Resource
accounting = record { effect = call_effect; same = λ r s. resource_code r == resource_code s }

-- What the kernel answers during `my_driver_probe`.
pub record ProbeAnswers : Type 0 where
  pub enable_error : ℤ
  pub region_error : ℤ
  pub priv_allocated : Bool
  pub mapped : Bool
  pub alloc_vectors_ret : ℤ
  pub request_irq_ret : ℤ

-- `release_device`.
unfoldable pub release_device : List Call
release_device = free_irq ∷ pci_release_region ∷ pci_disable_device ∷ []

-- `set_interrupts`: its calls and its result.
unfoldable pub set_interrupts : ProbeAnswers → List Call × ℤ
set_interrupts k =
    if is_negative k.alloc_vectors_ret
    then (pci_alloc_irq_vectors k.alloc_vectors_ret ∷ [], k.alloc_vectors_ret)
    else (
      pci_alloc_irq_vectors k.alloc_vectors_ret ∷ request_threaded_irq k.request_irq_ret ∷ [],
      k.request_irq_ret,
    )

-- `write_sample_data`, by whether the driver's data has been set.
unfoldable pub write_sample_data : Bool → List Call
write_sample_data true = iowrite32 0xDEADBEEF ∷ []
write_sample_data false = []

-- `my_driver_probe` below the two requests: the allocation, the mapping and what follows.
unfoldable pub probe_memory : ProbeAnswers → List Call × ℤ
unfolding release_device set_interrupts write_sample_data
probe_memory k =
    if not k.priv_allocated
    then (kzalloc_priv false ∷ release_device, neg_errno enomem)
    else (if not k.mapped
        then (kzalloc_priv true ∷ ioremap false ∷ release_device, neg_errno eio)
        else (let (calls, ret) = set_interrupts k in
            (kzalloc_priv true ∷ ioremap true ∷ (write_sample_data true ++ calls), ret)))

-- `my_driver_probe`: its calls and its result.
unfoldable pub my_driver_probe : ProbeAnswers → List Call × ℤ
unfolding probe_memory
my_driver_probe k =
    if is_nonzero k.enable_error
    then (pci_enable_device_mem k.enable_error ∷ [], k.enable_error)
    else (if is_nonzero k.region_error
        then (
          pci_enable_device_mem k.enable_error
              ∷ pci_request_region k.region_error
              ∷ pci_disable_device
              ∷ [],
          k.region_error,
        )
        else (let (calls, ret) = probe_memory k in
            (
              pci_enable_device_mem k.enable_error ∷ pci_request_region k.region_error ∷ calls,
              ret,
            )))

-- `my_driver_remove`, by whether the driver's data is set and its memory mapped.
unfoldable pub my_driver_remove : Bool → Bool → List Call
unfolding release_device
my_driver_remove has_priv has_hwmem =
    (if has_priv
      then ((if has_hwmem then iounmap ∷ [] else []) ++ pci_free_irq_vectors ∷ kfree_priv ∷ [])
      else [])
    ++ release_device

-- `mypci_driver_init`, by what `pci_register_driver` returns, and `mypci_driver_exit`.
unfoldable pub mypci_driver_init : ℤ → List Call × ℤ
mypci_driver_init ret = (pci_register_driver ∷ [], ret)

unfoldable pub mypci_driver_exit : List Call
mypci_driver_exit = pci_unregister_driver ∷ []

-- What an interrupt handler reports.
pub data IrqReturn : Type 0 where
  irq_none irq_handled : IrqReturn

-- `irq_handler`.
unfoldable pub irq_handler : ℕ → IrqReturn
irq_handler number = irq_handled
