-- ===== src/Blockdev/Setup.antt =====
-- test_blockdev/test_blockdev.c: module initialisation and exit. What the kernel answers is a
-- parameter; each call that takes or gives back a resource is recorded with its answer.
use linux_device_drivers.Common.{
  ℕ, ◌*◌, ◌/◌, ◌^◌, Bool, true, false, not, Option, none, some, List, [], ◌∷◌, ◌==◌, ◌++◌,
  if◌then◌else◌, ℤ, pos, is_nonzero, is_negative, neg_errno, enomem, Effect, acquire, release,
  neutral, Accounting,
}

pub data Call : Type 0 where
  register_blkdev : ℤ → Call
  unregister_blkdev : Call
  kmalloc_block_dev : Bool → Call
  kfree_block_dev : Call
  kmalloc_data : Bool → Call
  kfree_data : Call
  blk_mq_alloc_tag_set : ℤ → Call
  blk_mq_alloc_disk : Call
  put_disk : Call
  add_disk : ℤ → Call
  del_gendisk : Call
  blk_mq_destroy_queue : Call

pub data Resource : Type 0 where
  major block_dev_memory data_memory tag_set disk disk_added : Resource

abbrev pub resource_code : Resource → ℕ
resource_code major = 0
resource_code block_dev_memory = 1
resource_code data_memory = 2
resource_code tag_set = 3
resource_code disk = 4
resource_code disk_added = 5

abbrev pub call_effect : Call → Effect Resource
call_effect (register_blkdev ret) = if is_negative ret then neutral else acquire major
call_effect unregister_blkdev = release major
call_effect (kmalloc_block_dev ok) = if ok then acquire block_dev_memory else neutral
call_effect kfree_block_dev = release block_dev_memory
call_effect (kmalloc_data ok) = if ok then acquire data_memory else neutral
call_effect kfree_data = release data_memory
call_effect (blk_mq_alloc_tag_set err) = if is_nonzero err then neutral else acquire tag_set
call_effect blk_mq_alloc_disk = acquire disk
call_effect put_disk = release disk
call_effect (add_disk err) = if is_nonzero err then neutral else acquire disk_added
call_effect del_gendisk = release disk_added
call_effect blk_mq_destroy_queue = neutral

abbrev pub accounting : Accounting Call Resource
accounting = record { effect = call_effect; same = λ r s. resource_code r == resource_code s }

-- What the kernel answers. `blk_mq_alloc_disk` returns a disk, with or without a queue, or an error
-- pointer.
pub record InitAnswers : Type 0 where
  pub major_number : ℤ
  pub block_dev_allocated : Bool
  pub data_allocated : Bool
  pub tag_set_error : ℤ
  pub disk_allocated : Bool
  pub has_queue : Bool
  pub add_disk_error : ℤ

-- `block_device->capacity`, by the size of a page.
unfoldable pub init_capacity : ℕ → ℕ
init_capacity page_size = 112 * page_size / 2 ^ 9

-- The first calls of `myblock_driver_init`, up to the allocation of the tag set.
abbrev pub allocations : InitAnswers → List Call
allocations k =
    register_blkdev k.major_number
    ∷ kmalloc_block_dev true
    ∷ kmalloc_data true
    ∷ blk_mq_alloc_tag_set k.tag_set_error
    ∷ []

-- `myblock_driver_init` from the allocation of the disk on. `none`: the error pointer that
-- `blk_mq_alloc_disk` may return is followed, or the null pointer of a disk without a queue: its limit
-- and its flags are set before the queue is compared with NULL, so that the branch of that test is
-- never taken.
unfoldable pub init_disk : InitAnswers → Option (List Call × ℤ)
init_disk k =
    if not k.disk_allocated
    then none
    else (if not k.has_queue
        then none
        else (if is_nonzero k.add_disk_error
            then some
                (blk_mq_alloc_disk ∷ add_disk k.add_disk_error ∷ put_disk ∷ [], k.add_disk_error)
            else some (blk_mq_alloc_disk ∷ add_disk k.add_disk_error ∷ [], pos 0)))

abbrev pub after_calls : List Call → Option (List Call × ℤ) → Option (List Call × ℤ)
after_calls before none = none
after_calls before (some (calls, ret)) = some (before ++ calls, ret)

-- `myblock_driver_init`: its calls and its result.
unfoldable pub myblock_driver_init : InitAnswers → Option (List Call × ℤ)
unfolding init_disk
myblock_driver_init k =
    if not k.block_dev_allocated
    then some (
      register_blkdev k.major_number ∷ kmalloc_block_dev false ∷ unregister_blkdev ∷ [],
      neg_errno enomem,
    )
    else (if not k.data_allocated
        then some (
          register_blkdev k.major_number
              ∷ kmalloc_block_dev true
              ∷ kmalloc_data false
              ∷ unregister_blkdev
              ∷ kfree_block_dev
              ∷ [],
          neg_errno enomem,
        )
        else (if is_nonzero k.tag_set_error
            then some (allocations k, k.tag_set_error)
            else after_calls (allocations k) (init_disk k)))

-- `myblock_driver_exit`; after an initialisation that returned 0 the disk and its queue are set.
unfoldable pub myblock_driver_exit : List Call
myblock_driver_exit =
    del_gendisk ∷ put_disk ∷ blk_mq_destroy_queue ∷ kfree_data ∷ unregister_blkdev ∷ kfree_block_dev
    ∷ []
