-- ===== src/Blockdev/Lifetime.antt =====
-- What test_blockdev/test_blockdev.c holds after each way through initialisation, and after exit.
use linux_device_drivers.Common.{
  ◌≡◌, false, not, ◌||◌, Option, some, List, [], ◌∷◌, ◌++◌, arith, if◌then◌else◌, ℤ, pos,
  is_nonzero, is_negative, neg_errno, enomem, held_after,
}
use linux_device_drivers.Blockdev.Setup.{
  Call, Resource, major, block_dev_memory, data_memory, tag_set, disk, disk_added, accounting,
  InitAnswers, myblock_driver_init, myblock_driver_exit,
}

abbrev pub held : List Call → List Resource → Option (List Resource)
held = held_after accounting

-- With a major number, an initialisation that comes to its end holds and returns, by the first answer
-- that fails: nothing, and -ENOMEM, if its memory cannot be had; its number and both blocks of memory,
-- and that error, if the tag set cannot be; those and the tag set, and that error, if the disk cannot
-- be added; and all it took, and 0, if nothing fails. (One that does not come to its end follows the
-- error pointer instead of a disk, or the null pointer instead of its queue.)
pub blockdev_init-held :
    (k : InitAnswers) {calls : List Call} {ret : ℤ}
    → is_negative k.major_number ≡ false
    → myblock_driver_init k ≡ some (calls, ret)
    → (held calls []
        ≡ some (
            if not k.block_dev_allocated
            then []
            else (if not k.data_allocated
                then []
                else (if is_nonzero k.tag_set_error
                    then data_memory ∷ block_dev_memory ∷ major ∷ []
                    else (if is_nonzero k.add_disk_error
                        then tag_set ∷ data_memory ∷ block_dev_memory ∷ major ∷ []
                        else disk_added ∷ disk ∷ tag_set ∷ data_memory ∷ block_dev_memory ∷ major
                          ∷ [])))))
      × (ret ≡ (
          if not k.block_dev_allocated || not k.data_allocated
          then neg_errno enomem
          else (if is_nonzero k.tag_set_error
              then k.tag_set_error
              else (if is_nonzero k.add_disk_error then k.add_disk_error else pos 0))))
unfolding myblock_driver_init
blockdev_init-held k m e = ground arith

-- After an initialisation that returned 0 with a major number, `myblock_driver_exit` gives back all
-- that was taken but the tag set, and nothing twice.
pub blockdev_init_exit :
    (k : InitAnswers) {calls : List Call}
    → is_negative k.major_number ≡ false
    → myblock_driver_init k ≡ some (calls, pos 0)
    → held (calls ++ myblock_driver_exit) [] ≡ some (tag_set ∷ [])
unfolding myblock_driver_init myblock_driver_exit
blockdev_init_exit k m e = ground arith
