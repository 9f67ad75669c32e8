-- ===== src/Mychardev/Transfers.antt =====
-- What a user of mychardev/mychardev.c reads and writes, and what its exit leaves behind.
use linux_device_drivers.Common.{
  ℕ, ◌<◌, min, ◌≡◌, true, false, none, some, [], ◌∷◌, ◌++◌, arith, take, ltb, if◌then◌else◌, ℤ, pos,
  neg_errno, efault, held_after, is_negative,
}
use linux_device_drivers.Mychardev.Device.{
  greeting, mychardev_read, mychardev_write, cdev, accounting, mychardev_init, mychardev_exit,
}

-- From offset 0 a read gives as much of the greeting as was asked for, advances the offset by that
-- and returns it; from there on every read returns 0 and gives nothing, so that a short first read
-- loses the rest; a failing copy returns -EFAULT and moves nothing.
pub mychardev_read_lem :
    (count again : ℕ)
    → 0 < count
    → (mychardev_read false count 0
        ≡ (take (min count 29) greeting, min count 29, pos (min count 29)))
      × (mychardev_read false again (mychardev_read false count 0).1 ≡ ([], min count 29, pos 0))
      × (mychardev_read true count 0 ≡ ([], 0, neg_errno efault))
unfolding mychardev_read
mychardev_read_lem count again h = (ground arith, ground arith, ground arith)

-- A write stores its NUL inside the 30-byte buffer, and returns `count`, exactly when fewer than 30
-- bytes are written; with 30 or more it stores the NUL behind the end of the buffer.
pub mychardev_write_lem :
    (count : ℕ) → mychardev_write count ≡ (if ltb count 30 then some (count, pos count) else none)
unfolding mychardev_write
mychardev_write_lem count = ground arith

-- After initialisation and exit both `cdev`s are still held; all else is given back, once.
pub mychardev_init_exit :
    (err : ℤ)
    → is_negative err ≡ false
    → held_after accounting ((mychardev_init err).0 ++ mychardev_exit) []
      ≡ some (cdev 1 ∷ cdev 0 ∷ [])
unfolding mychardev_init mychardev_exit
mychardev_init_exit err h = ground arith
