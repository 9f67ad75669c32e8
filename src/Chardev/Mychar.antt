-- ===== src/Chardev/Mychar.antt =====
-- mychar/mychar.c: its operations are those of the message device; its own part is the
-- initialisation, with a dynamic major number and one device, and the exit.
use linux_device_drivers.Common.{
  ℕ, Option, List, [], ◌∷◌, if◌then◌else◌, ℤ, pos, is_nonzero, is_negative,
}
use linux_device_drivers.Chardev.Calls.{
  Call, register_chrdev, unregister_chrdev, class_create, class_unregister, class_destroy,
  device_create, device_destroy, InitAnswers,
}
use linux_device_drivers.Chardev.Message.{
  Printer, State, open_device, release_device, read_message, write_message,
}

-- `dev_open`, `dev_release`, `dev_read` and `dev_write` of mychar/mychar.c.
unfoldable pub dev_open : State → State × ℤ
unfolding open_device
dev_open = open_device

unfoldable pub dev_release : State → State × ℤ
unfolding release_device
dev_release = release_device

unfoldable pub dev_read : ℕ → ℕ → State → State × List ℕ × ℤ
unfolding read_message
dev_read = read_message

unfoldable pub dev_write : Printer → Option (List ℕ) → ℕ → State → Option (State × ℤ)
unfolding write_message
dev_write = write_message

-- `mychar_init`: its calls and its result.
unfoldable pub mychar_init : InitAnswers → List Call × ℤ
mychar_init k =
    if is_negative k.register_ret
    then (register_chrdev k.register_ret ∷ [], k.register_ret)
    else (if is_nonzero k.class_error
        then (
          register_chrdev k.register_ret ∷ class_create k.class_error ∷ unregister_chrdev ∷ [],
          k.class_error,
        )
        else (if is_nonzero (k.device_error 0)
            then (
              register_chrdev k.register_ret
                  ∷ class_create k.class_error
                  ∷ device_create 0 (k.device_error 0)
                  ∷ class_destroy
                  ∷ unregister_chrdev
                  ∷ [],
              k.device_error 0,
            )
            else (
              register_chrdev k.register_ret
                  ∷ class_create k.class_error
                  ∷ device_create 0 (k.device_error 0)
                  ∷ [],
              pos 0,
            )))

-- `mychar_exit`.
unfoldable pub mychar_exit : List Call
mychar_exit = device_destroy 0 ∷ class_unregister ∷ class_destroy ∷ unregister_chrdev ∷ []
