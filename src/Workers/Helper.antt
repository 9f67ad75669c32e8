-- ===== src/Workers/Helper.antt =====
-- Usermode-Helper-API/umh_test.c: a program that is run from the kernel.
use linux_device_drivers.Common.{
  ℕ, ◌≡◌, refl, Bool, true, false, Option, none, some, List, [], ◌∷◌, if◌then◌else◌, ℤ, pos,
  neg_errno, enomem,
}

-- The ids of `struct cred`.
pub record Cred : Type 0 where
  pub uid : ℕ
  pub euid : ℕ
  pub suid : ℕ
  pub fsuid : ℕ
  pub gid : ℕ
  pub egid : ℕ
  pub sgid : ℕ
  pub fsgid : ℕ

unfoldable pub alter_uid_gid : ℕ → ℕ → Cred → Cred × ℤ
alter_uid_gid user group new = (
  record {
    uid = user;
    euid = user;
    suid = user;
    fsuid = user;
    gid = group;
    egid = group;
    sgid = group;
    fsgid = group;
  },
  pos 0,
)

unfoldable pub init_func : Cred → Cred × ℤ
unfolding alter_uid_gid
init_func new = alter_uid_gid 1001 1001 new

-- `struct subprocess_info`: the program, its arguments up to the NULL pointer, and the function that
-- prepares its credentials. The message and the environment are constants.
pub record SubprocessInfo : Type 0 where
  pub path : List ℕ
  pub argv : List (List ℕ)
  pub init : Cred → Cred × ℤ

-- `user_process_fork`, with the constant message: what it has run, by whether the set-up gives a
-- structure, and what running it returns.
unfoldable pub user_process_fork : List ℕ → Bool → ℤ → List ℕ → Option SubprocessInfo × ℤ
unfolding init_func
user_process_fork message allocated exec_ret path =
    if allocated
    then (some (record { path = path; argv = path ∷ message ∷ []; init = init_func }), exec_ret)
    else (none, neg_errno enomem)

-- `my_proc_init`, which runs one program and does not look at the result.
unfoldable pub my_proc_init : List ℕ → List ℕ → Bool → ℤ → Option SubprocessInfo × ℤ
unfolding user_process_fork
my_proc_init program message allocated exec_ret =
    ((user_process_fork message allocated exec_ret program).0, pos 0)

-- The program that `my_proc_init` has run is given its own path as its first argument, and whatever
-- credentials it is to start with, all its user ids and all its group ids are 1001. The
-- initialisation returns 0, also where the program could not be set up or failed.
pub my_proc_init_lem :
    (program message : List ℕ) (allocated : Bool) (exec_ret : ℤ) (new : Cred)
    → ((my_proc_init program message allocated exec_ret).1 ≡ pos 0)
      × ((my_proc_init program message false exec_ret).0 ≡ none)
      × ((user_process_fork message false exec_ret program).1 ≡ neg_errno enomem)
      × ((info : SubprocessInfo) × ((my_proc_init program message true exec_ret).0 ≡ some info)
          × (info.argv ≡ info.path ∷ message ∷ [])
          × (info.init new ≡ (
            record {
              uid = 1001;
              euid = 1001;
              suid = 1001;
              fsuid = 1001;
              gid = 1001;
              egid = 1001;
              sgid = 1001;
              fsgid = 1001;
            },
            pos 0,
          )))
unfolding my_proc_init
my_proc_init_lem program message allocated exec_ret new = (refl, refl, refl, (_, refl, refl, refl))
