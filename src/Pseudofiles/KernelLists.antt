-- ===== src/Pseudofiles/KernelLists.antt =====
-- taskls/taskls.c, netdevs/netdevs.c and listusb/listusb.c, which go through lists that the kernel
-- keeps: the macros and functions that go through them are the lists themselves.
use linux_device_drivers.Common.{
  ℕ, zero, suc, ◌+◌, ◌≡◌, refl, sym, ap, ◌∙◌, Bool, true, false, some, List, [], ◌∷◌, ◌++◌, length,
  get_elem?, concat, arith, ltb, ◌==◌, if◌then◌else◌, ℤ, pos, is_nonzero, Effect, acquire, release,
  Accounting, held_after, give_back,
}

-- The fields of `struct task_struct` that are shown.
pub record Task : Type 0 where
  pub pid : ℕ
  pub state : ℕ
  pub comm : List ℕ
  pub prio : ℤ
  pub static_prio : ℤ
  pub normal_prio : ℤ
  pub rt_priority : ℕ
  pub policy : ℕ
  pub nvcsw : ℕ
  pub nivcsw : ℕ
  pub utime : ℕ
  pub stime : ℕ
  pub start_time : ℕ

-- `mm_proc_show` of taskls.c from a count on: the number and the task of each line. The count is
-- taken to stay below 2^31.
unfoldable pub show_tasks : List Task → ℕ → List (ℕ × Task)
show_tasks [] taskcounts = []
show_tasks (task ∷ tasks) taskcounts = (taskcounts, task) ∷ show_tasks tasks (taskcounts + 1)

-- Each task has its line, with the number of tasks before it added to the first number.
pub show_tasks_lem :
    (before after : List Task) (task : Task) (first : ℕ)
    → get_elem? (show_tasks (before ++ task ∷ after) first) (length before)
      ≡ some (first + length before, task)
unfolding show_tasks
show_tasks_lem [] after task first = let e : first + 0 ≡ first = omega arith in rw e refl
show_tasks_lem (t ∷ before) after task first =
    let e : first + suc (length before) ≡ first + 1 + length before = omega arith in
    rw e (show_tasks_lem before after task (first + 1))

-- The fields of `struct net_device` that are shown, with its physical address.
pub record NetDevice : Type 0 where
  pub phys_address : ℕ
  pub dev_addr : ℕ → ℕ
  pub ifindex : ℕ
  pub name : List ℕ

-- A line: the address bytes stand each with the character behind it.
pub record DeviceLine : Type 0 where
  pub device : NetDevice
  pub mac : List (ℕ × ℕ)

-- The loop over the six bytes: ':' behind all but the last, which a blank follows.
unfoldable pub show_mac : (ℕ → ℕ) → ℕ → ℕ → List (ℕ × ℕ)
show_mac mac zero i = []
show_mac mac (suc left) i = (mac i, (if ltb i 5 then 58 else 32)) ∷ show_mac mac left (i + 1)

unfoldable pub show_net : List NetDevice → List DeviceLine
show_net [] = []
show_net (dev ∷ devs) = record { device = dev; mac = show_mac dev.dev_addr 6 0 } ∷ show_net devs

unfoldable pub show_nets : List (List NetDevice) → List DeviceLine
show_nets [] = []
show_nets (net ∷ nets) = show_net net ++ show_nets nets

pub data Call : Type 0 where
  rtnl_lock down_read up_read rtnl_unlock : Call
  usb_get_dev usb_put_dev : ℕ → Call

pub data Resource : Type 0 where
  rtnl net_rwsem : Resource
  usb_device : ℕ → Resource

abbrev pub call_effect : Call → Effect Resource
call_effect rtnl_lock = acquire rtnl
call_effect down_read = acquire net_rwsem
call_effect up_read = release net_rwsem
call_effect rtnl_unlock = release rtnl
call_effect (usb_get_dev d) = acquire (usb_device d)
call_effect (usb_put_dev d) = release (usb_device d)

abbrev pub same_resource : Resource → Resource → Bool
same_resource rtnl rtnl = true
same_resource rtnl net_rwsem = false
same_resource rtnl (usb_device d) = false
same_resource net_rwsem rtnl = false
same_resource net_rwsem net_rwsem = true
same_resource net_rwsem (usb_device d) = false
same_resource (usb_device d) rtnl = false
same_resource (usb_device d) net_rwsem = false
same_resource (usb_device d) (usb_device e) = d == e

abbrev pub accounting : Accounting Call Resource
accounting = record { effect = call_effect; same = same_resource }

-- `my_proc_show` of netdevs.c: its locks, and its lines.
unfoldable pub my_proc_show : List (List NetDevice) → List Call × List DeviceLine
my_proc_show nets = (rtnl_lock ∷ down_read ∷ up_read ∷ rtnl_unlock ∷ [], show_nets nets)

show_net-append : (xs ys : List NetDevice) → show_net (xs ++ ys) ≡ show_net xs ++ show_net ys
unfolding show_net
show_net-append [] ys = refl
show_net-append (x ∷ xs) ys =
    ap (λ l. record { device = x; mac = show_mac x.dev_addr 6 0 } ∷ l) (show_net-append xs ys)

show_nets-concat : (nets : List (List NetDevice)) → show_nets nets ≡ show_net (concat nets)
unfolding show_nets show_net
show_nets-concat [] = refl
show_nets-concat (net ∷ nets) =
    ap (λ l. show_net net ++ l) (show_nets-concat nets) ∙ sym (show_net-append net (concat nets))

length-show_net : (devs : List NetDevice) → length (show_net devs) ≡ length devs
unfolding show_net
length-show_net [] = refl
length-show_net (dev ∷ devs) = ap suc (length-show_net devs)

-- netdevs.c shows the devices of all name spaces one behind the other, a line each, and lets both of
-- its locks go.
pub my_proc_show_lem :
    (nets : List (List NetDevice))
    → ((my_proc_show nets).1 ≡ show_net (concat nets))
      × (length (my_proc_show nets).1 ≡ length (concat nets))
      × (held_after accounting (my_proc_show nets).0 [] ≡ some [])
unfolding my_proc_show
my_proc_show_lem nets =
    (show_nets-concat nets, ap length (show_nets-concat nets) ∙ length-show_net (concat nets), refl)

-- `usb_device_find` of listusb.c for a device: its calls, and its result.
unfoldable pub usb_device_find : ℕ → List Call × ℤ
usb_device_find d = (usb_get_dev d ∷ usb_put_dev d ∷ [], pos 0)

-- `my_proc_init` of listusb.c: usb_for_each_dev calls the function for each device, until one of its
-- results is not 0. The devices that were seen, and the calls.
unfoldable pub find_all : List ℕ → List ℕ × List Call
find_all [] = ([], [])
find_all (d ∷ ds) =
    let (calls, r) = usb_device_find d in
    let (seen, others) = find_all ds in
    if is_nonzero r then (d ∷ [], calls) else (d ∷ seen, calls ++ others)

held_pair :
    (d : ℕ) (others : List Call)
    → held_after accounting (usb_get_dev d ∷ usb_put_dev d ∷ others) []
      ≡ held_after accounting others []
held_pair d others =
    let same : (d == d) ≡ true = ground arith in rw (held_after, give_back, same) refl

-- listusb.c sees every device, and holds no reference to any of them afterwards.
pub find_all_lem :
    (ds : List ℕ) → ((find_all ds).0 ≡ ds) × (held_after accounting (find_all ds).1 [] ≡ some [])
unfolding find_all usb_device_find
find_all_lem [] = (refl, refl)
find_all_lem (d ∷ ds) =
    let (all, none_held) = find_all_lem ds in
    (ap (λ l. d ∷ l) all, held_pair d (find_all ds).1 ∙ none_held)
