-- ===== src/Pseudofiles/Sysfs.antt =====
-- my_sysfs/my_sysfs.c: a group of attributes. The kernel's `sprintf` and `sscanf` are an interface
-- with what they document; their "%du" reads an int and does not mind what follows.
use linux_device_drivers.Common.{
  ℕ, zero, suc, ◌+◌, ◌*◌, ◌/◌, ◌%◌, ◌^◌, ◌<◌, ◌≡◌, refl, Bool, true, false, not, Option, none, some,
  List, [], ◌∷◌, ◌++◌, arith, if◌then◌else◌, ℤ, pos, negsuc, is_nonzero, neg_errno, enomem, Effect,
  acquire, release, neutral, Accounting, held_after,
}

-- An `int`.
abbrev pub IsInt : ℤ → Type 0
IsInt (pos n) = n < 2 ^ 31
IsInt (negsuc n) = n < 2 ^ 31

-- `%d`, `%llu`, `%.2llu` and `%.9lu`; `scan_d` is the number that a text starts with, if it does.
pub record Formats : Type 0 where
  pub print_d : ℤ → List ℕ
  pub print_llu : ℕ → List ℕ
  pub print_2 : ℕ → List ℕ
  pub print_9 : ℕ → List ℕ
  pub scan_d : List ℕ → Option ℤ
  pub scan_d-print_d : (n : ℤ) → IsInt n → scan_d (print_d n ++ 10 ∷ []) ≡ some n

-- `struct timespec64`, whose seconds are not negative here.
pub record Timespec : Type 0 where
  pub tv_sec : ℕ
  pub tv_nsec : ℕ

-- The statics. `vfile_2` is a `bool`, so that its 2 is 1.
pub record State : Type 0 where
  pub vfile_1 : ℤ
  pub vfile_2 : Bool
  pub vfile_3 : ℤ
  pub ts_last : Timespec
  pub ts_diff : Timespec

pub data Attribute : Type 0 where
  vfile_1_attr vfile_2_attr vfile_3_attr time_attr diff_attr : Attribute

-- The two attributes that can be written.
pub data Writable : Type 0 where
  writable_1 writable_3 : Writable

abbrev pub attribute_of : Writable → Attribute
attribute_of writable_1 = vfile_1_attr
attribute_of writable_3 = vfile_3_attr

abbrev pub the_other : Writable → Writable
the_other writable_1 = writable_3
the_other writable_3 = writable_1

-- The numbers that `lastTime_show` prints of the seconds.
abbrev pub clock : ℕ → ℕ × ℕ × ℕ
clock tv_sec = (tv_sec / 3600 % 24, tv_sec / 60 % 60, tv_sec % 60)

module _ (f : Formats) where
  open f use {print_d, print_llu, print_2, print_9, scan_d}

  -- The functions `vfile_1_show`, `vfile_2_show`, `vfile_3_show`, `lastTime_show` and
  -- `diffTime_show`: the text; its length is what they return.
  unfoldable pub show : Attribute → State → List ℕ
  show vfile_1_attr s = print_d s.vfile_1 ++ 10 ∷ []
  show vfile_2_attr s = print_d (if s.vfile_2 then pos 1 else pos 0) ++ 10 ∷ []
  show vfile_3_attr s = print_d s.vfile_3 ++ 10 ∷ []
  show time_attr s =
      let (hours, minutes, seconds) = clock s.ts_last.tv_sec in
      print_2 hours
      ++ 58 ∷ print_2 minutes
      ++ 58 ∷ print_2 seconds
      ++ 58 ∷ print_9 s.ts_last.tv_nsec
      ++ 32 ∷ 10 ∷ []
  show diff_attr s = print_llu s.ts_diff.tv_sec ++ 46 ∷ print_9 s.ts_diff.tv_nsec ++ 10 ∷ []

  abbrev pub scanned : Option ℤ → ℤ → ℤ
  scanned none old = old
  scanned (some new) old = new

  -- `vfile_1_store` and `vfile_3_store`: the result of `sscanf` is ignored.
  unfoldable pub store : Writable → List ℕ → ℕ → State → State × ℕ
  store writable_1 buf count s = (record s { vfile_1 = scanned (scan_d buf) s.vfile_1 }, count)
  store writable_3 buf count s = (record s { vfile_3 = scanned (scan_d buf) s.vfile_3 }, count)

  -- Whatever the state, an attribute that is written with the text that it showed before shows
  -- that text again, and each of the four other attributes, the other one that can be written among
  -- them, shows what it showed at the time of the write; a text without a number changes nothing. The write reports its count in both cases.
  pub store-show :
      (w : Writable) (shown s : State) (bad : List ℕ) (count : ℕ)
      → IsInt shown.vfile_1
      → IsInt shown.vfile_3
      → scan_d bad ≡ none
      → let (t, ret) = store w (show (attribute_of w) shown) count s in
        (show (attribute_of w) t ≡ show (attribute_of w) shown)
        × (show (attribute_of (the_other w)) t ≡ show (attribute_of (the_other w)) s)
        × (show vfile_2_attr t ≡ show vfile_2_attr s)
        × (show time_attr t ≡ show time_attr s)
        × (show diff_attr t ≡ show diff_attr s)
        × (ret ≡ count)
        × (store w bad count s ≡ (s, count))
  unfolding show store
  store-show writable_1 shown s bad count a b e =
      (rw (f.scan_d-print_d shown.vfile_1 a) refl, refl, refl, refl, refl, refl, rw e refl)
  store-show writable_3 shown s bad count a b e =
      (rw (f.scan_d-print_d shown.vfile_3 b) refl, refl, refl, refl, refl, refl, rw e refl)

-- The clock shows the time of the day.
clock_lem :
    (tv_sec : ℕ)
    → let (hours, minutes, seconds) = clock tv_sec in
      hours * 3600 + minutes * 60 + seconds ≡ tv_sec % 86400
clock_lem tv_sec = omega arith

pub data Call : Type 0 where
  kobject_create_and_add : Bool → Call
  sysfs_create_group : ℤ → Call
  kobject_put : Call

pub data Resource : Type 0 where
  mysysfs_kobj : Resource

abbrev pub call_effect : Call → Effect Resource
call_effect (kobject_create_and_add created) = if created then acquire mysysfs_kobj else neutral
call_effect (sysfs_create_group result) = neutral
call_effect kobject_put = release mysysfs_kobj

abbrev pub accounting : Accounting Call Resource
accounting = record { effect = call_effect; same = λ r s. true }

-- `my_sysfs_init`, by the kernel's answers, its difference of times and the time: its calls, its
-- result, and the statics.
unfoldable pub my_sysfs_init :
    Bool → ℤ → (Timespec → Timespec → Timespec) → Timespec → State → List Call × ℤ × State
my_sysfs_init created result timespec64_sub now s =
    if not created
    then (kobject_create_and_add created ∷ [], neg_errno enomem, s)
    else (if is_nonzero result
        then (
          kobject_create_and_add created ∷ sysfs_create_group result ∷ kobject_put ∷ [],
          result,
          s,
        )
        else (
          kobject_create_and_add created ∷ sysfs_create_group result ∷ [],
          result,
          record s { ts_last = now; ts_diff = timespec64_sub now now },
        ))

-- `my_sysfs_exit`.
unfoldable pub my_sysfs_exit : List Call
my_sysfs_exit = kobject_put ∷ []

-- An initialisation that returns an error holds nothing at its end; one that returns 0 holds its
-- kobject, and nothing after the exit.
pub my_sysfs_lifetime :
    (created : Bool) (result : ℤ) (timespec64_sub : Timespec → Timespec → Timespec) (now : Timespec)
    (s : State)
    → let (calls, ret, t) = my_sysfs_init created result timespec64_sub now s in
      (held_after accounting calls [] ≡ some (if is_nonzero ret then [] else mysysfs_kobj ∷ []))
      × (held_after accounting (calls ++ (if is_nonzero ret then [] else my_sysfs_exit)) []
          ≡ some [])
unfolding my_sysfs_init my_sysfs_exit
my_sysfs_lifetime false result timespec64_sub now s = (refl, refl)
my_sysfs_lifetime true (pos zero) timespec64_sub now s = (refl, refl)
my_sysfs_lifetime true (pos (suc n)) timespec64_sub now s = (refl, refl)
my_sysfs_lifetime true (negsuc n) timespec64_sub now s = (refl, refl)
