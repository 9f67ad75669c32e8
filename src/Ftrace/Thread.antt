-- ===== src/Ftrace/Thread.antt =====
-- ftrace/ftrace-direct.c: the state that the thread keeps, its rounds, and initialisation and exit.
-- The trampolines `my_tramp1` and `my_tramp2` are the indices 0 and 1 of `tramps`.
use linux_device_drivers.Common.{
  ℕ, zero, suc, ◌-◌, Option, none, some, List, [], ◌∷◌, if◌then◌else◌, ℤ, pos, is_nonzero,
}

-- The statics `my_tramp` and `t`, and the thread's `ret`.
pub record State : Type 0 where
  pub my_tramp : ℕ
  pub t : ℕ
  pub ret : ℤ

abbrev pub start : State
start = record { my_tramp = 0; t = 0; ret = pos 0 }

-- `modify_ftrace_direct(my_ip, my_tramp, tramps[t])`: the trampoline that is to go, the one that is
-- to come, and the answer.
pub record Modify : Type 0 where
  pub from : ℕ
  pub to : ℕ
  pub answer : ℤ

-- A round of the loop of `simple_thread` whose call is answered in this way; `t ^= 1` is 1 - t.
unfoldable pub thread_round : ℤ → State → State × List Modify
thread_round answer s = if is_nonzero s.ret then (s, []) else (
  record {
    my_tramp = if is_nonzero answer then s.my_tramp else 1 - s.t;
    t = 1 - s.t;
    ret = answer;
  },
  record { from = s.my_tramp; to = 1 - s.t; answer = answer } ∷ [],
)

pub data Call : Type 0 where
  register_ftrace_direct : ℤ → ℕ → Call
  kthread_run kthread_stop : Call
  unregister_ftrace_direct : ℕ → Call

-- `ftrace_direct_init`, by what the registration answers, and `ftrace_direct_exit`.
unfoldable pub ftrace_direct_init : ℤ → List Call × ℤ
ftrace_direct_init ret =
    if is_nonzero ret
    then (register_ftrace_direct ret 0 ∷ [], ret)
    else (register_ftrace_direct ret 0 ∷ kthread_run ∷ [], ret)

unfoldable pub ftrace_direct_exit : State → List Call
ftrace_direct_exit s = kthread_stop ∷ unregister_ftrace_direct s.my_tramp ∷ []

-- `my_direct_func1` and `my_direct_func2`, by what they log: a row of a's and a row of b's.
pub data Logged : Type 0 where
  letters_a letters_b : Logged

abbrev pub my_direct_func1 : Logged
my_direct_func1 = letters_a

abbrev pub my_direct_func2 : Logged
my_direct_func2 = letters_b

-- What a call of `schedule` logs through the trampoline that is set; `tramps` has two.
unfoldable pub direct_call : ℕ → Option Logged
direct_call zero = some my_direct_func1
direct_call (suc zero) = some my_direct_func2
direct_call (suc (suc n)) = none
