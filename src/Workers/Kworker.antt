-- ===== src/Workers/Kworker.antt =====
-- kworker/kworker_demo.c over the kernel's work queue, which is a parameter.
use linux_device_drivers.Common.{
  ℕ, zero, suc, ◌+◌, ◌≡◌, refl, sym, ◌∙◌, Bool, true, false, inl, inr, Bool-cases, if◌then◌else◌, ℤ,
  pos,
}

-- The system's work queue, as far as it concerns one work item: whether the item waits, and how
-- often its function has run. `schedule_work` refuses an item that waits; a worker takes an item
-- that waits and runs its function; `flush_scheduled_work` returns when nothing waits.
pub record WorkQueue : Type 1 where
  pub Queue : Type 0
  pub waits : Queue → Bool
  pub runs : Queue → ℕ
  pub schedule_work : Queue → Queue × Bool
  pub worker : Queue → Queue
  pub flush_scheduled_work : Queue → Queue
  pub schedule-refuses : (q : Queue) → waits q ≡ true → schedule_work q ≡ (q, false)
  pub schedule-takes :
      (q : Queue)
      → waits q ≡ false
      → (waits (schedule_work q).0 ≡ true)
        × (runs (schedule_work q).0 ≡ runs q)
        × ((schedule_work q).1 ≡ true)
  pub worker_runs :
      (q : Queue) → waits q ≡ true → (waits (worker q) ≡ false) × (runs (worker q) ≡ runs q + 1)
  pub worker_idles : (q : Queue) → waits q ≡ false → worker q ≡ q
  pub flush_runs :
      (q : Queue)
      → waits q ≡ true
      → (waits (flush_scheduled_work q) ≡ false) × (runs (flush_scheduled_work q) ≡ runs q + 1)
  pub flush_idles : (q : Queue) → waits q ≡ false → flush_scheduled_work q ≡ q

-- The line that `mod_init` logs.
pub data Logged : Type 0 where
  schedule_work_failed schedule_work_successful : Logged

module _ (w : WorkQueue) where
  open w use {Queue, waits, runs, schedule_work, worker, flush_scheduled_work}

  -- `mod_init`: the queue, the line and the result.
  unfoldable pub mod_init : Queue → Queue × Logged × ℤ
  mod_init q =
      let (q', queued) = schedule_work q in
      (q', (if queued then schedule_work_successful else schedule_work_failed), pos 0)

  -- `mod_exit`.
  unfoldable pub mod_exit : Queue → Queue
  mod_exit q = flush_scheduled_work q

  -- The worker's rounds between the two.
  abbrev pub work : ℕ → Queue → Queue
  work zero q = q
  work (suc rounds) q = work rounds (worker q)

  -- How often the function will have run once nothing waits.
  abbrev due : Queue → ℕ
  due q = if waits q then runs q + 1 else runs q

  worker-due : (q : Queue) → due (worker q) ≡ due q
  worker-due q = elim (Bool-cases (waits q)) [
    | inl waiting ↦ let (idle, ran) = w.worker_runs q waiting in rw (waiting, idle, ran) refl
    | inr idle ↦ rw (w.worker_idles q idle) refl
  ]

  work-due : (rounds : ℕ) (q : Queue) → due (work rounds q) ≡ due q
  work-due zero q = refl
  work-due (suc rounds) q = work-due rounds (worker q) ∙ worker-due q

  flush-due :
      (q : Queue)
      → (waits (flush_scheduled_work q) ≡ false) × (runs (flush_scheduled_work q) ≡ due q)
  flush-due q = elim (Bool-cases (waits q)) [
    | inl waiting ↦ rw waiting (w.flush_runs q waiting)
    | inr idle ↦ rw (w.flush_idles q idle) (idle, sym (rw idle refl))
  ]

  -- A module that is loaded while its item does not wait logs success; and after its exit, whatever
  -- the worker did before, the function has run exactly once more and nothing waits, so that no
  -- worker calls a module that is gone.
  pub mod_init-exit :
      (rounds : ℕ) (q : Queue)
      → waits q ≡ false
      → let (q', logged, ret) = mod_init q in
        let last = mod_exit (work rounds q') in
        (logged ≡ schedule_work_successful)
        × (ret ≡ pos 0)
        × (waits last ≡ false)
        × (runs last ≡ runs q + 1)
  unfolding mod_init mod_exit
  mod_init-exit rounds q idle =
      let (waiting, ran, queued) = w.schedule-takes q idle in
      let q' = (schedule_work q).0 in
      let (done, total) = flush-due (work rounds q') in
      (rw queued refl, refl, done, total ∙ work-due rounds q' ∙ rw (waiting, ran) refl)
