-- ===== src/Wait/Semaphore.antt =====
-- The semaphores of labcode/lab8/kern/sync/sem.c. A call that blocks is cut at `schedule`: what it
-- does before, and what it does when the process runs again.
use oslabcode.Prelude.{
  ℕ, ◌+◌, ◌-◌, Bool, true, false, none, some, ltb, ◌==◌, if◌then◌else◌, ◌>>=◌, ◌>>◌, assert, Run,
  ok,
}
use oslabcode.Proc.{wt_ksem}
use oslabcode.Sched.{SchedClass}
use oslabcode.Wait.{
  Sync, wait_queue_init, wait_queue_first, wakeup_wait, wait_current_set, wait_current_del,
}

-- `semaphore_t`: its counter, and the queue at its address.
pub record Semaphore : Type 0 where
  pub value : ℕ
  pub wait_queue : ℕ

-- The semaphore of a value, with its queue emptied.
unfoldable pub sem_init : Sync → Semaphore → ℕ → Semaphore × Sync
unfolding wait_queue_init
sem_init s sem value = (record sem { value = value }, wait_queue_init s sem.wait_queue)

module _ (cls : SchedClass) where
  -- `__up`
  unfoldable pub up_with : Sync → Semaphore → (wait_state : ℕ) → Run (Semaphore × Sync)
  unfolding wait_queue_first wakeup_wait
  up_with s sem wait_state = elim (wait_queue_first s sem.wait_queue) [
    | none ↦ ok (record sem { value = sem.value + 1 }, s)
    | some w ↦ do
      assert ((s.kernel.procs (s.wait w).proc).wait_state == wait_state)
      s' ← wakeup_wait cls s sem.wait_queue w wait_state true
      ok (sem, s')
  ]

  unfoldable pub up : Sync → Semaphore → Run (Semaphore × Sync)
  unfolding up_with
  up s sem = up_with s sem wt_ksem

-- `__down` up to `schedule`, with the entry at `wait`: whether the process passes at once.
unfoldable pub down_begin : Sync → Semaphore → (wait wait_state : ℕ) → Run (Bool × Semaphore × Sync)
unfolding wait_current_set
down_begin s sem wait wait_state =
    if ltb 0 sem.value
    then ok (true, record sem { value = sem.value - 1 }, s)
    else (do s' ← wait_current_set s sem.wait_queue wait wait_state; ok (false, sem, s'))

-- `__down` behind `schedule`, with its result.
unfoldable pub down_end : Sync → Semaphore → (wait wait_state : ℕ) → Run (ℕ × Sync)
unfolding wait_current_del
down_end s sem wait wait_state = do
  s' ← wait_current_del s sem.wait_queue wait
  let flags = (s'.wait wait).wakeup_flags
  ok (if flags == wait_state then 0 else flags, s')

unfoldable pub try_down : Semaphore → Bool × Semaphore
try_down sem =
    if ltb 0 sem.value then (true, record sem { value = sem.value - 1 }) else (false, sem)
