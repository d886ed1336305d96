-- ===== src/Sched.antt =====
-- The scheduling core of labcode/lab8/kern/schedule/sched.c over a scheduling class
-- (`struct sched_class` of sched.h). There is one run queue, `__rq`; a queue of entries linked by
-- `list.h` is the sequence of its processes.
pub mod Exit
pub mod Family
pub mod RoundRobin
pub mod Stride
pub mod Reap
pub mod Invariant
pub mod Schedule
pub mod Timer
use oslabcode.Prelude.{
  ℕ, zero, suc, ◌+◌, ◌-◌, ◌*◌, ◌/◌, ◌%◌, ◌^◌, ◌≤◌, ◌<◌, ◌≡◌, ◌≢◌, refl, sym, ap, ◌∙◌, ◌↔◌, ◌⊎◌, inl,
  inr, Bool, true, false, not, ◌&&◌, ◌||◌, Option, none, some, List, [], ◌∷◌, ◌++◌, map,
  append_assoc, append-nil, arith, ltb, leb, ◌==◌, if◌then◌else◌, ltb→lt, lt→ltb, le→ltb, ==_iff,
  Bool-cases, Option-cases, update, ◌>>=◌, ◌>>◌, assert, Run, ok, panic, out_of_fuel, length,
  length-append, count, count-append, Distinct, fun_ext, min,
}
use oslabcode.Proc.{
  Proc, Procs, ProcState, uninit, sleeping, runnable, zombie, is_runnable, is_zombie, modify,
}
use oslabcode.SkewHeap.{Tree, null}

-- `struct run_queue`
pub record RunQueue : Type 0 where
  pub run_list : List ℕ
  pub proc_num : ℕ
  pub max_time_slice : ℕ
  pub lab6_run_pool : Tree

-- `struct sched_class`: the queue and the control blocks after each call.
pub record SchedClass : Type 0 where
  pub init : RunQueue → RunQueue
  pub enqueue : RunQueue → Procs → ℕ → Run (RunQueue × Procs)
  pub dequeue : RunQueue → Procs → ℕ → Run (RunQueue × Procs)
  pub pick_next : RunQueue → Procs → Run (Option ℕ × Procs)
  pub proc_tick : Procs → ℕ → Procs

-- The processes, the run queue, and the globals `current` and `idleproc`.
pub record Kernel : Type 0 where
  pub procs : Procs
  pub rq : RunQueue
  pub current : ℕ
  pub idleproc : ℕ

abbrev pub max_time_slice : ℕ
max_time_slice = 5

module _ (cls : SchedClass) where
  unfoldable pub sched_class_enqueue : Kernel → ℕ → Run Kernel
  sched_class_enqueue k proc =
      if proc == k.idleproc
      then ok k
      else do (rq, procs) ← cls.enqueue k.rq k.procs proc; ok (record k { rq = rq; procs = procs })

  unfoldable pub sched_class_dequeue : Kernel → ℕ → Run Kernel
  sched_class_dequeue k proc = do
    (rq, procs) ← cls.dequeue k.rq k.procs proc
    ok (record k { rq = rq; procs = procs })

  unfoldable pub sched_class_pick_next : Kernel → Run (Option ℕ × Kernel)
  sched_class_pick_next k = do
    (next, procs) ← cls.pick_next k.rq k.procs
    ok (next, record k { procs = procs })

  unfoldable pub sched_class_proc_tick : Kernel → ℕ → Kernel
  sched_class_proc_tick k proc =
      if proc == k.idleproc
      then record k { procs = modify k.procs proc (λ p. record p { need_resched = true }) }
      else record k { procs = cls.proc_tick k.procs proc }

  -- The timer list is `Timer`'s.
  unfoldable pub sched_init : Kernel → Kernel
  sched_init k = record k { rq = cls.init (record k.rq { max_time_slice = max_time_slice }) }

  unfoldable pub wakeup_proc : Kernel → ℕ → Run Kernel
  unfolding sched_class_enqueue
  wakeup_proc k proc = do
    assert (not (is_zombie (k.procs proc).state))
    let awake = record k {
      procs = modify k.procs proc (λ p. record p { state = runnable; wait_state = 0 });
    }
    if is_runnable (k.procs proc).state
        then ok k
        else (if proc == k.current then ok awake else sched_class_enqueue awake proc)

  -- `proc_run`: the context switch itself is the machine's.
  unfoldable pub proc_run : Kernel → ℕ → Kernel
  proc_run k proc = if proc == k.current then k else record k { current = proc }

  -- `schedule` after `next` is chosen.
  unfoldable pub switch_to : Kernel → ℕ → Kernel
  unfolding proc_run
  switch_to k next =
      let ran = record k { procs = modify k.procs next (λ p. record p { runs = p.runs + 1 }) } in
      if next == k.current then ran else proc_run ran next

  unfoldable pub schedule : Kernel → Run Kernel
  unfolding sched_class_enqueue sched_class_dequeue sched_class_pick_next switch_to
  schedule k = do
    let reset = record k {
      procs = modify k.procs k.current (λ p. record p { need_resched = false });
    }
    put ←
        (if is_runnable (reset.procs reset.current).state
          then sched_class_enqueue reset reset.current
          else ok reset)
    (found, picked) ← sched_class_pick_next put
    elim found [
      | none ↦ ok (switch_to picked picked.idleproc)
      | some next ↦ do taken ← sched_class_dequeue picked next; ok (switch_to taken next)
    ]
