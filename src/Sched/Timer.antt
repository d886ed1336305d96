-- ===== src/Sched/Timer.antt =====
-- The timer list of labcode/lab8/kern/schedule/sched.c and sched.h: each timer holds the ticks from
-- the timer before it.
pub mod Deadlines
use oslabcode.Prelude.{
  ℕ, zero, suc, ◌+◌, ◌-◌, ◌*◌, ◌/◌, ◌%◌, ◌^◌, ◌≤◌, ◌<◌, ◌≡◌, ◌≢◌, refl, sym, ap, ◌∙◌, ◌↔◌, ◌⊎◌, inl,
  inr, Bool, true, false, not, ◌&&◌, ◌||◌, Option, none, some, List, [], ◌∷◌, ◌++◌, map,
  append_assoc, append-nil, arith, ltb, leb, ◌==◌, if◌then◌else◌, ltb→lt, lt→ltb, le→ltb, ==_iff,
  Bool-cases, Option-cases, update, ◌>>=◌, ◌>>◌, assert, Run, ok, panic, out_of_fuel, length,
  length-append, count, count-append, Distinct, fun_ext, min,
}
use oslabcode.Proc.{Proc, Procs, is_interruptible}
use oslabcode.Sched.{SchedClass, Kernel, wakeup_proc, sched_class_proc_tick}

-- `timer_t`; the link is the place in `timer_list`.
pub record Timer : Type 0 where
  pub expires : ℕ
  pub proc : ℕ

-- The timers at their addresses, and the sequence that `timer_list` links.
pub record Timers : Type 0 where
  pub timer : ℕ → Timer
  pub timer_list : List ℕ

abbrev pub set_expires : (ℕ → Timer) → ℕ → ℕ → ℕ → Timer
set_expires timer t e = update timer t (record (timer t) { expires = e })

-- `unsigned int expires` is set from an `int`.
unfoldable pub timer_init : Timers → (t proc expires : ℕ) → Timers
timer_init ts t proc expires = record ts {
  timer = update ts.timer t (record { expires = expires % 2 ^ 32; proc = proc });
}

-- The walk of `add_timer` from an entry of the list on.
unfoldable pub add_walk : (ℕ → Timer) → ℕ → List ℕ → (ℕ → Timer) × List ℕ
add_walk timer t [] = (timer, t ∷ [])
add_walk timer t (u ∷ us) =
    let later = add_walk (set_expires timer t ((timer t).expires - (timer u).expires)) t us in
    if ltb (timer t).expires (timer u).expires
    then (set_expires timer u ((timer u).expires - (timer t).expires), t ∷ u ∷ us)
    else (later.0, u ∷ later.1)

-- A timer is for a process, so `timer->proc != NULL` holds of every number.
unfoldable pub add_timer : Timers → ℕ → Run Timers
unfolding add_walk
add_timer ts t = do
  assert (ltb 0 (ts.timer t).expires)
  assert (not (ltb 0 (count t ts.timer_list)))
  let (timer, list) = add_walk ts.timer t ts.timer_list
  ok (record { timer = timer; timer_list = list })

-- The deletion from an entry of the list on: the ticks go to the next timer.
unfoldable pub del_walk : (ℕ → Timer) → ℕ → List ℕ → (ℕ → Timer) × List ℕ
del_walk timer t [] = (timer, [])
del_walk timer t (u ∷ []) = if t == u then (timer, []) else (timer, u ∷ [])
del_walk timer t (u ∷ v ∷ us) =
    let later = del_walk timer t (v ∷ us) in
    if t == u
    then (
      if (timer t).expires == 0
          then timer
          else set_expires timer v (((timer v).expires + (timer t).expires) % 2 ^ 32),
      v ∷ us,
    )
    else (later.0, u ∷ later.1)

unfoldable pub del_timer : Timers → ℕ → Timers
unfolding del_walk
del_timer ts t =
    let (timer, list) = del_walk ts.timer t ts.timer_list in
    record { timer = timer; timer_list = list }

module _ (cls : SchedClass) where
  -- The loop of `run_timer_list` from the timers `us` on, which the list links.
  unfoldable pub run_expired : List ℕ → Timers → Kernel → Run (Timers × Kernel)
  unfolding del_timer
  run_expired [] ts k = ok (ts, k)
  run_expired (t ∷ us) ts k =
      let fired = (do
        let proc = (ts.timer t).proc
        assert ((k.procs proc).wait_state == 0 || is_interruptible (k.procs proc).wait_state)
        k' ← wakeup_proc cls k proc
        run_expired us (del_timer ts t) k') in
      if (ts.timer t).expires == 0 then fired else ok (ts, k)

  -- The first part of `run_timer_list`: the tick of the first timer.
  unfoldable pub tick_first : Timers → Kernel → Run (Timers × Kernel)
  unfolding run_expired
  tick_first ts k = elim ts.timer_list [
    | [] ↦ ok (ts, k)
    | t ∷ us ↦ do
      assert (not ((ts.timer t).expires == 0))
      run_expired (t ∷ us) (record ts { timer = set_expires ts.timer t ((ts.timer t).expires - 1) })
          k
  ]

  -- `current` is set once the system runs.
  unfoldable pub run_timer_list : Timers → Kernel → Run (Timers × Kernel)
  unfolding tick_first
  run_timer_list ts k = do
    (ts', k') ← tick_first ts k
    ok (ts', sched_class_proc_tick cls k' k'.current)
