-- ===== src/Sched/RoundRobin.antt =====
-- The round-robin class of labcode/lab8/kern/schedule/default_sched.c.
pub mod Laws
pub mod Turns
use oslabcode.Prelude.{
  ℕ, zero, suc, ◌+◌, ◌-◌, ◌*◌, ◌/◌, ◌%◌, ◌^◌, ◌≤◌, ◌<◌, ◌≡◌, ◌≢◌, refl, sym, ap, ◌∙◌, ◌↔◌, ◌⊎◌, inl,
  inr, Bool, true, false, not, ◌&&◌, ◌||◌, Option, none, some, List, [], ◌∷◌, ◌++◌, map,
  append_assoc, append-nil, arith, ltb, leb, ◌==◌, if◌then◌else◌, ltb→lt, lt→ltb, le→ltb, ==_iff,
  Bool-cases, Option-cases, update, ◌>>=◌, ◌>>◌, assert, Run, ok, panic, out_of_fuel, length,
  length-append, count, count-append, Distinct, fun_ext, min,
}
use oslabcode.Proc.{Proc, Procs, modify}
use oslabcode.Sched.{RunQueue, SchedClass}

-- Whether the `run_link` of a process is linked.
abbrev pub in_list : ℕ → List ℕ → Bool
in_list p xs = ltb 0 (count p xs)

-- The list without a process, as `list_del_init` leaves it.
unfoldable pub unlink : ℕ → List ℕ → List ℕ
unlink p [] = []
unlink p (x ∷ xs) = if p == x then xs else x ∷ unlink p xs

-- The test and the reset of the slice that both classes make.
unfoldable pub refill : ℕ → Proc → Proc
refill max p =
    if p.time_slice == 0 || ltb max p.time_slice then record p { time_slice = max } else p

-- The tick of both classes.
unfoldable pub tick : Proc → Proc
tick p =
    let slice = if ltb 0 p.time_slice then p.time_slice - 1 else p.time_slice in
    record p { time_slice = slice; need_resched = if slice == 0 then true else p.need_resched }

unfoldable pub rr_init : RunQueue → RunQueue
rr_init rq = record rq { run_list = []; proc_num = 0 }

unfoldable pub rr_enqueue : RunQueue → Procs → ℕ → Run (RunQueue × Procs)
unfolding refill
rr_enqueue rq procs proc = do
  assert (not (in_list proc rq.run_list))
  ok (
    record rq { run_list = rq.run_list ++ proc ∷ []; proc_num = (rq.proc_num + 1) % 2 ^ 32 },
    modify procs proc (λ p. record (refill rq.max_time_slice p) { on_rq = true }),
  )

unfoldable pub rr_dequeue : RunQueue → Procs → ℕ → Run (RunQueue × Procs)
unfolding unlink
rr_dequeue rq procs proc = do
  assert (in_list proc rq.run_list && (procs proc).on_rq)
  ok (
    record rq {
      run_list = unlink proc rq.run_list;
      proc_num = (rq.proc_num + 2 ^ 32 - 1) % 2 ^ 32;
    },
    procs,
  )

unfoldable pub rr_pick_next : RunQueue → Procs → Run (Option ℕ × Procs)
rr_pick_next rq procs = ok (elim rq.run_list [ [] ↦ none | x ∷ xs ↦ some x ], procs)

unfoldable pub rr_proc_tick : Procs → ℕ → Procs
unfolding tick
rr_proc_tick procs proc = modify procs proc tick

abbrev pub default_sched_class : SchedClass
default_sched_class = record {
  init = rr_init;
  enqueue = rr_enqueue;
  dequeue = rr_dequeue;
  pick_next = rr_pick_next;
  proc_tick = rr_proc_tick;
}
