-- ===== src/Tests/Scheduling.antt =====
-- Two processes, of which one runs and one waits for the processor.
use oslabcode.Prelude.{
  ℕ, ◌+◌, ◌-◌, ◌/◌, ◌%◌, ◌^◌, ◌≤◌, ◌<◌, ◌≡◌, ◌≢◌, refl, true, some, [], ◌∷◌, arith, ltb, ◌==◌, ◌||◌,
  if◌then◌else◌, update, ok,
}
use oslabcode.Proc.{Proc, Procs, uninit, sleeping, runnable}
use oslabcode.SkewHeap.{Tree, null, node, tree_count, skew_heap_remove}
use oslabcode.SkewHeap.Order.{IsHeap, IsHeap-remove}
use oslabcode.Sched.{RunQueue, Kernel, schedule, wakeup_proc}
use oslabcode.Sched.Invariant.{IsSound, wakeup_proc-IsSound}
use oslabcode.Sched.Schedule.{Scheduled, schedule-Scheduled}
use oslabcode.Sched.RoundRobin.{default_sched_class}
use oslabcode.Sched.RoundRobin.Laws.{IsRrQueue, rr_laws}
use oslabcode.Sched.RoundRobin.Turns.{IsBusy, schedules, schedules-turn}
use oslabcode.Sched.Stride.{big_stride, stride_comp, stride_pick_next, stride_dequeue}
use oslabcode.Sched.Stride.Compare.{true_comp, stride_comp_lem}
use oslabcode.Sched.Stride.Laws.{InWindow, IsPool, stride_take-least}

-- Process 0 is idle, 1 runs, 2 waits, 3 sleeps, and there is no other.
abbrev pub proc_at : ℕ → Proc
proc_at a = record {
  state =
      if a == 1
      then runnable
      else (if a == 2 then runnable else (if a == 3 then sleeping else uninit));
  wait_state = 0;
  need_resched = true;
  runs = 1;
  time_slice = 3;
  on_rq = a == 2;
  lab6_stride = 7;
  lab6_priority = 2;
}

abbrev pub one_waits : RunQueue
one_waits = record { run_list = 2 ∷ []; proc_num = 1; max_time_slice = 5; lab6_run_pool = null }

one_waits-IsRrQueue : IsRrQueue one_waits proc_at
one_waits-IsRrQueue = record {
  once = λ a. ground arith;
  linked = λ a i. ground arith;
  counted = refl;
}

abbrev pub two_run : Kernel
two_run = record { procs = proc_at; rq = one_waits; current = 1; idleproc = 0 }

pub two_run-IsSound : IsSound default_sched_class rr_laws two_run
unfolding rr_laws
two_run-IsSound = record {
  valid = one_waits-IsRrQueue;
  waiting = λ a i. ground arith;
  kept = λ a r ne. ground arith;
}

schedule_two :
    (k' : Kernel) × (schedule default_sched_class two_run ≡ ok k')
    × Scheduled default_sched_class rr_laws two_run k'
schedule_two = schedule-Scheduled default_sched_class rr_laws two_run two_run-IsSound

wakeup_three :
    (k' : Kernel) × (wakeup_proc default_sched_class two_run 3 ≡ ok k')
    × IsSound default_sched_class rr_laws k'
    × ((k'.procs 3).state ≡ runnable)
    × (k'.current ≡ 1)
    × (k'.idleproc ≡ 0)
    × ((a : ℕ)
        → a ≢ 3
        → ((k'.procs a).state ≡ (proc_at a).state)
          × ((k'.procs a).wait_state ≡ (proc_at a).wait_state))
wakeup_three = wakeup_proc-IsSound default_sched_class rr_laws two_run 3 two_run-IsSound (λ e. cc)

-- Processes 2 and 3 in the pool of the strides, 2 with the lesser stride and above the other.
abbrev pool_strides : ℕ → ℕ
pool_strides a = if a == 2 then 7 else 9

abbrev strided : Procs
strided a = record (proc_at a) { lab6_stride = pool_strides a; on_rq = true }

abbrev two_in_pool : RunQueue
two_in_pool = record one_waits { proc_num = 2; lab6_run_pool = node (node null 3 null) 2 null }

two-IsPool : IsPool (node (node null 3 null) 2 null) strided pool_strides 7
two-IsPool = record {
  window = ((refl, ground arith, ground arith), ((refl, ground arith, ground arith), tt, tt), tt);
  heap = ((ground arith, tt, tt), tt, (tt, tt, tt, tt), tt);
}

stride_take_two :
    (rq' : RunQueue) × (procs' : Procs) × (stride_pick_next two_in_pool strided
      ≡ ok (some 2, procs'))
    × (stride_dequeue two_in_pool procs' 2 ≡ ok (rq', procs'))
    × ((a : ℕ) → 0 < tree_count a (node (node null 3 null) 2 null) → 7 ≤ pool_strides a)
    × IsPool rq'.lab6_run_pool procs' pool_strides 7
    × ((a : ℕ)
        → tree_count a rq'.lab6_run_pool + (if a == 2 then 1 else 0)
          ≡ tree_count a (node (node null 3 null) 2 null))
    × InWindow procs' (update pool_strides 2 (7 + big_stride / 2)) 7 2
stride_take_two =
    stride_take-least two_in_pool strided pool_strides 7 2 (node null 3 null) null refl two-IsPool
      (unfold tree_count in refl) (ground arith) refl (ground arith)

-- The strides 2 ^ 32 - 1 and 2 ^ 32 + 5, of which the second has wrapped.
compare_wrapped :
    stride_comp ((2 ^ 32 - 1) % 2 ^ 32) ((2 ^ 32 + 5) % 2 ^ 32)
    ≡ true_comp (2 ^ 32 - 1) (2 ^ 32 + 5)
compare_wrapped = stride_comp_lem (2 ^ 32 - 1) (2 ^ 32 + 5) (ground arith) (ground arith)

abbrev three_nodes : Tree
three_nodes = node (node null 5 null) 2 (node null 4 null)

remove-IsHeap :
    IsHeap (λ a. a) (skew_heap_remove ltb three_nodes 4)
    × ((c : ℕ)
        → tree_count c (skew_heap_remove ltb three_nodes 4) + (if c == 4 then 1 else 0)
          ≡ tree_count c three_nodes)
remove-IsHeap =
    IsHeap-remove ltb (λ a. a) (λ _. Unit) (λ a b _ _. refl) 4 three_nodes
      (tt, (tt, tt, tt), (tt, tt, tt))
      ((ground arith, tt, tt), (ground arith, tt, tt), (tt, tt, tt, tt), (tt, tt, tt, tt))
      (unfold tree_count in ground arith)

-- Processes 1 to 3 are runnable, and 2 and 3 wait in this order.
abbrev three_run : Kernel
three_run = record {
  procs = λ a. record (proc_at a) { state = runnable; on_rq = a == 2 || a == 3 };
  rq = record one_waits { run_list = 2 ∷ 3 ∷ []; proc_num = 2 };
  current = 1;
  idleproc = 0;
}

three_run-IsBusy : IsBusy three_run
three_run-IsBusy = record {
  valid = record { once = λ a. ground arith; linked = λ a i. ground arith; counted = refl };
  apart = refl;
  able = λ a i. (refl, ground arith);
}

third_turn : (k' : Kernel) × (schedules 2 three_run ≡ ok k') × IsBusy k' × (k'.current ≡ 3)
third_turn = schedules-turn (2 ∷ []) three_run 3 [] three_run-IsBusy refl
