-- ===== src/Tests/Waiting.antt =====
-- A process that waits for a semaphore.
use oslabcode.Prelude.{
  ◌≡◌, refl, true, false, [], ◌∷◌, arith, ◌==◌, ◌||◌, update, if◌then◌else◌, ok,
}
use oslabcode.Proc.{uninit, sleeping, runnable, wt_ksem}
use oslabcode.SkewHeap.{null}
use oslabcode.Sched.{Kernel}
use oslabcode.Sched.Invariant.{IsSound}
use oslabcode.Sched.RoundRobin.{default_sched_class}
use oslabcode.Sched.RoundRobin.Laws.{rr_laws}
use oslabcode.Wait.{Sync, wakeup_queue}
use oslabcode.Wait.Semaphore.{up, down_end}
use oslabcode.Wait.Wakeup.{IsWaiting, AllWoken, up-first, wakeup_queue-all}

-- Process 0 is idle, 1 runs, and 3 sleeps for the semaphore with the queue 80, by the entry 30.
abbrev waiting_kernel : Kernel
waiting_kernel = record {
  procs = λ a. record {
    state = if a == 1 then runnable else (if a == 3 then sleeping else uninit);
    wait_state = if a == 3 then wt_ksem else 0;
    need_resched = false;
    runs = 1;
    time_slice = 3;
    on_rq = false;
    lab6_stride = 0;
    lab6_priority = 1;
  };
  rq = record { run_list = []; proc_num = 0; max_time_slice = 5; lab6_run_pool = null };
  current = 1;
  idleproc = 0;
}

abbrev waiting : Sync
waiting = record {
  wait = λ w. record { proc = 3; wakeup_flags = 0x8000_0000; wait_queue = 80; linked = w == 30 };
  queue = λ q. if q == 80 then 30 ∷ [] else [];
  kernel = waiting_kernel;
}

waiting_kernel-IsSound : IsSound default_sched_class rr_laws waiting_kernel
unfolding rr_laws
waiting_kernel-IsSound = record {
  valid = record { once = λ a. ground arith; linked = λ a i. ground arith; counted = refl };
  waiting = λ a i. absurd (ground arith);
  kept = λ a r ne. ground arith;
}

waiting-IsWaiting : IsWaiting waiting 80 (30 ∷ [])
waiting-IsWaiting = record {
  entries = refl;
  once = λ a. ground arith;
  linked = λ w i. (ground arith, refl, λ e. cc);
}

up_one :
    (s' : Sync) × (up default_sched_class waiting (record { value = 0; wait_queue = 80 })
      ≡ ok (record { value = 0; wait_queue = 80 }, s'))
    × IsSound default_sched_class rr_laws s'.kernel
    × IsWaiting s' 80 []
    × ((s'.kernel.procs 3).state ≡ runnable)
    × (down_end s' (record { value = 0; wait_queue = 80 }) 30 wt_ksem ≡ ok (0, s'))
up_one =
    up-first default_sched_class rr_laws waiting (record { value = 0; wait_queue = 80 }) 30 []
      waiting_kernel-IsSound waiting-IsWaiting refl

-- Process 4 sleeps too, by the entry 40 behind 30.
abbrev two_waiting : Sync
two_waiting = record {
  wait = λ w. record {
    proc = if w == 40 then 4 else 3;
    wakeup_flags = 0x8000_0000;
    wait_queue = 80;
    linked = w == 30 || w == 40;
  };
  queue = λ q. if q == 80 then 30 ∷ 40 ∷ [] else [];
  kernel = record waiting_kernel { procs = update waiting_kernel.procs 4 (waiting_kernel.procs 3) };
}

two_waiting-IsSound : IsSound default_sched_class rr_laws two_waiting.kernel
unfolding rr_laws
two_waiting-IsSound = record {
  valid = record { once = λ a. ground arith; linked = λ a i. ground arith; counted = refl };
  waiting = λ a i. absurd (ground arith);
  kept = λ a r ne. ground arith;
}

two_waiting-IsWaiting : IsWaiting two_waiting 80 (30 ∷ 40 ∷ [])
two_waiting-IsWaiting = record {
  entries = refl;
  once = λ a. ground arith;
  linked = λ w i. ground arith;
}

wakeup_two :
    (s' : Sync) × (wakeup_queue default_sched_class two_waiting 80 wt_ksem true ≡ ok s')
    × AllWoken default_sched_class rr_laws two_waiting 80 (30 ∷ 40 ∷ []) wt_ksem s'
wakeup_two =
    wakeup_queue-all default_sched_class rr_laws two_waiting 80 wt_ksem (30 ∷ 40 ∷ [])
      two_waiting-IsSound two_waiting-IsWaiting
