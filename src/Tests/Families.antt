-- ===== src/Tests/Families.antt =====
-- A parent with one child, a process that is killed, and a process that ends before its
-- children.
use oslabcode.Prelude.{
  ℕ, ◌+◌, ◌<◌, ◌≡◌, refl, ◌⊎◌, true, false, some, List, [], ◌∷◌, arith, ◌==◌, if◌then◌else◌, ok,
  length,
}
use oslabcode.Proc.{Procs, sleeping, zombie, wt_child}
use oslabcode.Sched.{Kernel}
use oslabcode.Sched.Invariant.{IsSound}
use oslabcode.Sched.RoundRobin.{default_sched_class}
use oslabcode.Sched.RoundRobin.Laws.{rr_laws}
use oslabcode.Sched.Family.{Family, find_proc, e_killed, do_kill, do_kill-do_kill, Siblings}
use oslabcode.Sched.Exit.{Processes, do_exit}
use oslabcode.Sched.Exit.Ended.{Exited, do_exit-Exited}
use oslabcode.Sched.Reap.{do_wait, no_child, asleep}
use oslabcode.Sched.Reap.Outcome.{NoneDead, to_wait, Reaped, do_wait-Reaped}
use oslabcode.Tests.Scheduling.{proc_at, two_run, two_run-IsSound}

-- Process 5 has the child 2; process 3 has the pid 7.
abbrev family : Family
family = record {
  parent = λ _. 5;
  cptr = λ a. if a == 5 then 2 else 0;
  yptr = λ _. 0;
  optr = λ _. 0;
  pid = λ a. if a == 3 then 7 else a;
  exiting = λ _. false;
  proc_list = record { prev = λ a. a; next = λ a. a };
  hash_list = λ _. 3 ∷ [];
  nr_process = 2;
}

family-find_proc : find_proc family 7 ≡ some 3
unfolding find_proc
family-find_proc = refl

kill_twice :
    (s' : Family) × (k' : Kernel) × (do_kill default_sched_class family two_run 7 ≡ ok (0, s', k'))
    × (s'.exiting 3 ≡ true)
    × IsSound default_sched_class rr_laws k'
    × (do_kill default_sched_class s' k' 7 ≡ ok (e_killed, s', k'))
kill_twice =
    do_kill-do_kill default_sched_class rr_laws family two_run 7 3 two_run-IsSound family-find_proc
      refl (λ e. cc)

-- Process 1 runs. Its children are 4, which has ended, and 3; its parent 5 is `initproc`, which waits
-- for a child.
abbrev tree_procs : Procs
tree_procs a = record (proc_at a) {
  state = if a == 4 then zombie else (if a == 5 then sleeping else (proc_at a).state);
  wait_state = if a == 5 then wt_child else 0;
}

abbrev three_levels : Processes
three_levels = record {
  family = record family {
    parent = λ a. if a == 1 then 5 else 1;
    cptr = λ a. if a == 1 then 4 else (if a == 5 then 1 else 0);
    optr = λ a. if a == 4 then 3 else 0;
    yptr = λ a. if a == 3 then 4 else 0;
  };
  kernel = record two_run { procs = tree_procs };
  exit_code = λ a. a + 10;
  mm = λ a. a;
  mm_count = λ _. 1;
  given_back = [];
  filesp = λ a. a;
  files_count = λ _. 2;
  destroyed = [];
}

three_levels-IsSound : IsSound default_sched_class rr_laws three_levels.kernel
unfolding rr_laws
three_levels-IsSound = record {
  valid = record { once = λ a. ground arith; linked = λ a i. ground arith; counted = refl };
  waiting = λ a i. ground arith;
  kept = λ a r ne. ground arith;
}

abbrev children : List ℕ
children = 4 ∷ 3 ∷ []

children-Siblings : Siblings three_levels.family 0 4 children
children-Siblings = (refl, omega arith, refl, (refl, omega arith, refl, refl))

exit_one :
    (e' : Processes) × (do_exit default_sched_class 9 5 three_levels 7 ≡ ok e')
    × Exited default_sched_class rr_laws 5 children (1 ∷ []) three_levels 7 e'
exit_one =
    do_exit-Exited default_sched_class rr_laws 9 5 three_levels 7 children (1 ∷ [])
      three_levels-IsSound (ground arith) (ground arith) (ground arith) (λ dead. cc) (λ dead. cc)
      children-Siblings (refl, omega arith, refl, refl) (λ a. ground arith) (omega arith)

wait_four :
    ((children ≡ []) × (do_wait true 9 5 three_levels 0 ≡ ok no_child))
    ⊎ (((0 < length children)
          × NoneDead three_levels.kernel children
          × (do_wait true 9 5 three_levels 0 ≡ ok (asleep (to_wait three_levels))))
        ⊎ Reaped 9 5 three_levels children)
wait_four =
    do_wait-Reaped 9 5 three_levels children children-Siblings (λ a. ground arith)
      (λ a i. ground arith) (ground arith) (ground arith) (omega arith)
