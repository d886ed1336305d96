-- ===== src/Sched/Exit.antt =====
-- The end of a process: do_exit of labcode/lab8/kern/process/proc.c. A memory that is given back, by
-- exit_mmap, put_pgdir and mm_destroy, and open files that are destroyed are put into a list.
pub mod Woke
pub mod Adopt
pub mod Ended
use oslabcode.Prelude.{
  ℕ, zero, suc, ◌+◌, ◌-◌, ◌*◌, ◌/◌, ◌%◌, ◌^◌, ◌≤◌, ◌<◌, ◌≡◌, ◌≢◌, refl, sym, ap, ◌∙◌, ◌↔◌, ◌⊎◌, inl,
  inr, Bool, true, false, not, ◌&&◌, ◌||◌, Option, none, some, List, [], ◌∷◌, ◌++◌, map,
  append_assoc, append-nil, arith, ltb, leb, ◌==◌, if◌then◌else◌, ltb→lt, lt→ltb, le→ltb, ==_iff,
  Bool-cases, Option-cases, update, ◌>>=◌, ◌>>◌, assert, Run, ok, panic, out_of_fuel, length,
  chain_ok, e_inval, e_no_mem, e_busy, e_max_open, count, count-append, Distinct, fun_ext, min,
}
use mathlib.Core.Path.{subst}
use oslabcode.Proc.{Proc, zombie, runnable, is_zombie, modify, wt_child}
use oslabcode.Sched.{SchedClass, Kernel, wakeup_proc, schedule}
use oslabcode.Sched.Family.{Family}

-- The processes with the codes that they leave, their memories and their open files, of which 0 is
-- `NULL`, and those that are given back, the last one first.
pub record Processes : Type 0 where
  pub family : Family
  pub kernel : Kernel
  pub exit_code : ℕ → ℕ
  pub mm : ℕ → ℕ
  pub mm_count : ℕ → ℕ
  pub given_back : List ℕ
  pub filesp : ℕ → ℕ
  pub files_count : ℕ → ℕ
  pub destroyed : List ℕ

-- An `int` that is lowered by 1.
abbrev pub one_less : ℕ → ℕ
one_less n = (n + 2 ^ 32 - 1) % 2 ^ 32

unfoldable pub put_files : Processes → ℕ → Processes
put_files e proc =
    let filesp = e.filesp proc in
    let count = one_less (e.files_count filesp) in
    if filesp == 0 then e else record e {
      files_count = update e.files_count filesp count;
      destroyed = if count == 0 then filesp ∷ e.destroyed else e.destroyed;
    }

-- The first part of `do_exit`.
unfoldable pub exit_memory : Processes → ℕ → Processes
unfolding put_files
exit_memory e proc =
    let mm = e.mm proc in
    let count = one_less (e.mm_count mm) in
    if mm == 0
    then e
    else put_files
        (record e {
          mm_count = update e.mm_count mm count;
          given_back = if count == 0 then mm ∷ e.given_back else e.given_back;
          mm = update e.mm proc 0;
        })
        proc

-- The pointers when `initproc` takes over the youngest child of a process.
unfoldable pub adopt : Family → (current initproc : ℕ) → Family
adopt s current initproc =
    let proc = s.cptr current in
    let cptr = update s.cptr current (s.optr proc) in
    let older = cptr initproc in
    let yptr = update s.yptr proc 0 in
    record s {
      cptr = update cptr initproc proc;
      yptr = if older == 0 then yptr else update yptr older proc;
      optr = update s.optr proc older;
      parent = update s.parent proc initproc;
    }

module _ (cls : SchedClass) where
  -- A process that waits for a child is woken.
  unfoldable pub wakeup_waiting : Kernel → ℕ → Run Kernel
  wakeup_waiting k proc =
      if (k.procs proc).wait_state == wt_child then wakeup_proc cls k proc else ok k

  -- The loop of `do_exit` over the children, with a bound on its rounds.
  unfoldable pub give_children :
      (rounds : ℕ) → (current initproc : ℕ) → Family → Kernel → Run (Family × Kernel)
  give_children zero current initproc s k = out_of_fuel
  give_children (suc n) current initproc s k = if s.cptr current == 0 then ok (s, k) else (do
    k1 ← (if is_zombie (k.procs (s.cptr current)).state then wakeup_waiting k initproc else ok k)
    give_children n current initproc (adopt s current initproc) k1)

  -- `do_exit`: the process does not run again, and what is given is where the next one goes on.
  unfoldable pub do_exit : (rounds initproc : ℕ) → Processes → (error_code : ℕ) → Run Processes
  do_exit rounds initproc e error_code = do
    let k = e.kernel
    let current = k.current
    assert (not (current == k.idleproc))
    assert (not (current == initproc))
    let k1 = record k { procs = modify k.procs current (λ p. record p { state = zombie }) }
    k2 ← wakeup_waiting k1 (e.family.parent current)
    (s, k3) ← give_children rounds current initproc e.family k2
    k4 ← schedule cls k3
    ok (record (exit_memory e current) {
      family = s;
      kernel = k4;
      exit_code = update e.exit_code current error_code;
    })
