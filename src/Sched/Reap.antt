-- ===== src/Sched/Reap.antt =====
-- Waiting for a child: do_wait of labcode/lab8/kern/process/proc.c. It is cut at schedule(): a call
-- that has to wait is what it does before, and `wait_again` is what it does later. The memory of the
-- child process, its stack and control block, is freed at the end, which is left out.
pub mod Siblings
pub mod Outcome
use oslabcode.Prelude.{
  ℕ, zero, suc, ◌+◌, ◌-◌, ◌*◌, ◌/◌, ◌%◌, ◌^◌, ◌≤◌, ◌<◌, ◌≡◌, ◌≢◌, refl, sym, ap, ◌∙◌, ◌↔◌, ◌⊎◌, inl,
  inr, Bool, true, false, not, ◌&&◌, ◌||◌, Option, none, some, List, [], ◌∷◌, ◌++◌, map,
  append_assoc, append-nil, arith, ltb, leb, ◌==◌, if◌then◌else◌, ltb→lt, lt→ltb, le→ltb, ==_iff,
  Bool-cases, Option-cases, update, ◌>>=◌, ◌>>◌, assert, Run, ok, panic, out_of_fuel, length,
  chain_ok, e_inval, e_no_mem, e_busy, e_max_open, count, count-append, Distinct, fun_ext, min,
}
use oslabcode.Proc.{sleeping, is_zombie, modify, wt_child}
use oslabcode.Sched.{SchedClass, Kernel}
use oslabcode.Sched.Family.{Family, pid_hashfn, find_proc, remove_links, e_killed}
use oslabcode.Sched.Exit.{Processes, do_exit}

-- How a call of `do_wait` ends, or that the process is to wait. `reaped` has the child and what is
-- stored at `code_store`.
pub data Waited : Type 0 where
  bad_address no_child : Waited
  asleep : Processes → Waited
  reaped : (proc code : ℕ) → Processes → Waited
  exited : Processes → Waited

-- The list of a hash chain without an entry.
unfoldable pub without : ℕ → List ℕ → List ℕ
without proc [] = []
without proc (p ∷ ps) = if p == proc then ps else p ∷ without proc ps

-- `unhash_proc`: an entry stands in the chain of its pid.
unfoldable pub unhash_proc : Family → ℕ → Family
unhash_proc s proc =
    let h = pid_hashfn (s.pid proc) in
    record s { hash_list = update s.hash_list h (without proc (s.hash_list h)) }

-- The loop over the children from `proc` on: the first zombie, and whether there is a child.
unfoldable pub find_zombie :
    (rounds : ℕ) → Family → Kernel → (proc : ℕ) → (haskid : Bool) → Run (Bool × Option ℕ)
find_zombie zero s k proc haskid = out_of_fuel
find_zombie (suc n) s k proc haskid =
    let rest = find_zombie n s k (s.optr proc) true in
    if proc == 0
    then ok (haskid, none)
    else (if is_zombie (k.procs proc).state then ok (true, some proc) else rest)

-- The child that `do_wait` finds, by its pid or among all.
unfoldable pub find_child : (rounds : ℕ) → Family → Kernel → (pid : ℕ) → Run (Bool × Option ℕ)
find_child rounds s k pid =
    if pid == 0 then find_zombie rounds s k (s.cptr k.current) false else elim (find_proc s pid) [
      | none ↦ ok (false, none)
      | some proc ↦ ok (
        s.parent proc == k.current,
        if s.parent proc == k.current && is_zombie (k.procs proc).state then some proc else none,
      )
    ]

-- What follows the label `found`.
unfoldable pub reap : (initproc : ℕ) → Processes → ℕ → Run Waited
reap initproc e proc = do
  assert (not (proc == e.kernel.idleproc || proc == initproc))
  ok (
      reaped proc (e.exit_code proc)
        (record e { family = remove_links (unhash_proc e.family proc) proc }))

-- From the label `repeat` on.
unfoldable pub wait_repeat : (rounds initproc : ℕ) → Processes → (pid : ℕ) → Run Waited
wait_repeat rounds initproc e pid = do
  let k = e.kernel
  (haskid, found) ← find_child rounds e.family k pid
  elim found [
    | some proc ↦ reap initproc e proc
    | none ↦ ok (
        if haskid
        then asleep (record e {
          kernel = record k {
            procs =
                modify k.procs k.current
                  (λ p. record p { state = sleeping; wait_state = wt_child });
          };
        })
        else no_child)
  ]

-- `do_wait`: `allowed` says that `code_store` is `NULL` or passes `user_mem_check`.
unfoldable pub do_wait :
    (allowed : Bool) → (rounds initproc : ℕ) → Processes → (pid : ℕ) → Run Waited
do_wait allowed rounds initproc e pid =
    if allowed then wait_repeat rounds initproc e pid else ok bad_address

-- What follows `schedule`.
unfoldable pub wait_again : SchedClass → (rounds initproc : ℕ) → Processes → (pid : ℕ) → Run Waited
wait_again cls rounds initproc e pid =
    if e.family.exiting e.kernel.current
    then (do e' ← do_exit cls rounds initproc e (2 ^ 32 - e_killed); ok (exited e'))
    else wait_repeat rounds initproc e pid
