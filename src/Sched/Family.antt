-- ===== src/Sched/Family.antt =====
-- The relations and the table of processes, and the calls that end, yield and delay them, of
-- labcode/lab8/kern/process/proc.c.
use oslabcode.Prelude.{
  ℕ, ◌+◌, ◌-◌, ◌*◌, ◌/◌, ◌%◌, ◌^◌, ◌<◌, ◌≡◌, ◌≢◌, refl, sym, ◌∙◌, inl, inr, Bool, true, false, ◌&&◌,
  Option, none, some, List, [], ◌∷◌, arith, ltb, ◌==◌, if◌then◌else◌, Bool-cases, update, ◌>>=◌,
  Run, ok, e_inval, count, Distinct,
}
use mathlib.Core.Path.{subst}
use oslabcode.Links.{Links, list_add, list_del}
use oslabcode.Proc.{sleeping, zombie, modify, wt_timer, is_interruptible}
use oslabcode.Sched.{SchedClass, Kernel, wakeup_proc}
use oslabcode.Sched.Invariant.{ClassLaws, IsSound, wakeup_proc-IsSound}
use oslabcode.Sched.Timer.{Timers, timer_init, add_timer}

-- The pointers between processes, of which 0 is `NULL`, the list of all processes with its head at
-- 0, the hash lists as sequences, and the flag PF_EXITING.
pub record Family : Type 0 where
  pub parent : ℕ → ℕ
  pub cptr : ℕ → ℕ
  pub yptr : ℕ → ℕ
  pub optr : ℕ → ℕ
  pub pid : ℕ → ℕ
  pub exiting : ℕ → Bool
  pub proc_list : Links
  pub hash_list : ℕ → List ℕ
  pub nr_process : ℕ

unfoldable pub set_links : Family → ℕ → Family
set_links s proc =
    let q = s.parent proc in
    let older = s.cptr q in
    let yptr = update s.yptr proc 0 in
    record s {
      proc_list = list_add s.proc_list 0 proc;
      optr = update s.optr proc older;
      yptr = if older == 0 then yptr else update yptr older proc;
      cptr = update s.cptr q proc;
      nr_process = s.nr_process + 1;
    }

unfoldable pub remove_links : Family → ℕ → Family
remove_links s proc =
    let older = s.optr proc in
    let yptr = if older == 0 then s.yptr else update s.yptr older (s.yptr proc) in
    record s {
      proc_list = list_del s.proc_list proc;
      yptr = yptr;
      optr = if yptr proc == 0 then s.optr else update s.optr (yptr proc) older;
      cptr = if yptr proc == 0 then update s.cptr (s.parent proc) older else s.cptr;
      nr_process = s.nr_process - 1;
    }

abbrev pub max_pid : ℕ
max_pid = 8192

-- `pid_hashfn`, with `hash32` of libs/hash.c.
abbrev pub pid_hashfn : ℕ → ℕ
pid_hashfn pid = (pid * 0x9e37_0001) % 2 ^ 32 / 2 ^ 22

unfoldable pub hash_proc : Family → ℕ → Family
hash_proc s proc =
    let h = pid_hashfn (s.pid proc) in
    record s { hash_list = update s.hash_list h (proc ∷ s.hash_list h) }

-- The loop of `find_proc`.
unfoldable pub find_pid : (ℕ → ℕ) → ℕ → List ℕ → Option ℕ
find_pid pid_of pid [] = none
find_pid pid_of pid (p ∷ ps) = if pid_of p == pid then some p else find_pid pid_of pid ps

unfoldable pub find_proc : Family → ℕ → Option ℕ
unfolding find_pid
find_proc s pid =
    if ltb 0 pid && ltb pid max_pid then find_pid s.pid pid (s.hash_list (pid_hashfn pid)) else none

unfoldable pub do_yield : Kernel → Kernel
do_yield k = record k { procs = modify k.procs k.current (λ p. record p { need_resched = true }) }

unfoldable pub lab6_set_priority : Kernel → ℕ → Kernel
lab6_set_priority k priority = record k {
  procs =
      modify k.procs k.current
        (λ p. record p { lab6_priority = if priority == 0 then 1 else priority });
}

-- `do_sleep` up to `schedule`, with the timer at `timer`; what follows is `del_timer`.
unfoldable pub do_sleep : Timers → Kernel → (timer time : ℕ) → Run (Timers × Kernel)
do_sleep ts k timer time = if time == 0 then ok (ts, k) else (do
  let ts' = timer_init ts timer k.current time
  let k' = record k {
    procs = modify k.procs k.current (λ p. record p { state = sleeping; wait_state = wt_timer });
  }
  ts'' ← add_timer ts' timer
  ok (ts'', k'))

abbrev pub e_killed : ℕ
e_killed = 9

module _ (cls : SchedClass) where
  unfoldable pub do_kill : Family → Kernel → ℕ → Run (ℕ × Family × Kernel)
  unfolding find_proc
  do_kill s k pid = elim (find_proc s pid) [
    | none ↦ ok (e_inval, s, k)
    | some p ↦ if s.exiting p then ok (e_killed, s, k) else (do
      let s' = record s { exiting = update s.exiting p true }
      k' ← (if is_interruptible (k.procs p).wait_state then wakeup_proc cls k p else ok k)
      ok (0, s', k'))
  ]

  kill-first :
      (s : Family) (k k' : Kernel) (pid p : ℕ)
      → find_proc s pid ≡ some p
      → s.exiting p ≡ false
      → (if is_interruptible (k.procs p).wait_state then wakeup_proc cls k p else ok k) ≡ ok k'
      → do_kill s k pid ≡ ok (0, record s { exiting = update s.exiting p true }, k')
  unfolding do_kill
  kill-first s k k' pid p found out e = ground (arith, found, out, e)

  kill-again :
      (s : Family) (k : Kernel) (pid p : ℕ)
      → find_proc s pid ≡ some p
      → s.exiting p ≡ true
      → do_kill s k pid ≡ ok (e_killed, s, k)
  unfolding do_kill
  kill-again s k pid p found out = ground (arith, found, out)

  find-marked :
      (s : Family) (exiting : ℕ → Bool) (pid : ℕ)
      → find_proc (record s { exiting = exiting }) pid ≡ find_proc s pid
  unfolding find_proc
  find-marked s exiting pid = refl

  module _ (laws : ClassLaws cls) where
    -- Killing a process of the table that has not ended and is not exiting succeeds, marks it as
    -- exiting, keeps the scheduler sound, and a second call then fails with -E_KILLED.
    pub do_kill-do_kill :
        (s : Family) (k : Kernel) (pid p : ℕ)
        → IsSound cls laws k
        → find_proc s pid ≡ some p
        → s.exiting p ≡ false
        → (k.procs p).state ≢ zombie
        → (s' : Family) × (k' : Kernel) × (do_kill s k pid ≡ ok (0, s', k'))
          × (s'.exiting p ≡ true)
          × IsSound cls laws k'
          × (do_kill s' k' pid ≡ ok (e_killed, s', k'))
    do_kill-do_kill s k pid p sound found out alive =
        let s' = record s { exiting = update s.exiting p true } in
        let marked : s'.exiting p ≡ true = ground arith in
        let found' = find-marked s (update s.exiting p true) pid ∙ found in
        elim (Bool-cases (is_interruptible (k.procs p).wait_state)) [
          | inl wakes ↦
              let (k', e, sound', _, _, _, _) = wakeup_proc-IsSound cls laws k p sound alive in
              (
                s',
                k',
                kill-first s k k' pid p found out (rw wakes e),
                marked,
                sound',
                kill-again s' k' pid p found' marked,
              )
          | inr stays ↦ (
            s',
            k,
            kill-first s k k pid p found out (rw stays),
            marked,
            sound,
            kill-again s' k pid p found' marked,
          )
        ]

-- From the pointer `c`, whose younger sibling is `y`, the older siblings are `xs`.
abbrev pub Siblings : Family → (y c : ℕ) → List ℕ → Type 0
Siblings s y c [] = c ≡ 0
Siblings s y c (x ∷ xs) = (c ≡ x) × (0 < x) × (s.yptr x ≡ y) × Siblings s x (s.optr x) xs

pub Siblings-frame :
    (s s' : Family) (y c : ℕ) (xs : List ℕ)
    → ((x : ℕ) → 0 < count x xs → (s'.yptr x ≡ s.yptr x) × (s'.optr x ≡ s.optr x))
    → Siblings s y c xs
    → Siblings s' y c xs
Siblings-frame s s' y c [] f h = h
Siblings-frame s s' y c (x ∷ xs) f h =
    let same = f x (ground arith) in
    (
      h.0,
      h.1,
      same.0 ∙ h.2,
      subst (λ o. Siblings s' x o xs) (sym same.1)
          (Siblings-frame s s' x (s.optr x) xs (λ z i. f z (omega arith)) h.3),
    )

-- A new process becomes the youngest child of its parent, before the children that it had.
pub set_links-Siblings :
    (s : Family) (p : ℕ) (xs : List ℕ)
    → 0 < p
    → Distinct (p ∷ xs)
    → Siblings s 0 (s.cptr (s.parent p)) xs
    → Siblings (set_links s p) 0 ((set_links s p).cptr (s.parent p)) (p ∷ xs)
unfolding set_links
set_links-Siblings s p [] pos once h = (ground arith, pos, ground (arith, h), ground (arith, h))
set_links-Siblings s p (x ∷ xs) pos once h =
    let ne : x ≢ p = ground (arith, once p) in
    (
      ground arith,
      pos,
      ground (arith, h.0, h.1, ne),
      (
        ground (arith, h.0),
        h.1,
        ground (arith, h.0, h.1, ne),
        subst (λ o. Siblings (set_links s p) x o xs) (ground (arith, ne))
            (Siblings-frame s (set_links s p) x (s.optr x) xs
              (λ z i. (ground (arith, h.0, once z, once p, once x), ground (arith, once z, once p)))
              h.3),
      ),
    )
