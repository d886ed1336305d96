-- ===== src/Sched/Exit/Ended.antt =====
-- What the end of a process leaves: do_exit of labcode/lab8/kern/process/proc.c.
use oslabcode.Prelude.{
  ℕ, ◌+◌, ◌≤◌, ◌<◌, ◌≡◌, ◌≢◌, sym, ◌∙◌, inl, inr, false, List, ◌∷◌, arith, ◌==◌, Bool-cases, update,
  ok, length, count,
}
use mathlib.Core.Path.{subst}
use oslabcode.Proc.{Procs, runnable, zombie, modify, wt_child}
use oslabcode.Sched.{SchedClass, Kernel, schedule}
use oslabcode.Sched.Invariant.{ClassLaws, IsSound}
use oslabcode.Sched.Schedule.{Scheduled, schedule-Scheduled}
use oslabcode.Sched.Family.{Family, Siblings}
use oslabcode.Sched.Exit.{Processes, put_files, exit_memory, wakeup_waiting, give_children, do_exit}
use oslabcode.Sched.Exit.Woke.{Woke, Woke-runnable, Woke-alive, Woke-dead, wakeup_waiting-Woke}
use oslabcode.Sched.Exit.Adopt.{onto, Given, give_children-Given}

-- The control blocks with one process ended.
abbrev pub ended : Procs → ℕ → Procs
ended procs p = modify procs p (λ q. record q { state = zombie })

exit_memory-mm : (e : Processes) (proc : ℕ) → (exit_memory e proc).mm proc ≡ 0
unfolding exit_memory put_files
exit_memory-mm e proc = ground arith

exit_memory-given_back :
    (e : Processes) (proc : ℕ)
    → 0 < e.mm proc
    → e.mm_count (e.mm proc) ≡ 1
    → (exit_memory e proc).given_back ≡ e.mm proc ∷ e.given_back
unfolding exit_memory put_files
exit_memory-given_back e proc some_memory last = ground (arith, some_memory, last)

module _ (cls : SchedClass) (laws : ClassLaws cls) where
  -- What `do_exit` leaves of the children `xs` of the process and `ys` of `initproc`.
  pub record Exited (initproc : ℕ) (xs ys : List ℕ) (e : Processes) (error_code : ℕ)
      (e' : Processes) : Type 0 where
    pub sound : IsSound cls laws e'.kernel
    pub left : e'.kernel.current ≢ e.kernel.current
    pub dead : (e'.kernel.procs e.kernel.current).state ≡ zombie
    pub code : e'.exit_code e.kernel.current ≡ error_code
    pub memory : e'.mm e.kernel.current ≡ 0
    pub last_user :
        0 < e.mm e.kernel.current
        → e.mm_count (e.mm e.kernel.current) ≡ 1
        → e'.given_back ≡ e.mm e.kernel.current ∷ e.given_back
    pub none_left : e'.family.cptr e.kernel.current ≡ 0
    pub children : Siblings e'.family 0 (e'.family.cptr initproc) (onto xs ys)
    pub parents : (a : ℕ) → 0 < count a xs → e'.family.parent a ≡ initproc
    pub parent_told :
        (e.kernel.procs (e.family.parent e.kernel.current)).wait_state ≡ wt_child
        → (e'.kernel.procs (e.family.parent e.kernel.current)).state ≡ runnable
    pub init_told :
        (a : ℕ)
        → 0 < count a xs
        → (e.kernel.procs a).state ≡ zombie
        → (e.kernel.procs initproc).wait_state ≡ wt_child
        → (e'.kernel.procs initproc).state ≡ runnable

  ended-IsSound :
      (k : Kernel)
      → IsSound cls laws k
      → IsSound cls laws (record k { procs = ended k.procs k.current })
  ended-IsSound k sound = record {
    valid =
        laws.frame_law k.rq k.procs (ended k.procs k.current)
          (λ a. (ground arith, ground arith, ground arith)) sound.valid;
    waiting = λ a i. ground (arith, sound.waiting a);
    kept = λ a r ne. ground (arith, sound.kept a);
  }

  -- The states behind the wakeup of the parent and the loop over the children.
  module _ (current parent initproc : ℕ) (xs ys : List ℕ) (s : Family) (k1 k2 k3 : Kernel)
      (s' : Family) (w2 : Woke cls laws k1 parent k2)
      (told2 : (k1.procs parent).wait_state ≡ wt_child → (k2.procs parent).state ≡ runnable)
      (parent_lives : (k1.procs parent).state ≢ zombie)
      (init_lives : (k1.procs initproc).state ≢ zombie)
      (given : Given cls laws current initproc xs ys s k2 s' k3) where
    parent_awake : (k1.procs parent).wait_state ≡ wt_child → (k3.procs parent).state ≡ runnable
    parent_awake waits = Woke-runnable cls laws k2 k3 initproc given.woke parent (told2 waits)

    stays_dead : (a : ℕ) → (k1.procs a).state ≡ zombie → (k3.procs a).state ≡ zombie
    stays_dead a dead =
        Woke-dead cls laws k2 k3 initproc given.woke a
          (Woke-alive cls laws k1 k2 parent w2 initproc init_lives)
          (Woke-dead cls laws k1 k2 parent w2 a parent_lives dead)

    init_awake :
        (a : ℕ)
        → 0 < count a xs
        → (k1.procs a).state ≡ zombie
        → (k1.procs initproc).wait_state ≡ wt_child
        → (k3.procs initproc).state ≡ runnable
    init_awake a i dead waits = elim (Bool-cases (initproc == parent)) [
      | inl same ↦
          let here : parent ≡ initproc = ground (arith, same) in
          Woke-runnable cls laws k2 k3 initproc given.woke initproc (
            subst (λ q. (k1.procs q).wait_state ≡ wt_child → (k2.procs q).state ≡ runnable) here
              told2 waits)
      | inr away ↦
          given.told a i (Woke-dead cls laws k1 k2 parent w2 a parent_lives dead)
            ((w2.others initproc (ground (arith, away))).1 ∙ waits)
    ]

  left_by :
      (k k' : Kernel) (current : ℕ)
      → Scheduled cls laws k k'
      → (k.procs current).state ≡ zombie
      → k.idleproc ≢ current
      → k'.current ≢ current
  left_by k k' current next dead not_idle same = elim next.next [
    | inl (ne, r) ↦
        let alive : (k.procs current).state ≡ runnable =
          subst (λ q. (k.procs q).state ≡ runnable) same r in
        absurd (cc)
    | inr (idle, nobody) ↦ not_idle (sym idle ∙ same)
  ]

  ended_dead :
      (procs : Procs) (p a : ℕ) → (procs a).state ≡ zombie → (ended procs p a).state ≡ zombie
  ended_dead procs p a dead = ground (arith, dead)

  run_exit :
      (e : Processes) (rounds initproc error_code : ℕ) (k2 k3 k4 : Kernel) (s' : Family)
      → e.kernel.current ≢ e.kernel.idleproc
      → e.kernel.current ≢ initproc
      → wakeup_waiting cls
          (record e.kernel { procs = ended e.kernel.procs e.kernel.current })
          (e.family.parent e.kernel.current)
        ≡ ok k2
      → give_children cls rounds e.kernel.current initproc e.family k2 ≡ ok (s', k3)
      → schedule cls k3 ≡ ok k4
      → do_exit cls rounds initproc e error_code
        ≡ ok (record (exit_memory e e.kernel.current) {
          family = s';
          kernel = k4;
          exit_code = update e.exit_code e.kernel.current error_code;
        })
  unfolding do_exit
  run_exit e rounds initproc error_code k2 k3 k4 s' not_idle not_init run2 run3 run4 =
      let no_idle : (e.kernel.current == e.kernel.idleproc) ≡ false = ground (arith, not_idle) in
      let no_init : (e.kernel.current == initproc) ≡ false = ground (arith, not_init) in
      rw (no_idle, no_init, run2, run3, run4)

  -- For a lawful class, ending the current process of a sound kernel, which is neither the idle
  -- process nor `initproc`, succeeds when its parent and `initproc` have not ended. Another process
  -- runs then and the kernel is sound; the process is a zombie with its code and has given up its
  -- memory, which is given back if nothing else uses it; its children come, the last first, before
  -- those of `initproc`; its parent is awake if it waited, and so is `initproc` if one of the
  -- children is a zombie.
  pub do_exit-Exited :
      (rounds initproc : ℕ) (e : Processes) (error_code : ℕ) (xs ys : List ℕ)
      → IsSound cls laws e.kernel
      → e.kernel.current ≢ e.kernel.idleproc
      → e.kernel.current ≢ initproc
      → e.family.parent e.kernel.current ≢ e.kernel.current
      → (e.kernel.procs (e.family.parent e.kernel.current)).state ≢ zombie
      → (e.kernel.procs initproc).state ≢ zombie
      → Siblings e.family 0 (e.family.cptr e.kernel.current) xs
      → Siblings e.family 0 (e.family.cptr initproc) ys
      → ((a : ℕ) → count a xs + count a ys ≤ 1)
      → length xs < rounds
      → (e' : Processes) × (do_exit cls rounds initproc e error_code ≡ ok e')
        × Exited initproc xs ys e error_code e'
  do_exit-Exited rounds initproc e error_code xs ys sound not_idle not_init apart parent_lives
        init_lives h g once enough =
      let k = e.kernel in
      let current = k.current in
      let parent = e.family.parent current in
      let k1 = record k { procs = ended k.procs current } in
      let parent_same : (k1.procs parent).state ≡ (k.procs parent).state = ground (arith, apart) in
      let parent_waits : (k1.procs parent).wait_state ≡ (k.procs parent).wait_state =
        ground arith in
      let init_same : (k1.procs initproc).state ≡ (k.procs initproc).state =
        ground (arith, not_init) in
      let init_waits : (k1.procs initproc).wait_state ≡ (k.procs initproc).wait_state =
        ground arith in
      let parent_lives1 : (k1.procs parent).state ≢ zombie =
        λ d. parent_lives (sym parent_same ∙ d) in
      let init_lives1 : (k1.procs initproc).state ≢ zombie = λ d. init_lives (sym init_same ∙ d) in
      let (k2, run2, w2, told2) =
        wakeup_waiting-Woke cls laws k1 parent (ended-IsSound k sound) parent_lives1 in
      let (s', k3, run3, given) =
        give_children-Given cls laws rounds current initproc 0 xs ys e.family k2 not_init enough h g
          once w2.sound (Woke-alive cls laws k1 k2 parent w2 initproc init_lives1) in
      let (k4, run4, next) = schedule-Scheduled cls laws k3 given.woke.sound in
      let dead3 =
        stays_dead current parent initproc xs ys e.family k1 k2 k3 s' w2 told2 parent_lives1
          init_lives1 given in
      let dead1 : (k1.procs current).state ≡ zombie = ground arith in
      let idle3 : k3.idleproc ≡ k.idleproc = given.woke.same_idle ∙ w2.same_idle in
      (
        record (exit_memory e current) {
          family = s';
          kernel = k4;
          exit_code = update e.exit_code current error_code;
        },
        run_exit e rounds initproc error_code k2 k3 k4 s' not_idle not_init run2 run3 run4,
        record {
          sound = next.sound;
          left =
              left_by k3 k4 current next (dead3 current dead1)
                (λ same. not_idle (sym same ∙ idle3));
          dead = (next.same current).0 ∙ dead3 current dead1;
          code = ground arith;
          memory = exit_memory-mm e current;
          last_user = exit_memory-given_back e current;
          none_left = given.none_left;
          children = given.children;
          parents = λ a i. (given.parents a).0 i;
          parent_told = λ waits.
              (next.same parent).0
              ∙ parent_awake current parent initproc xs ys e.family k1 k2 k3 s' w2 told2
                  parent_lives1 init_lives1 given (parent_waits ∙ waits);
          init_told = λ a i dead waits.
              (next.same initproc).0
              ∙ init_awake current parent initproc xs ys e.family k1 k2 k3 s' w2 told2 parent_lives1
                  init_lives1 given a i (ended_dead k.procs current a dead) (init_waits ∙ waits);
        },
      )
