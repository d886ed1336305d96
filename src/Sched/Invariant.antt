-- ===== src/Sched/Invariant.antt =====
-- What the scheduling core needs of a class, and that it then loses no runnable process.
use oslabcode.Prelude.{
  ℕ, ◌+◌, ◌<◌, ◌≡◌, ◌≢◌, refl, ◌⊎◌, inl, inr, true, false, none, some, arith, ◌==◌, if◌then◌else◌,
  Bool-cases, Run, ok,
}
use oslabcode.Proc.{
  Procs, ProcState, uninit, sleeping, runnable, zombie, is_runnable, is_zombie, modify,
}
use oslabcode.Sched.{RunQueue, SchedClass, Kernel, sched_class_enqueue, wakeup_proc}

-- Nothing changes that only the core writes.
abbrev pub SameStates : Procs → Procs → Type 0
SameStates procs procs' =
    (a : ℕ) → ((procs' a).state ≡ (procs a).state) × ((procs' a).wait_state ≡ (procs a).wait_state)

-- Nothing changes that the classes read.
abbrev pub SameLinks : Procs → Procs → Type 0
SameLinks procs procs' =
    (a : ℕ)
    → ((procs' a).on_rq ≡ (procs a).on_rq)
      × ((procs' a).lab6_stride ≡ (procs a).lab6_stride)
      × ((procs' a).lab6_priority ≡ (procs a).lab6_priority)

abbrev pub one_if : ℕ → ℕ → ℕ
one_if a p = if a == p then 1 else 0

-- The outcome of a call that puts `p` into the queue.
pub record Put (IsValid : RunQueue → Procs → Type 0) (queued : RunQueue → ℕ → ℕ) (rq : RunQueue)
    (procs : Procs) (p : ℕ) (r : Run (RunQueue × Procs)) : Type 0 where
  pub rq' : RunQueue
  pub procs' : Procs
  pub done : r ≡ ok (rq', procs')
  pub valid : IsValid rq' procs'
  pub added : (a : ℕ) → queued rq' a ≡ queued rq a + one_if a p
  pub same : SameStates procs procs'

-- The outcome of a choice, and of taking what is chosen out of the queue.
pub record Taken (cls : SchedClass) (IsValid : RunQueue → Procs → Type 0)
    (queued : RunQueue → ℕ → ℕ) (rq : RunQueue) (procs : Procs) : Type 0 where
  pub next : ℕ
  pub procs1 : Procs
  pub rq' : RunQueue
  pub procs' : Procs
  pub picked : cls.pick_next rq procs ≡ ok (some next, procs1)
  pub done : cls.dequeue rq procs1 next ≡ ok (rq', procs')
  pub valid : IsValid rq' procs'
  pub removed : (a : ℕ) → queued rq' a + one_if a next ≡ queued rq a
  pub same : SameStates procs procs'

-- What a scheduling class promises.
pub record ClassLaws (cls : SchedClass) : Type 1 where
  pub IsValid : RunQueue → Procs → Type 0
  pub queued : RunQueue → ℕ → ℕ
  pub enqueue_law :
      (rq : RunQueue) (procs : Procs) (p : ℕ)
      → IsValid rq procs
      → queued rq p ≡ 0
      → Put IsValid queued rq procs p (cls.enqueue rq procs p)
  pub take_law :
      (rq : RunQueue) (procs : Procs)
      → IsValid rq procs
      → ((cls.pick_next rq procs ≡ ok (none, procs)) × ((a : ℕ) → queued rq a ≡ 0))
        ⊎ Taken cls IsValid queued rq procs
  pub frame_law :
      (rq : RunQueue) (procs procs' : Procs)
      → SameLinks procs procs'
      → IsValid rq procs
      → IsValid rq procs'

pub runnable_of : (s : ProcState) → is_runnable s ≡ true → s ≡ runnable
runnable_of uninit h = cc
runnable_of sleeping h = cc
runnable_of runnable h = refl
runnable_of zombie h = cc

not_zombie : (s : ProcState) → s ≢ zombie → is_zombie s ≡ false
not_zombie uninit h = refl
not_zombie sleeping h = refl
not_zombie runnable h = refl
not_zombie zombie h = absurd (h refl)

-- The control blocks with one process made runnable.
abbrev woken : Procs → ℕ → Procs
woken procs p = modify procs p (λ q. record q { state = runnable; wait_state = 0 })

module _ (cls : SchedClass) (laws : ClassLaws cls) where
  -- Every process in the queue is runnable and waits for the processor, and every runnable process
  -- but the idle one is current or in the queue.
  pub record IsSound (k : Kernel) : Type 0 where
    pub valid : laws.IsValid k.rq k.procs
    pub waiting :
        (a : ℕ)
        → 0 < laws.queued k.rq a
        → (laws.queued k.rq a ≡ 1)
          × ((k.procs a).state ≡ runnable)
          × (a ≢ k.current)
          × (a ≢ k.idleproc)
    pub kept :
        (a : ℕ)
        → (k.procs a).state ≡ runnable
        → a ≢ k.idleproc
        → (a ≡ k.current) ⊎ (0 < laws.queued k.rq a)

  -- The same after the current process has given up the processor.
  pub record IsYielded (k : Kernel) : Type 0 where
    pub valid : laws.IsValid k.rq k.procs
    pub waiting :
        (a : ℕ)
        → 0 < laws.queued k.rq a
        → (laws.queued k.rq a ≡ 1) × ((k.procs a).state ≡ runnable) × (a ≢ k.idleproc)
    pub kept : (a : ℕ) → (k.procs a).state ≡ runnable → a ≢ k.idleproc → 0 < laws.queued k.rq a

  -- For a lawful class and a sound kernel, waking a process that has not ended makes it runnable,
  -- keeps the kernel sound, with the current and the idle process, and changes the state of no
  -- other process.
  pub wakeup_proc-IsSound :
      (k : Kernel) (p : ℕ)
      → IsSound k
      → (k.procs p).state ≢ zombie
      → (k' : Kernel) × (wakeup_proc cls k p ≡ ok k')
        × IsSound k'
        × ((k'.procs p).state ≡ runnable)
        × (k'.current ≡ k.current)
        × (k'.idleproc ≡ k.idleproc)
        × ((a : ℕ)
            → a ≢ p
            → ((k'.procs a).state ≡ (k.procs a).state)
              × ((k'.procs a).wait_state ≡ (k.procs a).wait_state))
  wakeup_proc-IsSound k p sound alive = elim (Bool-cases (is_runnable (k.procs p).state)) [
    | inl awake ↦ (
      k,
      unfold wakeup_proc in rw (not_zombie _ alive, awake),
      sound,
      runnable_of _ awake,
      refl,
      refl,
      λ a ne. (refl, refl),
    )
    | inr asleep ↦ elim (Bool-cases (p == k.current)) [
      | inl here ↦ (
        record k { procs = woken k.procs p },
        unfold wakeup_proc in rw (not_zombie _ alive, asleep, here),
        woken_sound asleep (inl (ground arith)),
        ground arith,
        refl,
        refl,
        λ a ne. (ground arith, ground arith),
      )
      | inr away ↦ elim (Bool-cases (p == k.idleproc)) [
        | inl idle ↦ (
          record k { procs = woken k.procs p },
          unfold wakeup_proc sched_class_enqueue in rw (not_zombie _ alive, asleep, away, idle),
          woken_sound asleep (inr (ground arith)),
          ground arith,
          refl,
          refl,
          λ a ne. (ground arith, ground arith),
        )
        | inr busy ↦
            let put = enqueued asleep in
            (
              record k { rq = put.rq'; procs = put.procs' },
              unfold wakeup_proc sched_class_enqueue in
                  rw (not_zombie _ alive, asleep, away, busy, put.done),
              record {
                valid = put.valid;
                waiting =
                    λ a i. ground (arith, put.added a, put.same a, sound.waiting a, absent asleep);
                kept = λ a r ne. ground (arith, put.added a, put.same a, sound.kept a);
              },
              ground (arith, put.same p),
              refl,
              refl,
              λ a ne. (ground (arith, put.same a), ground (arith, put.same a)),
            )
      ]
    ]
  ]
    where
      absent : is_runnable (k.procs p).state ≡ false → laws.queued k.rq p ≡ 0
      absent asleep = ground (arith, sound.waiting p)

      woken_valid : laws.IsValid k.rq (woken k.procs p)
      woken_valid =
          laws.frame_law k.rq k.procs (woken k.procs p)
            (λ a. (ground arith, ground arith, ground arith)) sound.valid

      enqueued :
          is_runnable (k.procs p).state ≡ false
          → Put laws.IsValid laws.queued k.rq
              (woken k.procs p)
              p
              (cls.enqueue k.rq (woken k.procs p) p)
      enqueued asleep = laws.enqueue_law k.rq (woken k.procs p) p woken_valid (absent asleep)

      woken_sound :
          is_runnable (k.procs p).state ≡ false
          → (p ≡ k.current) ⊎ (p ≡ k.idleproc)
          → IsSound (record k { procs = woken k.procs p })
      woken_sound asleep special = record {
        valid = woken_valid;
        waiting = λ a i. ground (arith, sound.waiting a);
        kept = λ a r ne. ground (arith, sound.kept a);
      }
