-- ===== src/Sched/Schedule.antt =====
-- `schedule` loses no runnable process.
use oslabcode.Prelude.{
  ℕ, ◌+◌, ◌≡◌, ◌≢◌, refl, ap, ◌⊎◌, inl, inr, false, none, some, arith, ◌==◌, Bool-cases, ◌>>=◌, Run,
  ok,
}
use oslabcode.Proc.{Procs, runnable, is_runnable, modify}
use oslabcode.Sched.{
  SchedClass, Kernel, sched_class_enqueue, sched_class_dequeue, sched_class_pick_next, proc_run,
  switch_to, schedule,
}
use oslabcode.Sched.Invariant.{SameStates, ClassLaws, IsSound, IsYielded, runnable_of}

-- The control blocks with the flag of one process reset.
abbrev pub calmed : Procs → ℕ → Procs
calmed procs p = modify procs p (λ q. record q { need_resched = false })

module _ (cls : SchedClass) (laws : ClassLaws cls) where
  -- What `schedule` leaves: it is sound, changes no state, and what runs next was runnable or is
  -- the idle process, which runs only if no other process can.
  pub record Scheduled (k k' : Kernel) : Type 0 where
    pub sound : IsSound cls laws k'
    pub same : SameStates k.procs k'.procs
    pub idle : k'.idleproc ≡ k.idleproc
    pub next :
        ((k'.current ≢ k.idleproc) × ((k.procs k'.current).state ≡ runnable))
        ⊎ ((k'.current ≡ k.idleproc) × ((a : ℕ) → a ≢ k.idleproc → (k.procs a).state ≢ runnable))

  -- The last part of `schedule`, from the state in which the current process has yielded.
  choose : Kernel → Run Kernel
  choose put = do
    (found, picked) ← sched_class_pick_next cls put
    elim found [
      | none ↦ ok (switch_to cls picked picked.idleproc)
      | some next ↦ do taken ← sched_class_dequeue cls picked next; ok (switch_to cls taken next)
    ]

  pub switched :
      (k : Kernel) (next : ℕ)
      → switch_to cls k next ≡ record k {
        procs = modify k.procs next (λ p. record p { runs = p.runs + 1 });
        current = next;
      }
  unfolding switch_to proc_run
  switched k next = ground arith

  choose-Scheduled :
      (k put : Kernel)
      → IsYielded cls laws put
      → SameStates k.procs put.procs
      → put.idleproc ≡ k.idleproc
      → (k' : Kernel) × (choose put ≡ ok k') × Scheduled k k'
  unfolding choose sched_class_pick_next sched_class_dequeue
  choose-Scheduled k put y same idle = elim (laws.take_law put.rq put.procs y.valid) [
    | inl (empty, alone) ↦ (
      record put {
        procs = modify put.procs put.idleproc (λ p. record p { runs = p.runs + 1 });
        current = put.idleproc;
      },
      rw empty (ap ok (switched put put.idleproc)),
      record {
        sound = record {
          valid =
              laws.frame_law put.rq put.procs _ (λ a. (ground arith, ground arith, ground arith))
                y.valid;
          waiting = λ a i. absurd (omega (arith, alone a));
          kept = λ a r ne. absurd (ground (arith, alone a, y.kept a));
        };
        same = λ a. (ground (arith, same a), ground (arith, same a));
        idle = idle;
        next = inr (idle, λ a ne r. ground (arith, alone a, y.kept a, same a));
      },
    )
    | inr t ↦ (
      record put {
        rq = t.rq';
        procs = modify t.procs' t.next (λ p. record p { runs = p.runs + 1 });
        current = t.next;
      },
      rw (t.picked, t.done) (ap ok (switched (record put { rq = t.rq'; procs = t.procs' }) t.next)),
      record {
        sound = record {
          valid =
              laws.frame_law t.rq' t.procs' _ (λ a. (ground arith, ground arith, ground arith))
                t.valid;
          waiting = λ a i. ground (arith, t.removed a, t.removed t.next, y.waiting a, t.same a);
          kept = λ a r ne. ground (arith, t.removed a, y.kept a, t.same a);
        };
        same = λ a. (ground (arith, same a, t.same a), ground (arith, same a, t.same a));
        idle = idle;
        next = inl (
          ground (arith, t.removed t.next, y.waiting t.next, idle),
          ground (arith, t.removed t.next, y.waiting t.next, same t.next),
        );
      },
    )
  ]

  abbrev pub reset : Kernel → Kernel
  reset k = record k { procs = calmed k.procs k.current }

  pub reset_state : (k : Kernel) → ((reset k).procs k.current).state ≡ (k.procs k.current).state
  reset_state k = ground arith

  reset_valid : (k : Kernel) → IsSound cls laws k → laws.IsValid k.rq (reset k).procs
  reset_valid k sound =
      laws.frame_law k.rq k.procs (reset k).procs (λ a. (ground arith, ground arith, ground arith))
        sound.valid

  -- For a lawful class, `schedule` on a sound kernel returns a sound kernel, changes no state of a
  -- process, and runs next a process that was runnable, or the idle process if no other was.
  pub schedule-Scheduled :
      (k : Kernel) → IsSound cls laws k → (k' : Kernel) × (schedule cls k ≡ ok k') × Scheduled k k'
  unfolding schedule choose
  schedule-Scheduled k sound = elim (Bool-cases (is_runnable (k.procs k.current).state)) [
    | inr blocked ↦
        rw (reset_state k, blocked)
          (choose-Scheduled k (reset k)
            (record {
              valid = reset_valid k sound;
              waiting = λ a i. ground (arith, sound.waiting a);
              kept = λ a r ne. ground (arith, sound.kept a);
            })
            (λ a. (ground arith, ground arith)) refl)
    | inl able ↦ elim (Bool-cases (k.current == k.idleproc)) [
      | inl idle ↦
          rw (reset_state k, able, sched_class_enqueue, idle)
            (choose-Scheduled k (reset k)
              (record {
                valid = reset_valid k sound;
                waiting = λ a i. ground (arith, sound.waiting a);
                kept = λ a r ne. ground (arith, sound.kept a);
              })
              (λ a. (ground arith, ground arith)) refl)
      | inr busy ↦
          let free : laws.queued k.rq k.current ≡ 0 = ground (arith, sound.waiting k.current) in
          let put = laws.enqueue_law k.rq (reset k).procs k.current (reset_valid k sound) free in
          rw (reset_state k, able, sched_class_enqueue, busy, put.done)
            (choose-Scheduled k (record k { rq = put.rq'; procs = put.procs' })
              (record {
                valid = put.valid;
                waiting = λ a i.
                    ground (arith, put.added a, put.same a, sound.waiting a, runnable_of _ able);
                kept = λ a r ne. ground (arith, put.added a, put.same a, sound.kept a);
              })
              (λ a. (ground (arith, put.same a), ground (arith, put.same a))) refl)
    ]
  ]
