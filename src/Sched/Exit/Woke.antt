-- ===== src/Sched/Exit/Woke.antt =====
-- What changes when processes are woken by do_exit of labcode/lab8/kern/process/proc.c.
use oslabcode.Prelude.{ℕ, ◌≡◌, ◌≢◌, refl, sym, ap, ◌∙◌, inl, inr, arith, ◌==◌, Bool-cases, ok}
use mathlib.Core.Path.{subst}
use oslabcode.Proc.{runnable, zombie, wt_child}
use oslabcode.Sched.{SchedClass, Kernel}
use oslabcode.Sched.Invariant.{ClassLaws, IsSound, wakeup_proc-IsSound}
use oslabcode.Sched.Exit.{wakeup_waiting}

module _ (cls : SchedClass) (laws : ClassLaws cls) where
  -- What changes when at most the process `p` is woken.
  pub record Woke (k : Kernel) (p : ℕ) (k' : Kernel) : Type 0 where
    pub sound : IsSound cls laws k'
    pub same_current : k'.current ≡ k.current
    pub same_idle : k'.idleproc ≡ k.idleproc
    pub others :
        (a : ℕ)
        → a ≢ p
        → ((k'.procs a).state ≡ (k.procs a).state)
          × ((k'.procs a).wait_state ≡ (k.procs a).wait_state)
    pub alive : (k'.procs p).state ≢ zombie
    pub stays : (k.procs p).state ≡ runnable → (k'.procs p).state ≡ runnable

  pub same-Woke :
      (k : Kernel) (p : ℕ) → IsSound cls laws k → (k.procs p).state ≢ zombie → Woke k p k
  same-Woke k p sound alive = record {
    sound = sound;
    same_current = refl;
    same_idle = refl;
    others = λ a ne. (refl, refl);
    alive = alive;
    stays = λ r. r;
  }

  pub Woke-Woke : (k k1 k' : Kernel) (p : ℕ) → Woke k p k1 → Woke k1 p k' → Woke k p k'
  Woke-Woke k k1 k' p v w = record {
    sound = w.sound;
    same_current = w.same_current ∙ v.same_current;
    same_idle = w.same_idle ∙ v.same_idle;
    others = λ a ne. let (e, f) = w.others a ne in let (g, h) = v.others a ne in (e ∙ g, f ∙ h);
    alive = w.alive;
    stays = λ r. w.stays (v.stays r);
  }

  module _ (k k' : Kernel) (p : ℕ) (w : Woke k p k') (a : ℕ) where
    -- What is runnable stays so.
    pub Woke-runnable : (k.procs a).state ≡ runnable → (k'.procs a).state ≡ runnable
    Woke-runnable r = elim (Bool-cases (a == p)) [
      | inl here ↦
          let same : p ≡ a = ground (arith, here) in
          subst (λ q. (k.procs q).state ≡ runnable → (k'.procs q).state ≡ runnable) same w.stays r
      | inr away ↦ (w.others a (ground (arith, away))).0 ∙ r
    ]

    -- What has not ended does not end.
    pub Woke-alive : (k.procs a).state ≢ zombie → (k'.procs a).state ≢ zombie
    Woke-alive alive = elim (Bool-cases (a == p)) [
      | inl here ↦
          let same : p ≡ a = ground (arith, here) in
          subst (λ q. (k'.procs q).state ≢ zombie) same w.alive
      | inr away ↦ λ dead. alive (sym (w.others a (ground (arith, away))).0 ∙ dead)
    ]

    -- What has ended is not what is woken.
    pub Woke-dead :
        (k.procs p).state ≢ zombie → (k.procs a).state ≡ zombie → (k'.procs a).state ≡ zombie
    Woke-dead alive dead =
        let ne : a ≢ p = λ same. alive (ap (λ q. (k.procs q).state) (sym same) ∙ dead) in
        (w.others a ne).0 ∙ dead

  -- Waking a process that waits for a child, if it does, makes it runnable.
  pub wakeup_waiting-Woke :
      (k : Kernel) (p : ℕ)
      → IsSound cls laws k
      → (k.procs p).state ≢ zombie
      → (k' : Kernel) × (wakeup_waiting cls k p ≡ ok k')
        × Woke k p k'
        × ((k.procs p).wait_state ≡ wt_child → (k'.procs p).state ≡ runnable)
  unfolding wakeup_waiting
  wakeup_waiting-Woke k p sound alive = elim (Bool-cases ((k.procs p).wait_state == wt_child)) [
    | inl waits ↦
        let (k', e, sound', awake, same_current, same_idle, others) =
          wakeup_proc-IsSound cls laws k p sound alive in
        (
          k',
          rw waits e,
          record {
            sound = sound';
            same_current = same_current;
            same_idle = same_idle;
            others = others;
            alive = λ dead. cc;
            stays = λ r. awake;
          },
          λ w. awake,
        )
    | inr out ↦ (k, rw out, same-Woke k p sound alive, λ w. absurd (ground (arith, out, w)))
  ]
