-- ===== src/Wait/Wakeup.antt =====
-- Waking the processes of a wait queue.
use oslabcode.Prelude.{
  ℕ, zero, suc, ◌<◌, ◌≡◌, ◌≢◌, refl, sym, ap, ◌∙◌, inl, inr, true, false, none, some, List, [], ◌∷◌,
  arith, ◌==◌, ==_iff, Bool-cases, update, ok, length, count, Distinct,
}
use mathlib.Core.Path.{subst}
use oslabcode.Proc.{runnable, zombie, wt_ksem}
use oslabcode.Sched.{SchedClass}
use oslabcode.Sched.Invariant.{ClassLaws, IsSound, wakeup_proc-IsSound}
use oslabcode.Sched.RoundRobin.{unlink}
use oslabcode.Wait.{
  Wait, Sync, wait_queue_del, wait_in_queue, wait_queue_first, wakeup_wait, wakeup_taking,
  wakeup_queue, wait_current_del,
}
use oslabcode.Wait.Semaphore.{Semaphore, up, up_with, down_end}

-- The entries `ws` wait in the queue, each for a process that has not ended.
pub record IsWaiting (s : Sync) (queue : ℕ) (ws : List ℕ) : Type 0 where
  pub entries : s.queue queue ≡ ws
  pub once : Distinct ws
  pub linked :
      (w : ℕ)
      → 0 < count w ws
      → ((s.wait w).linked ≡ true)
        × ((s.wait w).wait_queue ≡ queue)
        × ((s.kernel.procs (s.wait w).proc).state ≢ zombie)

-- The state with the first entry taken out.
abbrev taken_out : Sync → (queue w : ℕ) → List ℕ → Sync
taken_out s queue w ws = record s {
  wait = update s.wait w (record (s.wait w) { linked = false });
  queue = update s.queue queue ws;
}

del-first :
    (s : Sync) (queue w : ℕ) (ws : List ℕ)
    → IsWaiting s queue (w ∷ ws)
    → wait_queue_del s queue w ≡ ok (taken_out s queue w ws)
unfolding wait_queue_del wait_in_queue unlink
del-first s queue w ws waits =
    let me = waits.linked w (ground arith) in rw (me.0, waits.entries) (ground (arith, me.1))

first-nil : (s : Sync) (queue : ℕ) → s.queue queue ≡ [] → wait_queue_first s queue ≡ none
unfolding wait_queue_first
first-nil s queue e = rw e

first-cons :
    (s : Sync) (queue w : ℕ) (ws : List ℕ)
    → s.queue queue ≡ w ∷ ws
    → wait_queue_first s queue ≡ some w
unfolding wait_queue_first
first-cons s queue w ws e = rw e

module _ (cls : SchedClass) (laws : ClassLaws cls) where
  -- What waking the first entry leaves.
  pub record Woken (s : Sync) (queue w : ℕ) (ws : List ℕ) (flags : ℕ) (s' : Sync) : Type 0 where
    pub sound : IsSound cls laws s'.kernel
    pub rest : IsWaiting s' queue ws
    pub runs : (s'.kernel.procs (s.wait w).proc).state ≡ runnable
    pub alone : (s'.wait w).linked ≡ false
    pub flagged : (s'.wait w).wakeup_flags ≡ flags
    pub others : (a : ℕ) → a ≢ w → s'.wait a ≡ s.wait a
    pub still : (p : ℕ) → p ≢ (s.wait w).proc → (s'.kernel.procs p).state ≡ (s.kernel.procs p).state

  wakeup_wait-Woken :
      (s : Sync) (queue w : ℕ) (ws : List ℕ) (flags : ℕ)
      → IsSound cls laws s.kernel
      → IsWaiting s queue (w ∷ ws)
      → (s' : Sync) × (wakeup_wait cls s queue w flags true ≡ ok s') × Woken s queue w ws flags s'
  unfolding wakeup_wait
  wakeup_wait-Woken s queue w ws flags sound waits =
      let me = waits.linked w (ground arith) in
      let s1 = taken_out s queue w ws in
      let same : s1.wait w ≡ record (s.wait w) { linked = false } = ground arith in
      let (k', e, sound', runs, _, _, states) =
        wakeup_proc-IsSound cls laws s.kernel (s.wait w).proc sound me.2 in
      (
        record s1 {
          wait = update s1.wait w (record (s1.wait w) { wakeup_flags = flags });
          kernel = k';
        },
        rw (del-first s queue w ws waits, same, e),
        record {
          sound = sound';
          rest = record {
            entries = ground arith;
            once = λ a. omega (arith, waits.once a);
            linked = λ a i.
                ground
                  (arith, waits.linked a, waits.once a, waits.once w, states (s.wait a).proc, runs);
          };
          runs = runs;
          alone = ground arith;
          flagged = ground arith;
          others = λ a ne. ground arith;
          still = λ p ne. (states p ne).0;
        },
      )

  taking-end :
      (k : ℕ) (s s' : Sync) (queue w flags : ℕ)
      → wakeup_wait cls s queue w flags true ≡ ok s'
      → wait_queue_first s' queue ≡ none
      → wakeup_taking cls (suc k) s queue w flags ≡ ok s'
  unfolding wakeup_taking
  taking-end k s s' queue w flags e f = ground (arith, e, f)

  taking-step :
      (k : ℕ) (s s' : Sync) (queue w u flags : ℕ)
      → wakeup_wait cls s queue w flags true ≡ ok s'
      → wait_queue_first s' queue ≡ some u
      → wakeup_taking cls (suc k) s queue w flags ≡ wakeup_taking cls k s' queue u flags
  unfolding wakeup_taking
  taking-step k s s' queue w u flags e f = ground (arith, e, f)

  queue-taking :
      (s : Sync) (queue w flags : ℕ)
      → wait_queue_first s queue ≡ some w
      → wakeup_queue cls s queue flags true
        ≡ wakeup_taking cls (length (s.queue queue)) s queue w flags
  unfolding wakeup_queue
  queue-taking s queue w flags f = ground (arith, f)

  queue-none :
      (s : Sync) (queue flags : ℕ)
      → wait_queue_first s queue ≡ none
      → wakeup_queue cls s queue flags true ≡ ok s
  unfolding wakeup_queue
  queue-none s queue flags f = ground (arith, f)

  up-wakeup :
      (s s' : Sync) (sem : Semaphore) (w : ℕ)
      → wait_queue_first s sem.wait_queue ≡ some w
      → (s.kernel.procs (s.wait w).proc).wait_state ≡ wt_ksem
      → wakeup_wait cls s sem.wait_queue w wt_ksem true ≡ ok s'
      → up cls s sem ≡ ok (sem, s')
  unfolding up up_with
  up-wakeup s s' sem w f state e = ground (arith, f, state, e)

  -- What waking all entries leaves.
  pub record AllWoken (s : Sync) (queue : ℕ) (ws : List ℕ) (flags : ℕ) (s' : Sync) : Type 0 where
    pub sound : IsSound cls laws s'.kernel
    pub entries : s'.queue queue ≡ []
    pub runs : (w : ℕ) → 0 < count w ws → (s'.kernel.procs (s.wait w).proc).state ≡ runnable
    pub out :
        (w : ℕ) → 0 < count w ws → ((s'.wait w).linked ≡ false) × ((s'.wait w).wakeup_flags ≡ flags)
    pub others : (w : ℕ) → count w ws ≡ 0 → s'.wait w ≡ s.wait w
    pub still :
        (p : ℕ)
        → ((w : ℕ) → 0 < count w ws → (s.wait w).proc ≢ p)
        → (s'.kernel.procs p).state ≡ (s.kernel.procs p).state
    pub stay : (p : ℕ) → (s.kernel.procs p).state ≡ runnable → (s'.kernel.procs p).state ≡ runnable

  Woken-stay :
      (s s' : Sync) (queue w : ℕ) (ws : List ℕ) (flags p : ℕ)
      → Woken s queue w ws flags s'
      → (s.kernel.procs p).state ≡ runnable
      → (s'.kernel.procs p).state ≡ runnable
  Woken-stay s s' queue w ws flags p v r = elim (Bool-cases (p == (s.wait w).proc)) [
    | inl here ↦
        subst (λ q. (s'.kernel.procs q).state ≡ runnable) (sym ((==_iff _ _).0 here)) v.runs
    | inr other ↦ v.still p (ground arith) ∙ r
  ]

  AllWoken-one :
      (s s' : Sync) (queue w flags : ℕ)
      → Woken s queue w [] flags s'
      → AllWoken s queue (w ∷ []) flags s'
  AllWoken-one s s' queue w flags v =
      let only : (a : ℕ) → 0 < count a (w ∷ []) → w ≡ a = λ a i. ground arith in
      record {
        sound = v.sound;
        entries = v.rest.entries;
        runs = λ a i.
            subst (λ b. (s'.kernel.procs (s.wait b).proc).state ≡ runnable) (only a i) v.runs;
        out = λ a i.
            subst (λ b. ((s'.wait b).linked ≡ false) × ((s'.wait b).wakeup_flags ≡ flags))
              (only a i) (v.alone, v.flagged);
        others = λ a o. v.others a (ground arith);
        still = λ p away. v.still p (λ e. away w (ground arith) (sym e));
        stay = λ p r. Woken-stay s s' queue w [] flags p v r;
      }

  AllWoken-cons :
      (s s1 s' : Sync) (queue w : ℕ) (ws : List ℕ) (flags : ℕ)
      → count w ws ≡ 0
      → Woken s queue w ws flags s1
      → AllWoken s1 queue ws flags s'
      → AllWoken s queue (w ∷ ws) flags s'
  AllWoken-cons s s1 s' queue w ws flags once v r = record {
    sound = r.sound;
    entries = r.entries;
    runs = λ a i. elim (Bool-cases (a == w)) [
      | inl here ↦
          subst (λ b. (s'.kernel.procs (s.wait b).proc).state ≡ runnable)
            (sym ((==_iff _ _).0 here)) (r.stay (s.wait w).proc v.runs)
      | inr other ↦
          subst (λ (x : Wait). (s'.kernel.procs x.proc).state ≡ runnable)
            (v.others a (ground arith)) (r.runs a (ground arith))
    ];
    out = λ a i. elim (Bool-cases (a == w)) [
      | inl here ↦
          subst (λ b. ((s'.wait b).linked ≡ false) × ((s'.wait b).wakeup_flags ≡ flags))
            (sym ((==_iff _ _).0 here)) (rw (r.others w once) (v.alone, v.flagged))
      | inr other ↦ r.out a (ground arith)
    ];
    others = λ a o. r.others a (ground arith) ∙ v.others a (ground arith);
    still = λ p away.
        r.still p (λ a i e. elim (Bool-cases (a == w)) [
          | inl here ↦ ground (arith, here, once, i)
          | inr other ↦
              away a (ground arith)
                (ap (λ (x : Wait). x.proc) (sym (v.others a (ground arith))) ∙ e)
        ])
        ∙ v.still p (λ e. away w (ground arith) (sym e));
    stay = λ p e. r.stay p (Woken-stay s s1 queue w ws flags p v e);
  }

  -- The loop that takes out the entries wakes them all.
  wakeup_taking-all :
      (ws : List ℕ) (k : ℕ) (s : Sync) (queue w flags : ℕ)
      → IsSound cls laws s.kernel
      → IsWaiting s queue (w ∷ ws)
      → length ws < k
      → (s' : Sync) × (wakeup_taking cls k s queue w flags ≡ ok s')
        × AllWoken s queue (w ∷ ws) flags s'
  wakeup_taking-all ws zero s queue w flags sound waits lt = absurd (omega arith)
  wakeup_taking-all [] (suc k) s queue w flags sound waits lt =
      let (s', e, v) = wakeup_wait-Woken s queue w [] flags sound waits in
      (
        s',
        taking-end k s s' queue w flags e (first-nil s' queue v.rest.entries),
        AllWoken-one s s' queue w flags v,
      )
  wakeup_taking-all (u ∷ us) (suc k) s queue w flags sound waits lt =
      let (s1, e1, v) = wakeup_wait-Woken s queue w (u ∷ us) flags sound waits in
      let (s', e, all) = wakeup_taking-all us k s1 queue u flags v.sound v.rest (omega arith) in
      let once : count w (u ∷ us) ≡ 0 = ground (arith, waits.once w) in
      (
        s',
        taking-step k s s1 queue w u flags e1 (first-cons s1 queue u us v.rest.entries) ∙ e,
        AllWoken-cons s s1 s' queue w (u ∷ us) flags once v all,
      )

  -- Waking a whole queue with `del`, the entries taken out, where the entries are linked and their
  -- processes have not ended, ends, empties the queue, makes the process of every entry runnable,
  -- leaves every entry out of the queue and with the given wakeup flags, keeps the scheduler sound,
  -- and changes no other entry and the state of no other process.
  pub wakeup_queue-all :
      (s : Sync) (queue flags : ℕ) (ws : List ℕ)
      → IsSound cls laws s.kernel
      → IsWaiting s queue ws
      → (s' : Sync) × (wakeup_queue cls s queue flags true ≡ ok s') × AllWoken s queue ws flags s'
  wakeup_queue-all s queue flags [] sound waits = (
    s,
    queue-none s queue flags (first-nil s queue waits.entries),
    record {
      sound = sound;
      entries = waits.entries;
      runs = λ w i. absurd (omega (arith, i));
      out = λ w i. absurd (omega (arith, i));
      others = λ w o. refl;
      still = λ p away. refl;
      stay = λ p e. e;
    },
  )
  wakeup_queue-all s queue flags (w ∷ ws) sound waits =
      let (s', e, all) =
        wakeup_taking-all ws (length (w ∷ ws)) s queue w flags sound waits (omega arith) in
      (
        s',
        queue-taking s queue w flags (first-cons s queue w ws waits.entries) ∙ rw waits.entries e,
        all,
      )

  -- `up` on a semaphore with a waiting process wakes the first: the process is runnable and out of
  -- the queue, the value stays, and its `__down` ends with 0.
  pub up-first :
      (s : Sync) (sem : Semaphore) (w : ℕ) (ws : List ℕ)
      → IsSound cls laws s.kernel
      → IsWaiting s sem.wait_queue (w ∷ ws)
      → (s.kernel.procs (s.wait w).proc).wait_state ≡ wt_ksem
      → (s' : Sync) × (up cls s sem ≡ ok (sem, s'))
        × IsSound cls laws s'.kernel
        × IsWaiting s' sem.wait_queue ws
        × ((s'.kernel.procs (s.wait w).proc).state ≡ runnable)
        × (down_end s' sem w wt_ksem ≡ ok (0, s'))
  unfolding down_end wait_current_del wait_in_queue
  up-first s sem w ws sound waits state =
      let (s', e, v) = wakeup_wait-Woken s sem.wait_queue w ws wt_ksem sound waits in
      (
        s',
        up-wakeup s s' sem w (first-cons s sem.wait_queue w ws waits.entries) state e,
        v.sound,
        v.rest,
        v.runs,
        rw (v.alone, v.flagged),
      )
