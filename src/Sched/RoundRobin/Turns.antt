-- ===== src/Sched/RoundRobin/Turns.antt =====
-- The turns of the processes under the round robin class.
use oslabcode.Prelude.{
  ℕ, zero, suc, ◌+◌, ◌<◌, ◌≡◌, ◌≢◌, refl, ap, ◌∙◌, true, false, List, [], ◌∷◌, ◌++◌, append_assoc,
  arith, ◌==◌, ◌>>=◌, Run, ok, length, count, count-append,
}
use oslabcode.Proc.{Procs, runnable, is_runnable, modify}
use oslabcode.Sched.{
  RunQueue, Kernel, sched_class_enqueue, sched_class_dequeue, sched_class_pick_next, schedule,
}
use oslabcode.Sched.Schedule.{calmed, switched, reset_state}
use oslabcode.Sched.RoundRobin.{default_sched_class}
use oslabcode.Sched.RoundRobin.Laws.{
  IsRrQueue, queue_with, procs_with, rr_enqueue-ok, refill-state, rr_laws, rr_enqueue-IsRrQueue,
  rr_take-head,
}

-- The current process and those in the queue are runnable, different, and not the idle one.
pub record IsBusy (k : Kernel) : Type 0 where
  pub valid : IsRrQueue k.rq k.procs
  pub apart : count k.current k.rq.run_list ≡ 0
  pub able :
      (a : ℕ)
      → 0 < count a (k.current ∷ k.rq.run_list)
      → ((k.procs a).state ≡ runnable) × (a ≢ k.idleproc)

-- A number of calls of `schedule` with the round robin class.
abbrev pub schedules : ℕ → Kernel → Run Kernel
schedules zero k = ok k
schedules (suc n) k = schedule default_sched_class k >>= schedules n

module _ (k : Kernel) (x : ℕ) (xs : List ℕ) (busy : IsBusy k) (e : k.rq.run_list ≡ x ∷ xs) where
  calm : Procs
  calm = calmed k.procs k.current

  calm-IsRrQueue : IsRrQueue k.rq calm
  unfolding calm
  calm-IsRrQueue = record {
    once = busy.valid.once;
    linked = λ a i. ground (arith, busy.valid.linked a i);
    counted = busy.valid.counted;
  }

  one_turn :
      (k' : Kernel) × (schedule default_sched_class k ≡ ok k')
      × IsBusy k'
      × (k'.current ≡ x)
      × (k'.rq.run_list ≡ xs ++ k.current ∷ [])
  unfolding schedule sched_class_enqueue sched_class_dequeue sched_class_pick_next calm
  one_turn =
      let c = k.current in
      let valid = rr_enqueue-IsRrQueue k.rq calm c calm-IsRrQueue busy.apart in
      let put = record k { rq = queue_with k.rq c; procs = procs_with k.rq calm c } in
      let (rq', picked, done, valid', rest) =
        rr_take-head put.rq put.procs x (xs ++ c ∷ []) valid (ap (λ l. l ++ c ∷ []) e) in
      let able = busy.able c (ground arith) in
      let runs : is_runnable (k.procs c).state ≡ true = rw able.0 in
      let no_idle : (c == k.idleproc) ≡ false = ground (arith, able.1) in
      let procs' = modify put.procs x (λ p. record p { runs = p.runs + 1 }) in
      (
        record put { rq = rq'; procs = procs'; current = x },
        rw
            (
              reset_state default_sched_class rr_laws k,
              runs,
              no_idle,
              rr_enqueue-ok k.rq calm c calm-IsRrQueue busy.apart,
              picked,
              done,
            )
            (ap ok (switched default_sched_class rr_laws (record put { rq = rq' }) x)),
        record {
          valid = frame rq' put.procs valid';
          apart = apart_next rq' rest;
          able = λ a i. able_next a (rw rest at i);
        },
        refl,
        rest,
      )
    where
      frame :
          (rq : RunQueue) (procs : Procs)
          → IsRrQueue rq procs
          → IsRrQueue rq (modify procs x (λ p. record p { runs = p.runs + 1 }))
      frame rq procs v = record {
        once = v.once;
        linked = λ a i. ground (arith, v.linked a i);
        counted = v.counted;
      }

      apart_next : (rq' : RunQueue) → rq'.run_list ≡ xs ++ k.current ∷ [] → count x rq'.run_list ≡ 0
      apart_next rq' rest =
          let once = rw e at (busy.valid.once x) in
          let out = rw e at busy.apart in
          rw rest (ground (arith, once, out, count-append x xs (k.current ∷ [])))

      able_next :
          (a : ℕ)
          → 0 < count a (x ∷ (xs ++ k.current ∷ []))
          → ((modify
                (procs_with k.rq calm k.current)
                x
                (λ p. record p { runs = p.runs + 1 })
                a).state
              ≡ runnable)
            × (a ≢ k.idleproc)
      able_next a i =
          let (s, n) = busy.able a (rw e (ground (arith, i, count-append a xs (k.current ∷ [])))) in
          (ground (arith, refill-state k.rq.max_time_slice (calm k.current), s), n)

-- While the processes stay runnable, a process that has `length xs` others before it in the queue
-- is the current one after `length xs` + 1 calls of `schedule`, none of which fails.
pub schedules-turn :
    (xs : List ℕ) (k : Kernel) (p : ℕ) (ys : List ℕ)
    → IsBusy k
    → k.rq.run_list ≡ xs ++ p ∷ ys
    → (k' : Kernel) × (schedules (suc (length xs)) k ≡ ok k') × IsBusy k' × (k'.current ≡ p)
schedules-turn [] k p ys busy e =
    let (k', done, busy', now, rest) = one_turn k p ys busy e in (k', rw done, busy', now)
schedules-turn (x ∷ xs) k p ys busy e =
    let (k1, done, busy1, now, rest) = one_turn k x (xs ++ p ∷ ys) busy e in
    let (k', later, busy', then_now) =
      schedules-turn xs k1 p (ys ++ k.current ∷ []) busy1
        (rest ∙ append_assoc xs (p ∷ ys) (k.current ∷ [])) in
    (k', rw done later, busy', then_now)
