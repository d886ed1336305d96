-- ===== src/Sched/RoundRobin/Laws.antt =====
-- The round-robin class keeps the promises of a scheduling class, and serves in order.
use oslabcode.Prelude.{
  ℕ, ◌+◌, ◌-◌, ◌%◌, ◌^◌, ◌≤◌, ◌<◌, ◌≡◌, ◌≢◌, refl, ◌∙◌, ◌⊎◌, inl, inr, true, none, some, List, [],
  ◌∷◌, ◌++◌, arith, ok, length, length-append, count, count-append, Distinct,
}
use oslabcode.Proc.{Proc, Procs, modify}
use oslabcode.Sched.{RunQueue}
use oslabcode.Sched.RoundRobin.{
  unlink, refill, rr_enqueue, rr_dequeue, rr_pick_next, default_sched_class,
}
use oslabcode.Sched.Invariant.{Put, Taken, ClassLaws}

-- No process stands twice in the list, those in it point back at the queue, and `proc_num` counts
-- them.
pub record IsRrQueue (rq : RunQueue) (procs : Procs) : Type 0 where
  pub once : Distinct rq.run_list
  pub linked : (a : ℕ) → 0 < count a rq.run_list → (procs a).on_rq ≡ true
  pub counted : rq.proc_num ≡ length rq.run_list % 2 ^ 32

pub refill-state :
    (max : ℕ) (p : Proc)
    → ((refill max p).state ≡ p.state) × ((refill max p).wait_state ≡ p.wait_state)
unfolding refill
refill-state max p = ground arith

-- What `rr_enqueue` leaves.
abbrev pub queue_with : RunQueue → ℕ → RunQueue
queue_with rq p = record rq {
  run_list = rq.run_list ++ p ∷ [];
  proc_num = (rq.proc_num + 1) % 2 ^ 32;
}

abbrev pub procs_with : RunQueue → Procs → ℕ → Procs
procs_with rq procs p = modify procs p (λ q. record (refill rq.max_time_slice q) { on_rq = true })

module _ (rq : RunQueue) (procs : Procs) (p : ℕ) (v : IsRrQueue rq procs)
    (out : count p rq.run_list ≡ 0) where
  pub rr_enqueue-ok : rr_enqueue rq procs p ≡ ok (queue_with rq p, procs_with rq procs p)
  unfolding rr_enqueue
  rr_enqueue-ok = rw out

  pub rr_enqueue-IsRrQueue : IsRrQueue (queue_with rq p) (procs_with rq procs p)
  rr_enqueue-IsRrQueue = record {
    once = λ a. ground (arith, count-append a rq.run_list (p ∷ []), v.once a, out);
    linked = λ a i. ground (arith, v.linked a, count-append a rq.run_list (p ∷ []));
    counted = omega (arith, v.counted, length-append rq.run_list (p ∷ []));
  }

  -- A process that is not in the queue goes to its end, with a slice between 1 and the queue's
  -- own, and no other process is changed.
  pub rr_enqueue-append :
      0 < rq.max_time_slice
      → (rq' : RunQueue) × (procs' : Procs) × (rr_enqueue rq procs p ≡ ok (rq', procs'))
        × IsRrQueue rq' procs'
        × (rq'.run_list ≡ rq.run_list ++ p ∷ [])
        × (0 < (procs' p).time_slice)
        × ((procs' p).time_slice ≤ rq.max_time_slice)
        × ((a : ℕ) → a ≢ p → procs' a ≡ procs a)
  unfolding refill
  rr_enqueue-append slice = (
    queue_with rq p,
    procs_with rq procs p,
    rr_enqueue-ok,
    rr_enqueue-IsRrQueue,
    refl,
    ground arith,
    ground arith,
    λ a ne. ground arith,
  )

  pub rr_enqueue-Put : Put IsRrQueue (λ q a. count a q.run_list) rq procs p (rr_enqueue rq procs p)
  rr_enqueue-Put = record {
    rq' = queue_with rq p;
    procs' = procs_with rq procs p;
    done = rr_enqueue-ok;
    valid = rr_enqueue-IsRrQueue;
    added = λ a. omega (arith, count-append a rq.run_list (p ∷ []));
    same = λ a. (
      ground (arith, refill-state rq.max_time_slice (procs p)),
      ground (arith, refill-state rq.max_time_slice (procs p)),
    );
  }

-- The choice is the head of a valid queue, and taking it out leaves the rest in order, again a
-- valid queue.
pub rr_take-head :
    (rq : RunQueue) (procs : Procs) (p : ℕ) (xs : List ℕ)
    → IsRrQueue rq procs
    → rq.run_list ≡ p ∷ xs
    → (rq' : RunQueue) × (rr_pick_next rq procs ≡ ok (some p, procs))
      × (rr_dequeue rq procs p ≡ ok (rq', procs))
      × IsRrQueue rq' procs
      × (rq'.run_list ≡ xs)
rr_take-head rq procs p xs v e =
    let linked = λ (a : ℕ). rw e at (v.linked a) in
    let once = λ (a : ℕ). rw e at (v.once a) in
    (
      record rq { run_list = xs; proc_num = (rq.proc_num + 2 ^ 32 - 1) % 2 ^ 32 },
      unfold rr_pick_next in rw e,
      unfold rr_dequeue unlink in rw e (ground (arith, linked p)),
      record {
        once = λ a. omega (arith, once a);
        linked = λ a i. linked a (omega arith);
        counted = omega (arith, rw e at v.counted);
      },
      refl,
    )

pub rr_take-law :
    (rq : RunQueue) (procs : Procs) (xs : List ℕ)
    → rq.run_list ≡ xs
    → IsRrQueue rq procs
    → ((rr_pick_next rq procs ≡ ok (none, procs)) × ((a : ℕ) → count a rq.run_list ≡ 0))
      ⊎ Taken default_sched_class IsRrQueue (λ q a. count a q.run_list) rq procs
rr_take-law rq procs [] e v = inl (unfold rr_pick_next in rw e, λ a. rw e)
rr_take-law rq procs (p ∷ xs) e v =
    let (rq', picked, done, valid, rest) = rr_take-head rq procs p xs v e in
    inr (record {
      next = p;
      procs1 = procs;
      rq' = rq';
      procs' = procs;
      picked = picked;
      done = done;
      valid = valid;
      removed = λ a. rw (e, rest) (omega arith);
      same = λ a. (refl, refl);
    })

-- The laws of the class.
unfoldable pub rr_laws : ClassLaws default_sched_class
rr_laws = record {
  IsValid = IsRrQueue;
  queued = λ rq a. count a rq.run_list;
  enqueue_law = λ rq procs p v out. rr_enqueue-Put rq procs p v out;
  take_law = λ rq procs v. rr_take-law rq procs rq.run_list refl v;
  frame_law = λ rq procs procs' same v. record {
    once = v.once;
    linked = λ a i. (same a).0 ∙ v.linked a i;
    counted = v.counted;
  };
}
