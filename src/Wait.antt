-- ===== src/Wait.antt =====
-- The wait queues and semaphores of labcode/lab8/kern/sync/wait.c and sem.c. The ring of a queue
-- is the sequence of its entries, from the head on; an entry of no ring is linked to itself.
pub mod Semaphore
pub mod Wakeup
use oslabcode.Prelude.{
  ℕ, zero, suc, ◌+◌, ◌-◌, ◌*◌, ◌/◌, ◌%◌, ◌^◌, ◌≤◌, ◌<◌, ◌≡◌, ◌≢◌, refl, sym, ap, ◌∙◌, ◌↔◌, ◌⊎◌, inl,
  inr, Bool, true, false, not, ◌&&◌, ◌||◌, Option, none, some, List, [], ◌∷◌, ◌++◌, map,
  append_assoc, append-nil, arith, ltb, leb, ◌==◌, if◌then◌else◌, ltb→lt, lt→ltb, le→ltb, ==_iff,
  Bool-cases, Option-cases, update, ◌>>=◌, ◌>>◌, assert, Run, ok, panic, out_of_fuel, length,
  length-append, e_inval, e_no_mem, e_busy, e_max_open, count, count-append, Distinct, fun_ext, min,
}
use oslabcode.Proc.{sleeping, modify, wt_interrupted, wt_ksem}
use oslabcode.Sched.{SchedClass, Kernel, wakeup_proc}
use oslabcode.Sched.RoundRobin.{in_list, unlink}

-- `wait_t`, at its address: `linked` says that its `wait_link` is in a ring with others.
pub record Wait : Type 0 where
  pub proc : ℕ
  pub wakeup_flags : ℕ
  pub wait_queue : ℕ
  pub linked : Bool

-- The entries, the sequence of each queue, and the rest of the kernel.
pub record Sync : Type 0 where
  pub wait : ℕ → Wait
  pub queue : ℕ → List ℕ
  pub kernel : Kernel

abbrev first_of : List ℕ → Option ℕ
first_of [] = none
first_of (w ∷ ws) = some w

abbrev last_of : List ℕ → Option ℕ
last_of [] = none
last_of (w ∷ []) = some w
last_of (w ∷ v ∷ ws) = last_of (v ∷ ws)

-- The entry behind another.
abbrev behind : ℕ → List ℕ → Option ℕ
behind w [] = none
behind w (v ∷ vs) = if w == v then first_of vs else behind w vs

-- The entry before another, which stands behind `before`.
abbrev before_of : Option ℕ → ℕ → List ℕ → Option ℕ
before_of before w [] = none
before_of before w (v ∷ vs) = if w == v then before else before_of (some v) w vs

unfoldable pub wait_in_queue : Sync → ℕ → Bool
wait_in_queue s w = (s.wait w).linked

unfoldable pub wait_init : Sync → (wait proc : ℕ) → Sync
wait_init s wait proc = record s {
  wait =
      update s.wait wait
        (record (s.wait wait) { proc = proc; wakeup_flags = wt_interrupted; linked = false });
}

unfoldable pub wait_queue_init : Sync → ℕ → Sync
wait_queue_init s queue = record s { queue = update s.queue queue [] }

-- An entry is for a process, so `wait->proc != NULL` holds of every number.
unfoldable pub wait_queue_add : Sync → (queue wait : ℕ) → Run Sync
unfolding wait_in_queue
wait_queue_add s queue wait = do
  assert (not (wait_in_queue s wait))
  ok (record s {
    wait = update s.wait wait (record (s.wait wait) { wait_queue = queue; linked = true });
    queue = update s.queue queue (s.queue queue ++ wait ∷ []);
  })

unfoldable pub wait_queue_del : Sync → (queue wait : ℕ) → Run Sync
unfolding wait_in_queue unlink
wait_queue_del s queue wait = do
  assert (wait_in_queue s wait && ((s.wait wait).wait_queue == queue))
  ok (record s {
    wait = update s.wait wait (record (s.wait wait) { linked = false });
    queue = update s.queue queue (unlink wait (s.queue queue));
  })

unfoldable pub wait_queue_next : Sync → (queue wait : ℕ) → Run (Option ℕ)
unfolding wait_in_queue
wait_queue_next s queue wait = do
  assert (wait_in_queue s wait && ((s.wait wait).wait_queue == queue))
  ok (behind wait (s.queue queue))

unfoldable pub wait_queue_prev : Sync → (queue wait : ℕ) → Run (Option ℕ)
unfolding wait_in_queue
wait_queue_prev s queue wait = do
  assert (wait_in_queue s wait && ((s.wait wait).wait_queue == queue))
  ok (before_of none wait (s.queue queue))

unfoldable pub wait_queue_first : Sync → ℕ → Option ℕ
wait_queue_first s queue = first_of (s.queue queue)

unfoldable pub wait_queue_last : Sync → ℕ → Option ℕ
wait_queue_last s queue = last_of (s.queue queue)

unfoldable pub wait_queue_empty : Sync → ℕ → Bool
wait_queue_empty s queue = elim (s.queue queue) [ [] ↦ true | w ∷ ws ↦ false ]

-- `wait_current_set`: the current process sleeps, and waits in the queue.
unfoldable pub wait_current_set : Sync → (queue wait wait_state : ℕ) → Run Sync
unfolding wait_init wait_queue_add
wait_current_set s queue wait wait_state =
    let s' = wait_init s wait s.kernel.current in
    wait_queue_add
      (record s' {
        kernel = record s'.kernel {
          procs =
              modify s'.kernel.procs s'.kernel.current
                (λ p. record p { state = sleeping; wait_state = wait_state });
        };
      })
      queue wait

-- `wait_current_del` of wait.h
unfoldable pub wait_current_del : Sync → (queue wait : ℕ) → Run Sync
unfolding wait_in_queue wait_queue_del
wait_current_del s queue wait = if wait_in_queue s wait then wait_queue_del s queue wait else ok s

module _ (cls : SchedClass) where
  unfoldable pub wakeup_wait : Sync → (queue wait wakeup_flags : ℕ) → Bool → Run Sync
  unfolding wait_queue_del
  wakeup_wait s queue wait wakeup_flags del = do
    s' ← (if del then wait_queue_del s queue wait else ok s)
    let w = record (s'.wait wait) { wakeup_flags = wakeup_flags }
    kernel ← wakeup_proc cls s'.kernel w.proc
    ok (record s' { wait = update s'.wait wait w; kernel = kernel })

  unfoldable pub wakeup_first : Sync → (queue wakeup_flags : ℕ) → Bool → Run Sync
  unfolding wakeup_wait wait_queue_first
  wakeup_first s queue wakeup_flags del = elim (wait_queue_first s queue) [
    | none ↦ ok s
    | some w ↦ wakeup_wait s queue w wakeup_flags del
  ]

  -- The loop of `wakeup_queue` that takes the entries out.
  unfoldable pub wakeup_taking : (fuel : ℕ) → Sync → (queue wait wakeup_flags : ℕ) → Run Sync
  unfolding wakeup_wait wait_queue_first
  wakeup_taking zero s queue wait flags = out_of_fuel
  wakeup_taking (suc k) s queue wait flags = do
    s' ← wakeup_wait s queue wait flags true
    elim (wait_queue_first s' queue) [ none ↦ ok s' | some w ↦ wakeup_taking k s' queue w flags ]

  -- The loop of `wakeup_queue` that leaves them.
  unfoldable pub wakeup_leaving : (fuel : ℕ) → Sync → (queue wait wakeup_flags : ℕ) → Run Sync
  unfolding wakeup_wait wait_queue_next
  wakeup_leaving zero s queue wait flags = out_of_fuel
  wakeup_leaving (suc k) s queue wait flags = do
    s' ← wakeup_wait s queue wait flags false
    next ← wait_queue_next s' queue wait
    elim next [ none ↦ ok s' | some w ↦ wakeup_leaving k s' queue w flags ]

  -- The entries of the queue are woken one after the other.
  unfoldable pub wakeup_queue : Sync → (queue wakeup_flags : ℕ) → Bool → Run Sync
  unfolding wait_queue_first wakeup_taking wakeup_leaving
  wakeup_queue s queue flags del = elim (wait_queue_first s queue) [
    | none ↦ ok s
    | some w ↦
        if del
        then wakeup_taking (length (s.queue queue)) s queue w flags
        else wakeup_leaving (length (s.queue queue)) s queue w flags
  ]
