-- ===== src/Sched/Stride/Laws.antt =====
-- The stride class serves a process of least stride, and the strides stay close together.
use oslabcode.Prelude.{
  ℕ, ◌+◌, ◌-◌, ◌/◌, ◌%◌, ◌^◌, ◌≤◌, ◌<◌, ◌≡◌, ◌≢◌, refl, true, some, arith, ltb, ◌==◌, if◌then◌else◌,
  update, ok,
}
use oslabcode.Proc.{Procs, modify}
use oslabcode.SkewHeap.{
  Tree, null, node, tree_count, skew_heap_merge, skew_heap_init, skew_heap_insert, skew_heap_remove,
}
use oslabcode.SkewHeap.Content.{tree_count-merge, tree_count-insert}
use oslabcode.SkewHeap.Order.{
  AllNodes, IsHeap, AllNodes-map, AllNodes-merge, IsHeap-merge, IsHeap-insert, root-least,
}
use oslabcode.Sched.{RunQueue}
use oslabcode.Sched.RoundRobin.{refill}
use oslabcode.Sched.Stride.{
  big_stride, proc_stride_comp_f, before, stride_enqueue, stride_dequeue, stride_pick_next,
}
use oslabcode.Sched.Stride.Compare.{stride_comp_lem}

-- The control block holds the low 32 bits of an unbounded stride, at most `BIG_STRIDE` above `lo`.
abbrev pub InWindow : Procs → (ℕ → ℕ) → ℕ → ℕ → Type 0
InWindow procs key lo a =
    ((procs a).lab6_stride ≡ key a % 2 ^ 32) × (lo ≤ key a) × (key a ≤ lo + big_stride)

-- A heap in the order of the unbounded strides, all of which lie in the window.
pub record IsPool (pool : Tree) (procs : Procs) (key : ℕ → ℕ) (lo : ℕ) : Type 0 where
  pub window : AllNodes (InWindow procs key lo) pool
  pub heap : IsHeap key pool

decides :
    (procs : Procs) (key : ℕ → ℕ) (lo a b : ℕ)
    → InWindow procs key lo a
    → InWindow procs key lo b
    → before procs a b ≡ ltb (key a) (key b)
unfolding proc_stride_comp_f
decides procs key lo a b p q =
    rw (p.0, q.0, stride_comp_lem (key a) (key b) (omega arith) (omega arith)) (ground arith)

-- The control blocks that `stride_enqueue` leaves.
abbrev filed : RunQueue → Procs → ℕ → Procs
filed rq procs p = modify procs p (λ q. record (refill rq.max_time_slice q) { on_rq = true })

-- Enqueueing a process whose stride lies in the window keeps the pool a heap in the order of the
-- unbounded strides, within the window, and adds that process and no other.
pub stride_enqueue-IsPool :
    (rq : RunQueue) (procs : Procs) (key : ℕ → ℕ) (lo p : ℕ)
    → IsPool rq.lab6_run_pool procs key lo
    → InWindow procs key lo p
    → (rq' : RunQueue) × (procs' : Procs) × (stride_enqueue rq procs p ≡ ok (rq', procs'))
      × IsPool rq'.lab6_run_pool procs' key lo
      × ((a : ℕ)
          → tree_count a rq'.lab6_run_pool
            ≡ tree_count a rq.lab6_run_pool + (if a == p then 1 else 0))
unfolding stride_enqueue
stride_enqueue-IsPool rq procs key lo p pool here = (
  _,
  _,
  refl,
  record {
    window =
        AllNodes-map (InWindow procs key lo) (InWindow (filed rq procs p) key lo) _
          (λ a w. (unfold refill in ground (arith, w), w.1, w.2))
          (unfold skew_heap_insert skew_heap_init in
            AllNodes-merge (before procs) (InWindow procs key lo) rq.lab6_run_pool
              (node null p null) pool.window (here, tt, tt));
    heap =
        IsHeap-insert (before procs) key (InWindow procs key lo) (decides procs key lo) p
          rq.lab6_run_pool here pool.window pool.heap;
  },
  λ a. tree_count-insert (before procs) a p rq.lab6_run_pool,
)

-- What stands in a tree is not an entry that does not.
not-mem-AllNodes : (p : ℕ) (t : Tree) → tree_count p t ≡ 0 → AllNodes (λ a. a ≢ p) t
unfolding tree_count
not-mem-AllNodes p null e = tt
not-mem-AllNodes p (node l x r) e =
    (ground arith, not-mem-AllNodes p l (omega arith), not-mem-AllNodes p r (omega arith))

AllNodes-zip :
    (P Q R : ℕ → Type 0) (t : Tree)
    → ((a : ℕ) → P a → Q a → R a)
    → AllNodes P t
    → AllNodes Q t
    → AllNodes R t
AllNodes-zip P Q R null f p q = tt
AllNodes-zip P Q R (node l x r) f p q =
    (f x p.0 q.0, AllNodes-zip P Q R l f p.1 q.1, AllNodes-zip P Q R r f p.2 q.2)

-- The control blocks with the stride of the chosen process advanced.
abbrev passed : Procs → ℕ → Procs
passed procs p =
    modify procs p
      (λ q. record q { lab6_stride = (q.lab6_stride + big_stride / q.lab6_priority) % 2 ^ 32 })

pass-le : (n : ℕ) → big_stride / n ≤ big_stride
pass-le n = omega arith

module _ (rq : RunQueue) (procs : Procs) (key : ℕ → ℕ) (lo p : ℕ) (l r : Tree)
    (e : rq.lab6_run_pool ≡ node l p r) (pool : IsPool (node l p r) procs key lo)
    (once : tree_count p l + tree_count p r ≡ 0) where
  -- The entries of a subtree of the chosen process's, seen after the choice.
  later_window :
      (t : Tree)
      → AllNodes (InWindow procs key lo) t
      → AllNodes (λ a. key p ≤ key a) t
      → tree_count p t ≡ 0
      → AllNodes (InWindow (passed procs p) key (key p)) t
  later_window t w above out =
      AllNodes-zip _ _ (InWindow (passed procs p) key (key p)) t
        (λ a v ne. (ground (arith, v), v.1, v.2))
        (AllNodes-zip _ _
          (λ a.
            ((procs a).lab6_stride ≡ key a % 2 ^ 32)
            × (key p ≤ key a)
            × (key a ≤ key p + big_stride))
          t (λ a v ab. (v.0, ab, omega (arith, v, pool.window.0))) w above)
        (not-mem-AllNodes p t out)

  -- Of a pool in which the root stands once, on the queue, counted, and with a priority above 0,
  -- the choice is the root, a process of least stride, `stride_dequeue` takes it out, the rest is
  -- again a pool, with the chosen stride for its lower end, and the chosen process, its stride
  -- advanced, still fits into the window.
  pub stride_take-least :
      0 < (procs p).lab6_priority
      → (procs p).on_rq ≡ true
      → 0 < rq.proc_num
      → (rq' : RunQueue) × (procs' : Procs) × (stride_pick_next rq procs ≡ ok (some p, procs'))
        × (stride_dequeue rq procs' p ≡ ok (rq', procs'))
        × ((a : ℕ) → 0 < tree_count a (node l p r) → key p ≤ key a)
        × IsPool rq'.lab6_run_pool procs' key (key p)
        × ((a : ℕ)
            → tree_count a rq'.lab6_run_pool + (if a == p then 1 else 0)
              ≡ tree_count a (node l p r))
        × InWindow procs' (update key p (key p + big_stride / (procs p).lab6_priority)) (key p) p
  stride_take-least prio linked some_left = (
    record rq {
      lab6_run_pool = skew_heap_merge (before (passed procs p)) l r;
      proc_num = rq.proc_num - 1;
    },
    passed procs p,
    unfold stride_pick_next in rw e (ground arith),
    unfold stride_dequeue skew_heap_remove in rw e (ground arith),
    λ a i. root-least key l r p a pool.heap i,
    record {
      window =
          AllNodes-merge _ (InWindow (passed procs p) key (key p)) l r
            (later_window l pool.window.1 pool.heap.0 (omega (arith, once)))
            (later_window r pool.window.2 pool.heap.1 (omega (arith, once)));
      heap =
          IsHeap-merge (before (passed procs p)) key (InWindow (passed procs p) key (key p))
            (decides (passed procs p) key (key p)) l r
            (later_window l pool.window.1 pool.heap.0 (omega (arith, once)))
            (later_window r pool.window.2 pool.heap.1 (omega (arith, once))) pool.heap.2
            pool.heap.3;
    },
    λ a. unfold tree_count in omega (arith, tree_count-merge (before (passed procs p)) a l r),
    (ground (arith, pool.window.0), ground arith, ground (arith, pass-le (procs p).lab6_priority)),
  )
