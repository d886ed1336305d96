-- ===== src/Sched/Stride.antt =====
-- The stride class of labcode/lab8/kern/schedule/default_sched_stride.c, over a skew heap.
pub mod Compare
pub mod Laws
use oslabcode.Prelude.{
  ℕ, zero, suc, ◌+◌, ◌-◌, ◌*◌, ◌/◌, ◌%◌, ◌^◌, ◌≤◌, ◌<◌, ◌≡◌, ◌≢◌, refl, sym, ap, ◌∙◌, ◌↔◌, ◌⊎◌, inl,
  inr, Bool, true, false, not, ◌&&◌, ◌||◌, Option, none, some, List, [], ◌∷◌, ◌++◌, map,
  append_assoc, append-nil, arith, ltb, leb, ◌==◌, if◌then◌else◌, ltb→lt, lt→ltb, le→ltb, ==_iff,
  Bool-cases, Option-cases, update, ◌>>=◌, ◌>>◌, assert, Run, ok, panic, out_of_fuel, length,
  length-append, count, count-append, Distinct, fun_ext, min,
}
use oslabcode.Proc.{Proc, Procs, modify}
use oslabcode.SkewHeap.{Tree, null, node, skew_heap_insert, skew_heap_remove}
use oslabcode.Sched.{RunQueue, SchedClass}
use oslabcode.Sched.RoundRobin.{refill, tick}

abbrev pub big_stride : ℕ
big_stride = 2 ^ 30

-- The results of a comparison: -1, 0 and 1.
pub data Sign : Type 0 where
  minus zero_sign plus : Sign

-- `int32_t c = p->lab6_stride - q->lab6_stride`, and its sign.
unfoldable pub stride_comp : ℕ → ℕ → Sign
stride_comp a b =
    let c = (a + 2 ^ 32 - b) % 2 ^ 32 in
    if c == 0 then zero_sign else (if ltb c (2 ^ 31) then plus else minus)

unfoldable pub proc_stride_comp_f : Procs → ℕ → ℕ → Sign
unfolding stride_comp
proc_stride_comp_f procs p q = stride_comp (procs p).lab6_stride (procs q).lab6_stride

abbrev pub is_minus : Sign → Bool
is_minus minus = true
is_minus zero_sign = false
is_minus plus = false

-- `comp(a, b) == -1`
abbrev pub before : Procs → ℕ → ℕ → Bool
before procs p q = is_minus (proc_stride_comp_f procs p q)

unfoldable pub stride_init : RunQueue → RunQueue
stride_init rq = record rq { run_list = []; lab6_run_pool = null; proc_num = 0 }

unfoldable pub stride_enqueue : RunQueue → Procs → ℕ → Run (RunQueue × Procs)
unfolding refill
stride_enqueue rq procs proc = ok (
  record rq {
    lab6_run_pool = skew_heap_insert (before procs) rq.lab6_run_pool proc;
    proc_num = (rq.proc_num + 1) % 2 ^ 32;
  },
  modify procs proc (λ p. record (refill rq.max_time_slice p) { on_rq = true }),
)

unfoldable pub stride_dequeue : RunQueue → Procs → ℕ → Run (RunQueue × Procs)
stride_dequeue rq procs proc = do
  assert ((procs proc).on_rq && ltb 0 rq.proc_num)
  ok (
    record rq {
      lab6_run_pool = skew_heap_remove (before procs) rq.lab6_run_pool proc;
      proc_num = rq.proc_num - 1;
    },
    procs,
  )

-- A division by a priority of 0 has no defined result: `panic` stands for it.
unfoldable pub stride_pick_next : RunQueue → Procs → Run (Option ℕ × Procs)
stride_pick_next rq procs = elim rq.lab6_run_pool [
  | null ↦ ok (none, procs)
  | node l proc r ↦ do
    assert (not ((procs proc).lab6_priority == 0))
    ok (
      some proc,
      modify procs proc
          (λ p. record p { lab6_stride = (p.lab6_stride + big_stride / p.lab6_priority) % 2 ^ 32 }),
    )
]

unfoldable pub stride_proc_tick : Procs → ℕ → Procs
unfolding tick
stride_proc_tick procs proc = modify procs proc tick

abbrev pub stride_sched_class : SchedClass
stride_sched_class = record {
  init = stride_init;
  enqueue = stride_enqueue;
  dequeue = stride_dequeue;
  pick_next = stride_pick_next;
  proc_tick = stride_proc_tick;
}
