-- ===== src/Proc.antt =====
-- What the scheduler, the wait queues and the timers read of a process control block:
-- `struct proc_struct` of labcode/lab8/kern/process/proc.h. A process is known by its number.
pub mod Pid
use oslabcode.Prelude.{ℕ, ◌/◌, ◌%◌, ◌^◌, Bool, true, false, ◌==◌, update}

-- `enum proc_state`
pub data ProcState : Type 0 where
  uninit sleeping runnable zombie : ProcState

pub record Proc : Type 0 where
  pub state : ProcState
  pub wait_state : ℕ
  pub need_resched : Bool
  pub runs : ℕ
  pub time_slice : ℕ
  pub on_rq : Bool
  pub lab6_stride : ℕ
  pub lab6_priority : ℕ

abbrev pub Procs : Type 0
Procs = ℕ → Proc

abbrev pub is_runnable : ProcState → Bool
is_runnable runnable = true
is_runnable uninit = false
is_runnable sleeping = false
is_runnable zombie = false

abbrev pub is_zombie : ProcState → Bool
is_zombie zombie = true
is_zombie uninit = false
is_zombie sleeping = false
is_zombie runnable = false

-- A write to the control block of a process.
abbrev pub modify : Procs → ℕ → (Proc → Proc) → Procs
modify procs p f = update procs p (f (procs p))

-- `WT_INTERRUPTED` is the top bit of the 32 bits of `wait_state`.
abbrev pub wt_interrupted : ℕ
wt_interrupted = 0x8000_0000

abbrev pub wt_child : ℕ
wt_child = 0x8000_0001

abbrev pub wt_ksem : ℕ
wt_ksem = 0x100

abbrev pub wt_timer : ℕ
wt_timer = 0x8000_0002

abbrev pub is_interruptible : ℕ → Bool
is_interruptible w = (w / 2 ^ 31) % 2 == 1
