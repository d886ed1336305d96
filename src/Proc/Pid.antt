-- ===== src/Proc/Pid.antt =====
-- `get_pid` of labcode/lab8/kern/process/proc.c, over the pids of the process list in its order.
pub mod Fresh
use oslabcode.Prelude.{
  ℕ, zero, suc, ◌+◌, ◌-◌, ◌*◌, ◌/◌, ◌%◌, ◌^◌, ◌≤◌, ◌<◌, ◌≡◌, ◌≢◌, refl, sym, ap, ◌∙◌, ◌↔◌, ◌⊎◌, inl,
  inr, Bool, true, false, not, ◌&&◌, ◌||◌, Option, none, some, List, [], ◌∷◌, ◌++◌, map,
  append_assoc, append-nil, arith, ltb, leb, ◌==◌, if◌then◌else◌, ltb→lt, lt→ltb, le→ltb, ==_iff,
  Bool-cases, Option-cases, update, ◌>>=◌, ◌>>◌, assert, Run, ok, panic, out_of_fuel, length,
  e_inval, e_no_mem, e_busy, e_max_open, count, count-append, Distinct, fun_ext, min,
}

abbrev pub max_pid : ℕ
max_pid = 8192

-- The static variables of `get_pid`.
pub record PidState : Type 0 where
  pub next_safe : ℕ
  pub last_pid : ℕ

-- The loop from `repeat` on: `left` are the pids of the list that are still ahead. A new walk of
-- the list uses up a round.
unfoldable pub scan_pids : (fuel : ℕ) → (all left : List ℕ) → (last safe : ℕ) → Run PidState
scan_pids k all [] last safe = ok (record { next_safe = safe; last_pid = last })
scan_pids zero all (p ∷ ps) last safe = out_of_fuel
scan_pids (suc k) all (p ∷ ps) last safe =
    let wrapped = if leb max_pid (last + 1) then 1 else last + 1 in
    let again = scan_pids k all all wrapped max_pid in
    let passed = scan_pids (suc k) all ps (last + 1) safe in
    let other = scan_pids (suc k) all ps last (if ltb last p && ltb p safe then p else safe) in
    if p == last then (if leb safe (last + 1) then again else passed) else other

-- `get_pid`, with enough rounds for the candidates from `last_pid` up and then from 1.
unfoldable pub get_pid : PidState → List ℕ → Run PidState
unfolding scan_pids
get_pid s pids =
    let last = s.last_pid + 1 in
    let rounds = 2 * max_pid + 1 in
    if leb max_pid last
    then scan_pids rounds pids pids 1 max_pid
    else (if leb s.next_safe last
        then scan_pids rounds pids pids last max_pid
        else ok (record s { last_pid = last }))
