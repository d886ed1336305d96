-- ===== src/Tests/Numbers.antt =====
-- A printed number that is read back, and a new pid.
use oslabcode.Prelude.{◌≡◌, refl, [], ◌∷◌, arith, update, ok}
use oslabcode.Memory.{Memory}
use oslabcode.Memory.Number.{strtol, printnum, pads}
use oslabcode.Memory.Number.RoundTrip.{strtol-printnum}
use oslabcode.Proc.Pid.{PidState, scan_pids, get_pid}
use oslabcode.Proc.Pid.Fresh.{IsPidState, IsFresh, get_pid-Fresh}

-- "1f" at 100
abbrev hex_text : Memory
hex_text = update (update (λ _. 0) 100 49) 101 102

print_31 : printnum 32 31 16 0 32 ≡ ok (49 ∷ 102 ∷ [])
unfolding printnum pads
print_31 = refl

read_31 : strtol 3 hex_text 100 16 ≡ ok (31, 102)
read_31 =
    strtol-printnum 31 16 32 3 hex_text 100 (49 ∷ 102 ∷ []) (ground arith) (ground arith)
      (ground arith) print_31 (refl, (refl, tt)) refl (ground arith)

-- The pids wrap around: 1 and 2 are in use.
abbrev last_pids : PidState
last_pids = record { next_safe = 8192; last_pid = 8191 }

last_pids-IsPidState : IsPidState last_pids (2 ∷ 1 ∷ [])
last_pids-IsPidState = record {
  safe = λ p u lo hi. omega (arith, lo, hi);
  top = omega arith;
  last = omega arith;
}

pid_behind : (s' : PidState) × (get_pid last_pids (2 ∷ 1 ∷ []) ≡ ok s') × IsFresh s' (2 ∷ 1 ∷ [])
pid_behind = get_pid-Fresh last_pids (2 ∷ 1 ∷ []) last_pids-IsPidState (ground arith)

pid_3 : get_pid last_pids (2 ∷ 1 ∷ []) ≡ ok (record { next_safe = 8192; last_pid = 3 })
unfolding get_pid scan_pids
pid_3 = refl
