-- ===== src/Proc/Pid/Fresh.antt =====
-- The pid that `get_pid` gives, and the bounds that it keeps.
use oslabcode.Prelude.{
  ℕ, zero, suc, ◌+◌, ◌-◌, ◌*◌, ◌≤◌, ◌<◌, ◌≡◌, ◌≢◌, refl, sym, ◌∙◌, ◌⊎◌, inl, inr, ◌&&◌, List, [],
  ◌∷◌, arith, ltb, leb, ◌==◌, if◌then◌else◌, ltb→lt, Bool-cases, ok, length, count,
}
use mathlib.Core.Path.{subst}
use oslabcode.Proc.Pid.{max_pid, PidState, scan_pids, get_pid}

-- No pid in use lies between the bounds.
abbrev pub Clear : (lo hi : ℕ) → List ℕ → Type 0
Clear lo hi pids = (p : ℕ) → 0 < count p pids → lo ≤ p → p < hi → ⊥

-- No pid in use lies behind the last one that was given and before `next_safe`.
pub record IsPidState (s : PidState) (pids : List ℕ) : Type 0 where
  pub safe : Clear (s.last_pid + 1) s.next_safe pids
  pub top : s.next_safe ≤ max_pid
  pub last : s.last_pid ≤ max_pid

-- How many candidates are tried before the unused pid `u`.
abbrev pub distance : (u last : ℕ) → ℕ
distance u last = if leb last u then u - last else max_pid - last + u

-- What a walk of the list leaves, when `seen` and `left` are its parts.
scan_pids-Fresh :
    (k : ℕ) (all left : List ℕ) (last safe u : ℕ)
    → count u all ≡ 0
    → 0 < u
    → u < max_pid
    → 0 < last
    → last < safe
    → safe ≤ max_pid
    → ((p : ℕ) → 0 < count p all → (0 < count p left) ⊎ ((p < last) ⊎ (safe ≤ p)))
    → ((p : ℕ) → 0 < count p left → 0 < count p all)
    → distance u last < k
    → (s : PidState) × (scan_pids k all left last safe ≡ ok s)
      × (0 < s.last_pid)
      × (s.last_pid < s.next_safe)
      × (s.next_safe ≤ max_pid)
      × Clear s.last_pid s.next_safe all
unfolding scan_pids
scan_pids-Fresh zero all left last safe u free pos top one lt hi seen sub far = absurd (omega arith)
scan_pids-Fresh (suc k) all [] last safe u free pos top one lt hi seen sub far = (
  record { next_safe = safe; last_pid = last },
  refl,
  one,
  lt,
  hi,
  λ p i l h. ground (arith, seen p i),
)
scan_pids-Fresh (suc k) all (p ∷ ps) last safe u free pos top one lt hi seen sub far =
    let here : 0 < count p all = sub p (ground arith) in
    let used : u ≢ p = (λ e.
      let none_of : count p all ≡ 0 = subst (λ x. count x all ≡ 0) e free in
      absurd (omega (arith, none_of, here))) in
    elim (Bool-cases (p == last)) [
      | inr apart ↦
          let safe' = if ltb last p && ltb p safe then p else safe in
          rw apart (
            scan_pids-Fresh (suc k) all ps last safe' u free pos top one (ground (arith, lt))
              (ground (arith, hi, lt)) (λ q i. ground (arith, seen q i, apart))
              (λ q i. sub q (omega arith)) far)
      | inl same ↦ elim (Bool-cases (leb safe (last + 1))) [
        | inr room ↦
            rw (same, room)
              (scan_pids-Fresh (suc k) all ps (last + 1) safe u free pos top (omega arith)
                (ground (arith, room)) hi (λ q i. ground (arith, seen q i, same))
                (λ q i. sub q (omega arith)) (ground (arith, used, same, far, lt, hi)))
        | inl full ↦
            rw (same, full)
              (scan_pids-Fresh k all all (if leb max_pid (last + 1) then 1 else last + 1) max_pid u
                free pos top (ground arith) (ground (arith, top)) (omega arith) (λ q i. inl i)
                (λ q i. i) (ground (arith, used, same, far, lt, hi)))
      ]
    ]

-- Some pid is unused among more candidates than there are pids.
drop_pid : ℕ → List ℕ → List ℕ
drop_pid n [] = []
drop_pid n (p ∷ ps) = if n == p then drop_pid n ps else p ∷ drop_pid n ps

length-drop_pid : (n : ℕ) (ps : List ℕ) → length (drop_pid n ps) + count n ps ≡ length ps
unfolding drop_pid
length-drop_pid n [] = omega arith
length-drop_pid n (p ∷ ps) = ground (arith, length-drop_pid n ps)

count-drop_pid : (n u : ℕ) (ps : List ℕ) → u ≢ n → count u (drop_pid n ps) ≡ count u ps
unfolding drop_pid
count-drop_pid n u [] ne = refl
count-drop_pid n u (p ∷ ps) ne = ground (arith, count-drop_pid n u ps)

unused_pid : (n : ℕ) (ps : List ℕ) → length ps < n → (u : ℕ) × (0 < u) × (u ≤ n) × (count u ps ≡ 0)
unused_pid zero ps lt = absurd (omega arith)
unused_pid (suc n) ps lt = elim (Bool-cases (ltb 0 (count (suc n) ps))) [
  | inr free ↦ (suc n, omega arith, omega arith, ground (arith, free))
  | inl used ↦
      let (u, pos, le, out) =
        unused_pid n (drop_pid (suc n) ps) (ground (arith, used, length-drop_pid (suc n) ps, lt)) in
      (u, pos, omega arith, sym (count-drop_pid (suc n) u ps (λ e. absurd (omega arith))) ∙ out)
]

-- The pid is one that no process of the list has, and what is remembered is true when it is added.
pub record IsFresh (s' : PidState) (pids : List ℕ) : Type 0 where
  pub positive : 0 < s'.last_pid
  pub small : s'.last_pid < max_pid
  pub unused : count s'.last_pid pids ≡ 0
  pub valid : IsPidState s' (s'.last_pid ∷ pids)

scanned :
    (s' : PidState) (pids : List ℕ)
    → 0 < s'.last_pid
    → s'.last_pid < s'.next_safe
    → s'.next_safe ≤ max_pid
    → Clear s'.last_pid s'.next_safe pids
    → IsFresh s' pids
scanned s' pids one lt hi clear = record {
  positive = one;
  small = omega arith;
  unused = elim (Bool-cases (ltb 0 (count s'.last_pid pids))) [
    | inl used ↦ absurd (clear s'.last_pid (ltb→lt _ _ used) (omega arith) lt)
    | inr free ↦ ground (arith, free)
  ];
  valid = record {
    safe = λ p i l h. clear p (ground (arith, i, l)) (omega arith) h;
    top = hi;
    last = omega arith;
  };
}

-- With fewer processes than pids `get_pid` ends and gives a pid from 1 to `max_pid` - 1 that no
-- process has, and what it remembers is true again when the process is in the list.
pub get_pid-Fresh :
    (s : PidState) (pids : List ℕ)
    → IsPidState s pids
    → length pids < max_pid - 1
    → (s' : PidState) × (get_pid s pids ≡ ok s') × IsFresh s' pids
unfolding get_pid
get_pid-Fresh s pids v few =
    let (u, pos, le, free) = unused_pid (max_pid - 1) pids few in
    elim (Bool-cases (leb max_pid (s.last_pid + 1))) [
      | inl wraps ↦
          let (s', e, one, lt, hi, clear) =
            scan_pids-Fresh (2 * max_pid + 1) pids pids 1 max_pid u free pos (omega arith)
              (omega arith) (omega arith) (omega arith) (λ q i. inl i) (λ q i. i) (ground arith) in
          (s', rw (wraps, e), scanned s' pids one lt hi clear)
      | inr next ↦ elim (Bool-cases (leb s.next_safe (s.last_pid + 1))) [
        | inl over ↦
            let (s', e, one, lt, hi, clear) =
              scan_pids-Fresh (2 * max_pid + 1) pids pids (s.last_pid + 1) max_pid u free pos
                (omega arith) (omega arith) (ground (arith, next)) (omega arith) (λ q i. inl i)
                (λ q i. i) (ground (arith, next)) in
            (s', rw (next, over, e), scanned s' pids one lt hi clear)
        | inr under ↦ (
          record s { last_pid = s.last_pid + 1 },
          rw (next, under),
          scanned (record s { last_pid = s.last_pid + 1 }) pids (omega arith)
              (ground (arith, under)) v.top v.safe,
        )
      ]
    ]
