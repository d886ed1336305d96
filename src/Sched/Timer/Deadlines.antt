-- ===== src/Sched/Timer/Deadlines.antt =====
-- What the timer list stands for: each timer with the ticks left until it fires.
use oslabcode.Prelude.{
  ℕ, ◌+◌, ◌-◌, ◌%◌, ◌^◌, ◌<◌, ◌≡◌, ◌≢◌, refl, ap, inl, inr, true, false, List, [], ◌∷◌, arith, ltb,
  ◌==◌, if◌then◌else◌, lt→ltb, Bool-cases, ok, count, Distinct,
}
use oslabcode.Sched.Timer.{Timer, Timers, set_expires, add_walk, add_timer, del_walk, del_timer}

-- The timers of a list with their deadlines, from `base` ticks on.
abbrev pub deadlines : (ℕ → Timer) → ℕ → List ℕ → List (ℕ × ℕ)
deadlines timer base [] = []
deadlines timer base (t ∷ ts) =
    (t, base + (timer t).expires) ∷ deadlines timer (base + (timer t).expires) ts

-- The place of a new deadline: behind all that are no later.
unfoldable pub insert_deadline : ℕ × ℕ → List (ℕ × ℕ) → List (ℕ × ℕ)
insert_deadline d [] = d ∷ []
insert_deadline d (e ∷ es) = if ltb d.1 e.1 then d ∷ e ∷ es else e ∷ insert_deadline d es

unfoldable pub delete_deadline : ℕ → List (ℕ × ℕ) → List (ℕ × ℕ)
delete_deadline t [] = []
delete_deadline t (e ∷ es) = if t == e.0 then es else e ∷ delete_deadline t es

deadlines-frame :
    (timer timer' : ℕ → Timer) (base : ℕ) (ts : List ℕ)
    → ((a : ℕ) → 0 < count a ts → (timer' a).expires ≡ (timer a).expires)
    → deadlines timer' base ts ≡ deadlines timer base ts
deadlines-frame timer timer' base [] f = refl
deadlines-frame timer timer' base (t ∷ ts) f = rw (
  f t (ground arith),
  deadlines-frame timer timer' (base + (timer t).expires) ts (λ a i. f a (omega arith)),
)

add_walk-other :
    (timer : ℕ → Timer) (t a : ℕ) (ts : List ℕ)
    → a ≢ t
    → count a ts ≡ 0
    → (add_walk timer t ts).0 a ≡ timer a
unfolding add_walk
add_walk-other timer t a [] ne out = refl
add_walk-other timer t a (u ∷ us) ne out =
    ground
      (arith, add_walk-other (set_expires timer t ((timer t).expires - (timer u).expires)) t a us)

-- The walk of `add_timer` puts the timer at the place of its deadline, and moves no other deadline.
add_walk-insert :
    (timer : ℕ → Timer) (base t : ℕ) (ts : List ℕ)
    → count t ts ≡ 0
    → Distinct ts
    → let r = add_walk timer t ts in
      deadlines r.0 base r.1
      ≡ insert_deadline (t, base + (timer t).expires) (deadlines timer base ts)
unfolding add_walk insert_deadline
add_walk-insert timer base t [] out once = refl
add_walk-insert timer base t (u ∷ us) out once =
    elim (Bool-cases (ltb (timer t).expires (timer u).expires)) [
      | inl early ↦
          let timer' = set_expires timer u ((timer u).expires - (timer t).expires) in
          let at_u : base + (timer' t).expires + (timer' u).expires ≡ base + (timer u).expires =
            ground (arith, out) in
          let at_t : (timer' t).expires ≡ (timer t).expires = ground (arith, out) in
          let test : ltb (base + (timer t).expires) (base + (timer u).expires) ≡ true =
            ground arith in
          rw (
            early,
            test,
            at_u,
            at_t,
            deadlines-frame timer timer' (base + (timer u).expires) us
                (λ a i. ground (arith, once u)),
          )
      | inr late ↦
          let timer1 = set_expires timer t ((timer t).expires - (timer u).expires) in
          let ih =
            add_walk-insert timer1 (base + (timer u).expires) t us (ground (arith, out))
              (λ a. omega (arith, once a)) in
          let test : ltb (base + (timer t).expires) (base + (timer u).expires) ≡ false =
            ground arith in
          let kept : ((add_walk timer1 t us).0 u).expires ≡ (timer u).expires =
            ground (arith, add_walk-other timer1 t u us, once u, out) in
          let sum : base + (timer u).expires + (timer1 t).expires ≡ base + (timer t).expires =
            ground arith in
          let same : deadlines timer1 (base + (timer u).expires) us
              ≡ deadlines timer (base + (timer u).expires) us =
            deadlines-frame timer timer1 (base + (timer u).expires) us
              (λ a i. ground (arith, out)) in
          rw (late, test, kept) (ap (λ l. (u, base + (timer u).expires) ∷ l) (rw (sum, same) at ih))
    ]

-- `add_timer` of a timer that is not linked gives it the deadline that it asks for, at its place,
-- and changes no other deadline.
pub add_timer-insert :
    (ts : Timers) (t : ℕ)
    → 0 < (ts.timer t).expires
    → count t ts.timer_list ≡ 0
    → Distinct ts.timer_list
    → (ts' : Timers) × (add_timer ts t ≡ ok ts')
      × (deadlines ts'.timer 0 ts'.timer_list
          ≡ insert_deadline (t, (ts.timer t).expires) (deadlines ts.timer 0 ts.timer_list))
unfolding add_timer
add_timer-insert ts t pos out once = (
  record {
    timer = (add_walk ts.timer t ts.timer_list).0;
    timer_list = (add_walk ts.timer t ts.timer_list).1;
  },
  rw (lt→ltb 0 (ts.timer t).expires pos, out),
  rw (add_walk-insert ts.timer 0 t ts.timer_list out once) (ground arith),
)

-- Every deadline fits into 32 bits.
abbrev pub Small : (ℕ → Timer) → ℕ → List ℕ → Type 0
Small timer base [] = Unit
Small timer base (t ∷ ts) =
    (base + (timer t).expires < 2 ^ 32) × Small timer (base + (timer t).expires) ts

del_walk-other :
    (timer : ℕ → Timer) (t a : ℕ) (ts : List ℕ)
    → count a ts ≡ 0
    → (del_walk timer t ts).0 a ≡ timer a
unfolding del_walk
del_walk-other timer t a [] out = refl
del_walk-other timer t a (u ∷ []) out = ground arith
del_walk-other timer t a (u ∷ v ∷ us) out = ground (arith, del_walk-other timer t a (v ∷ us))

-- The timer behind the deleted one takes over its ticks.
abbrev taken_over : (ℕ → Timer) → (t v : ℕ) → ℕ → Timer
taken_over timer t v =
    if (timer t).expires == 0
    then timer
    else set_expires timer v (((timer v).expires + (timer t).expires) % 2 ^ 32)

del_walk-delete :
    (timer : ℕ → Timer) (base t : ℕ) (ts : List ℕ)
    → Distinct ts
    → Small timer base ts
    → let r = del_walk timer t ts in
      deadlines r.0 base r.1 ≡ delete_deadline t (deadlines timer base ts)
unfolding del_walk delete_deadline
del_walk-delete timer base t [] once small = refl
del_walk-delete timer base t (u ∷ []) once small = ground arith
del_walk-delete timer base t (u ∷ v ∷ us) once small = elim (Bool-cases (t == u)) [
  | inl here ↦
      let at_v : base + (taken_over timer t v v).expires
          ≡ base + (timer u).expires + (timer v).expires =
        ground (arith, small) in
      rw (
        here,
        at_v,
        deadlines-frame timer (taken_over timer t v) _ us (λ a i. ground (arith, once v)),
      )
  | inr later ↦
      let kept : ((del_walk timer t (v ∷ us)).0 u).expires ≡ (timer u).expires =
        ground (arith, del_walk-other timer t u (v ∷ us), once u) in
      rw (later, kept)
        (ap (λ l. (u, base + (timer u).expires) ∷ l)
          (del_walk-delete timer (base + (timer u).expires) t (v ∷ us) (λ a. omega (arith, once a))
            small.1))
]

-- `del_timer` takes a timer's deadline away and changes no other.
pub del_timer-delete :
    (ts : Timers) (t : ℕ)
    → Distinct ts.timer_list
    → Small ts.timer 0 ts.timer_list
    → deadlines (del_timer ts t).timer 0 (del_timer ts t).timer_list
      ≡ delete_deadline t (deadlines ts.timer 0 ts.timer_list)
unfolding del_timer
del_timer-delete ts t once small = del_walk-delete ts.timer 0 t ts.timer_list once small
