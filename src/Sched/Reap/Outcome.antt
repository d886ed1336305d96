-- ===== src/Sched/Reap/Outcome.antt =====
-- What waiting for any child gives: do_wait of labcode/lab8/kern/process/proc.c.
use oslabcode.Prelude.{
  ℕ, zero, suc, ◌<◌, ◌≡◌, ◌≢◌, refl, sym, ap, ◌∙◌, ◌⊎◌, inl, inr, Bool, true, false, ◌||◌, none,
  some, List, [], ◌∷◌, ◌++◌, arith, ltb, ◌==◌, if◌then◌else◌, lt→ltb, Bool-cases, ok, length, count,
  count-append, Distinct,
}
use mathlib.Core.Path.{subst}
use oslabcode.Proc.{sleeping, is_zombie, modify, wt_child}
use oslabcode.Sched.{Kernel}
use oslabcode.Sched.Family.{Family, remove_links, Siblings}
use oslabcode.Sched.Exit.{Processes}
use oslabcode.Sched.Reap.{
  no_child, asleep, reaped, unhash_proc, find_zombie, find_child, reap, wait_repeat, do_wait,
}
use oslabcode.Sched.Reap.Siblings.{remove_links-Siblings}

-- None of the processes has ended.
abbrev pub NoneDead : Kernel → List ℕ → Type 0
NoneDead k xs = (a : ℕ) → 0 < count a xs → is_zombie (k.procs a).state ≡ false

-- The first of some processes that has ended.
pub record FirstDead (k : Kernel) (xs : List ℕ) : Type 0 where
  pub before : List ℕ
  pub z : ℕ
  pub behind : List ℕ
  pub split : xs ≡ before ++ z ∷ behind
  pub living : NoneDead k before
  pub dead : is_zombie (k.procs z).state ≡ true

or_false : (b : Bool) → b ≡ (b || false)
or_false true = refl
or_false false = refl

or_true : (b : Bool) → true ≡ (b || true)
or_true true = refl
or_true false = refl

none_or_some : (xs : List ℕ) → (xs ≡ []) ⊎ (0 < length xs)
none_or_some [] = inl refl
none_or_some (x ∷ xs) = inr (omega arith)

-- The walk along the siblings finds the first one that has ended.
find_zombie-FirstDead :
    (rounds : ℕ) (s : Family) (k : Kernel) (y c : ℕ) (haskid : Bool) (xs : List ℕ)
    → Siblings s y c xs
    → length xs < rounds
    → (NoneDead k xs × (find_zombie rounds s k c haskid ≡ ok (haskid || ltb 0 (length xs), none)))
      ⊎ ((d : FirstDead k xs) × (find_zombie rounds s k c haskid ≡ ok (true, some d.z)))
unfolding find_zombie
find_zombie-FirstDead zero s k y c haskid xs h enough = absurd (omega (arith, enough))
find_zombie-FirstDead (suc n) s k y c haskid [] h enough =
    let stop : (c == 0) ≡ true = ground (arith, h) in
    inl (λ a i. absurd (omega (arith, i)), rw stop (ap (λ b. ok (b, none)) (or_false haskid)))
find_zombie-FirstDead (suc n) s k y c haskid (x ∷ xs) h enough =
    let here = h.0 in
    let some_x = h.1 in
    let go_on : (x == 0) ≡ false = ground (arith, some_x) in
    elim (Bool-cases (is_zombie (k.procs x).state)) [
      | inl dead ↦
          let d : FirstDead k (x ∷ xs) = record {
            before = [];
            z = x;
            behind = xs;
            split = refl;
            living = λ a i. absurd (omega (arith, i));
            dead = dead;
          } in
          inr (d, rw (here, go_on, dead))
      | inr living ↦
          elim (find_zombie-FirstDead n s k x (s.optr x) true xs h.3 (omega (arith, enough))) [
            | inl (none_dead, e) ↦
                let more : ltb 0 (length (x ∷ xs)) ≡ true = ground arith in
                inl (
                  λ a i. elim (Bool-cases (a == x)) [
                    | inl same ↦
                        let at : x ≡ a = ground (arith, same) in
                        subst (λ q. is_zombie (k.procs q).state ≡ false) at living
                    | inr other ↦ none_dead a (ground (arith, i, other))
                  ],
                  rw (here, go_on, living) (e ∙ ap (λ b. ok (b, none)) (rw more (or_true haskid))),
                )
            | inr (d, e) ↦
                let later : FirstDead k (x ∷ xs) = record {
                  before = x ∷ d.before;
                  z = d.z;
                  behind = d.behind;
                  split = ap (λ us. x ∷ us) d.split;
                  living = λ a i. elim (Bool-cases (a == x)) [
                    | inl same ↦
                        let at : x ≡ a = ground (arith, same) in
                        subst (λ q. is_zombie (k.procs q).state ≡ false) at living
                    | inr other ↦ d.living a (ground (arith, i, other))
                  ];
                  dead = d.dead;
                } in
                inr (later, rw (here, go_on, living) e)
          ]
    ]

-- The process goes to sleep until a child ends.
abbrev pub to_wait : Processes → Processes
to_wait e =
    let k = e.kernel in
    record e {
      kernel = record k {
        procs =
            modify k.procs k.current (λ p. record p { state = sleeping; wait_state = wt_child });
      };
    }

-- What waiting for any of the children `xs` gives.
pub record Reaped (rounds initproc : ℕ) (e : Processes) (xs : List ℕ) : Type 0 where
  pub first : FirstDead e.kernel xs
  pub e' : Processes
  pub run : do_wait true rounds initproc e 0 ≡ ok (reaped first.z (e.exit_code first.z) e')
  pub others : Siblings e'.family 0 (e'.family.cptr e.kernel.current) (first.before ++ first.behind)
  pub same_kernel : e'.kernel ≡ e.kernel

module _ (rounds initproc : ℕ) (e : Processes) where
  -- The hash lists are not read by what concerns siblings.
  unhashed-Siblings :
      (z : ℕ) (xs : List ℕ) (y c : ℕ)
      → Siblings e.family y c xs
      → Siblings (unhash_proc e.family z) y c xs
  unfolding unhash_proc
  unhashed-Siblings z [] y c h = h
  unhashed-Siblings z (x ∷ xs) y c h =
      (h.0, h.1, h.2, unhashed-Siblings z xs x (e.family.optr x) h.3)

  reap-Siblings :
      (before behind : List ℕ) (z : ℕ)
      → Siblings e.family 0 (e.family.cptr e.kernel.current) (before ++ z ∷ behind)
      → Distinct (before ++ z ∷ behind)
      → 0 < z
      → e.family.parent z ≡ e.kernel.current
      → Siblings
          (remove_links (unhash_proc e.family z) z)
          0
          ((remove_links (unhash_proc e.family z) z).cptr e.kernel.current)
          (before ++ behind)
  unfolding unhash_proc
  reap-Siblings before behind z h once some_z parent =
      let s = unhash_proc e.family z in
      let chain = unhashed-Siblings z (before ++ z ∷ behind) 0 (e.family.cptr e.kernel.current) h in
      subst (λ q. Siblings (remove_links s z) 0 ((remove_links s z).cptr q) (before ++ behind))
        parent
        (remove_links-Siblings s z some_z before behind
          (subst (λ q. Siblings s 0 (e.family.cptr q) (before ++ z ∷ behind)) (sym parent) chain)
          once)

  positive_in :
      (s : Family) (y c : ℕ) (xs : List ℕ) (z : ℕ) → Siblings s y c xs → 0 < count z xs → 0 < z
  positive_in s y c [] z h i = absurd (omega (arith, i))
  positive_in s y c (x ∷ xs) z h i = elim (Bool-cases (z == x)) [
    | inl same ↦ let some_x = h.1 in ground (arith, same, some_x)
    | inr other ↦ positive_in s x (s.optr x) xs z h.3 (ground (arith, i, other))
  ]

  run_found :
      (z : ℕ)
      → find_zombie rounds e.family e.kernel (e.family.cptr e.kernel.current) false
        ≡ ok (true, some z)
      → (z == e.kernel.idleproc || z == initproc) ≡ false
      → do_wait true rounds initproc e 0
        ≡ ok (
            reaped z
              (e.exit_code z)
              (record e { family = remove_links (unhash_proc e.family z) z }))
  unfolding do_wait wait_repeat find_child reap
  run_found z walk plain = rw (walk, plain)

  run_none :
      (haskid : Bool)
      → find_zombie rounds e.family e.kernel (e.family.cptr e.kernel.current) false
        ≡ ok (haskid, none)
      → do_wait true rounds initproc e 0 ≡ ok (if haskid then asleep (to_wait e) else no_child)
  unfolding do_wait wait_repeat find_child
  run_none haskid walk = rw walk

  -- Waiting for any child tells that there is none, sends the process to sleep when all of its
  -- children live, or reaps the first of them that has ended: it gives its code and takes it out of
  -- the children, of which the others stay in their order.
  pub do_wait-Reaped :
      (xs : List ℕ)
      → Siblings e.family 0 (e.family.cptr e.kernel.current) xs
      → Distinct xs
      → ((a : ℕ) → 0 < count a xs → e.family.parent a ≡ e.kernel.current)
      → count e.kernel.idleproc xs ≡ 0
      → count initproc xs ≡ 0
      → length xs < rounds
      → ((xs ≡ []) × (do_wait true rounds initproc e 0 ≡ ok no_child))
        ⊎ (((0 < length xs)
              × NoneDead e.kernel xs
              × (do_wait true rounds initproc e 0 ≡ ok (asleep (to_wait e))))
            ⊎ Reaped rounds initproc e xs)
  do_wait-Reaped xs h once parents no_idle no_init enough =
      elim (find_zombie-FirstDead rounds e.family e.kernel 0 (e.family.cptr e.kernel.current) false
        xs h enough) [
          | inl (living, walk) ↦ elim (none_or_some xs) [
            | inl empty ↦
                let none_there : ltb 0 (length xs) ≡ false = rw empty in
                inl (empty, run_none false (walk ∙ ap (λ b. ok (b, none)) none_there))
            | inr more ↦
                let some_there : ltb 0 (length xs) ≡ true = lt→ltb 0 (length xs) more in
                inr (inl (more, living, run_none true (walk ∙ ap (λ b. ok (b, none)) some_there)))
          ]
          | inr (d, walk) ↦
              let apart : (p : ℕ) → count p xs ≡ 0 → 0 < count d.z xs → d.z ≢ p = λ p out i same.
                let there : 0 < count p xs = subst (λ q. 0 < count q xs) same i in
                omega (arith, there, out) in
              let count_z = count-append d.z d.before (d.z ∷ d.behind) in
              let inside : 0 < count d.z xs =
                subst (λ us. 0 < count d.z us) (sym d.split) (ground (arith, count_z)) in
              let not_idle : (d.z == e.kernel.idleproc || d.z == initproc) ≡ false =
                ground
                  (arith, apart e.kernel.idleproc no_idle inside, apart initproc no_init inside) in
              inr (
                inr (record {
                  first = d;
                  e' = record e { family = remove_links (unhash_proc e.family d.z) d.z };
                  run = run_found d.z walk not_idle;
                  others =
                      reap-Siblings d.before d.behind d.z
                        (subst (λ us. Siblings e.family 0 (e.family.cptr e.kernel.current) us)
                          d.split h)
                        (subst Distinct d.split once)
                        (positive_in e.family 0 (e.family.cptr e.kernel.current) xs d.z h inside)
                        (parents d.z inside);
                  same_kernel = refl;
                }))
        ]
