-- ===== src/Sched/Exit/Adopt.antt =====
-- The children of a process that ends: the loop of do_exit of labcode/lab8/kern/process/proc.c.
use oslabcode.Prelude.{
  ℕ, zero, suc, ◌+◌, ◌≤◌, ◌<◌, ◌≡◌, ◌≢◌, refl, sym, ap, ◌∙◌, ◌⊎◌, inl, inr, true, false, List, [],
  ◌∷◌, arith, ◌==◌, if◌then◌else◌, Bool-cases, ok, length, count,
}
use mathlib.Core.Path.{subst}
use oslabcode.Proc.{runnable, zombie, is_zombie, wt_child}
use oslabcode.Sched.{SchedClass, Kernel}
use oslabcode.Sched.Invariant.{ClassLaws, IsSound}
use oslabcode.Sched.Family.{Family, Siblings, Siblings-frame}
use oslabcode.Sched.Exit.{adopt, wakeup_waiting, give_children}
use oslabcode.Sched.Exit.Woke.{Woke, same-Woke, Woke-Woke, wakeup_waiting-Woke}

module _ (s : Family) (current initproc : ℕ) (other : current ≢ initproc) where
  -- The first child goes to the front of the children of `initproc`.
  adopt-Siblings :
      (y x : ℕ) (xs ys : List ℕ)
      → Siblings s y (s.cptr current) (x ∷ xs)
      → Siblings s 0 (s.cptr initproc) ys
      → ((a : ℕ) → count a (x ∷ xs) + count a ys ≤ 1)
      → Siblings (adopt s current initproc) x ((adopt s current initproc).cptr current) xs
        × Siblings (adopt s current initproc) 0 ((adopt s current initproc).cptr initproc) (x ∷ ys)
  unfolding adopt
  adopt-Siblings y x xs [] h g once =
      let here = h.0 in
      let s' = adopt s current initproc in
      let older : s.cptr initproc ≡ 0 = g in
      let first : s'.cptr current ≡ s.optr x = ground (arith, here, other) in
      (
        subst (λ c. Siblings s' x c xs) (sym first)
            (Siblings-frame s s' x (s.optr x) xs
              (λ z i. (ground (arith, here, older, other, once z), ground (arith, here, once z)))
              h.3),
        (
          ground (arith, here),
          h.1,
          ground (arith, here, older, other),
          ground (arith, here, older, other),
        ),
      )
  adopt-Siblings y x xs (u ∷ us) h g once =
      let here = h.0 in
      let s' = adopt s current initproc in
      let older : s.cptr initproc ≡ u = g.0 in
      let some_older : 0 < u = g.1 in
      let ne : x ≢ u = ground (arith, once x) in
      let first : s'.cptr current ≡ s.optr x = ground (arith, here, other) in
      (
        subst (λ c. Siblings s' x c xs) (sym first)
            (Siblings-frame s s' x (s.optr x) xs
              (λ z i. (
                ground (arith, here, older, other, once z, some_older),
                ground (arith, here, once z),
              ))
              h.3),
        (
          ground (arith, here),
          h.1,
          ground (arith, here, older, other, some_older, ne),
          (
            ground (arith, here, older, other),
            some_older,
            ground (arith, here, older, other, some_older, ne),
            subst (λ o. Siblings s' u o us) (ground (arith, here, ne))
                (Siblings-frame s s' u (s.optr u) us
                  (λ z i. (
                    ground (arith, here, older, other, once z, once u),
                    ground (arith, here, once z),
                  ))
                  g.3),
          ),
        ),
      )

-- The lists with the first one put, entry by entry, before the second.
abbrev pub onto : List ℕ → List ℕ → List ℕ
onto [] ys = ys
onto (x ∷ xs) ys = onto xs (x ∷ ys)

module _ (cls : SchedClass) (laws : ClassLaws cls) where
  -- What the loop leaves: the process has no children, those that it had are children of
  -- `initproc`, which is awake if it waited and one of them is a zombie.
  pub record Given (current initproc : ℕ) (xs ys : List ℕ) (s : Family) (k : Kernel) (s' : Family)
      (k' : Kernel) : Type 0 where
    pub none_left : s'.cptr current ≡ 0
    pub children : Siblings s' 0 (s'.cptr initproc) (onto xs ys)
    pub parents :
        (a : ℕ)
        → (0 < count a xs → s'.parent a ≡ initproc) × (count a xs ≡ 0 → s'.parent a ≡ s.parent a)
    pub woke : Woke cls laws k initproc k'
    pub told :
        (a : ℕ)
        → 0 < count a xs
        → (k.procs a).state ≡ zombie
        → (k.procs initproc).wait_state ≡ wt_child
        → (k'.procs initproc).state ≡ runnable

  -- One round.
  told_of :
      (k : Kernel) (x initproc : ℕ)
      → IsSound cls laws k
      → (k.procs initproc).state ≢ zombie
      → (k1 : Kernel) × ((if is_zombie (k.procs x).state
            then wakeup_waiting cls k initproc
            else ok k)
          ≡ ok k1)
        × Woke cls laws k initproc k1
        × (((k.procs initproc).wait_state ≡ wt_child → (k1.procs initproc).state ≡ runnable)
            ⊎ ((k1 ≡ k) × (is_zombie (k.procs x).state ≡ false)))
  told_of k x initproc sound alive = elim (Bool-cases (is_zombie (k.procs x).state)) [
    | inl dead ↦
        let (k1, e, w, awake) = wakeup_waiting-Woke cls laws k initproc sound alive in
        (k1, rw dead e, w, inl awake)
    | inr living ↦ (k, rw living, same-Woke cls laws k initproc sound alive, inr (refl, living))
  ]

  next-parents :
      (s s' : Family) (current initproc x : ℕ) (xs : List ℕ)
      → s.cptr current ≡ x
      → ((a : ℕ) → count a (x ∷ xs) ≤ 1)
      → ((a : ℕ)
          → (0 < count a xs → s'.parent a ≡ initproc)
            × (count a xs ≡ 0 → s'.parent a ≡ (adopt s current initproc).parent a))
      → (a : ℕ)
      → (0 < count a (x ∷ xs) → s'.parent a ≡ initproc)
        × (count a (x ∷ xs) ≡ 0 → s'.parent a ≡ s.parent a)
  unfolding adopt
  next-parents s s' current initproc x xs here once later a =
      let (f, g) = later a in
      elim (Bool-cases (a == x)) [
        | inl first ↦
            let gone : count a xs ≡ 0 = ground (arith, first, once a) in
            let new = g gone in
            (λ i. ground (arith, new, here, first), λ i. absurd (ground (arith, i, first)))
        | inr rest ↦ (
          λ i. f (ground (arith, i, rest)),
          λ i. let old = g (ground (arith, i, rest)) in ground (arith, old, here, rest),
        )
      ]

  next_dead :
      (k : Kernel) (x : ℕ) (xs : List ℕ) (a : ℕ)
      → is_zombie (k.procs x).state ≡ false
      → 0 < count a (x ∷ xs)
      → (k.procs a).state ≡ zombie
      → 0 < count a xs
  next_dead k x xs a living i dead = elim (Bool-cases (a == x)) [
    | inl first ↦
        let same : a ≡ x = ground (arith, first) in
        let living_a : is_zombie (k.procs a).state ≡ false =
          subst (λ q. is_zombie (k.procs q).state ≡ false) (sym same) living in
        let dead_a : is_zombie (k.procs a).state ≡ true = ap is_zombie dead in absurd (cc)
    | inr rest ↦ ground (arith, i, rest)
  ]

  pub give_children-Given :
      (rounds current initproc y : ℕ) (xs ys : List ℕ) (s : Family) (k : Kernel)
      → current ≢ initproc
      → length xs < rounds
      → Siblings s y (s.cptr current) xs
      → Siblings s 0 (s.cptr initproc) ys
      → ((a : ℕ) → count a xs + count a ys ≤ 1)
      → IsSound cls laws k
      → (k.procs initproc).state ≢ zombie
      → (s' : Family) × (k' : Kernel) × (give_children cls rounds current initproc s k
          ≡ ok (s', k'))
        × Given current initproc xs ys s k s' k'
  unfolding give_children
  give_children-Given zero current initproc y xs ys s k other enough h g once sound alive =
      absurd (omega (arith, enough))
  give_children-Given (suc n) current initproc y [] ys s k other enough h g once sound alive = (
    s,
    k,
    rw (let none : (s.cptr current == 0) ≡ true = ground (arith, h) in none),
    record {
      none_left = h;
      children = g;
      parents = λ a. (λ i. absurd (omega (arith, i)), λ i. refl);
      woke = same-Woke cls laws k initproc sound alive;
      told = λ a i. absurd (omega (arith, i));
    },
  )
  give_children-Given (suc n) current initproc y (x ∷ xs) ys s k other enough h g once sound alive =
      let here = h.0 in
      let (k1, e, w, told1) = told_of k x initproc sound alive in
      let (h1, g1) = adopt-Siblings s current initproc other y x xs ys h g once in
      let (s', k', run, given) =
        give_children-Given n current initproc x xs (x ∷ ys) (adopt s current initproc) k1 other
          (omega (arith, enough)) h1 g1 (λ a. let o = once a in omega (arith, o)) w.sound w.alive in
      let once_x : (a : ℕ) → count a (x ∷ xs) ≤ 1 = λ a. let o = once a in omega (arith, o) in
      let some_child : (s.cptr current == 0) ≡ false = ground (arith, h.1, here) in
      (
        s',
        k',
        rw (some_child, here, e) run,
        record {
          none_left = given.none_left;
          children = given.children;
          parents = next-parents s s' current initproc x xs here once_x (λ a. given.parents a);
          woke = Woke-Woke cls laws k k1 k' initproc w given.woke;
          told = λ a i dead waits. elim told1 [
            | inl awake ↦ given.woke.stays (awake waits)
            | inr (same, living) ↦
                let later : 0 < count a xs = next_dead k x xs a living i dead in
                given.told a later (ap (λ q. (q.procs a).state) same ∙ dead)
                  (ap (λ q. (q.procs initproc).wait_state) same ∙ waits)
          ];
        },
      )
