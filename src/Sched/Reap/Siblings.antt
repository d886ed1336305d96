-- ===== src/Sched/Reap/Siblings.antt =====
-- Taking a child out of the children of its parent: remove_links of
-- labcode/lab8/kern/process/proc.c.
use oslabcode.Prelude.{
  ℕ, ◌≤◌, ◌<◌, ◌≡◌, ◌≢◌, refl, sym, ◌∙◌, ◌⊎◌, inl, inr, List, [], ◌∷◌, ◌++◌, arith, count,
  count-append, Distinct,
}
use mathlib.Core.Path.{subst}
use oslabcode.Sched.Family.{Family, remove_links, Siblings, Siblings-frame}

module _ (s : Family) (z : ℕ) (positive : 0 < z) where
  -- The older siblings of the child that goes, behind its younger one.
  older-Siblings :
      (zs : List ℕ)
      → Siblings s z (s.optr z) zs
      → ((a : ℕ) → count a (z ∷ zs) ≤ 1)
      → count (s.yptr z) zs ≡ 0
      → Siblings (remove_links s z) (s.yptr z) (s.optr z) zs
  unfolding remove_links
  older-Siblings [] h once apart = h
  older-Siblings (u ∷ us) h once apart =
      let ne : u ≢ z = ground (arith, once z) in
      let e = h.0 in
      let some_older = h.1 in
      let other : s.yptr z ≢ u = ground (arith, apart) in
      (
        h.0,
        h.1,
        ground (arith, e, ne, some_older),
        subst (λ o. Siblings (remove_links s z) u o us)
            (let same : s.optr u ≡ (remove_links s z).optr u =
                ground (arith, e, ne, some_older, other) in
              same)
            (Siblings-frame s (remove_links s z) u (s.optr u) us
              (λ a i.
                (ground (arith, e, once a, i, once u), ground (arith, e, ne, i, apart, some_older)))
              h.3),
      )

  -- The younger sibling is one of those before the child.
  younger_before :
      (x : ℕ) (xs zs : List ℕ) (y c : ℕ)
      → Siblings s y c (x ∷ (xs ++ z ∷ zs))
      → (0 < s.yptr z) × (0 < count (s.yptr z) (x ∷ xs))
  younger_before x [] zs y c h =
      let (_, _, is, _) = h.3 in let first = h.1 in (ground (arith, is, first), ground (arith, is))
  younger_before x (x1 ∷ xs) zs y c h =
      let (p, i) = younger_before x1 xs zs x (s.optr x) h.3 in (p, omega (arith, i))

  older_in : (zs : List ℕ) → Siblings s z (s.optr z) zs → (s.optr z ≡ 0) ⊎ (0 < count (s.optr z) zs)
  older_in [] h = inl h
  older_in (u ∷ us) h = let e = h.0 in inr (ground (arith, e))

  far_younger : (a : ℕ) → a ≢ s.optr z → (remove_links s z).yptr a ≡ s.yptr a
  unfolding remove_links
  far_younger a far = ground (arith, far)

  far_older : (a : ℕ) → a ≢ s.yptr z → z ≢ s.optr z → (remove_links s z).optr a ≡ s.optr a
  unfolding remove_links
  far_older a far out = ground (arith, far, out)

  near_older : 0 < s.yptr z → z ≢ s.optr z → (remove_links s z).optr (s.yptr z) ≡ s.optr z
  unfolding remove_links
  near_older some_younger out = ground (arith, some_younger, out)

  -- The older sibling is not one of the entries before the child, nor the child.
  apart_of :
      (zs : List ℕ) (a : ℕ) → Siblings s z (s.optr z) zs → 0 < a → count a zs ≡ 0 → a ≢ s.optr z
  apart_of zs a h some_a away = λ same. elim (older_in zs h) [
    | inl none_older ↦ ground (arith, none_older, same, some_a)
    | inr inside ↦
        let here : 0 < count a zs = subst (λ q. 0 < count q zs) (sym same) inside in
        omega (arith, here, away)
  ]

  -- What is before the child and behind it.
  rest-Siblings :
      (x : ℕ) (xs zs : List ℕ) (y c : ℕ)
      → Siblings s y c (x ∷ (xs ++ z ∷ zs))
      → Siblings s z (s.optr z) zs
      → ((a : ℕ) → count a (x ∷ (xs ++ z ∷ zs)) ≤ 1)
      → Siblings (remove_links s z) y c (x ∷ (xs ++ zs))
  rest-Siblings x [] zs y c h tail once =
      let (e, some_z, younger, _) = h.3 in
      let out : z ≢ s.optr z = apart_of zs z tail positive (ground (arith, once z)) in
      let far : x ≢ s.optr z = apart_of zs x tail h.1 (ground (arith, once x)) in
      let some_x : 0 < s.yptr z = let first = h.1 in omega (arith, younger, first) in
      let away : count (s.yptr z) zs ≡ 0 = rw younger (ground (arith, once x)) in
      let behind = older-Siblings zs tail (λ a. ground (arith, once a)) away in
      (
        h.0,
        h.1,
        far_younger x far ∙ h.2,
        subst (λ q. Siblings (remove_links s z) q ((remove_links s z).optr q) zs) younger
            (subst (λ o. Siblings (remove_links s z) (s.yptr z) o zs) (sym (near_older some_x out))
              behind),
      )
  rest-Siblings x (x1 ∷ xs) zs y c h tail once =
      let (some_y, inside) = younger_before x1 xs zs x (s.optr x) h.3 in
      let count_z = count-append z xs (z ∷ zs) in
      let count_x = count-append x xs (z ∷ zs) in
      let count_y = count-append (s.yptr z) xs (z ∷ zs) in
      let out : z ≢ s.optr z = apart_of zs z tail positive (ground (arith, once z, count_z)) in
      let far : x ≢ s.optr z = apart_of zs x tail h.1 (ground (arith, once x, count_x)) in
      let no_younger : x ≢ s.yptr z = λ same.
        let here : 0 < count x (x1 ∷ xs) = subst (λ q. 0 < count q (x1 ∷ xs)) (sym same) inside in
        ground (arith, here, once x, count_x) in
      (
        h.0,
        h.1,
        far_younger x far ∙ h.2,
        subst (λ o. Siblings (remove_links s z) x o (x1 ∷ (xs ++ zs)))
            (sym (far_older x no_younger out))
            (rest-Siblings x1 xs zs x (s.optr x) h.3 tail
              (λ a. let o = once a in omega (arith, o))),
      )

  tail_of : (xs zs : List ℕ) (y c : ℕ) → Siblings s y c (xs ++ z ∷ zs) → Siblings s z (s.optr z) zs
  tail_of [] zs y c h = h.3
  tail_of (x ∷ xs) zs y c h = tail_of xs zs x (s.optr x) h.3

  -- Taking off a child of a parent leaves its other children in their order.
  pub remove_links-Siblings :
      (xs zs : List ℕ)
      → Siblings s 0 (s.cptr (s.parent z)) (xs ++ z ∷ zs)
      → Distinct (xs ++ z ∷ zs)
      → Siblings (remove_links s z) 0 ((remove_links s z).cptr (s.parent z)) (xs ++ zs)
  unfolding remove_links
  remove_links-Siblings [] zs h once =
      let out : z ≢ s.optr z = apart_of zs z h.3 positive (ground (arith, once z)) in
      let youngest = h.2 in
      let behind : Siblings (remove_links s z) (s.yptr z) (s.optr z) zs =
        older-Siblings zs h.3 once (rw youngest (none_zero zs z (s.optr z) h.3)) in
      let first : s.optr z ≡ (remove_links s z).cptr (s.parent z) = ground (arith, youngest, out) in
      subst (λ c. Siblings (remove_links s z) 0 c zs) first
        (subst (λ q. Siblings (remove_links s z) q (s.optr z) zs) youngest behind)
    where
      none_zero : (us : List ℕ) (y c : ℕ) → Siblings s y c us → count 0 us ≡ 0
      none_zero [] y c g = refl
      none_zero (u ∷ us) y c g =
          let first = g.1 in ground (arith, first, none_zero us u (s.optr u) g.3)
  remove_links-Siblings (x ∷ xs) zs h once =
      let tail = tail_of (x ∷ xs) zs 0 (s.cptr (s.parent z)) h in
      let (some_y, inside) = younger_before x xs zs 0 (s.cptr (s.parent z)) h in
      let count_z = count-append z xs (z ∷ zs) in
      let out : z ≢ s.optr z =
        apart_of zs z tail positive (let o = once z in ground (arith, o, count_z)) in
      let first : s.cptr (s.parent z) ≡ (remove_links s z).cptr (s.parent z) =
        ground (arith, some_y, out) in
      subst (λ c. Siblings (remove_links s z) 0 c (x ∷ (xs ++ zs))) first
        (rest-Siblings x xs zs 0 (s.cptr (s.parent z)) h tail once)
