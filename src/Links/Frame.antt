-- ===== src/Links/Frame.antt =====
-- Rings that share no entry do not disturb one another.
use oslabcode.Prelude.{ℕ, ◌<◌, ◌≡◌, inl, inr, List, [], ◌∷◌, arith, ◌==◌, Bool-cases, count}
use oslabcode.Links.{Links, list_add_before, list_del_init}
use oslabcode.Links.Ring.{Seg, IsRing}
use oslabcode.Links.Del.{IsRing-frame}

-- The neighbours of an entry are entries of the same ring.
next-mem :
    (s : Links) (a b n : ℕ) (xs : List ℕ)
    → Seg s a xs b
    → 0 < count n (a ∷ xs)
    → 0 < count (s.next n) (b ∷ xs)
next-mem s a b n [] c i = ground (arith, c)
next-mem s a b n (x ∷ xs) c i = elim (Bool-cases (n == a)) [
  | inl e ↦ ground (arith, c, e)
  | inr ne ↦ ground (arith, next-mem s x b n xs c.2)
]

prev-mem :
    (s : Links) (a b n : ℕ) (xs : List ℕ)
    → Seg s a xs b
    → 0 < count n (b ∷ xs)
    → 0 < count (s.prev n) (a ∷ xs)
prev-mem s a b n [] c i = ground (arith, c)
prev-mem s a b n (x ∷ xs) c i = elim (Bool-cases (n == x)) [
  | inl e ↦ ground (arith, c, e)
  | inr ne ↦ ground (arith, prev-mem s x b n xs c.2)
]

module _ (s : Links) (h k : ℕ) (xs zs : List ℕ) (ring : IsRing s h xs) (other : IsRing s k zs)
    (apart : (n : ℕ) → 0 < count n (h ∷ xs) → count n (k ∷ zs) ≡ 0) where
  pub list_add_before_apart :
      (x e : ℕ) → 0 < count x (h ∷ xs) → count e (k ∷ zs) ≡ 0 → IsRing (list_add_before s x e) k zs
  unfolding list_add_before
  list_add_before_apart x e i out =
      IsRing-frame s (list_add_before s x e) k zs
        (λ n j. (
          ground (arith, out, apart (s.prev x) (prev-mem s h h x xs ring.chain i), apart x i),
          ground (arith, out, apart x i),
        ))
        other

  pub list_del_init_apart : (x : ℕ) → 0 < count x (h ∷ xs) → IsRing (list_del_init s x) k zs
  unfolding list_del_init
  list_del_init_apart x i =
      IsRing-frame s (list_del_init s x) k zs
        (λ n j. (
          ground (arith, apart (s.prev x) (prev-mem s h h x xs ring.chain i), apart x i),
          ground (arith, apart (s.next x) (next-mem s h h x xs ring.chain i), apart x i),
        ))
        other
