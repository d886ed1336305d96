-- ===== src/Links/Ring.antt =====
-- What a ring of linked entries stands for: the sequence of its entries behind the head.
use oslabcode.Prelude.{
  ℕ, ◌<◌, ◌≡◌, true, false, List, [], ◌∷◌, ◌++◌, arith, count, count-append, Distinct,
}
use oslabcode.Links.{Links, list_empty, list_init}

-- From `a` the pointers lead forward through `xs` to `b`, and backward the same way.
abbrev pub Seg : Links → ℕ → List ℕ → ℕ → Type 0
Seg s a [] b = (s.next a ≡ b) × (s.prev b ≡ a)
Seg s a (x ∷ xs) b = (s.next a ≡ x) × (s.prev x ≡ a) × Seg s x xs b

-- The entries `xs` are linked in a ring through the head `h`.
pub record IsRing (s : Links) (h : ℕ) (xs : List ℕ) : Type 0 where
  pub chain : Seg s h xs h
  pub distinct : Distinct (h ∷ xs)

module _ (s : Links) where
  pub Seg-append :
      (a x b : ℕ) (xs ys : List ℕ) → Seg s a xs x → Seg s x ys b → Seg s a (xs ++ x ∷ ys) b
  Seg-append a x b [] ys p q = (p.0, p.1, q)
  Seg-append a x b (y ∷ xs) ys p q = (p.0, p.1, Seg-append y x b xs ys p.2 q)

  pub Seg-split :
      (a x b : ℕ) (xs ys : List ℕ) → Seg s a (xs ++ x ∷ ys) b → Seg s a xs x × Seg s x ys b
  Seg-split a x b [] ys p = ((p.0, p.1), p.2)
  Seg-split a x b (y ∷ xs) ys p = let (l, r) = Seg-split y x b xs ys p.2 in ((p.0, p.1, l), r)

  -- A ring may be read from any of its entries.
  pub rotate : (h x : ℕ) (xs ys : List ℕ) → IsRing s h (xs ++ x ∷ ys) → IsRing s x (ys ++ h ∷ xs)
  rotate h x xs ys r =
      let (l, m) = Seg-split h x h xs ys r.chain in
      record {
        chain = Seg-append x h x ys xs m l;
        distinct = λ a.
            omega (arith, r.distinct a, count-append a xs (x ∷ ys), count-append a ys (h ∷ xs));
      }

-- A segment survives writes that spare the pointers it is made of.
pub Seg-frame :
    (s t : Links) (a b : ℕ) (xs : List ℕ)
    → ((n : ℕ) → 0 < count n (a ∷ xs) → t.next n ≡ s.next n)
    → ((n : ℕ) → 0 < count n (b ∷ xs) → t.prev n ≡ s.prev n)
    → Seg s a xs b
    → Seg t a xs b
Seg-frame s t a b [] f g p = ground (arith, f a, g b)
Seg-frame s t a b (x ∷ xs) f g p = (
  ground (arith, f a),
  ground (arith, g x),
  Seg-frame s t x b xs (λ n h. f n (omega arith)) (λ n h. g n (grind arith)) p.2,
)

-- The list is empty exactly when its head points at itself.
pub list_empty-nil : (s : Links) (h : ℕ) → IsRing s h [] → list_empty s h ≡ true
unfolding list_empty
list_empty-nil s h r = ground (arith, r.chain)

pub list_empty-cons :
    (s : Links) (h x : ℕ) (xs : List ℕ) → IsRing s h (x ∷ xs) → list_empty s h ≡ false
unfolding list_empty
list_empty-cons s h x xs r = ground (arith, r.chain, r.distinct h)

pub list_init-IsRing : (s : Links) (h : ℕ) → IsRing (list_init s h) h []
unfolding list_init
list_init-IsRing s h = record { chain = (ground arith, ground arith); distinct = λ a. ground arith }
