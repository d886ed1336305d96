-- ===== src/SkewHeap/Order.antt =====
-- The operations of the skew heap keep the order of a heap, where the comparison decides an order
-- of keys.
use oslabcode.Prelude.{
  ℕ, ◌+◌, ◌≤◌, ◌<◌, ◌≡◌, inl, inr, Bool, arith, ltb, ◌==◌, if◌then◌else◌, Bool-cases,
}
use oslabcode.SkewHeap.Content.{tree_count-remove}
use oslabcode.SkewHeap.{
  Tree, null, node, skew_heap_merge, skew_heap_init, skew_heap_insert, skew_heap_remove, tree_count,
}

-- Every entry of the tree satisfies `P`.
abbrev pub AllNodes : (ℕ → Type 0) → Tree → Type 0
AllNodes P null = Unit
AllNodes P (node l x r) = P x × AllNodes P l × AllNodes P r

-- Every entry is no later than those under it.
abbrev pub IsHeap : (ℕ → ℕ) → Tree → Type 0
IsHeap key null = Unit
IsHeap key (node l x r) =
    AllNodes (λ y. key x ≤ key y) l × AllNodes (λ y. key x ≤ key y) r × IsHeap key l × IsHeap key r

pub AllNodes-map :
    (P Q : ℕ → Type 0) (t : Tree) → ((y : ℕ) → P y → Q y) → AllNodes P t → AllNodes Q t
AllNodes-map P Q null f a = tt
AllNodes-map P Q (node l x r) f a = (f x a.0, AllNodes-map P Q l f a.1, AllNodes-map P Q r f a.2)

pub AllNodes-merge :
    (less : ℕ → ℕ → Bool) (P : ℕ → Type 0) (a b : Tree)
    → AllNodes P a
    → AllNodes P b
    → AllNodes P (skew_heap_merge less a b)
unfolding skew_heap_merge
AllNodes-merge less P null b p q = q
AllNodes-merge less P (node l x r) null p q = p
AllNodes-merge less P (node l x r) (node l' y r') p q = elim (Bool-cases (less x y)) [
  | inl lt ↦ rw (lt, AllNodes) (p.0, AllNodes-merge less P r (node l' y r') p.2 q, p.1)
  | inr ge ↦ rw (ge, AllNodes) (q.0, AllNodes-merge less P (node l x r) r' p q.2, q.1)
]

module _ (less : ℕ → ℕ → Bool) (key : ℕ → ℕ) (P : ℕ → Type 0)
    (decides : (a b : ℕ) → P a → P b → less a b ≡ ltb (key a) (key b)) where
  -- Merging two heaps whose keys the comparison decides gives a heap.
  pub IsHeap-merge :
      (a b : Tree)
      → AllNodes P a
      → AllNodes P b
      → IsHeap key a
      → IsHeap key b
      → IsHeap key (skew_heap_merge less a b)
  unfolding skew_heap_merge
  IsHeap-merge null b p q h k = k
  IsHeap-merge (node l x r) null p q h k = h
  IsHeap-merge (node l x r) (node l' y r') p q h k = elim (Bool-cases (less x y)) [
    | inl lt ↦
        let le : key x ≤ key y = ground (arith, decides x y p.0 q.0) in
        let up = λ (z : ℕ) (e : key y ≤ key z). let e' : key x ≤ key z = omega arith in e' in
        rw (lt, IsHeap)
          (
            AllNodes-merge less (λ z. key x ≤ key z) r (node l' y r') h.1
                (le, AllNodes-map _ (λ z. key x ≤ key z) l' up k.0, AllNodes-map _ _ r' up k.1),
            h.0,
            IsHeap-merge r (node l' y r') p.2 q h.3 k,
            h.2,
          )
    | inr ge ↦
        let le : key y ≤ key x = ground (arith, decides x y p.0 q.0) in
        let up = λ (z : ℕ) (e : key x ≤ key z). let e' : key y ≤ key z = omega arith in e' in
        rw (ge, IsHeap)
          (
            AllNodes-merge less (λ z. key y ≤ key z) (node l x r) r'
                (le, AllNodes-map _ (λ z. key y ≤ key z) l up h.0, AllNodes-map _ _ r up h.1) k.1,
            k.0,
            IsHeap-merge (node l x r) r' p q.2 h k.3,
            k.2,
          )
  ]

  pub IsHeap-insert :
      (x : ℕ) (a : Tree)
      → P x
      → AllNodes P a
      → IsHeap key a
      → IsHeap key (skew_heap_insert less a x)
  unfolding skew_heap_insert skew_heap_init
  IsHeap-insert x a px p h = IsHeap-merge a (node null x null) p (px, tt, tt) h (tt, tt, tt, tt)

-- Removal leaves only entries that were there.
pub AllNodes-remove :
    (less : ℕ → ℕ → Bool) (P : ℕ → Type 0) (x : ℕ) (a : Tree)
    → AllNodes P a
    → AllNodes P (skew_heap_remove less a x)
unfolding skew_heap_remove
AllNodes-remove less P x null p = tt
AllNodes-remove less P x (node l y r) p = elim (Bool-cases (x == y)) [
  | inl here ↦ rw here (AllNodes-merge less P l r p.1 p.2)
  | inr below ↦ elim (Bool-cases (ltb 0 (tree_count x l))) [
    | inl left ↦ rw (below, left) (p.0, AllNodes-remove less P x l p.1, p.2)
    | inr right ↦ rw (below, right) (p.0, p.1, AllNodes-remove less P x r p.2)
  ]
]

removed-IsHeap :
    (less : ℕ → ℕ → Bool) (key : ℕ → ℕ) (P : ℕ → Type 0)
    → ((a b : ℕ) → P a → P b → less a b ≡ ltb (key a) (key b))
    → (x : ℕ) (a : Tree) → AllNodes P a
    → IsHeap key a
    → IsHeap key (skew_heap_remove less a x)
unfolding skew_heap_remove
removed-IsHeap less key P decides x null p h = tt
removed-IsHeap less key P decides x (node l y r) p h = elim (Bool-cases (x == y)) [
  | inl here ↦ rw here (IsHeap-merge less key P decides l r p.1 p.2 h.2 h.3)
  | inr below ↦ elim (Bool-cases (ltb 0 (tree_count x l))) [
    | inl left ↦
        rw (below, left)
          (AllNodes-remove less _ x l h.0, h.1, removed-IsHeap less key P decides x l p.1 h.2, h.3)
    | inr right ↦
        rw (below, right)
          (h.0, AllNodes-remove less _ x r h.1, h.2, removed-IsHeap less key P decides x r p.2 h.3)
  ]
]

-- Removing an entry of a heap, of which the comparison decides the order of the keys, takes out
-- this entry alone, every other entry staying as often as it was there, and keeps the order of the
-- heap.
pub IsHeap-remove :
    (less : ℕ → ℕ → Bool) (key : ℕ → ℕ) (P : ℕ → Type 0)
    → ((a b : ℕ) → P a → P b → less a b ≡ ltb (key a) (key b))
    → (x : ℕ) (a : Tree) → AllNodes P a
    → IsHeap key a
    → 0 < tree_count x a
    → IsHeap key (skew_heap_remove less a x)
      × ((c : ℕ)
          → tree_count c (skew_heap_remove less a x) + (if c == x then 1 else 0) ≡ tree_count c a)
IsHeap-remove less key P decides x a p h i =
    (removed-IsHeap less key P decides x a p h, λ c. tree_count-remove less c x a i)

-- The root of a heap has the least key of all entries.
pub root-least :
    (key : ℕ → ℕ) (l r : Tree) (x a : ℕ)
    → IsHeap key (node l x r)
    → 0 < tree_count a (node l x r)
    → key x ≤ key a
unfolding tree_count
root-least key l r x a h i = elim (Bool-cases (a == x)) [
  | inl e ↦ ground arith
  | inr ne ↦ grind (arith, all_of l h.0, all_of r h.1)
]
  where
    all_of : (t : Tree) → AllNodes (λ y. key x ≤ key y) t → 0 < tree_count a t → key x ≤ key a
    all_of null p i = absurd (omega arith)
    all_of (node l' y r') p i = elim (Bool-cases (a == y)) [
      | inl e ↦ ground arith
      | inr ne ↦ ground (arith, all_of l' p.1, all_of r' p.2)
    ]
