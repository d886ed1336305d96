-- ===== src/SkewHeap/Content.antt =====
-- The operations of the skew heap keep its entries.
use oslabcode.Prelude.{ℕ, ◌+◌, ◌<◌, ◌≡◌, inl, inr, Bool, arith, ◌==◌, if◌then◌else◌, Bool-cases}
use oslabcode.SkewHeap.{
  Tree, null, node, skew_heap_merge, skew_heap_init, skew_heap_insert, skew_heap_remove, tree_count,
}

module _ (less : ℕ → ℕ → Bool) where
  pub tree_count-merge :
      (c : ℕ) (a b : Tree)
      → tree_count c (skew_heap_merge less a b) ≡ tree_count c a + tree_count c b
  unfolding skew_heap_merge tree_count
  tree_count-merge c null b = omega arith
  tree_count-merge c (node l x r) null = omega arith
  tree_count-merge c (node l x r) (node l' y r') = elim (Bool-cases (less x y)) [
    | inl lt ↦ rw (lt, tree_count) (omega (arith, tree_count-merge c r (node l' y r')))
    | inr ge ↦ rw (ge, tree_count) (omega (arith, tree_count-merge c (node l x r) r'))
  ]

  -- Insertion adds one entry.
  pub tree_count-insert :
      (c x : ℕ) (a : Tree)
      → tree_count c (skew_heap_insert less a x) ≡ tree_count c a + (if c == x then 1 else 0)
  unfolding skew_heap_insert skew_heap_init tree_count
  tree_count-insert c x a = omega (arith, tree_count-merge c a (node null x null))

  -- Removing an entry that is in the tree takes one occurrence of it away, and nothing else.
  pub tree_count-remove :
      (c x : ℕ) (a : Tree)
      → 0 < tree_count x a
      → tree_count c (skew_heap_remove less a x) + (if c == x then 1 else 0) ≡ tree_count c a
  unfolding skew_heap_remove tree_count
  tree_count-remove c x null i = absurd (omega arith)
  tree_count-remove c x (node l y r) i =
      ground (arith, tree_count-merge c l r, tree_count-remove c x l, tree_count-remove c x r)
