-- ===== src/SkewHeap.antt =====
-- The skew heap of labcode/lab8/libs/skew_heap.h, as the tree that its `left` and `right` pointers
-- span. The entry of a process is known by the number of the process. A `parent` pointer is the
-- place of an entry in the tree.
pub mod Content
pub mod Order
use oslabcode.Prelude.{
  ℕ, zero, suc, ◌+◌, ◌-◌, ◌*◌, ◌/◌, ◌%◌, ◌^◌, ◌≤◌, ◌<◌, ◌≡◌, ◌≢◌, refl, sym, ap, ◌∙◌, ◌↔◌, ◌⊎◌, inl,
  inr, Bool, true, false, not, ◌&&◌, ◌||◌, Option, none, some, List, [], ◌∷◌, ◌++◌, map,
  append_assoc, append-nil, arith, ltb, leb, ◌==◌, if◌then◌else◌, ltb→lt, lt→ltb, le→ltb, ==_iff,
  Bool-cases, Option-cases, update, ◌>>=◌, ◌>>◌, assert, Run, ok, panic, out_of_fuel, length,
  length-append, count, count-append, Distinct, fun_ext, min,
}

-- `NULL`, or an entry with what hangs under it.
pub data Tree : Type 0 where
  null : Tree
  node : Tree → ℕ → Tree → Tree

-- `comp(a, b) == -1` is `less a b`.
unfoldable pub skew_heap_merge : (ℕ → ℕ → Bool) → Tree → Tree → Tree
skew_heap_merge less null b = b
skew_heap_merge less (node l x r) null = node l x r
skew_heap_merge less (node l x r) (node l' y r') = elim (less x y) [
  | true ↦ node (skew_heap_merge less r (node l' y r')) x l
  | false ↦ node (skew_heap_merge less (node l x r) r') y l'
]

-- `skew_heap_init` of the new entry, which then stands alone.
unfoldable pub skew_heap_init : ℕ → Tree
skew_heap_init x = node null x null

unfoldable pub skew_heap_insert : (ℕ → ℕ → Bool) → Tree → ℕ → Tree
unfolding skew_heap_merge skew_heap_init
skew_heap_insert less a x = skew_heap_merge less a (skew_heap_init x)

-- How often an entry stands in a tree.
unfoldable pub tree_count : ℕ → Tree → ℕ
tree_count a null = 0
tree_count a (node l x r) = (if a == x then 1 else 0) + tree_count a l + tree_count a r

-- The children of the entry, merged, take its place: under its parent, or as the root. Its parent is
-- found from the root, in place of the pointer to it.
unfoldable pub skew_heap_remove : (ℕ → ℕ → Bool) → Tree → ℕ → Tree
unfolding skew_heap_merge tree_count
skew_heap_remove less null x = null
skew_heap_remove less (node l y r) x =
    let l' = skew_heap_remove less l x in
    let r' = skew_heap_remove less r x in
    if x == y
    then skew_heap_merge less l r
    else (if ltb 0 (tree_count x l) then node l' y r else node l y r')
