-- ===== src/Pmm/Merge.antt =====
-- Joining two blocks of the free list that touch.
use oslabcode.Prelude.{
  ℕ, ◌+◌, ◌≤◌, ◌<◌, ◌≡◌, ◌≢◌, sym, ◌∙◌, true, false, List, [], ◌∷◌, ◌++◌, append_assoc, arith, ◌==◌,
  ==_iff,
}
use oslabcode.Links.Ring.{Seg, IsRing, Seg-split}
use oslabcode.Links.Del.{list_del-append}
use oslabcode.Pmm.{Pmm, page_link, free_list, fuse, merge_before, merge_after}
use native.Mathlib.Decide.{ℕ_discrete}
use oslabcode.Pmm.Alloc.{Holds}
use oslabcode.Pmm.FirstFit
use oslabcode.Pmm.FirstFit.{view, view-append, view-frame}
use oslabcode.Pmm.Inv.{
  Blocks, total, links_of, IsFreeList, links_of-append, total-append, Blocks-split, Blocks-append,
  Blocks-up, Blocks-top, total-le, Blocks-frame, total-frame,
}

module _ (m : Pmm) (p q : ℕ) (xs ys : List ℕ) (free : IsFreeList m (xs ++ p ∷ q ∷ ys))
    (touch : p + (m.pages p).property ≡ q) where
  parts : (mid : ℕ) × Blocks m.pages 0 xs mid × Blocks m.pages mid (p ∷ q ∷ ys) m.npage
  parts = Blocks-split m.pages 0 m.npage xs (p ∷ q ∷ ys) free.blocks

  below : (r : ℕ) → 0 ≤ r → r < p → (fuse m p q).pages r ≡ m.pages r
  unfolding fuse
  below r l u = ground arith

  above : (r : ℕ) → q + (m.pages q).property ≤ r → r < m.npage → (fuse m p q).pages r ≡ m.pages r
  unfolding fuse
  above r l u = ground (arith, parts.2)

  in_range : q + (m.pages q).property ≤ m.npage
  in_range = omega (arith, total-le m.pages (q + (m.pages q).property) m.npage ys parts.2.3.3)

  pub fuse-property : ((fuse m p q).pages p).property ≡ (m.pages p).property + (m.pages q).property
  unfolding fuse
  fuse-property = ground (arith, parts.2, in_range, free.small)

  fuse-is_head : ((fuse m p q).pages p).is_head ≡ true
  unfolding fuse
  fuse-is_head = ground (arith, parts.2)

  before-Blocks : Blocks m.pages 0 xs p
  before-Blocks = Blocks-top m.pages 0 parts.0 p xs parts.2.0 parts.1

  after-Blocks : Blocks (fuse m p q).pages (q + (m.pages q).property) ys m.npage
  after-Blocks = Blocks-frame m.pages (fuse m p q).pages _ m.npage ys above parts.2.3.3

  fuse-Blocks : Blocks (fuse m p q).pages 0 (xs ++ p ∷ ys) m.npage
  fuse-Blocks =
      Blocks-append (fuse m p q).pages 0 p m.npage xs (p ∷ ys)
        (Blocks-frame m.pages (fuse m p q).pages 0 p xs below before-Blocks)
        (
          omega arith,
          fuse-is_head,
          omega (arith, fuse-property, parts.2),
          Blocks-up (fuse m p q).pages (q + (m.pages q).property)
              (p + ((fuse m p q).pages p).property) m.npage ys (omega (arith, fuse-property, touch))
              after-Blocks,
        )

  pub fuse-view_before : view (fuse m p q).pages xs ≡ view m.pages xs
  fuse-view_before = view-frame m.pages (fuse m p q).pages 0 p xs below before-Blocks

  pub fuse-view_after : view (fuse m p q).pages ys ≡ view m.pages ys
  fuse-view_after = view-frame m.pages (fuse m p q).pages _ m.npage ys above parts.2.3.3

  fuse-total : total (fuse m p q).pages (xs ++ p ∷ ys) ≡ total m.pages (xs ++ p ∷ q ∷ ys)
  fuse-total = omega (
    arith,
    fuse-property,
    total-append (fuse m p q).pages xs (p ∷ ys),
    total-append m.pages xs (p ∷ q ∷ ys),
    total-frame m.pages (fuse m p q).pages 0 p xs below before-Blocks,
    total-frame m.pages (fuse m p q).pages _ m.npage ys above parts.2.3.3,
  )

  fuse-IsRing : IsRing (fuse m p q).links free_list (links_of (xs ++ p ∷ ys))
  unfolding fuse
  fuse-IsRing =
      let linked =
        rw (links_of-append, ← append_assoc (links_of xs) (page_link p ∷ []) _) at free.ring in
      rw (links_of-append, ← append_assoc (links_of xs) (page_link p ∷ []) (links_of ys))
        (list_del-append m.links free_list (page_link q) (links_of xs ++ page_link p ∷ [])
          (links_of ys) linked)

  -- Two blocks that touch become one, and the free list stays well formed.
  pub fuse-IsFreeList : IsFreeList (fuse m p q) (xs ++ p ∷ ys)
  fuse-IsFreeList = record {
    ring = fuse-IsRing;
    blocks = unfold fuse in fuse-Blocks;
    counted = unfold fuse in (free.counted ∙ sym fuse-total);
    small = unfold fuse in free.small;
  }

-- The entries before and behind a block.
next_of :
    (m : Pmm) (b : ℕ) (xs ys : List ℕ)
    → IsFreeList m (xs ++ b ∷ ys)
    → Seg m.links (page_link b) (links_of ys) free_list
next_of m b xs ys free =
    (Seg-split m.links free_list (page_link b) free_list (links_of xs) (links_of ys)
      (rw links_of-append at free.ring.chain)).1

prev_of :
    (m : Pmm) (b : ℕ) (xs ys : List ℕ)
    → IsFreeList m (xs ++ b ∷ ys)
    → Seg m.links free_list (links_of xs) (page_link b)
prev_of m b xs ys free =
    (Seg-split m.links free_list (page_link b) free_list (links_of xs) (links_of ys)
      (rw links_of-append at free.ring.chain)).0

module _ (m : Pmm) (b z : ℕ) (linked : m.links.next (page_link b) ≡ page_link z) where
  merge_after-touch : b + (m.pages b).property ≡ z → merge_after m b ≡ fuse m b z
  unfolding merge_after
  merge_after-touch touch = ground arith

  pub merge_after-apart : b + (m.pages b).property ≢ z → merge_after m b ≡ m
  unfolding merge_after
  merge_after-apart apart = ground arith

module _ (m : Pmm) (o b : ℕ) (linked : m.links.prev (page_link b) ≡ page_link o) where
  merge_before-touch : o + (m.pages o).property ≡ b → merge_before m b ≡ (o, fuse m o b)
  unfolding merge_before
  merge_before-touch touch = ground arith

  pub merge_before-apart : o + (m.pages o).property ≢ b → merge_before m b ≡ (b, m)
  unfolding merge_before
  merge_before-apart apart = ground arith

-- `merge_after` joins a block of the list with the block behind it if they touch.
pub merge_after-join :
    (m : Pmm) (b : ℕ) (xs ys : List ℕ)
    → IsFreeList m (xs ++ b ∷ ys)
    → Holds
        (merge_after m b)
        (view m.pages xs ++ FirstFit.join (b, (m.pages b).property) (view m.pages ys))
unfolding FirstFit.join
merge_after-join m b xs [] free =
    let alone : merge_after m b ≡ m = unfold merge_after in rw (next_of m b xs [] free).0 in
    rw alone (xs ++ b ∷ [], free, view-append m.pages xs (b ∷ []))
merge_after-join m b xs (z ∷ ys) free = elim (ℕ_discrete (b + (m.pages b).property) z) [
  | yes touch ↦
      rw (merge_after-touch m b z (next_of m b xs (z ∷ ys) free).0 touch, (==_iff _ z).1 touch)
        (
          xs ++ b ∷ ys,
          fuse-IsFreeList m b z xs ys free touch,
          rw (
            view-append,
            fuse-view_before m b z xs ys free touch,
            fuse-property m b z xs ys free touch,
            fuse-view_after m b z xs ys free touch,
          ),
        )
  | no apart ↦
      let test : (b + (m.pages b).property == z) ≡ false = ground arith in
      rw (merge_after-apart m b z (next_of m b xs (z ∷ ys) free).0 apart, test)
        (xs ++ b ∷ z ∷ ys, free, view-append m.pages xs (b ∷ z ∷ ys))
]

-- Both merges of a block that stands behind another one.
pub merges-join_behind :
    (m : Pmm) (o b : ℕ) (xs ys : List ℕ)
    → IsFreeList m (xs ++ o ∷ b ∷ ys)
    → let (b', m') = merge_before m b in
      Holds (merge_after m' b') (
        view m.pages xs
        ++ FirstFit.join_behind
            (o, (m.pages o).property)
            (b, (m.pages b).property)
            (view m.pages ys))
unfolding FirstFit.join_behind
merges-join_behind m o b xs ys free = elim (ℕ_discrete (o + (m.pages o).property) b) [
  | yes touch ↦
      let joined = merge_after-join (fuse m o b) o xs ys (fuse-IsFreeList m o b xs ys free touch) in
      rw
        (
          merge_before-touch m o b (next_of m o xs (b ∷ ys) free).1 touch,
          FirstFit.join_behind,
          (==_iff _ b).1 touch,
        )
        (rw
          (
            fuse-view_before m o b xs ys free touch,
            fuse-property m o b xs ys free touch,
            fuse-view_after m o b xs ys free touch,
          )
          at joined)
  | no apart ↦
      let test : (o + (m.pages o).property == b) ≡ false = ground arith in
      let free' = rw (← append_assoc xs (o ∷ []) (b ∷ ys)) at free in
      let joined = merge_after-join m b (xs ++ o ∷ []) ys free' in
      rw
        (
          merge_before-apart m o b (next_of m o xs (b ∷ ys) free).1 apart,
          FirstFit.join_behind,
          test,
        )
        (rw (view-append, append_assoc) at joined)
]

-- Both merges of a block that stands first.
pub merges-join :
    (m : Pmm) (b : ℕ) (ys : List ℕ)
    → IsFreeList m (b ∷ ys)
    → let (b', m') = merge_before m b in
      Holds (merge_after m' b') (FirstFit.join (b, (m.pages b).property) (view m.pages ys))
merges-join m b ys free =
    let alone : merge_before m b ≡ (b, m) = unfold merge_before in rw (prev_of m b [] ys free).1 in
    rw alone (merge_after-join m b [] ys free)
