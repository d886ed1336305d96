-- ===== src/Pmm/Alloc.antt =====
-- `default_alloc_pages` is first fit.
use oslabcode.Prelude.{
  ℕ, zero, suc, ◌+◌, ◌-◌, ◌≤◌, ◌<◌, ◌≡◌, refl, ap, ◌⊎◌, inl, inr, none, some, List, [], ◌∷◌, ◌++◌,
  arith, ltb, leb, if◌then◌else◌, lt→ltb, Bool-cases, ok, length, count, count-append,
}
use oslabcode.Links.Ring.{Seg, IsRing}
use oslabcode.Links.Del.{list_del-append}
use oslabcode.Links.Replace.{list_del-list_add}
use oslabcode.Pmm.{Page, Pmm, page_link, free_list, find_block, take_block, default_alloc_pages}
use oslabcode.Pmm.FirstFit
use oslabcode.Pmm.FirstFit.{view, view-append, view-frame}
use oslabcode.Pmm.Inv.{
  Blocks, total, links_of, IsFreeList, links_of-append, total-append, Blocks-split, Blocks-append,
  Blocks-top, total-le, length-le-total, Blocks-frame, total-frame, count-links_of,
}

-- The walk of the allocator ends with the first block that is large enough.
find_block-alloc :
    (m : Pmm) (n k le : ℕ) (xs : List ℕ)
    → Seg m.links le (links_of xs) free_list
    → length xs < k
    → find_block k m n le ≡ ok (FirstFit.alloc n (view m.pages xs)).0
unfolding find_block FirstFit.alloc
find_block-alloc m n zero le xs c fuel = absurd (omega arith)
find_block-alloc m n (suc k) le [] c fuel = ground (arith, c)
find_block-alloc m n (suc k) le (x ∷ xs) c fuel =
    ground (arith, c, find_block-alloc m n k (page_link x) xs c.2)

-- What is left of the block at `p` when its first `n` pages are taken.
abbrev rest_of : (ℕ → Page) → (n p : ℕ) → List ℕ
rest_of pages n p = if ltb n (pages p).property then (p + n) ∷ [] else []

abbrev pub rest_view : (ℕ → Page) → (n p : ℕ) → List (ℕ × ℕ)
rest_view pages n p = if ltb n (pages p).property then (p + n, (pages p).property - n) ∷ [] else []

-- Where first fit finds a block, and what it leaves.
record Found (pages : ℕ → Page) (n : ℕ) (xs : List ℕ) : Type 0 where
  before : List ℕ
  page : ℕ
  after : List ℕ
  split : xs ≡ before ++ page ∷ after
  fits : n ≤ (pages page).property
  result :
      FirstFit.alloc n (view pages xs)
      ≡ (some page, view pages before ++ (rest_view pages n page ++ view pages after))

alloc-cases :
    (pages : ℕ → Page) (n : ℕ) (xs : List ℕ)
    → (FirstFit.alloc n (view pages xs) ≡ (none, view pages xs)) ⊎ Found pages n xs
unfolding FirstFit.alloc
alloc-cases pages n [] = inl refl
alloc-cases pages n (x ∷ xs) = elim (Bool-cases (leb n (pages x).property)) [
  | inl fits ↦ inr (record {
    before = [];
    page = x;
    after = xs;
    split = refl;
    fits = ground arith;
    result = rw fits (ground arith);
  })
  | inr small ↦ elim (alloc-cases pages n xs) [
    | inl e ↦ inl (rw (small, e))
    | inr f ↦ inr (record {
      before = x ∷ f.before;
      page = f.page;
      after = f.after;
      split = ap (λ l. x ∷ l) f.split;
      fits = f.fits;
      result = rw (small, f.result);
    })
  ]
]

module _ (m : Pmm) (n p : ℕ) (xs ys : List ℕ) (free : IsFreeList m (xs ++ p ∷ ys)) (pos : 0 < n)
    (fits : n ≤ (m.pages p).property) where
  parts : (mid : ℕ) × Blocks m.pages 0 xs mid × Blocks m.pages mid (p ∷ ys) m.npage
  parts = Blocks-split m.pages 0 m.npage xs (p ∷ ys) free.blocks

  spares_below : (q : ℕ) → 0 ≤ q → q < p → (take_block m p n).pages q ≡ m.pages q
  unfolding take_block
  spares_below q l u = ground arith

  spares_above :
      (q : ℕ) → p + (m.pages p).property ≤ q → q < m.npage → (take_block m p n).pages q ≡ m.pages q
  unfolding take_block
  spares_above q l u = ground arith

  abbrev left : List ℕ
  left = rest_of m.pages n p

  take-Blocks_before : Blocks (take_block m p n).pages 0 xs p
  take-Blocks_before =
      Blocks-frame m.pages (take_block m p n).pages 0 p xs spares_below
        (Blocks-top m.pages 0 parts.0 p xs parts.2.0 parts.1)

  take-Blocks_after : Blocks (take_block m p n).pages (p + (m.pages p).property) ys m.npage
  take-Blocks_after =
      Blocks-frame m.pages (take_block m p n).pages _ m.npage ys spares_above parts.2.3

  take-Blocks-left : Blocks (take_block m p n).pages p left (p + (m.pages p).property)
  unfolding take_block
  take-Blocks-left = elim (Bool-cases (ltb n (m.pages p).property)) [
    | inl cut ↦ rw cut (ground arith, ground arith, ground arith, ground arith)
    | inr whole ↦ rw whole (ground arith)
  ]

  take-Blocks : Blocks (take_block m p n).pages 0 (xs ++ (left ++ ys)) m.npage
  take-Blocks =
      Blocks-append (take_block m p n).pages 0 p m.npage xs (left ++ ys) take-Blocks_before (
        Blocks-append (take_block m p n).pages p (p + (m.pages p).property) m.npage left ys
          take-Blocks-left take-Blocks_after)

  take-view-left : view (take_block m p n).pages left ≡ rest_view m.pages n p
  unfolding take_block
  take-view-left = elim (Bool-cases (ltb n (m.pages p).property)) [
    | inl cut ↦ rw cut (ground arith)
    | inr whole ↦ rw whole
  ]

  take-total-left : total (take_block m p n).pages left + n ≡ (m.pages p).property
  unfolding take_block
  take-total-left = elim (Bool-cases (ltb n (m.pages p).property)) [
    | inl cut ↦ rw cut (ground arith)
    | inr whole ↦ rw whole (ground arith)
  ]

  take-view :
      view (take_block m p n).pages (xs ++ (left ++ ys))
      ≡ view m.pages xs ++ (rest_view m.pages n p ++ view m.pages ys)
  unfolding take_block
  take-view =
      rw
        (
          view-append,
          view-append,
          view-frame m.pages (take_block m p n).pages 0 p xs spares_below
              (Blocks-top m.pages 0 parts.0 p xs parts.2.0 parts.1),
          view-frame m.pages (take_block m p n).pages _ m.npage ys spares_above parts.2.3,
        )
        (ap (λ l. view m.pages xs ++ (l ++ view m.pages ys)) take-view-left)

  take-total :
      total (take_block m p n).pages (xs ++ (left ++ ys)) + n ≡ total m.pages (xs ++ p ∷ ys)
  take-total = omega (
    arith,
    take-total-left,
    total-append (take_block m p n).pages xs (left ++ ys),
    total-append (take_block m p n).pages left ys,
    total-append m.pages xs (p ∷ ys),
    total-frame m.pages (take_block m p n).pages 0 p xs spares_below
        (Blocks-top m.pages 0 parts.0 p xs parts.2.0 parts.1),
    total-frame m.pages (take_block m p n).pages _ m.npage ys spares_above parts.2.3,
  )

  IsRing-parts : IsRing m.links free_list (links_of xs ++ page_link p ∷ links_of ys)
  IsRing-parts = rw links_of-append at free.ring

  unlinked :
      (q : ℕ)
      → p < q
      → q < p + (m.pages p).property
      → count (page_link q) (free_list ∷ (links_of xs ++ links_of ys)) ≡ 0
  unlinked q l u = ground (
    arith,
    count-append (page_link q) (links_of xs) (links_of ys),
    count-links_of m.pages (page_link q) 0 parts.0 xs parts.1,
    count-links_of m.pages (page_link q) (p + (m.pages p).property) m.npage ys parts.2.3,
    parts.2.0,
  )

  take-IsRing : IsRing (take_block m p n).links free_list (links_of (xs ++ (left ++ ys)))
  unfolding take_block
  take-IsRing = elim (Bool-cases (ltb n (m.pages p).property)) [
    | inl cut ↦
        rw (cut, links_of-append)
          (list_del-list_add m.links free_list (page_link p) (page_link (p + n)) (links_of xs)
            (links_of ys) IsRing-parts (unlinked (p + n) (omega arith) (ground arith)))
    | inr whole ↦
        rw (whole, links_of-append)
          (list_del-append m.links free_list (page_link p) (links_of xs) (links_of ys) IsRing-parts)
  ]

  take-counted : (take_block m p n).nr_free ≡ total (take_block m p n).pages (xs ++ (left ++ ys))
  take-counted = omega (arith, take-total, free.counted, nr_free_left)
    where
      nr_free_left : (take_block m p n).nr_free ≡ m.nr_free - n
      nr_free_left = unfold take_block in refl

  take-IsFreeList : IsFreeList (take_block m p n) (xs ++ (left ++ ys))
  take-IsFreeList = record {
    ring = take-IsRing;
    blocks = unfold take_block in take-Blocks;
    counted = take-counted;
    small = unfold take_block in free.small;
  }

-- A state whose free list stands for these blocks.
abbrev pub Holds : Pmm → List (ℕ × ℕ) → Type 0
Holds m bs = (xs : List ℕ) × IsFreeList m xs × (view m.pages xs ≡ bs)

-- Taking pages from a block of a well-formed free list leaves one, in which the rest of the block
-- stands in its place.
pub take_block-Holds :
    (m : Pmm) (n p : ℕ) (xs ys : List ℕ)
    → IsFreeList m (xs ++ p ∷ ys)
    → 0 < n
    → n ≤ (m.pages p).property
    → Holds (take_block m p n) (view m.pages xs ++ (rest_view m.pages n p ++ view m.pages ys))
take_block-Holds m n p xs ys free pos fits = (
  xs ++ (rest_of m.pages n p ++ ys),
  take-IsFreeList m n p xs ys free pos fits,
  take-view m n p xs ys free pos fits,
)

alloc-none :
    (pages : ℕ → Page) (n : ℕ) (xs : List ℕ)
    → total pages xs < n
    → FirstFit.alloc n (view pages xs) ≡ (none, view pages xs)
unfolding FirstFit.alloc
alloc-none pages n [] h = refl
alloc-none pages n (x ∷ xs) h = ground (arith, alloc-none pages n xs)

module _ (m : Pmm) (n : ℕ) (xs : List ℕ) (free : IsFreeList m xs) (pos : 0 < n) where
  pub room : length xs < m.npage + 2
  room = omega (
    arith,
    total-le m.pages 0 m.npage xs free.blocks,
    length-le-total m.pages 0 m.npage xs free.blocks,
  )

  -- On a well-formed free list `default_alloc_pages` does not fail, returns the page that first
  -- fit on its blocks returns, and leaves a well-formed free list that stands for what first fit
  -- leaves.
  pub default_alloc_pages-alloc :
      (m' : Pmm) × (default_alloc_pages m n ≡ ok ((FirstFit.alloc n (view m.pages xs)).0, m'))
      × Holds m' (FirstFit.alloc n (view m.pages xs)).1
  unfolding default_alloc_pages
  default_alloc_pages-alloc = elim (Bool-cases (ltb m.nr_free n)) [
    | inl short ↦
        let e = alloc-none m.pages n xs (ground (arith, free.counted)) in
        (m, rw (lt→ltb 0 n pos, short, e), (xs, free, rw e))
    | inr enough ↦ elim (alloc-cases m.pages n xs) [
      | inl e ↦ (
        m,
        rw (
          lt→ltb 0 n pos,
          enough,
          find_block-alloc m n (m.npage + 2) free_list xs free.ring.chain room,
          e,
        ),
        (xs, free, rw e),
      )
      | inr f ↦ (
        take_block m f.page n,
        rw (
          lt→ltb 0 n pos,
          enough,
          find_block-alloc m n (m.npage + 2) free_list xs free.ring.chain room,
          f.result,
        ),
        rw f.result (take_block-Holds m n f.page f.before f.after (rw f.split at free) pos f.fits),
      )
    ]
  ]
