-- ===== src/Pmm/Free.antt =====
-- `default_free_pages` and `default_init_memmap` on a well-formed free list.
use oslabcode.Prelude.{
  ℕ, suc, ◌+◌, ◌≤◌, ◌<◌, ◌≡◌, refl, inl, inr, true, false, List, [], ◌∷◌, ◌++◌, append_assoc, arith,
  lt→ltb, ok, length,
}
use oslabcode.Links.{Links}
use oslabcode.Links.Add.{snoc-cases}
use oslabcode.Pmm.{
  Page, Pmm, u32, insert_block, set_head, default_init_memmap, default_free_pages, merge_before,
  merge_after,
}
use oslabcode.Pmm.Alloc.{Holds}
use oslabcode.Pmm.Merge.{merges-join, merges-join_behind}
use oslabcode.Pmm.FirstFit
use oslabcode.Pmm.FirstFit.{view, view-append, view-frame}
use oslabcode.Pmm.Insert.{InFront, Fits, insert_block-IsRing, Spares, init_pages-ok, clear_pages-ok}
use oslabcode.Pmm.Inv.{
  Blocks, total, IsFreeList, total-append, Blocks-split, Blocks-append, Blocks-up, total-le,
  length-le-total, Blocks-frame, total-frame,
}

module _ (m : Pmm) (base n : ℕ) (pos : 0 < n) (ys zs : List ℕ) (free : IsFreeList m (ys ++ zs))
    (fits : Fits m base n pos ys zs) (pages' : ℕ → Page) (same : Spares base n m.pages pages') where
  -- The state with the new block's pages written.
  abbrev written : Pmm
  written = record m { pages = set_head pages' base n; nr_free = u32 (m.nr_free + n) }

  below : (q : ℕ) → 0 ≤ q → q < base → written.pages q ≡ m.pages q
  unfolding set_head
  below q l u = ground (arith, same q)

  above : (q : ℕ) → base + n ≤ q → q < m.npage → written.pages q ≡ m.pages q
  unfolding set_head
  above q l u = ground (arith, same q)

  in_range : base + n ≤ m.npage
  in_range = omega (arith, total-le m.pages (base + n) m.npage zs fits.high)

  head-property : (written.pages base).property ≡ n
  unfolding set_head
  head-property = ground (arith, in_range, free.small)

  head-is_head : (written.pages base).is_head ≡ true
  unfolding set_head
  head-is_head = ground arith

  low' : Blocks written.pages 0 ys base
  low' = Blocks-frame m.pages written.pages 0 base ys below fits.low

  high' : Blocks written.pages (base + n) zs m.npage
  high' = Blocks-frame m.pages written.pages (base + n) m.npage zs above fits.high

  few : length ys ≤ m.npage
  few = omega (
    arith,
    in_range,
    total-le m.pages 0 base ys fits.low,
    length-le-total m.pages 0 base ys fits.low,
  )

  written-counted : u32 (m.nr_free + n) ≡ total written.pages (ys ++ base ∷ zs)
  written-counted = omega (
    arith,
    free.counted,
    free.small,
    head-property,
    total-append m.pages ys zs,
    total-append written.pages ys (base ∷ zs),
    total-frame m.pages written.pages 0 base ys below fits.low,
    total-frame m.pages written.pages (base + n) m.npage zs above fits.high,
    total-le m.pages 0 base ys fits.low,
    total-le m.pages (base + n) m.npage zs fits.high,
  )

  -- The block is in the list, and not yet merged.
  inserted :
      InFront ys zs
      → (s : Links) × (insert_block written base ≡ ok s)
        × IsFreeList (record written { links = s }) (ys ++ base ∷ zs)
  inserted front =
      let (s, e, ring) =
        insert_block-IsRing written base n pos ys zs (record { low = low'; high = high' }) front few
          free.ring in
      (
        s,
        e,
        record {
          ring = ring;
          blocks =
              Blocks-append written.pages 0 base m.npage ys (base ∷ zs) low'
                (omega arith, head-is_head, omega (arith, head-property), rw head-property high');
          counted = written-counted;
          small = free.small;
        },
      )

  written-view_low : view written.pages ys ≡ view m.pages ys
  written-view_low = view-frame m.pages written.pages 0 base ys below fits.low

  written-view_high : view written.pages zs ≡ view m.pages zs
  written-view_high = view-frame m.pages written.pages (base + n) m.npage zs above fits.high

  inserted-view :
      view written.pages (ys ++ base ∷ zs) ≡ view m.pages ys ++ (base, n) ∷ view m.pages zs
  inserted-view = rw (view-append, written-view_low, head-property, written-view_high)

-- The place of a freed block in the specification.
free_behind-view :
    (pages : ℕ → Page) (b : FirstFit.Block) (o y z lo : ℕ) (ys zs : List ℕ)
    → Blocks pages lo (ys ++ y ∷ []) b.0
    → b.0 < z
    → FirstFit.free_behind (o, (pages o).property) b (view pages (ys ++ y ∷ z ∷ zs))
      ≡ (o, (pages o).property)
        ∷ (view pages ys ++ FirstFit.join_behind (y, (pages y).property) b (view pages (z ∷ zs)))
unfolding FirstFit.free_behind
free_behind-view pages b o y z lo [] zs low lt = ground (arith, low)
free_behind-view pages b o y z lo (x ∷ ys) zs low lt = ground (
  arith,
  total-le pages _ b.0 (ys ++ y ∷ []) low.3,
  free_behind-view pages b x y z (x + (pages x).property) ys zs low.3 lt,
)

free-view :
    (pages : ℕ → Page) (b : FirstFit.Block) (y z : ℕ) (ys zs : List ℕ)
    → Blocks pages 0 (ys ++ y ∷ []) b.0
    → b.0 < z
    → FirstFit.free b (view pages (ys ++ y ∷ z ∷ zs))
      ≡ view pages ys ++ FirstFit.join_behind (y, (pages y).property) b (view pages (z ∷ zs))
unfolding FirstFit.free
free-view pages b y z [] zs low lt = ground (arith, low)
free-view pages b y z (x ∷ ys) zs low lt = ground (
  arith,
  total-le pages _ b.0 (ys ++ y ∷ []) low.3,
  free_behind-view pages b x y z (x + (pages x).property) ys zs low.3 lt,
)

-- On a well-formed free list `default_init_memmap` puts a block of reserved pages at its place,
-- joined to no other block, if the block fits between the parts `ys` and `zs` and is not behind
-- the last block.
pub default_init_memmap-append :
    (m : Pmm) (base n : ℕ) (pos : 0 < n) (ys zs : List ℕ)
    → IsFreeList m (ys ++ zs)
    → Fits m base n pos ys zs
    → InFront ys zs
    → ((q : ℕ) → base ≤ q → q < base + n → (m.pages q).reserved ≡ true)
    → (m' : Pmm) × (default_init_memmap m base n ≡ ok m')
      × Holds m' (view m.pages ys ++ (base, n) ∷ view m.pages zs)
unfolding default_init_memmap
default_init_memmap-append m base n pos ys zs free fits front all =
    let (pages', e, same) = init_pages-ok n base m.pages all in
    let (s, e', free') = inserted m base n pos ys zs free fits pages' same front in
    (
      _,
      rw (lt→ltb 0 n pos, e, e'),
      (ys ++ base ∷ zs, free', inserted-view m base n pos ys zs free fits pages' same),
    )

-- What both merges leave of the state `m1` with the new block in its list.
merged : (m1 : Pmm) (base : ℕ) → Pmm
merged m1 base = let (base', m2) = merge_before m1 base in merge_after m2 base'

free-eq-join :
    (pages : ℕ → Page) (b : FirstFit.Block) (zs : List ℕ)
    → (hi : ℕ) × Blocks pages (suc b.0) zs hi
    → FirstFit.free b (view pages zs) ≡ FirstFit.join b (view pages zs)
unfolding FirstFit.free
free-eq-join pages b [] high = refl
free-eq-join pages b (z ∷ zs) high = ground (arith, high)

module _ (m : Pmm) (base n : ℕ) (pos : 0 < n) (pages' : ℕ → Page)
    (same : Spares base n m.pages pages') (s : Links) where
  -- The state with the block in the list.
  abbrev linked : Pmm
  linked = record m { pages = set_head pages' base n; nr_free = u32 (m.nr_free + n); links = s }

  merges-free_first :
      (zs : List ℕ) (free : IsFreeList m zs) (fits : Fits m base n pos [] zs)
      → IsFreeList linked (base ∷ zs)
      → Holds (merged linked base) (FirstFit.free (base, n) (view m.pages zs))
  unfolding merged
  merges-free_first zs free fits free' =
      rw
        (free-eq-join m.pages (base, n) zs
          (m.npage, Blocks-up m.pages (base + n) (suc base) m.npage zs (omega arith) fits.high))
        (rw
          (
            head-property m base n pos [] zs free fits pages' same,
            written-view_high m base n pos [] zs free fits pages' same,
          )
          at (merges-join linked base zs free'))

  merges-free_behind :
      (ys zs : List ℕ) (o z : ℕ) (free : IsFreeList m ((ys ++ o ∷ []) ++ z ∷ zs))
      (fits : Fits m base n pos (ys ++ o ∷ []) (z ∷ zs))
      → IsFreeList linked ((ys ++ o ∷ []) ++ base ∷ z ∷ zs)
      → Holds
          (merged linked base)
          (FirstFit.free (base, n) (view m.pages ((ys ++ o ∷ []) ++ z ∷ zs)))
  unfolding merged
  merges-free_behind ys zs o z free fits free' =
      let (mid, low, last) = Blocks-split m.pages 0 base ys (o ∷ []) fits.low in
      let spares = below m base n pos (ys ++ o ∷ []) (z ∷ zs) free fits pages' same in
      rw (append_assoc, free-view m.pages (base, n) o z ys zs fits.low (omega (arith, fits.high)))
        (rw
          (
            view-frame m.pages linked.pages 0 mid ys (λ p l u. spares p l (omega arith)) low,
            spares o (omega arith) (omega arith),
            head-property m base n pos (ys ++ o ∷ []) (z ∷ zs) free fits pages' same,
            written-view_high m base n pos (ys ++ o ∷ []) (z ∷ zs) free fits pages' same,
          )
          at (merges-join_behind linked o base ys (z ∷ zs) (rw append_assoc at free')))

  merges-free_snoc :
      (ws ys zs : List ℕ) (o z : ℕ)
      → ws ≡ ys ++ o ∷ []
      → (free : IsFreeList m (ws ++ z ∷ zs)) (fits : Fits m base n pos ws (z ∷ zs))
      → IsFreeList linked (ws ++ base ∷ z ∷ zs)
      → Holds (merged linked base) (FirstFit.free (base, n) (view m.pages (ws ++ z ∷ zs)))
  merges-free_snoc ws ys zs o z e free fits free' =
      rw e (merges-free_behind ys zs o z (rw e at free) (rw e at fits) (rw e at free'))

  merges-free :
      (ys zs : List ℕ) (free : IsFreeList m (ys ++ zs)) (fits : Fits m base n pos ys zs)
      → InFront ys zs
      → IsFreeList linked (ys ++ base ∷ zs)
      → Holds (merged linked base) (FirstFit.free (base, n) (view m.pages (ys ++ zs)))
  merges-free [] zs free fits front free' = merges-free_first zs free fits free'
  merges-free (y ∷ ys) [] free fits front free' = absurd front
  merges-free (y ∷ ys) (z ∷ zs) free fits front free' = elim (snoc-cases (y ∷ ys)) [
    | inl nil ↦ cc
    | inr (ys', o, e) ↦ merges-free_snoc (y ∷ ys) ys' zs o z e free fits free'
  ]

-- Freeing the pages of a block that lies outside a well-formed free list, fits between its parts
-- `ys` and `zs` and is not behind its last block, and whose pages are neither reserved nor heads,
-- does not fail, and leaves a well-formed free list that stands for what the specification leaves:
-- the block in its place, joined with the neighbours that it touches.
pub default_free_pages-free :
    (m : Pmm) (base n : ℕ) (pos : 0 < n) (ys zs : List ℕ)
    → IsFreeList m (ys ++ zs)
    → Fits m base n pos ys zs
    → InFront ys zs
    → ((q : ℕ)
        → base ≤ q
        → q < base + n
        → ((m.pages q).reserved ≡ false) × ((m.pages q).is_head ≡ false))
    → (m' : Pmm) × (default_free_pages m base n ≡ ok m')
      × Holds m' (FirstFit.free (base, n) (view m.pages (ys ++ zs)))
unfolding default_free_pages merged
default_free_pages-free m base n pos ys zs free fits front all =
    let (pages', e, same) = clear_pages-ok n base m.pages all in
    let (s, e', free') = inserted m base n pos ys zs free fits pages' same front in
    (
      _,
      rw (lt→ltb 0 n pos, e, e'),
      merges-free m base n pos pages' same s ys zs free fits front free',
    )
