-- ===== src/Pmm/Insert.antt =====
-- Putting a block into the free list at its place.
use oslabcode.Prelude.{
  ℕ, zero, suc, ◌+◌, ◌≤◌, ◌<◌, ◌≡◌, refl, ◌⊎◌, true, false, List, [], ◌∷◌, ◌++◌, arith, update, ok,
  length, count, count-append,
}
use oslabcode.Links.{Links, list_add, list_add_before, list_empty}
use oslabcode.Links.Ring.{Seg, IsRing, list_empty-nil, list_empty-cons}
use oslabcode.Links.Add.{list_add_after-cons, list_add_before_middle}
use oslabcode.Pmm.{
  Page, Pmm, page_link, free_list, insert_walk, insert_block, init_pages, clear_pages,
}
use oslabcode.Pmm.Inv.{Blocks, links_of, links_of-append, total-le, count-links_of}

-- The walk stops before the first block above `base`, and inserts there.
insert_walk-before :
    (pages : ℕ → Page) (s : Links) (base z k le lo : ℕ) (ys zs : List ℕ)
    → Seg s le (links_of (ys ++ z ∷ zs)) free_list
    → Blocks pages lo ys base
    → base < z
    → length ys < k
    → insert_walk k s base le ≡ ok (list_add_before s (page_link z) (page_link base))
unfolding insert_walk
insert_walk-before pages s base z zero le lo ys zs c b lt fuel = absurd (omega arith)
insert_walk-before pages s base z (suc k) le lo [] zs c b lt fuel = ground (arith, c)
insert_walk-before pages s base z (suc k) le lo (y ∷ []) zs c b lt fuel =
    ground (arith, c, insert_walk-before pages s base z k (page_link y) _ [] zs c.2 b.3)
insert_walk-before pages s base z (suc k) le lo (y ∷ y' ∷ ys) zs c b lt fuel = ground (
  arith,
  c,
  total-le pages _ base (y' ∷ ys) b.3,
  insert_walk-before pages s base z k (page_link y) _ (y' ∷ ys) zs c.2 b.3,
)

-- `base` has a place in the list, and not the last one behind other blocks.
abbrev pub InFront : List ℕ → List ℕ → Type 0
InFront [] [] = Unit
InFront (y ∷ ys) [] = ⊥
InFront ys (z ∷ zs) = Unit

module _ (m : Pmm) (base n : ℕ) (pos : 0 < n) where
  -- The pages of the block, outside all blocks of the list.
  pub record Fits (ys zs : List ℕ) : Type 0 where
    pub low : Blocks m.pages 0 ys base
    pub high : Blocks m.pages (base + n) zs m.npage

  unlinked :
      (ys zs : List ℕ) → Fits ys zs → count (page_link base) (free_list ∷ links_of (ys ++ zs)) ≡ 0
  unlinked ys zs fits = rw links_of-append (
      ground (
        arith,
        count-append (page_link base) (links_of ys) (links_of zs),
        count-links_of m.pages (page_link base) 0 base ys fits.low,
        count-links_of m.pages (page_link base) (base + n) m.npage zs fits.high,
      ))

  not_empty :
      (ys zs : List ℕ) (z : ℕ)
      → IsRing m.links free_list (links_of (ys ++ z ∷ zs))
      → list_empty m.links free_list ≡ false
  not_empty [] zs z ring = list_empty-cons m.links free_list (page_link z) (links_of zs) ring
  not_empty (y ∷ ys) zs z ring = list_empty-cons m.links free_list (page_link y) _ ring

  insert_block-middle :
      (ys zs : List ℕ) (z : ℕ)
      → Fits ys (z ∷ zs)
      → length ys ≤ m.npage
      → IsRing m.links free_list (links_of (ys ++ z ∷ zs))
      → (s : Links) × (insert_block m base ≡ ok s)
        × IsRing s free_list (links_of (ys ++ base ∷ z ∷ zs))
  unfolding insert_block
  insert_block-middle ys zs z fits few ring =
      let out = unlinked ys (z ∷ zs) fits in
      (
        list_add_before m.links (page_link z) (page_link base),
        rw (
          not_empty ys zs z ring,
          insert_walk-before m.pages m.links base z (m.npage + 2) free_list 0 ys zs ring.chain
              fits.low (omega (arith, fits.high)) (omega arith),
        ),
        rw links_of-append (
            list_add_before_middle m.links free_list (page_link z) (page_link base) (links_of ys)
              (links_of zs) (rw links_of-append at ring) (rw links_of-append at out)),
      )

  -- The block is linked at its place.
  pub insert_block-IsRing :
      (ys zs : List ℕ)
      → Fits ys zs
      → InFront ys zs
      → length ys ≤ m.npage
      → IsRing m.links free_list (links_of (ys ++ zs))
      → (s : Links) × (insert_block m base ≡ ok s) × IsRing s free_list (links_of (ys ++ base ∷ zs))
  unfolding insert_block
  insert_block-IsRing [] [] fits front few ring = (
    list_add m.links free_list (page_link base),
    rw (list_empty-nil m.links free_list ring),
    unfold list_add in
        list_add_after-cons m.links free_list (page_link base) [] ring (ground arith),
  )
  insert_block-IsRing (y ∷ ys) [] fits front few ring = absurd front
  insert_block-IsRing [] (z ∷ zs) fits front few ring = insert_block-middle [] zs z fits few ring
  insert_block-IsRing (y ∷ ys) (z ∷ zs) fits front few ring =
      insert_block-middle (y ∷ ys) zs z fits few ring

-- The pages from `base` on are rewritten, and no others.
abbrev pub Spares : ℕ → ℕ → (ℕ → Page) → (ℕ → Page) → Type 0
Spares base n pages pages' = (q : ℕ) → q < base ⊎ base + n ≤ q → pages' q ≡ pages q

-- `default_init_memmap` resets pages that are reserved.
pub init_pages-ok :
    (n base : ℕ) (pages : ℕ → Page)
    → ((q : ℕ) → base ≤ q → q < base + n → (pages q).reserved ≡ true)
    → (pages' : ℕ → Page) × (init_pages n base pages ≡ ok pages') × Spares base n pages pages'
unfolding init_pages
init_pages-ok zero base pages all = (pages, refl, λ q o. refl)
init_pages-ok (suc n) base pages all =
    let blank : Page = record { ref = 0; reserved = false; is_head = false; property = 0 } in
    let (pages', e, same) =
      init_pages-ok n (base + 1) (update pages base blank) (λ q l u. ground (arith, all q)) in
    (pages', rw (all base (omega arith) (omega arith)) e, λ q o. ground (arith, same q))

-- `default_free_pages` clears pages that are neither reserved nor the head of a free block.
pub clear_pages-ok :
    (n base : ℕ) (pages : ℕ → Page)
    → ((q : ℕ)
        → base ≤ q
        → q < base + n
        → ((pages q).reserved ≡ false) × ((pages q).is_head ≡ false))
    → (pages' : ℕ → Page) × (clear_pages n base pages ≡ ok pages') × Spares base n pages pages'
unfolding clear_pages
clear_pages-ok zero base pages all = (pages, refl, λ q o. refl)
clear_pages-ok (suc n) base pages all =
    let here = all base (omega arith) (omega arith) in
    let (pages', e, same) =
      clear_pages-ok n (base + 1)
        (update pages base (record (pages base) { ref = 0; reserved = false; is_head = false }))
        (λ q l u. (ground (arith, all q), ground (arith, all q))) in
    (pages', rw (here.0, here.1) e, λ q o. ground (arith, same q))
