-- ===== src/Pmm/Tail.antt =====
-- Inserting behind the last block of a list that holds blocks: the walk of `default_init_memmap`
-- and `default_free_pages` does not stop after `list_add`, meets the entry it has just linked, and
-- links it behind itself.
use oslabcode.Prelude.{
  ℕ, zero, suc, ◌+◌, ◌≤◌, ◌<◌, ◌≡◌, ◌≢◌, refl, ap, ◌∙◌, false, some, List, [], ◌∷◌, ◌++◌, arith,
  lt→ltb, le→ltb, ok, length, length-append,
}
use oslabcode.Links.{Links, list_add, list_empty}
use oslabcode.Links.Ring.{Seg, IsRing, list_empty-cons, Seg-split}
use oslabcode.Pmm.{
  Page, Pmm, page_link, free_list, u32, clear_pages, insert_walk, insert_block, set_head,
  find_block, take_block, default_alloc_pages, default_free_pages, merge_before, merge_after,
}
use oslabcode.Pmm.Merge.{merge_before-apart}
use oslabcode.Pmm.Insert.{Spares, clear_pages-ok}
use oslabcode.Pmm.Inv.{
  Blocks, links_of, IsFreeList, links_of-append, Blocks-split, total-le, length-le-total,
}

-- From `a` the forward pointers lead through `xs` to `b`.
abbrev Forward : Links → ℕ → List ℕ → ℕ → Type 0
Forward s a [] b = s.next a ≡ b
Forward s a (x ∷ xs) b = (s.next a ≡ x) × Forward s x xs b

-- The links that the walk leaves when it links `elm` behind `last`, and then behind itself.
tail_links : Links → (last elm : ℕ) → Links
tail_links s last elm = list_add (list_add s last elm) elm elm

module _ (s : Links) (base k le : ℕ) where
  walk_end : s.next le ≡ free_list → insert_walk (suc k) s base le ≡ ok s
  unfolding insert_walk
  walk_end e = ground arith

  walk_on :
      (x : ℕ)
      → s.next le ≡ page_link x
      → x ≤ base
      → s.next (page_link x) ≢ free_list
      → insert_walk (suc k) s base le ≡ insert_walk k s base (page_link x)
  unfolding insert_walk
  walk_on x e low more = ground arith

  walk_last :
      (x : ℕ)
      → s.next le ≡ page_link x
      → x ≤ base
      → s.next (page_link x) ≡ free_list
      → insert_walk (suc k) s base le
        ≡ insert_walk k (list_add s (page_link x) (page_link base)) base (page_link x)
  unfolding insert_walk
  walk_last x e low last = ground arith

insert_walk-tail :
    (pages : ℕ → Page) (s : Links) (base y k le lo : ℕ) (ys : List ℕ)
    → Seg s le (links_of (ys ++ y ∷ [])) free_list
    → Blocks pages lo (ys ++ y ∷ []) base
    → length ys < k
    → insert_walk (suc (suc k)) s base le ≡ ok (tail_links s (page_link y) (page_link base))
unfolding tail_links
insert_walk-tail pages s base y zero le lo ys c b fuel = absurd (omega arith)
insert_walk-tail pages s base y (suc k) le lo [] c b fuel =
    walk_last s base (suc (suc k)) le y c.0 (omega (arith, b)) c.2.0
    ∙ walk_last (list_add s (page_link y) (page_link base)) base (suc k) (page_link y) base
        (unfold list_add in ground (arith, b)) (omega arith) (unfold list_add in ground (arith, c))
    ∙ walk_end _ base k (page_link base) (unfold list_add in ground (arith, c, b))
insert_walk-tail pages s base y (suc k) le lo (x ∷ []) c b fuel =
    walk_on s base (suc (suc k)) le x c.0 (omega (arith, b)) (ground (arith, c))
    ∙ insert_walk-tail pages s base y k (page_link x) _ [] c.2 b.3 (omega arith)
insert_walk-tail pages s base y (suc k) le lo (x ∷ x' ∷ ys) c b fuel =
    walk_on s base (suc (suc k)) le x c.0
      (omega (arith, total-le pages _ base (x' ∷ ys ++ y ∷ []) b.3)) (ground (arith, c))
    ∙ insert_walk-tail pages s base y k (page_link x) _ (x' ∷ ys) c.2 b.3 (omega arith)

last-le :
    (pages : ℕ → Page) (lo hi y : ℕ) (ys : List ℕ) → Blocks pages lo (ys ++ y ∷ []) hi → lo ≤ y
last-le pages lo hi y [] b = b.0
last-le pages lo hi y (x ∷ ys) b = omega (arith, last-le pages (x + (pages x).property) hi y ys b.3)

-- The forward pointers still lead through all blocks, and then to the new one.
tail_links-Forward :
    (pages : ℕ → Page) (s : Links) (base y a lo : ℕ) (ys : List ℕ)
    → Seg s a (links_of (ys ++ y ∷ [])) free_list
    → Blocks pages lo (ys ++ y ∷ []) base
    → a ≢ page_link y
    → a ≢ page_link base
    → Forward
        (tail_links s (page_link y) (page_link base))
        a
        (links_of (ys ++ y ∷ []) ++ page_link base ∷ [])
        free_list
unfolding tail_links list_add
tail_links-Forward pages s base y a lo [] c b ne ne' =
    (ground (arith, c), (ground (arith, c, b), ground (arith, c)))
tail_links-Forward pages s base y a lo (x ∷ ys) c b ne ne' =
    let far = last-le pages (x + (pages x).property) base y ys b.3 in
    let below = total-le pages (x + (pages x).property) base (ys ++ y ∷ []) b.3 in
    (
      ground (arith, c),
      tail_links-Forward pages s base y (page_link x) _ ys c.2 b.3 (omega arith) (omega arith),
    )

-- All blocks are smaller than `n` pages.
abbrev pub AllSmaller : (ℕ → Page) → ℕ → List ℕ → Type 0
AllSmaller pages n [] = Unit
AllSmaller pages n (x ∷ xs) = ((pages x).property < n) × AllSmaller pages n xs

find_block-last :
    (m : Pmm) (n k le base : ℕ) (xs : List ℕ)
    → Forward m.links le (links_of xs ++ page_link base ∷ []) free_list
    → AllSmaller m.pages n xs
    → n ≤ (m.pages base).property
    → length xs < k
    → find_block k m n le ≡ ok (some base)
unfolding find_block
find_block-last m n zero le base xs c small fits fuel = absurd (omega arith)
find_block-last m n (suc k) le base [] c small fits fuel = ground (arith, c)
find_block-last m n (suc k) le base (x ∷ xs) c small fits fuel =
    ground (arith, c, find_block-last m n k (page_link x) base xs c.1 small.1)

AllSmaller-frame :
    (pages pages' : ℕ → Page) (n lo hi : ℕ) (xs : List ℕ)
    → ((p : ℕ) → lo ≤ p → p < hi → pages' p ≡ pages p)
    → Blocks pages lo xs hi
    → AllSmaller pages n xs
    → AllSmaller pages' n xs
AllSmaller-frame pages pages' n lo hi [] f b small = tt
AllSmaller-frame pages pages' n lo hi (x ∷ xs) f b small =
    let above = total-le pages (x + (pages x).property) hi xs b.3 in
    (
      rw (f x b.0 (omega arith)) small.0,
      AllSmaller-frame pages pages' n (x + (pages x).property) hi xs (λ p l u. f p (omega arith) u)
          b.3 small.1,
    )

Forward-frame :
    (s t : Links) (a b : ℕ) (xs : List ℕ)
    → ((n : ℕ) → t.next n ≡ s.next n)
    → Forward s a xs b
    → Forward t a xs b
Forward-frame s t a b [] f c = f a ∙ c
Forward-frame s t a b (x ∷ xs) f c = (f a ∙ c.0, Forward-frame s t x b xs f c.1)

-- What taking the whole of a block leaves, whose backward pointer leads to itself.
record Kept (m m' : Pmm) (n base : ℕ) : Type 0 where
  back : m'.links.prev (page_link base) ≡ page_link base
  end : m'.links.next (page_link base) ≡ free_list
  exact : (m'.pages base).property ≡ n
  size : m'.npage ≡ m.npage
  fewer : m'.nr_free + n ≡ m.nr_free

take_block-Kept :
    (m : Pmm) (n base : ℕ)
    → m.links.prev (page_link base) ≡ page_link base
    → m.links.next (page_link base) ≡ free_list
    → (m.pages base).property ≡ n
    → n ≤ m.nr_free
    → Kept m (take_block m base n) n base
unfolding take_block
take_block-Kept m n base back end exact enough = record {
  back = ground arith;
  end = ground arith;
  exact = ground arith;
  size = refl;
  fewer = omega arith;
}

-- The walk finds the last block twice: taking it whole leaves it linked.
find-take_block :
    (m : Pmm) (n base : ℕ) (xs : List ℕ)
    → Forward m.links free_list (links_of xs ++ page_link base ∷ []) free_list
    → m.links.prev (page_link base) ≡ page_link base
    → m.links.next (page_link base) ≡ free_list
    → AllSmaller m.pages n xs
    → (m.pages base).property ≡ n
    → length xs < m.npage
    → 0 < n
    → n ≤ m.nr_free
    → (default_alloc_pages m n ≡ ok (some base, take_block m base n))
      × Forward (take_block m base n).links free_list (links_of xs ++ page_link base ∷ []) free_list
find-take_block m n base xs c back end small exact few pos enough = (
  unfold default_alloc_pages in
      rw (
        lt→ltb 0 n pos,
        le→ltb m.nr_free n enough,
        find_block-last m n (m.npage + 2) free_list base xs c small (omega arith) (omega arith),
      ),
  Forward-frame m.links (take_block m base n).links free_list free_list _ same c,
)
  where
    same : (q : ℕ) → (take_block m base n).links.next q ≡ m.links.next q
    same q = unfold take_block in ground arith

-- Freeing a block behind the last one corrupts the ring: the new entry is the last one, and its
-- backward pointer leads to itself.
module _ (m : Pmm) (base n y : ℕ) (ys : List ℕ) (free : IsFreeList m (ys ++ y ∷ []))
    (low : Blocks m.pages 0 (ys ++ y ∷ []) base) (inside : base + n ≤ m.npage) (pos : 0 < n) where
  few : length (ys ++ y ∷ []) < m.npage
  few = omega (
    arith,
    total-le m.pages 0 base (ys ++ y ∷ []) low,
    length-le-total m.pages 0 base (ys ++ y ∷ []) low,
  )

  insert_walk-tail_all :
      (pages : ℕ → Page) (nr_free : ℕ)
      → insert_block (record m { pages = pages; nr_free = nr_free }) base
        ≡ ok (tail_links m.links (page_link y) (page_link base))
  unfolding insert_block
  insert_walk-tail_all pages nr_free =
      let rounds : m.npage + 2 ≡ suc (suc m.npage) = omega arith in
      rw (not_empty ys free.ring, rounds)
        (insert_walk-tail m.pages m.links base y m.npage free_list 0 ys free.ring.chain low
          (omega (arith, few, length-append ys (y ∷ []))))
    where
      not_empty :
          (xs : List ℕ)
          → IsRing m.links free_list (links_of (xs ++ y ∷ []))
          → list_empty m.links free_list ≡ false
      not_empty [] r = list_empty-cons m.links free_list (page_link y) [] r
      not_empty (x ∷ xs) r = list_empty-cons m.links free_list (page_link x) _ r

  -- The state with the block behind the last one.
  module _ (pages' : ℕ → Page) (same : Spares base n m.pages pages') where
    abbrev tail_state : Pmm
    tail_state = record m {
      pages = set_head pages' base n;
      nr_free = u32 (m.nr_free + n);
      links = tail_links m.links (page_link y) (page_link base);
    }

    tail_prev : tail_state.links.prev (page_link base) ≡ page_link base
    unfolding tail_links list_add
    tail_prev = ground arith

    last_next : m.links.next (page_link y) ≡ free_list
    last_next =
        (Seg-split m.links free_list (page_link y) free_list (links_of ys) []
          (rw links_of-append at free.ring.chain)).1.0

    tail_next : tail_state.links.next (page_link base) ≡ free_list
    unfolding tail_links list_add
    tail_next = ground (arith, last_next, y_below)
      where
        y_below : y < base
        y_below = let last = (Blocks-split m.pages 0 base ys (y ∷ []) low).2 in omega (arith, last)

    tail-property : (tail_state.pages base).property ≡ n
    unfolding set_head
    tail-property = ground (arith, inside, free.small)

    tail_merge_before : merge_before tail_state base ≡ (base, tail_state)
    tail_merge_before =
        merge_before-apart tail_state base base tail_prev (omega (arith, tail-property))

    tail_merge_after : merge_after tail_state base ≡ tail_state
    unfolding merge_after
    tail_merge_after = rw tail_next

    tail_spares : (q : ℕ) → 0 ≤ q → q < base → tail_state.pages q ≡ m.pages q
    unfolding set_head
    tail_spares q l u = ground (arith, same q)

    tail-Forward :
        Forward tail_state.links free_list
          (links_of (ys ++ y ∷ []) ++ page_link base ∷ [])
          free_list
    tail-Forward =
        tail_links-Forward m.pages m.links base y free_list 0 ys free.ring.chain low (omega arith)
          (omega arith)

    tail_free : clear_pages n base m.pages ≡ ok pages' → default_free_pages m base n ≡ ok tail_state
    unfolding default_free_pages
    tail_free e =
        rw
          (
            lt→ltb 0 n pos,
            e,
            insert_walk-tail_all (set_head pages' base n) (u32 (m.nr_free + n)),
            tail_merge_before,
          )
          (ap ok tail_merge_after)

    -- The state after the first allocation.
    abbrev taken : Pmm
    taken = take_block tail_state base n

    module _ (small : AllSmaller m.pages n (ys ++ y ∷ [])) (enough : n ≤ m.nr_free) where
      in_u32 : u32 (m.nr_free + n) ≡ m.nr_free + n
      in_u32 = omega (arith, free.counted, free.small, total-le m.pages 0 base (ys ++ y ∷ []) low)

      small1 : AllSmaller tail_state.pages n (ys ++ y ∷ [])
      small1 =
          AllSmaller-frame m.pages tail_state.pages n 0 base (ys ++ y ∷ []) tail_spares low small

      tail_first :
          (default_alloc_pages tail_state n ≡ ok (some base, taken))
          × Forward taken.links free_list (links_of (ys ++ y ∷ []) ++ page_link base ∷ []) free_list
      tail_first =
          find-take_block tail_state n base (ys ++ y ∷ []) tail-Forward tail_prev tail_next small1
            tail-property few pos (omega (arith, in_u32))

      taken_spares : (q : ℕ) → 0 ≤ q → q < base → taken.pages q ≡ m.pages q
      unfolding take_block
      taken_spares q l u = ground (arith, tail_spares q, tail-property)

      kept : Kept tail_state taken n base
      kept =
          take_block-Kept tail_state n base tail_prev tail_next tail-property
            (omega (arith, in_u32))

      tail_second : default_alloc_pages taken n ≡ ok (some base, take_block taken base n)
      tail_second =
          (find-take_block taken n base (ys ++ y ∷ []) tail_first.1 kept.back kept.end
            (AllSmaller-frame m.pages taken.pages n 0 base (ys ++ y ∷ []) taken_spares low small)
            kept.exact (omega (arith, few, kept.size)) pos (omega (arith, in_u32, kept.fewer))).0

-- A block of free pages behind the last one of a list of smaller blocks, which together have as
-- many pages, freed and allocated once, is allocated a second time.
pub default_alloc_pages_twice :
    (m : Pmm) (base n y : ℕ) (ys : List ℕ)
    → IsFreeList m (ys ++ y ∷ [])
    → Blocks m.pages 0 (ys ++ y ∷ []) base
    → base + n ≤ m.npage
    → 0 < n
    → ((q : ℕ)
        → base ≤ q
        → q < base + n
        → ((m.pages q).reserved ≡ false) × ((m.pages q).is_head ≡ false))
    → AllSmaller m.pages n (ys ++ y ∷ [])
    → n ≤ m.nr_free
    → (m1 : Pmm) × (m2 : Pmm) × (m3 : Pmm) × (default_free_pages m base n ≡ ok m1)
      × (default_alloc_pages m1 n ≡ ok (some base, m2))
      × (default_alloc_pages m2 n ≡ ok (some base, m3))
default_alloc_pages_twice m base n y ys free low inside pos clear small enough =
    let (pages', e, same) = clear_pages-ok n base m.pages clear in
    (
      tail_state m base n y ys free low inside pos pages' same,
      taken m base n y ys free low inside pos pages' same,
      _,
      tail_free m base n y ys free low inside pos pages' same e,
      (tail_first m base n y ys free low inside pos pages' same small enough).0,
      tail_second m base n y ys free low inside pos pages' same small enough,
    )
