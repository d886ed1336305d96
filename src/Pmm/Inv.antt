-- ===== src/Pmm/Inv.antt =====
-- What a well-formed free list is: the heads of disjoint blocks in address order.
use oslabcode.Prelude.{
  ℕ, ◌+◌, ◌^◌, ◌≤◌, ◌<◌, ◌≡◌, refl, ap, ◌⊎◌, true, List, [], ◌∷◌, ◌++◌, arith, length, count,
}
use oslabcode.Links.Ring.{IsRing}
use oslabcode.Pmm.{Page, Pmm, page_link, free_list}

-- The blocks `xs` lie one behind the other between the pages `lo` and `hi`.
abbrev pub Blocks : (ℕ → Page) → ℕ → List ℕ → ℕ → Type 0
Blocks pages lo [] hi = lo ≤ hi
Blocks pages lo (x ∷ xs) hi =
    (lo ≤ x)
    × ((pages x).is_head ≡ true)
    × (0 < (pages x).property)
    × Blocks pages (x + (pages x).property) xs hi

-- The pages in the blocks.
abbrev pub total : (ℕ → Page) → List ℕ → ℕ
total pages [] = 0
total pages (x ∷ xs) = (pages x).property + total pages xs

abbrev pub links_of : List ℕ → List ℕ
links_of [] = []
links_of (x ∷ xs) = page_link x ∷ links_of xs

pub record IsFreeList (m : Pmm) (xs : List ℕ) : Type 0 where
  pub ring : IsRing m.links free_list (links_of xs)
  pub blocks : Blocks m.pages 0 xs m.npage
  pub counted : m.nr_free ≡ total m.pages xs
  pub small : m.npage < 2 ^ 32

pub links_of-append : (xs ys : List ℕ) → links_of (xs ++ ys) ≡ links_of xs ++ links_of ys
links_of-append [] ys = refl
links_of-append (x ∷ xs) ys = ap (λ l. page_link x ∷ l) (links_of-append xs ys)

module _ (pages : ℕ → Page) where
  pub total-append : (xs ys : List ℕ) → total pages (xs ++ ys) ≡ total pages xs + total pages ys
  total-append [] ys = omega arith
  total-append (x ∷ xs) ys = omega (arith, total-append xs ys)

  pub Blocks-split :
      (lo hi : ℕ) (xs ys : List ℕ)
      → Blocks pages lo (xs ++ ys) hi
      → (mid : ℕ) × Blocks pages lo xs mid × Blocks pages mid ys hi
  Blocks-split lo hi [] ys b = (lo, omega arith, b)
  Blocks-split lo hi (x ∷ xs) ys b =
      let (mid, l, r) = Blocks-split (x + (pages x).property) hi xs ys b.3 in
      (mid, (b.0, b.1, b.2, l), r)

  pub Blocks-append :
      (lo mid hi : ℕ) (xs ys : List ℕ)
      → Blocks pages lo xs mid
      → Blocks pages mid ys hi
      → Blocks pages lo (xs ++ ys) hi
  Blocks-append lo mid hi [] [] p q = omega arith
  Blocks-append lo mid hi [] (y ∷ ys) p q = (omega arith, q.1, q.2, q.3)
  Blocks-append lo mid hi (x ∷ xs) ys p q =
      (p.0, p.1, p.2, Blocks-append (x + (pages x).property) mid hi xs ys p.3 q)

  pub Blocks-up :
      (lo lo' hi : ℕ) (xs : List ℕ) → lo' ≤ lo → Blocks pages lo xs hi → Blocks pages lo' xs hi
  Blocks-up lo lo' hi [] h b = omega arith
  Blocks-up lo lo' hi (x ∷ xs) h b = (omega arith, b.1, b.2, b.3)

  pub Blocks-top :
      (lo hi hi' : ℕ) (xs : List ℕ) → hi ≤ hi' → Blocks pages lo xs hi → Blocks pages lo xs hi'
  Blocks-top lo hi hi' [] h b = omega arith
  Blocks-top lo hi hi' (x ∷ xs) h b =
      (b.0, b.1, b.2, Blocks-top (x + (pages x).property) hi hi' xs h b.3)

  -- The blocks fit between their bounds, so there are no more blocks than pages.
  pub total-le : (lo hi : ℕ) (xs : List ℕ) → Blocks pages lo xs hi → lo + total pages xs ≤ hi
  total-le lo hi [] b = omega arith
  total-le lo hi (x ∷ xs) b = omega (arith, total-le (x + (pages x).property) hi xs b.3)

  pub length-le-total :
      (lo hi : ℕ) (xs : List ℕ) → Blocks pages lo xs hi → length xs ≤ total pages xs
  length-le-total lo hi [] b = omega arith
  length-le-total lo hi (x ∷ xs) b =
      omega (arith, length-le-total (x + (pages x).property) hi xs b.3)

-- Blocks and their sizes depend on the pages between the bounds only.
module _ (pages pages' : ℕ → Page) where
  pub Blocks-frame :
      (lo hi : ℕ) (xs : List ℕ)
      → ((p : ℕ) → lo ≤ p → p < hi → pages' p ≡ pages p)
      → Blocks pages lo xs hi
      → Blocks pages' lo xs hi
  Blocks-frame lo hi [] f b = b
  Blocks-frame lo hi (x ∷ xs) f b =
      let e = f x b.0 (omega (arith, total-le pages (x + (pages x).property) hi xs b.3)) in
      (
        b.0,
        rw e b.1,
        rw e b.2,
        rw e (Blocks-frame (x + (pages x).property) hi xs (λ p l u. f p (omega arith) u) b.3),
      )

  pub total-frame :
      (lo hi : ℕ) (xs : List ℕ)
      → ((p : ℕ) → lo ≤ p → p < hi → pages' p ≡ pages p)
      → Blocks pages lo xs hi
      → total pages' xs ≡ total pages xs
  total-frame lo hi [] f b = refl
  total-frame lo hi (x ∷ xs) f b =
      let e = f x b.0 (omega (arith, total-le pages (x + (pages x).property) hi xs b.3)) in
      rw (e, total-frame (x + (pages x).property) hi xs (λ p l u. f p (omega arith) u) b.3)

-- An address that is no head of a block is not linked.
pub count-links_of :
    (pages : ℕ → Page) (a lo hi : ℕ) (xs : List ℕ)
    → Blocks pages lo xs hi
    → a < page_link lo ⊎ hi < a
    → count a (links_of xs) ≡ 0
count-links_of pages a lo hi [] b o = refl
count-links_of pages a lo hi (x ∷ xs) b o = ground (
  arith,
  total-le pages (x + (pages x).property) hi xs b.3,
  count-links_of pages a (x + (pages x).property) hi xs b.3,
)
