-- ===== src/Paging/Supply.antt =====
-- The page allocator of labcode/lab8/kern/mm/default_pmm.c gives the page tables their pages:
-- `alloc_page` of pmm.h is `alloc_pages(1)`, and `free_page` is `free_pages(page, 1)`.
use oslabcode.Prelude.{
  ℕ, ◌+◌, ◌-◌, ◌≤◌, ◌<◌, ◌≡◌, ◌≢◌, sym, ◌∙◌, ◌⊎◌, inl, inr, Option, some, List, [], ◌∷◌, arith, ltb,
  leb, Bool-cases, Run, ok,
}
use mathlib.Core.Path.{subst}
use oslabcode.Paging.{PageAlloc}
use oslabcode.Paging.Leads.{AllocLaws}
use oslabcode.Pmm.{Page, Pmm, default_alloc_pages, default_free_pages}
use oslabcode.Pmm.FirstFit
use oslabcode.Pmm.FirstFit.{Block, view}
use oslabcode.Pmm.Inv.{Blocks, IsFreeList}
use oslabcode.Pmm.Alloc.{Holds, default_alloc_pages-alloc}

abbrev pub first_fit : ℕ → PageAlloc Pmm
first_fit npage = record {
  npage = npage;
  alloc_page = λ m. default_alloc_pages m 1;
  free_page = λ m p. default_free_pages m p 1;
}

-- The page lies in one of the blocks.
abbrev pub Covers : List Block → ℕ → Type 0
Covers [] q = ⊥
Covers ((p, size) ∷ bs) q = ((p ≤ q) × (q < p + size)) ⊎ Covers bs q

-- The blocks follow each other from a page on.
abbrev Ordered : ℕ → List Block → Type 0
Ordered lo [] = Unit
Ordered lo ((p, size) ∷ bs) = (lo ≤ p) × Ordered (p + size) bs

Ordered-view :
    (pages : ℕ → Page) (lo hi : ℕ) (xs : List ℕ)
    → Blocks pages lo xs hi
    → Ordered lo (view pages xs)
Ordered-view pages lo hi [] b = tt
Ordered-view pages lo hi (x ∷ xs) b = (b.0, Ordered-view pages (x + (pages x).property) hi xs b.3)

Covers-above : (lo q : ℕ) (bs : List Block) → Ordered lo bs → Covers bs q → lo ≤ q
Covers-above lo q [] o c = absurd c
Covers-above lo q ((p, size) ∷ bs) o (inl c) = omega (arith, c.0, o.0)
Covers-above lo q ((p, size) ∷ bs) o (inr c) =
    omega (arith, o.0, Covers-above (p + size) q bs o.1 c)

-- The page that first fit gives lay in a block.
alloc-given : (bs : List Block) (p : ℕ) → (FirstFit.alloc 1 bs).0 ≡ some p → Covers bs p
unfolding FirstFit.alloc
alloc-given [] p e = cc
alloc-given ((b, size) ∷ bs) p e = elim (Bool-cases (leb 1 size)) [
  | inl fits ↦
      let same : b ≡ p = (let h = rw fits at e in cc) in
      inl (omega (arith, same), ground (arith, same, fits))
  | inr small ↦ inr (alloc-given bs p (rw small at e))
]

-- What first fit leaves lay in the blocks, and is not the page that it gives.
alloc-left :
    (lo : ℕ) (bs : List Block) (p q : ℕ)
    → Ordered lo bs
    → (FirstFit.alloc 1 bs).0 ≡ some p
    → Covers (FirstFit.alloc 1 bs).1 q
    → Covers bs q × (q ≢ p)
unfolding FirstFit.alloc
alloc-left lo [] p q o e c = absurd c
alloc-left lo ((b, size) ∷ bs) p q o e c = elim (Bool-cases (leb 1 size)) [
  | inl fits ↦
      let same : b ≡ p = (let h = rw fits at e in cc) in
      elim (Bool-cases (ltb 1 size)) [
        | inl cut ↦
            let split : ((b + 1 ≤ q) × (q < b + 1 + (size - 1))) ⊎ Covers bs q =
              rw (fits, cut) at c in
            elim split [
              | inl here ↦ (
                inl (omega (arith, here), ground (arith, here, cut)),
                λ e'. omega (arith, here, e', same),
              )
              | inr later ↦ (
                inr later,
                λ e'. ground (arith, same, e', Covers-above (b + size) q bs o.1 later, fits),
              )
            ]
        | inr whole ↦
            let later : Covers bs q = rw (fits, whole) at c in
            (
              inr later,
              λ e'. ground (arith, same, e', Covers-above (b + size) q bs o.1 later, fits),
            )
      ]
  | inr small ↦
      let e' : (FirstFit.alloc 1 bs).0 ≡ some p = rw small at e in
      let c' : ((b ≤ q) × (q < b + size)) ⊎ Covers (FirstFit.alloc 1 bs).1 q = rw small at c in
      elim c' [
        | inl here ↦ (
          inl here,
          λ same. omega (arith, same, here, Covers-above (b + size) p bs o.1 (alloc-given bs p e')),
        )
        | inr later ↦ (let (a, ne) = alloc-left (b + size) bs p q o.1 e' later in (inr a, ne))
      ]
]

-- In every free list that stands for the state the page lies in a block.
abbrev pub IsFreePage : Pmm → ℕ → Type 0
IsFreePage m q = (xs : List ℕ) → IsFreeList m xs → Covers (view m.pages xs) q

same_run :
    (o o' : Option ℕ) (m m' : Pmm)
    → ◌≡◌ {A = Run (Option ℕ × Pmm)} (ok (o, m)) (ok (o', m'))
    → (o ≡ o') × (m ≡ m')
same_run o o' m m' e = (cc, cc)

-- One free list of the state, behind the allocation of a page.
record Given (m : Pmm) (p : ℕ) (m' : Pmm) (xs : List ℕ) : Type 0 where
  page : (FirstFit.alloc 1 (view m.pages xs)).0 ≡ some p
  left : Holds m' (FirstFit.alloc 1 (view m.pages xs)).1

alloc_page-Given :
    (m : Pmm) (p : ℕ) (m' : Pmm) (xs : List ℕ)
    → IsFreeList m xs
    → default_alloc_pages m 1 ≡ ok (some p, m')
    → Given m p m' xs
alloc_page-Given m p m' xs free e =
    let (m'', e'', holds) = default_alloc_pages-alloc m 1 xs free (ground arith) in
    let (page, same) = same_run _ _ _ _ (sym e'' ∙ e) in
    record {
      page = page;
      left = subst (λ x. Holds x (FirstFit.alloc 1 (view m.pages xs)).1) same holds;
    }

-- Where a free list stands for its state, the allocator gives a free page, and leaves such a state,
-- in which that page is not free and no page is that was not before.
pub first_fit-law :
    (m : Pmm) (p : ℕ) (m' : Pmm)
    → (xs : List ℕ) × IsFreeList m xs
    → default_alloc_pages m 1 ≡ ok (some p, m')
    → ((ys : List ℕ) × IsFreeList m' ys)
      × IsFreePage m p
      × ((q : ℕ) → IsFreePage m' q → IsFreePage m q × (q ≢ p))
first_fit-law m p m' valid e =
    let kept = alloc_page-Given m p m' valid.0 valid.1 e in
    (
      (kept.left.0, kept.left.1),
      λ xs free. alloc-given (view m.pages xs) p (alloc_page-Given m p m' xs free e).page,
      λ q un. (λ xs free. (after q xs free un).0, (after q valid.0 valid.1 un).1),
    )
  where
    after :
        (q : ℕ) (xs : List ℕ)
        → IsFreeList m xs
        → IsFreePage m' q
        → Covers (view m.pages xs) q × (q ≢ p)
    after q xs free un =
        let g = alloc_page-Given m p m' xs free e in
        let (ys, free', same) = g.left in
        alloc-left 0 (view m.pages xs) p q (Ordered-view m.pages 0 m.npage xs free.blocks) g.page
          (subst (λ bs. Covers bs q) same (un ys free'))

-- So it keeps the laws that the page tables rely on.
unfoldable pub first_fit_laws : (npage : ℕ) → AllocLaws (first_fit npage)
first_fit_laws npage = record {
  IsValid = λ m. (xs : List ℕ) × IsFreeList m xs;
  Unused = IsFreePage;
  alloc_law = first_fit-law;
}
