-- ===== src/Tests/Pages.antt =====
-- A page that is inserted into empty tables, which get their pages from the free list.
use oslabcode.Prelude.{
  ◌⊎◌, inl, inr, ℕ, ◌+◌, ◌≤◌, ◌<◌, ◌≡◌, refl, some, [], ◌∷◌, arith, if◌then◌else◌, Run, ok, panic,
  out_of_fuel,
}
use oslabcode.Pmm.{Pmm, find_block, default_alloc_pages}
use oslabcode.Paging.{empty_pte, Paging, next_table, get_pte, get_page, fill_entry, page_insert}
use oslabcode.Paging.Grow.{IsPaged}
use oslabcode.Paging.Supply.{first_fit, first_fit_laws}
use oslabcode.Paging.Insert.{same_indices, page_insert-get_page}
use oslabcode.Tests.Blocks.{one_block, one_block-IsFreeList}

-- The directory is page 1 and empty; pages 4 and 5 are free.
abbrev blank_tables : Paging Pmm
blank_tables = record { entry = λ _ _. empty_pte; ref = λ _. 0; world = one_block }

blank_tables-IsPaged : IsPaged (first_fit 8) (first_fit_laws 8) blank_tables 1
unfolding first_fit_laws
blank_tables-IsPaged = (
  record {
    root_used = λ u. above (u (4 ∷ []) one_block-IsFreeList);
    used1 = λ i t e u. cc;
    used0 = λ i t j u e f un. cc;
    below1 = λ i t e. cc;
    below0 = λ i t j u e f. cc;
    once1 = λ i i' t e e'. cc;
    apart = λ i t i' t' j u e e' f. cc;
    once0 = λ i t j i' t' j' u e f e' f'. cc;
  },
  (4 ∷ [], one_block-IsFreeList),
)
  where
    above : ((4 ≤ 1) × (1 < 4 + 2)) ⊎ ⊥ → ⊥
    above (inl h) = omega (arith, h)
    above (inr h) = h

-- The state of a run that succeeds.
abbrev state_of : Run (ℕ × Paging Pmm) → Paging Pmm
state_of (ok r) = r.1
state_of panic = blank_tables
state_of out_of_fuel = blank_tables

one_page : Paging Pmm
unfolding page_insert get_pte next_table fill_entry default_alloc_pages find_block
one_page = state_of (page_insert (first_fit 8) blank_tables 1 7 0x80604123 6)

inserted : page_insert (first_fit 8) blank_tables 1 7 0x80604123 6 ≡ ok (0, one_page)
unfolding one_page page_insert get_pte next_table fill_entry default_alloc_pages find_block
inserted = refl

page_found : get_page (first_fit 8) one_page 1 0x80604fff ≡ (
    if same_indices 0x80604123 0x80604fff
    then ok (some 7)
    else get_page (first_fit 8) blank_tables 1 0x80604fff)
page_found =
    page_insert-get_page (first_fit 8) (first_fit_laws 8) blank_tables 1 7 0x80604123 6 one_page
      0x80604fff blank_tables-IsPaged (ground arith) inserted
