-- ===== src/Pmm/BestFit.antt =====
-- The allocation of labcode/lab2/kern/mm/best_fit_pmm.c, on the free list of the first fit.
pub mod Least
use oslabcode.Prelude.{
  ℕ, zero, suc, ◌+◌, ◌-◌, ◌*◌, ◌/◌, ◌%◌, ◌^◌, ◌≤◌, ◌<◌, ◌≡◌, ◌≢◌, refl, sym, ap, ◌∙◌, ◌↔◌, ◌⊎◌, inl,
  inr, Bool, true, false, not, ◌&&◌, ◌||◌, Option, none, some, List, [], ◌∷◌, ◌++◌, map,
  append_assoc, append-nil, arith, ltb, leb, ◌==◌, if◌then◌else◌, ltb→lt, lt→ltb, le→ltb, ==_iff,
  Bool-cases, Option-cases, update, ◌>>=◌, ◌>>◌, assert, Run, ok, panic, out_of_fuel, length,
  chain_ok, e_inval, e_no_mem, e_busy, e_max_open, count, count-append, Distinct, fun_ext, min,
}
use oslabcode.Links.{list_next}
use oslabcode.Pmm.{Page, Pmm, page_link, le2page, free_list, take_block, rounds}

-- The loop of `best_fit_alloc_pages`: the block that is kept so far and its size.
unfoldable pub find_best : ℕ → Pmm → (n le : ℕ) → Option ℕ → (min_size : ℕ) → Run (Option ℕ)
unfolding list_next
find_best zero m n le page min_size = out_of_fuel
find_best (suc k) m n le page min_size =
    let le' = list_next m.links le in
    let p = le2page le' in
    let size = (m.pages p).property in
    let better = find_best k m n le' (some p) size in
    let rest = find_best k m n le' page min_size in
    if le' == free_list
    then ok page
    else (if size == n
        then ok (some p)
        else (if ltb n size && ltb size min_size then better else rest))

-- `nr_free + 1` is not wrapped at 2 ^ 32, which takes 2 ^ 32 - 1 free pages.
unfoldable pub best_fit_alloc_pages : Pmm → ℕ → Run (Option ℕ × Pmm)
unfolding find_best take_block
best_fit_alloc_pages m n = do
  assert (ltb 0 n)
  if ltb m.nr_free n then ok (none, m) else do
    found ← find_best (rounds m) m n free_list none (m.nr_free + 1)
    elim found [ none ↦ ok (none, m) | some page ↦ ok (some page, take_block m page n) ]
