-- ===== src/Paging/Ranges.antt =====
-- The walks over a range of addresses of labcode/lab8/kern/mm/pmm.c.
use oslabcode.Prelude.{
  ℕ, zero, suc, ◌+◌, ◌-◌, ◌%◌, ◌^◌, Bool, true, false, not, ◌&&◌, none, some, ltb, leb, ◌==◌,
  if◌then◌else◌, ◌>>=◌, ◌>>◌, assert, Run, ok, panic, out_of_fuel, e_no_mem,
}
use oslabcode.Paging.{
  Pte, empty_pte, is_nonzero, PageAlloc, pa2page, Paging, pdx1, pdx0, ptx, set_entry, get_pte,
  page_remove_pte, page_insert,
}

abbrev pub pgsize : ℕ
pgsize = 4096

abbrev pub ptsize : ℕ
ptsize = 2 ^ 21

abbrev pub pdsize : ℕ
pdsize = 2 ^ 30

abbrev user_access : ℕ → ℕ → Bool
user_access start end = leb 0x0020_0000 start && ltb start end && leb end 0x8000_0000

-- The test at the end of the loops: `start != 0 && start < end`.
abbrev goes_on : ℕ → ℕ → Bool
goes_on start end = not (start == 0) && ltb start end

-- `ROUNDDOWN(start + PTSIZE, PTSIZE)`
abbrev next_pt : ℕ → ℕ
next_pt start = (start + ptsize) - (start + ptsize) % ptsize

module _ {W : Type 0} (a : PageAlloc W) where
  -- The loop of `unmap_range`.
  unfoldable pub unmap_walk : (fuel : ℕ) → Paging W → (pgdir start end : ℕ) → Run (Paging W)
  unfolding get_pte page_remove_pte
  unmap_walk zero s pgdir start end = out_of_fuel
  unmap_walk (suc k) s pgdir start end = do
    (found, s1) ← get_pte a s pgdir start false
    elim found [
      | none ↦
          let rest = unmap_walk k s1 pgdir (next_pt start) end in
          if goes_on (next_pt start) end then rest else ok s1
      | some t ↦ do
        s2 ←
            (if is_nonzero (s1.entry t (ptx start))
              then page_remove_pte a s1 t (ptx start)
              else ok s1)
        let rest = unmap_walk k s2 pgdir (start + pgsize) end
        if goes_on (start + pgsize) end then rest else ok s2
    ]

  -- `unmap_range`: each round moves on by a page at least.
  unfoldable pub unmap_range : Paging W → (pgdir start end : ℕ) → Run (Paging W)
  unfolding unmap_walk
  unmap_range s pgdir start end = do
    assert (start % pgsize == 0 && end % pgsize == 0)
    assert (user_access start end)
    unmap_walk (end - start) s pgdir start end

  -- Whether no entry of a page table is valid: the loop of `exit_range` over its entries.
  unfoldable pub is_free_pt : (left index : ℕ) → (ℕ → Pte) → Bool
  is_free_pt zero index pt = true
  is_free_pt (suc k) index pt = if (pt index).valid then false else is_free_pt k (index + 1) pt

  -- The inner loop of `exit_range`, with `free_pd0`, and the place where it stops.
  unfoldable pub exit_tables :
      (fuel : ℕ) → Paging W → (pd0 d1start d0start end : ℕ) → Bool → Run (ℕ × Bool × Paging W)
  unfolding is_free_pt
  exit_tables zero s pd0 d1start d0start end free_pd0 = out_of_fuel
  exit_tables (suc k) s pd0 d1start d0start end free_pd0 = do
    let pde0 = s.entry pd0 (pdx0 d0start)
    let free_pd0' = if pde0.valid then free_pd0 else false
    s' ←
        (if pde0.valid && is_free_pt 512 0 (s.entry pde0.ppn)
          then (do
            pa2page a pde0.ppn
            w ← a.free_page s.world pde0.ppn
            ok (record s { entry = set_entry s.entry pd0 (pdx0 d0start) empty_pte; world = w }))
          else ok s)
    let next = d0start + ptsize
    let rest = exit_tables k s' pd0 d1start next end free_pd0'
    if not (next == 0) && (ltb next (d1start + pdsize) && ltb next end)
        then rest
        else ok (next, free_pd0', s')

  -- The outer loop of `exit_range`.
  unfoldable pub exit_directories :
      (fuel : ℕ) → Paging W → (pgdir d1start d0start end : ℕ) → Run (Paging W)
  unfolding exit_tables
  exit_directories zero s pgdir d1start d0start end = out_of_fuel
  exit_directories (suc k) s pgdir d1start d0start end = do
    let pde1 = s.entry pgdir (pdx1 d1start)
    s' ←
        (if pde1.valid
          then (do
            (_, free_pd0, s1) ← exit_tables 512 s pde1.ppn d1start d0start end true
            if free_pd0
                then (do
                  pa2page a pde1.ppn
                  w ← a.free_page s1.world pde1.ppn
                  ok (record s1 {
                    entry = set_entry s1.entry pgdir (pdx1 d1start) empty_pte;
                    world = w;
                  }))
                else ok s1)
          else ok s)
    let next = d1start + pdsize
    let rest = exit_directories k s' pgdir next next end
    if goes_on next end then rest else ok s'

  unfoldable pub exit_range : Paging W → (pgdir start end : ℕ) → Run (Paging W)
  unfolding exit_directories
  exit_range s pgdir start end = do
    assert (start % pgsize == 0 && end % pgsize == 0)
    assert (user_access start end)
    exit_directories (end - start) s pgdir (start - start % pdsize) (start - start % ptsize) end

  -- `copy_range` for a page that is mapped: `copy` is the `memcpy` of its contents.
  unfoldable pub copy_page :
      (copy : W → (dst src : ℕ) → W) → Paging W → (to start perm page : ℕ) → Run (ℕ × Paging W)
  unfolding get_pte page_insert
  copy_page copy s to start perm page = do
    (found, s1) ← get_pte a s to start true
    elim found [
      | none ↦ ok (e_no_mem, s1)
      | some t ↦ do
        pa2page a page
        (npage, w) ← a.alloc_page s1.world
        elim npage [
          | none ↦ panic
          | some n ↦ do
            (ret, s2) ← page_insert a (record s1 { world = copy w n page }) to n start perm
            assert (ret == 0)
            ok (0, s2)
        ]
    ]

  -- The loop of `copy_range`; the flags of PTE_USER are the low five.
  unfoldable pub copy_walk :
      (copy : W → (dst src : ℕ) → W)
      → (fuel : ℕ) → Paging W
      → (to from start end : ℕ) → Run (ℕ × Paging W)
  unfolding get_pte copy_page
  copy_walk copy zero s to from start end = out_of_fuel
  copy_walk copy (suc k) s to from start end = do
    (found, s1) ← get_pte a s from start false
    elim found [
      | none ↦
          let rest = copy_walk copy k s1 to from (next_pt start) end in
          if goes_on (next_pt start) end then rest else ok (0, s1)
      | some t ↦ do
        let pte = s1.entry t (ptx start)
        (ret, s2) ←
            (if pte.valid then copy_page copy s1 to start (pte.perm % 32) pte.ppn else ok (0, s1))
        let rest = copy_walk copy k s2 to from (start + pgsize) end
        if not (ret == 0)
            then ok (ret, s2)
            else (if goes_on (start + pgsize) end then rest else ok (0, s2))
    ]

  unfoldable pub copy_range :
      (copy : W → (dst src : ℕ) → W) → Paging W → (to from start end : ℕ) → Run (ℕ × Paging W)
  unfolding copy_walk
  copy_range copy s to from start end = do
    assert (start % pgsize == 0 && end % pgsize == 0)
    assert (user_access start end)
    copy_walk copy (end - start) s to from start end
