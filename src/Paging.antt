-- ===== src/Paging.antt =====
-- The page tables of labcode/lab8/kern/mm/pmm.c. A physical page is its number; a page that is a
-- table is a function from its 512 indices to entries. The TLB is the machine's.
pub mod Ranges
pub mod Tables
pub mod Grow
pub mod Insert
pub mod Leads
pub mod Supply
use oslabcode.Prelude.{
  ℕ, zero, suc, ◌+◌, ◌-◌, ◌*◌, ◌/◌, ◌%◌, ◌^◌, ◌≤◌, ◌<◌, ◌≡◌, ◌≢◌, refl, sym, ap, ◌∙◌, ◌↔◌, ◌⊎◌, inl,
  inr, Bool, true, false, not, ◌&&◌, ◌||◌, Option, none, some, List, [], ◌∷◌, ◌++◌, map,
  append_assoc, append-nil, arith, ltb, leb, ◌==◌, if◌then◌else◌, ltb→lt, lt→ltb, le→ltb, ==_iff,
  Bool-cases, Option-cases, update, ◌>>=◌, ◌>>◌, assert, Run, ok, panic, out_of_fuel, length,
  e_inval, e_no_mem, e_busy, e_max_open, count, count-append, Distinct, fun_ext, min,
}

-- A page table entry by its fields: PTE_V, the other flags, and the page number.
pub record Pte : Type 0 where
  pub valid : Bool
  pub perm : ℕ
  pub ppn : ℕ

abbrev pub empty_pte : Pte
empty_pte = record { valid = false; perm = 0; ppn = 0 }

-- `*ptep != 0`
abbrev pub is_nonzero : Pte → Bool
is_nonzero pte = pte.valid || (not (pte.perm == 0) || not (pte.ppn == 0))

-- What pmm.c calls of the page allocator, and the bound of the page numbers.
pub record PageAlloc (W : Type 0) : Type 0 where
  pub npage : ℕ
  pub alloc_page : W → Run (Option ℕ × W)
  pub free_page : W → ℕ → Run W

-- The contents of the pages as tables, the reference counts in 32 bits, and the state of the allocator.
pub record Paging (W : Type 0) : Type 0 where
  pub entry : ℕ → ℕ → Pte
  pub ref : ℕ → ℕ
  pub world : W

-- `PDX1`, `PDX0` and `PTX` of an address.
abbrev pub pdx1 : ℕ → ℕ
pdx1 la = (la / 2 ^ 30) % 512

abbrev pub pdx0 : ℕ → ℕ
pdx0 la = (la / 2 ^ 21) % 512

abbrev pub ptx : ℕ → ℕ
ptx la = (la / 2 ^ 12) % 512

abbrev pub set_entry : (ℕ → ℕ → Pte) → (table index : ℕ) → Pte → ℕ → ℕ → Pte
set_entry entry table index pte = update entry table (update (entry table) index pte)

-- `pte_create`: PTE_V is among the flags.
abbrev pub pte_create : (ppn perm : ℕ) → Pte
pte_create ppn perm = record { valid = true; perm = perm; ppn = ppn }

abbrev pub pte_u : ℕ
pte_u = 16

-- `pa2page` of the address of a page, for which a number stands: its test.
abbrev pub pa2page : {W : Type 0} → PageAlloc W → ℕ → Run (Unit {0})
pa2page a ppn = assert (ltb ppn a.npage)

module _ {W : Type 0} (a : PageAlloc W) where
  -- A level of `get_pte`: the table that an entry leads to, which is made if there is none.
  unfoldable pub next_table : Paging W → (table index : ℕ) → Bool → Run (Option ℕ × Paging W)
  next_table s table index create =
      if (s.entry table index).valid
      then ok (some (s.entry table index).ppn, s)
      else (if not create then ok (none, s) else (do
        (found, w) ← a.alloc_page s.world
        elim found [
          | none ↦ ok (none, record s { world = w })
          | some p ↦ ok (
            some p,
            record {
              entry =
                  set_entry (update s.entry p (λ _. empty_pte)) table index (pte_create p pte_u);
              ref = update s.ref p 1;
              world = w;
            },
          )
        ]))

  -- `get_pte` with the table and the index of the entry.
  unfoldable pub get_pte : Paging W → (pgdir la : ℕ) → Bool → Run (Option ℕ × Paging W)
  unfolding next_table
  get_pte s pgdir la create = do
    (found, s1) ← next_table s pgdir (pdx1 la) create
    elim found [ none ↦ ok (none, s1) | some t ↦ next_table s1 t (pdx0 la) create ]

  unfoldable pub get_page : Paging W → (pgdir la : ℕ) → Run (Option ℕ)
  unfolding get_pte
  get_page s pgdir la = do
    (found, s1) ← get_pte s pgdir la false
    elim found [
      | none ↦ ok none
      | some t ↦
          let pte = s1.entry t (ptx la) in
          if pte.valid then (do pa2page a pte.ppn; ok (some pte.ppn)) else ok none
    ]

  -- `page_remove_pte` of the entry `index` of a table.
  unfoldable pub page_remove_pte : Paging W → (table index : ℕ) → Run (Paging W)
  page_remove_pte s table index =
      let page = (s.entry table index).ppn in
      let count = (s.ref page + 2 ^ 32 - 1) % 2 ^ 32 in
      if (s.entry table index).valid
      then (do
        pa2page a page
        w ← (if count == 0 then a.free_page s.world page else ok s.world)
        ok (record {
          entry = set_entry s.entry table index empty_pte;
          ref = update s.ref page count;
          world = w;
        }))
      else ok s

  unfoldable pub page_remove : Paging W → (pgdir la : ℕ) → Run (Paging W)
  unfolding get_pte page_remove_pte
  page_remove s pgdir la = do
    (found, s1) ← get_pte s pgdir la false
    elim found [ none ↦ ok s1 | some t ↦ page_remove_pte s1 t (ptx la) ]

  -- The part of `page_insert` on an entry that is there.
  unfoldable pub fill_entry : Paging W → (table index page perm : ℕ) → Run (Paging W)
  unfolding page_remove_pte
  fill_entry s table index page perm = do
    let counted = record s { ref = update s.ref page ((s.ref page + 1) % 2 ^ 32) }
    let old = s.entry table index
    s1 ←
        (if not old.valid then ok counted else (do
          pa2page a old.ppn
          if old.ppn == page
              then ok (record counted {
                ref = update counted.ref page ((counted.ref page + 2 ^ 32 - 1) % 2 ^ 32);
              })
              else page_remove_pte counted table index))
    ok (record s1 { entry = set_entry s1.entry table index (pte_create page perm) })

  unfoldable pub page_insert : Paging W → (pgdir page la perm : ℕ) → Run (ℕ × Paging W)
  unfolding get_pte fill_entry
  page_insert s pgdir page la perm = do
    (found, s1) ← get_pte s pgdir la true
    elim found [
      | none ↦ ok (e_no_mem, s1)
      | some t ↦ do s2 ← fill_entry s1 t (ptx la) page perm; ok (0, s2)
    ]

  unfoldable pub pgdir_alloc_page : Paging W → (pgdir la perm : ℕ) → Run (Option ℕ × Paging W)
  unfolding page_insert
  pgdir_alloc_page s pgdir la perm = do
    (found, w) ← a.alloc_page s.world
    let s1 = record s { world = w }
    elim found [
      | none ↦ ok (none, s1)
      | some page ↦ do
        (ret, s2) ← page_insert s1 pgdir page la perm
        if ret == 0
            then (do assert (s2.ref page == 1); ok (some page, s2))
            else (do w' ← a.free_page s2.world page; ok (none, record s2 { world = w' }))
    ]
