-- ===== src/Paging/Insert.antt =====
-- Inserting a page and looking it up.
use oslabcode.Prelude.{
  ℕ, ◌+◌, ◌-◌, ◌%◌, ◌^◌, ◌≡◌, refl, sym, ap, ◌∙◌, inl, inr, Bool, true, false, not, ◌&&◌, Option,
  none, some, arith, ◌==◌, if◌then◌else◌, Bool-cases, lt→ltb, ◌<◌, update, ◌>>=◌, ◌>>◌, assert, ltb,
  Run, ok, chain_ok, e_no_mem, fun_ext,
}
use oslabcode.Paging.{
  Pte, empty_pte, PageAlloc, pa2page, Paging, pdx1, pdx0, ptx, set_entry, pte_create, next_table,
  get_pte, get_page, page_remove_pte, fill_entry, page_insert,
}
use oslabcode.Paging.Tables.{Next, mapped}
use oslabcode.Paging.Leads.{leads, AllocLaws, with_leaf, mapped-leaf}
use oslabcode.Paging.Grow.{IsPaged, get_pte-Reached}

-- Whether two addresses have the same indices: they lie in the same page, below 2 ^ 39.
abbrev pub same_indices : (la la' : ℕ) → Bool
same_indices la la' = (pdx1 la' == pdx1 la) && ((pdx0 la' == pdx0 la) && (ptx la' == ptx la))

module _ {W : Type 0} (a : PageAlloc W) (laws : AllocLaws a) where
  -- Filling an entry changes what the entries lead to at that entry only.
  leads-set_entry :
      (entry : ℕ → ℕ → Pte) (table index page perm : ℕ)
      → leads (set_entry entry table index (pte_create page perm))
        ≡ with_leaf (leads entry) table index page
  leads-set_entry entry table index page perm = fun_ext (λ t. fun_ext (λ i. ground arith))

  removed-leaf :
      (next : Next) (entry : ℕ → ℕ → Pte) (table index page : ℕ)
      → leads entry ≡ next
      → with_leaf (leads (set_entry entry table index empty_pte)) table index page
        ≡ with_leaf next table index page
  removed-leaf next entry table index page e =
      fun_ext (λ t. fun_ext (λ i. ground (arith, ap (λ n. n t i) e)))

  checked : (b : Bool) (m : Run (Paging W)) (y : Paging W) → (assert b >> m) ≡ ok y → b ≡ true
  checked true m y h = refl
  checked false m y h = cc

  remove_pte-leaf :
      (s : Paging W) (table index page : ℕ) (s' : Paging W)
      → page_remove_pte a s table index ≡ ok s'
      → with_leaf (leads s'.entry) table index page ≡ with_leaf (leads s.entry) table index page
  unfolding page_remove_pte
  remove_pte-leaf s table index page s' e = elim (Bool-cases (s.entry table index).valid) [
    | inr blank ↦
        let same : s ≡ s' = (let h = rw blank at e in cc) in
        ap (λ (x : Paging W). with_leaf (leads x.entry) table index page) (sym same)
    | inl there ↦
        let in_range = checked (ltb (s.entry table index).ppn a.npage) _ _ (rw there at e) in
        let count = (s.ref (s.entry table index).ppn + 2 ^ 32 - 1) % 2 ^ 32 in
        let (w, _, h) =
          chain_ok
            (if count == 0 then a.free_page s.world (s.entry table index).ppn else ok s.world) _ s'
            (rw (there, in_range) at e) in
        let same : s'.entry ≡ set_entry s.entry table index empty_pte =
          sym (ap (λ (x : Paging W). x.entry) (ok_same {y = s'} h)) in
        ap (λ x. with_leaf (leads x) table index page) same
        ∙ removed-leaf (leads s.entry) s.entry table index page refl
  ]
    where
      ok_same : {x y : Paging W} → ◌≡◌ {A = Run (Paging W)} (ok x) (ok y) → x ≡ y
      ok_same h = cc

  -- The part of `fill_entry` before the write.
  abbrev counted : Paging W → ℕ → Paging W
  counted s page = record s { ref = update s.ref page ((s.ref page + 1) % 2 ^ 32) }

  abbrev released : Paging W → (table index page : ℕ) → Run (Paging W)
  released s table index page =
      let old = s.entry table index in
      let c = counted s page in
      if not old.valid then ok c else (do
        pa2page a old.ppn
        if old.ppn == page
            then ok (record c { ref = update c.ref page ((c.ref page + 2 ^ 32 - 1) % 2 ^ 32) })
            else page_remove_pte a c table index)

  released-leaf :
      (s : Paging W) (table index page : ℕ) (s1 : Paging W)
      → released s table index page ≡ ok s1
      → with_leaf (leads s1.entry) table index page ≡ with_leaf (leads s.entry) table index page
  released-leaf s table index page s1 e = elim (Bool-cases (s.entry table index).valid) [
    | inr blank ↦ untouched (rw blank at e)
    | inl there ↦
        let in_range = checked (ltb (s.entry table index).ppn a.npage) _ _ (rw there at e) in
        elim (Bool-cases ((s.entry table index).ppn == page)) [
          | inl same ↦ untouched (rw (there, in_range, same) at e)
          | inr other ↦
              remove_pte-leaf (counted s page) table index page s1
                (rw (there, in_range, other) at e)
        ]
  ]
    where
      untouched :
          {x : ℕ → ℕ} {w : W}
          → ◌≡◌ {A = Run (Paging W)} (ok (record { entry = s.entry; ref = x; world = w })) (ok s1)
          → with_leaf (leads s1.entry) table index page ≡ with_leaf (leads s.entry) table index page
      untouched {x} {w} h =
          let same : record { entry = s.entry; ref = x; world = w } ≡ s1 = cc in
          sym (ap (λ (y : Paging W). with_leaf (leads y.entry) table index page) same)

  fill_entry-leaf :
      (s : Paging W) (table index page perm : ℕ) (s' : Paging W)
      → fill_entry a s table index page perm ≡ ok s'
      → leads s'.entry ≡ with_leaf (leads s.entry) table index page
  unfolding fill_entry
  fill_entry-leaf s table index page perm s' e =
      let (s1, e1, h) = chain_ok (released s table index page) _ s' e in
      let same : record s1 { entry = set_entry s1.entry table index (pte_create page perm) } ≡ s' =
        cc in
      sym (ap (λ (y : Paging W). leads y.entry) same)
      ∙ leads-set_entry s1.entry table index page perm
      ∙ released-leaf s table index page s1 e1

  -- The page that an entry leads to, checked by `pa2page`.
  abbrev looked_up : Option ℕ → Run (Option ℕ)
  looked_up none = ok none
  looked_up (some p) = do pa2page a p; ok (some p)

  -- `get_page` follows the tables.
  get_page-mapped :
      (s : Paging W) (pgdir la : ℕ)
      → get_page a s pgdir la
        ≡ looked_up (mapped (leads s.entry) pgdir (pdx1 la) (pdx0 la) (ptx la))
  unfolding get_page get_pte next_table
  get_page-mapped s pgdir la = elim (Bool-cases (s.entry pgdir (pdx1 la)).valid) [
    | inr blank ↦ rw blank
    | inl there ↦
        let t = (s.entry pgdir (pdx1 la)).ppn in
        elim (Bool-cases (s.entry t (pdx0 la)).valid) [
          | inr blank ↦ rw (there, blank)
          | inl there' ↦ elim (Bool-cases (s.entry (s.entry t (pdx0 la)).ppn (ptx la)).valid) [
            | inr blank ↦ rw (there, there', blank)
            | inl there'' ↦ rw (there, there', there'')
          ]
        ]
  ]

  -- `page_insert` behind `get_pte`.
  inserted :
      (s1 : Paging W) (pgdir page la perm : ℕ) (s' : Paging W) (found : Option ℕ)
      → (elim found as (λ _. Run (ℕ × Paging W)) [
        | none ↦ ok (e_no_mem, s1)
        | some t ↦ fill_entry a s1 t (ptx la) page perm >>= λ s2. ok (0, s2)
      ])
        ≡ ok (0, s')
      → (u : ℕ) × (found ≡ some u) × (fill_entry a s1 u (ptx la) page perm ≡ ok s')
  inserted s1 pgdir page la perm s' none e = cc
  inserted s1 pgdir page la perm s' (some u) e =
      let (s2, e2, h) = chain_ok (fill_entry a s1 u (ptx la) page perm) _ (0, s') e in
      let same : s2 ≡ s' = cc in (u, refl, e2 ∙ ap ok same)

  -- With a lawful page allocator, after a successful `page_insert` of a page below `npage` into
  -- tables that form a tree of pages that the allocator, in a valid state, does not give, `get_page`
  -- finds the page at its address, and at every address of other indices it finds what it found
  -- before.
  pub page_insert-get_page :
      (s : Paging W) (pgdir page la perm : ℕ) (s' : Paging W) (la' : ℕ)
      → IsPaged a laws s pgdir
      → page < a.npage
      → page_insert a s pgdir page la perm ≡ ok (0, s')
      → get_page a s' pgdir la'
        ≡ (if same_indices la la' then ok (some page) else get_page a s pgdir la')
  unfolding page_insert
  page_insert-get_page s pgdir page la perm s' la' v low e =
      let (r, e1, h) = chain_ok (get_pte a s pgdir la true) _ (0, s') e in
      let (u, found, filled) = inserted r.1 pgdir page la perm s' r.0 h in
      let there = get_pte-Reached a laws s pgdir la u r.1 v (e1 ∙ ap (λ x. ok (x, r.1)) found) in
      let next = leads (r.1.entry) in
      let i = pdx1 la' in
      let j = pdx0 la' in
      let k = ptx la' in
      get_page-mapped s' pgdir la'
      ∙ ap (λ n. looked_up (mapped n pgdir i j k))
          (fill_entry-leaf r.1 u (ptx la) page perm s' filled)
      ∙ ap looked_up (
          mapped-leaf next pgdir (laws.Unused r.1.world) there.grown.paged.0 (pdx1 la) there.middle
            (pdx0 la) u (ptx la) page i j k there.step1 there.step0)
      ∙ rw (there.grown.same i j k) (either (same_indices la la') _ _ (get_page-mapped s pgdir la'))
    where
      either :
          (b : Bool) (o : Option ℕ) (m : Run (Option ℕ))
          → m ≡ looked_up o
          → looked_up (if b then some page else o) ≡ (if b then ok (some page) else m)
      either true o m h = rw (lt→ltb page a.npage low)
      either false o m h = sym h
