-- ===== src/Paging/Grow.antt =====
-- `get_pte` with `create` keeps the mapping and the tree of tables.
use oslabcode.Prelude.{
  ℕ, ◌≡◌, refl, sym, ap, ◌∙◌, ◌⊎◌, inl, inr, true, Option, none, some, Bool-cases, update, ◌>>=◌,
  Run, ok, panic, out_of_fuel, chain_ok,
}
use mathlib.Core.Path.{subst}
use oslabcode.Paging.{
  empty_pte, PageAlloc, Paging, pdx1, pdx0, set_entry, pte_create, pte_u, next_table, get_pte,
}
use oslabcode.Paging.Tables.{mapped, IsTables, with_table, IsTables-first, IsTables-second}
use oslabcode.Paging.Leads.{
  leads, AllocLaws, leads-with_table, with_table_self, with_table_other, mapped-first,
  mapped-second,
}

module _ {W : Type 0} (a : PageAlloc W) (laws : AllocLaws a) where
  -- The state of the allocator is valid, and the tables are a tree of pages that it does not give.
  abbrev pub IsPaged : Paging W → ℕ → Type 0
  IsPaged s pgdir = IsTables (leads s.entry) pgdir (laws.Unused s.world) × laws.IsValid s.world

  -- The outcome of looking for a table, and making it where it is missing.
  record Found (s : Paging W) (table index t : ℕ) (s' : Paging W) : Type 0 where
    leads_to : (leads s.entry table index ≡ some t) × (s' ≡ s)

  record Made (s : Paging W) (table index t : ℕ) (s' : Paging W) : Type 0 where
    missing : leads s.entry table index ≡ none
    given : a.alloc_page s.world ≡ ok (some t, s'.world)
    entries :
        s'.entry ≡ set_entry (update s.entry t (λ _. empty_pte)) table index (pte_create t pte_u)

  -- `next_table` behind the call of the allocator.
  abbrev after_alloc : Paging W → (table index : ℕ) → Option ℕ × W → Run (Option ℕ × Paging W)
  after_alloc s table index r = elim r.0 [
    | none ↦ ok (none, record s { world = r.1 })
    | some p ↦ ok (
      some p,
      record {
        entry = set_entry (update s.entry p (λ _. empty_pte)) table index (pte_create p pte_u);
        ref = update s.ref p 1;
        world = r.1;
      },
    )
  ]

  made :
      (s : Paging W) (table index t : ℕ) (s' : Paging W) (m : Run (Option ℕ × W))
      → leads s.entry table index ≡ none
      → a.alloc_page s.world ≡ m
      → (m >>= after_alloc s table index) ≡ ok (some t, s')
      → Made s table index t s'
  made s table index t s' out_of_fuel b e f = cc
  made s table index t s' panic b e f = cc
  made s table index t s' (ok (none, w)) b e f = cc
  made s table index t s' (ok (some p, w)) b e f =
      let same : p ≡ t = cc in
      let state : record {
        entry = set_entry (update s.entry p (λ _. empty_pte)) table index (pte_create p pte_u);
        ref = update s.ref p 1;
        world = w;
      }
          ≡ s' =
        cc in
      record {
        missing = b;
        given =
            e
            ∙ ap (λ r. ok r)
                (ap (λ x. (some x, w)) same ∙ ap (λ (x : Paging W). (some t, x.world)) state);
        entries =
            sym (ap (λ (x : Paging W). x.entry) state)
            ∙ ap
                (λ x.
                  set_entry (update s.entry x (λ _. empty_pte)) table index (pte_create x pte_u))
                same;
      }

  next_table-cases :
      (s : Paging W) (table index t : ℕ) (s' : Paging W)
      → next_table a s table index true ≡ ok (some t, s')
      → Found s table index t s' ⊎ Made s table index t s'
  unfolding next_table
  next_table-cases s table index t s' e = elim (Bool-cases (s.entry table index).valid) [
    | inl there ↦
        let e' = rw there at e in
        inl (record { leads_to = (rw there (ap some (some_of e').0), sym (some_of e').1) })
    | inr blank ↦
        inr (made s table index t s' (a.alloc_page s.world) (rw blank) refl (rw blank at e))
  ]
    where
      some_of :
          {p q : ℕ} {x y : Paging W}
          → ◌≡◌ {A = Run (Option ℕ × Paging W)} (ok (some p, x)) (ok (some q, y))
          → (p ≡ q) × (x ≡ y)
      some_of h = (cc, cc)

  -- What a table that is found or made leaves.
  pub record Grown (s s' : Paging W) (pgdir : ℕ) : Type 0 where
    pub paged : IsPaged s' pgdir
    pub same :
        (i j k : ℕ) → mapped (leads s'.entry) pgdir i j k ≡ mapped (leads s.entry) pgdir i j k

  -- The entries behind a made table, as what they lead to.
  Made-leads :
      (s : Paging W) (table index t : ℕ) (s' : Paging W)
      → Made s table index t s'
      → laws.IsValid s.world
      → (laws.Unused s.world table → ⊥)
      → leads s'.entry ≡ with_table (leads s.entry) table index t
  Made-leads s table index t s' m valid used =
      ap leads m.entries
      ∙ leads-with_table s.entry table index t (λ same.
        used (subst (laws.Unused s.world) same (laws.alloc_law s.world t s'.world valid m.given).1))

  first-Grown :
      (s : Paging W) (pgdir index t : ℕ) (s' : Paging W)
      → IsPaged s pgdir
      → next_table a s pgdir index true ≡ ok (some t, s')
      → Grown s s' pgdir × (leads s'.entry pgdir index ≡ some t)
  first-Grown s pgdir index t s' v e = elim (next_table-cases s pgdir index t s' e) [
    | inl found ↦
        subst (λ (x : Paging W). Grown s x pgdir × (leads x.entry pgdir index ≡ some t))
          (sym found.leads_to.1) (record { paged = v; same = λ i j k. refl }, found.leads_to.0)
    | inr m ↦
        let (valid', fresh, less) = laws.alloc_law s.world t s'.world v.1 m.given in
        let shape = Made-leads s pgdir index t s' m v.1 v.0.root_used in
        (
          record {
            paged = (
              subst (λ n. IsTables n pgdir (laws.Unused s'.world)) (sym shape)
                  (IsTables-first (leads s.entry) pgdir t (laws.Unused s.world)
                    (laws.Unused s'.world) v.0 fresh less index),
              valid',
            );
            same = λ i j k.
                ap (λ n. mapped n pgdir i j k) shape
                ∙ mapped-first (leads s.entry) pgdir t (laws.Unused s.world) v.0 fresh index i j k
                    m.missing;
          },
          ap (λ n. n pgdir index) shape
              ∙ with_table_self (leads s.entry) pgdir index t
                  (λ same. v.0.root_used (subst (laws.Unused s.world) same fresh)),
        )
  ]

  second-Grown :
      (s : Paging W) (pgdir i t index u : ℕ) (s' : Paging W)
      → IsPaged s pgdir
      → leads s.entry pgdir i ≡ some t
      → next_table a s t index true ≡ ok (some u, s')
      → Grown s s' pgdir × (leads s'.entry pgdir i ≡ some t) × (leads s'.entry t index ≡ some u)
  second-Grown s pgdir i t index u s' v there e = elim (next_table-cases s t index u s' e) [
    | inl found ↦
        subst
          (λ (x : Paging W).
            Grown s x pgdir × (leads x.entry pgdir i ≡ some t) × (leads x.entry t index ≡ some u))
          (sym found.leads_to.1)
          (record { paged = v; same = λ i j k. refl }, there, found.leads_to.0)
    | inr m ↦
        let (valid', fresh, less) = laws.alloc_law s.world u s'.world v.1 m.given in
        let shape = Made-leads s t index u s' m v.1 (v.0.used1 i t there) in
        (
          record {
            paged = (
              subst (λ n. IsTables n pgdir (laws.Unused s'.world)) (sym shape)
                  (IsTables-second (leads s.entry) pgdir u (laws.Unused s.world)
                    (laws.Unused s'.world) v.0 fresh less i t index there),
              valid',
            );
            same = λ i' j' k'.
                ap (λ n. mapped n pgdir i' j' k') shape
                ∙ mapped-second (leads s.entry) pgdir u (laws.Unused s.world) v.0 fresh i t index i'
                    j' k' there m.missing;
          },
          ap (λ n. n pgdir i) shape
              ∙ with_table_other (leads s.entry) t index u pgdir i t
                  (λ same. v.0.root_used (subst (laws.Unused s.world) same fresh))
                  (λ same. v.0.below1 i t there (sym same)) there,
          ap (λ n. n t index) shape
              ∙ with_table_self (leads s.entry) t index u
                  (λ same. v.0.used1 i t there (subst (laws.Unused s.world) same fresh)),
        )
  ]

  -- What `get_pte` with `create` leaves when it finds an entry.
  pub record Reached (s s' : Paging W) (pgdir la u : ℕ) : Type 0 where
    pub grown : Grown s s' pgdir
    pub middle : ℕ
    pub step1 : leads s'.entry pgdir (pdx1 la) ≡ some middle
    pub step0 : leads s'.entry middle (pdx0 la) ≡ some u

  reached :
      (s s1 : Paging W) (pgdir la u : ℕ) (s' : Paging W) (found : Option ℕ)
      → IsPaged s pgdir
      → next_table a s pgdir (pdx1 la) true ≡ ok (found, s1)
      → (elim found as (λ _. Run (Option ℕ × Paging W)) [
        | none ↦ ok (none, s1)
        | some t ↦ next_table a s1 t (pdx0 la) true
      ])
        ≡ ok (some u, s')
      → Reached s s' pgdir la u
  reached s s1 pgdir la u s' none v e f = cc
  reached s s1 pgdir la u s' (some t) v e f =
      let (grown1, step1) = first-Grown s pgdir (pdx1 la) t s1 v e in
      let (grown0, kept, step0) =
        second-Grown s1 pgdir (pdx1 la) t (pdx0 la) u s' grown1.paged step1 f in
      record {
        grown = record {
          paged = grown0.paged;
          same = λ i j k. grown0.same i j k ∙ grown1.same i j k;
        };
        middle = t;
        step1 = kept;
        step0 = step0;
      }

  pub get_pte-Reached :
      (s : Paging W) (pgdir la u : ℕ) (s' : Paging W)
      → IsPaged s pgdir
      → get_pte a s pgdir la true ≡ ok (some u, s')
      → Reached s s' pgdir la u
  unfolding get_pte
  get_pte-Reached s pgdir la u s' v e =
      let (r, e1, e2) = chain_ok (next_table a s pgdir (pdx1 la) true) _ (some u, s') e in
      reached s r.1 pgdir la u s' r.0 v e1 e2
