-- ===== src/Paging/Leads.antt =====
-- What the entries of page tables lead to, and the mapping when a table or a page is added.
use oslabcode.Prelude.{
  ℕ, ◌≡◌, ◌≢◌, sym, inl, inr, ◌&&◌, none, some, arith, ◌==◌, if◌then◌else◌, Option-cases, update,
  ok, fun_ext,
}
use mathlib.Core.Path.{subst}
use oslabcode.Paging.{Pte, empty_pte, PageAlloc, set_entry, pte_create, pte_u}
use oslabcode.Paging.Tables.{Next, mapped, IsTables, with_table}

-- What the entries of a table lead to.
abbrev pub leads : (ℕ → ℕ → Pte) → Next
leads entry table index = if (entry table index).valid then some (entry table index).ppn else none

-- In a valid state the allocator gives a page that is unused, and leaves a valid state in which the
-- page is used and no other page is unused that was not before.
pub record AllocLaws {W : Type 0} (a : PageAlloc W) : Type 1 where
  pub IsValid : W → Type 0
  pub Unused : W → ℕ → Type 0
  pub alloc_law :
      (w : W) (p : ℕ) (w' : W)
      → IsValid w
      → a.alloc_page w ≡ ok (some p, w')
      → IsValid w' × Unused w p × ((q : ℕ) → Unused w' q → Unused w q × (q ≢ p))

-- A blank table in the entries is a blank table in what they lead to.
pub leads-with_table :
    (entry : ℕ → ℕ → Pte) (table index p : ℕ)
    → p ≢ table
    → leads (set_entry (update entry p (λ _. empty_pte)) table index (pte_create p pte_u))
      ≡ with_table (leads entry) table index p
leads-with_table entry table index p ne = fun_ext (λ t. fun_ext (λ i. ground (arith, ne)))

pub with_table_self :
    (next : Next) (table index p : ℕ)
    → p ≢ table
    → with_table next table index p table index ≡ some p
with_table_self next table index p ne = ground (arith, ne)

pub with_table_other :
    (next : Next) (table index p t i u : ℕ)
    → p ≢ t
    → t ≢ table
    → next t i ≡ some u
    → with_table next table index p t i ≡ some u
with_table_other next table index p t i u ne ne' e = ground (arith, ne, ne', e)

-- An entry of a table is filled.
abbrev pub with_leaf : Next → (table index page : ℕ) → Next
with_leaf next table index page t i = if (t == table) && (i == index) then some page else next t i

module _ (next : Next) (pgdir p : ℕ) (Unused : ℕ → Type 0) (v : IsTables next pgdir Unused)
    (fresh : Unused p) where
  not_root : p ≢ pgdir
  not_root e = v.root_used (subst Unused e fresh)

  not_first : (i t : ℕ) → next pgdir i ≡ some t → t ≢ p
  not_first i t e same = v.used1 i t e (subst Unused (sym same) fresh)

  not_second : (i t j u : ℕ) → next pgdir i ≡ some t → next t j ≡ some u → u ≢ p
  not_second i t j u e f same = v.used0 i t j u e f (subst Unused (sym same) fresh)

  -- A new table maps no address.
  pub mapped-first :
      (i0 i j k : ℕ)
      → next pgdir i0 ≡ none
      → mapped (with_table next pgdir i0 p) pgdir i j k ≡ mapped next pgdir i j k
  mapped-first i0 i j k none_there = elim (Option-cases (next pgdir i)) [
    | inl e ↦ ground (arith, not_root, e)
    | inr (t, e) ↦ elim (Option-cases (next t j)) [
      | inl f ↦ ground (arith, not_root, not_first i t e, v.below1 i t e, e, f, none_there)
      | inr (u, f) ↦ ground (
        arith,
        not_root,
        not_first i t e,
        not_second i t j u e f,
        v.below1 i t e,
        v.below0 i t j u e f,
        e,
        f,
        none_there,
      )
    ]
  ]

  pub mapped-second :
      (i0 t0 j0 i j k : ℕ)
      → next pgdir i0 ≡ some t0
      → next t0 j0 ≡ none
      → mapped (with_table next t0 j0 p) pgdir i j k ≡ mapped next pgdir i j k
  mapped-second i0 t0 j0 i j k there none_there = elim (Option-cases (next pgdir i)) [
    | inl e ↦ ground (arith, not_root, e, v.below1 i0 t0 there)
    | inr (t, e) ↦ elim (Option-cases (next t j)) [
      | inl f ↦
          ground (
            arith,
            not_root,
            not_first i t e,
            v.below1 i t e,
            v.below1 i0 t0 there,
            e,
            f,
            none_there,
          )
      | inr (u, f) ↦ ground (
        arith,
        not_root,
        not_first i t e,
        not_second i t j u e f,
        v.below1 i0 t0 there,
        v.apart i0 t0 i t j u there e f,
        e,
        f,
        none_there,
      )
    ]
  ]

module _ (next : Next) (pgdir : ℕ) (Unused : ℕ → Type 0) (v : IsTables next pgdir Unused) where
  pub mapped-leaf :
      (i0 t0 j0 u0 k0 page i j k : ℕ)
      → next pgdir i0 ≡ some t0
      → next t0 j0 ≡ some u0
      → mapped (with_leaf next u0 k0 page) pgdir i j k
        ≡ (if (i == i0) && ((j == j0) && (k == k0)) then some page else mapped next pgdir i j k)
  mapped-leaf i0 t0 j0 u0 k0 page i j k e f = elim (Option-cases (next pgdir i)) [
    | inl n ↦ ground (arith, v.below0 i0 t0 j0 u0 e f, e, f, n)
    | inr (t, n) ↦ elim (Option-cases (next t j)) [
      | inl m ↦ ground (arith, v.below0 i0 t0 j0 u0 e f, v.apart i t i0 t0 j0 u0 n e f, e, f, n, m)
      | inr (u, m) ↦ ground (
        arith,
        v.below0 i0 t0 j0 u0 e f,
        v.apart i t i0 t0 j0 u0 n e f,
        v.once0 i0 t0 j0 i t j u0 e f n,
        e,
        f,
        n,
        m,
      )
    ]
  ]
