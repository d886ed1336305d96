-- ===== src/Paging/Tables.antt =====
-- Well-formed page tables are a tree: what an index of a table leads to, as a partial function.
use oslabcode.Prelude.{
  ℕ, ◌≡◌, ◌≢◌, sym, ◌∙◌, ◌⊎◌, inl, inr, ◌&&◌, Option, none, some, arith, ◌==◌, if◌then◌else◌,
}
use mathlib.Core.Path.{subst}

-- What the indices of the tables lead to.
abbrev pub Next : Type 0
Next = ℕ → ℕ → Option ℕ

abbrev pub follow : Next → Option ℕ → ℕ → Option ℕ
follow next none index = none
follow next (some table) index = next table index

-- The page that an address with the indices `i`, `j` and `k` is mapped to.
abbrev pub mapped : Next → (pgdir i j k : ℕ) → Option ℕ
mapped next pgdir i j k = follow next (follow next (next pgdir i) j) k

-- The tables under `pgdir` form a tree of pages in use.
pub record IsTables (next : Next) (pgdir : ℕ) (Unused : ℕ → Type 0) : Type 0 where
  pub root_used : Unused pgdir → ⊥
  pub used1 : (i t : ℕ) → next pgdir i ≡ some t → Unused t → ⊥
  pub used0 : (i t j u : ℕ) → next pgdir i ≡ some t → next t j ≡ some u → Unused u → ⊥
  pub below1 : (i t : ℕ) → next pgdir i ≡ some t → t ≢ pgdir
  pub below0 : (i t j u : ℕ) → next pgdir i ≡ some t → next t j ≡ some u → u ≢ pgdir
  pub once1 : (i i' t : ℕ) → next pgdir i ≡ some t → next pgdir i' ≡ some t → i ≡ i'
  pub apart :
      (i t i' t' j u : ℕ)
      → next pgdir i ≡ some t
      → next pgdir i' ≡ some t'
      → next t' j ≡ some u
      → u ≢ t
  pub once0 :
      (i t j i' t' j' u : ℕ)
      → next pgdir i ≡ some t
      → next t j ≡ some u
      → next pgdir i' ≡ some t'
      → next t' j' ≡ some u
      → (i ≡ i') × (j ≡ j')

-- A blank table `p` is made for the index `index` of `table`.
abbrev pub with_table : Next → (table index p : ℕ) → Next
with_table next table index p t i =
    if t == p then none else (if (t == table) && (i == index) then some p else next t i)

-- What leads somewhere afterwards led there before, or is the new table.
with_table-cases :
    (next : Next) (table index p t i u : ℕ)
    → with_table next table index p t i ≡ some u
    → ((t ≡ table) × (i ≡ index) × (u ≡ p)) ⊎ (next t i ≡ some u)
with_table-cases next table index p t i u e = ground (arith, e)

with_table_blank : (next : Next) (table index p i : ℕ) → with_table next table index p p i ≡ none
with_table_blank next table index p i = ground arith

module _ (next : Next) (pgdir p : ℕ) (Unused Unused' : ℕ → Type 0) (v : IsTables next pgdir Unused)
    (fresh : Unused p) (less : (q : ℕ) → Unused' q → Unused q × (q ≢ p)) where
  p_not_root : p ≢ pgdir
  p_not_root e = v.root_used (subst Unused e fresh)

  module _ (i0 : ℕ) where
    first : Next
    first = with_table next pgdir i0 p

    -- A way of two steps is an old one.
    first-two :
        (i t j u : ℕ)
        → first pgdir i ≡ some t
        → first t j ≡ some u
        → (next pgdir i ≡ some t) × (next t j ≡ some u)
    unfolding first
    first-two i t j u e f = elim (with_table-cases next pgdir i0 p pgdir i t e) [
      | inl (_, _, new) ↦ absurd (
          let g : none ≡ some u =
            sym (with_table_blank next pgdir i0 p j) ∙ subst (λ x. first x j ≡ some u) new f in
          cc)
      | inr old ↦ elim (with_table-cases next pgdir i0 p t j u f) [
        | inl (root, _, _) ↦ absurd (v.below1 i t old root)
        | inr old' ↦ (old, old')
      ]
    ]

    -- A table of the first level is made.
    pub IsTables-first : IsTables (with_table next pgdir i0 p) pgdir Unused'
    unfolding first
    IsTables-first = record {
      root_used = λ u. v.root_used (less pgdir u).0;
      used1 = λ i t e u. elim (with_table-cases next pgdir i0 p pgdir i t e) [
        | inl (_, _, new) ↦ absurd ((less t u).1 new)
        | inr old ↦ v.used1 i t old (less t u).0
      ];
      used0 = λ i t j u e f un.
          (let (old, old') = first-two i t j u e f in v.used0 i t j u old old' (less u un).0);
      below1 = λ i t e. elim (with_table-cases next pgdir i0 p pgdir i t e) [
        | inl (_, _, new) ↦ λ root. p_not_root (sym new ∙ root)
        | inr old ↦ v.below1 i t old
      ];
      below0 =
          λ i t j u e f. (let (old, old') = first-two i t j u e f in v.below0 i t j u old old');
      once1 = λ i i' t e e'. elim (with_table-cases next pgdir i0 p pgdir i t e) [
        | inl (_, here, new) ↦ elim (with_table-cases next pgdir i0 p pgdir i' t e') [
          | inl (_, here', _) ↦ here ∙ sym here'
          | inr old' ↦ absurd (v.used1 i' t old' (subst Unused (sym new) fresh))
        ]
        | inr old ↦ elim (with_table-cases next pgdir i0 p pgdir i' t e') [
          | inl (_, _, new) ↦ absurd (v.used1 i t old (subst Unused (sym new) fresh))
          | inr old' ↦ v.once1 i i' t old old'
        ]
      ];
      apart = λ i t i' t' j u e e' f.
          (let (old', step) = first-two i' t' j u e' f in
            elim (with_table-cases next pgdir i0 p pgdir i t e) [
              | inl (_, _, new) ↦
                  λ same. v.used0 i' t' j u old' step (subst Unused (sym (same ∙ new)) fresh)
              | inr old ↦ v.apart i t i' t' j u old old' step
            ]);
      once0 = λ i t j i' t' j' u e f e' f'.
          (let (old, step) = first-two i t j u e f in
            let (old', step') = first-two i' t' j' u e' f' in
            v.once0 i t j i' t' j' u old step old' step');
    }

  module _ (i0 t0 j0 : ℕ) (there : next pgdir i0 ≡ some t0) where
    second : Next
    second = with_table next t0 j0 p

    second-one : (i t : ℕ) → second pgdir i ≡ some t → next pgdir i ≡ some t
    unfolding second
    second-one i t e = elim (with_table-cases next t0 j0 p pgdir i t e) [
      | inl (root, _, _) ↦ absurd (v.below1 i0 t0 there (sym root))
      | inr old ↦ old
    ]

    -- A table of the second level is made.
    pub IsTables-second : IsTables (with_table next t0 j0 p) pgdir Unused'
    unfolding second
    IsTables-second = record {
      root_used = λ u. v.root_used (less pgdir u).0;
      used1 = λ i t e u. v.used1 i t (second-one i t e) (less t u).0;
      used0 = λ i t j u e f un. elim (with_table-cases next t0 j0 p t j u f) [
        | inl (_, _, new) ↦ absurd ((less u un).1 new)
        | inr old ↦ v.used0 i t j u (second-one i t e) old (less u un).0
      ];
      below1 = λ i t e. v.below1 i t (second-one i t e);
      below0 = λ i t j u e f. elim (with_table-cases next t0 j0 p t j u f) [
        | inl (_, _, new) ↦ λ root. p_not_root (sym new ∙ root)
        | inr old ↦ v.below0 i t j u (second-one i t e) old
      ];
      once1 = λ i i' t e e'. v.once1 i i' t (second-one i t e) (second-one i' t e');
      apart = λ i t i' t' j u e e' f. elim (with_table-cases next t0 j0 p t' j u f) [
        | inl (_, _, new) ↦
            λ same. v.used1 i t (second-one i t e) (subst Unused (sym new ∙ same) fresh)
        | inr old ↦ v.apart i t i' t' j u (second-one i t e) (second-one i' t' e') old
      ];
      once0 = λ i t j i' t' j' u e f e' f'. elim (with_table-cases next t0 j0 p t j u f) [
        | inl (at, here, new) ↦ elim (with_table-cases next t0 j0 p t' j' u f') [
          | inl (at', here', _) ↦ (
            v.once1 i i' t (second-one i t e)
                (subst (λ x. next pgdir i' ≡ some x) (at' ∙ sym at) (second-one i' t' e')),
            here ∙ sym here',
          )
          | inr old' ↦
              absurd (v.used0 i' t' j' u (second-one i' t' e') old' (subst Unused (sym new) fresh))
        ]
        | inr old ↦ elim (with_table-cases next t0 j0 p t' j' u f') [
          | inl (_, _, new) ↦
              absurd (v.used0 i t j u (second-one i t e) old (subst Unused (sym new) fresh))
          | inr old' ↦ v.once0 i t j i' t' j' u (second-one i t e) old (second-one i' t' e') old'
        ]
      ];
    }
