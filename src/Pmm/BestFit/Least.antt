-- ===== src/Pmm/BestFit/Least.antt =====
-- The block that `best_fit_alloc_pages` takes.
use oslabcode.Prelude.{
  ℕ, zero, suc, ◌+◌, ◌≤◌, ◌<◌, ◌≡◌, ◌≢◌, refl, sym, ap, ◌∙◌, ◌⊎◌, inl, inr, false, ◌&&◌, Option,
  none, some, List, [], ◌∷◌, ◌++◌, append_assoc, append-nil, arith, ltb, ◌==◌, ltb→lt, lt→ltb,
  Bool-cases, Run, ok, length, count, count-append,
}
use mathlib.Core.Path.{subst}
use oslabcode.Links.Ring.{Seg}
use oslabcode.Pmm.{Page, Pmm, page_link, free_list, take_block, rounds}
use oslabcode.Pmm.FirstFit.{view}
use oslabcode.Pmm.Inv.{total, links_of, IsFreeList}
use oslabcode.Pmm.Alloc.{Holds, rest_view, take_block-Holds, room}
use oslabcode.Pmm.BestFit.{find_best, best_fit_alloc_pages}

-- `p` is the first of the smallest blocks of at least `n` pages among `xs`.
pub record IsLeast (pages : ℕ → Page) (n : ℕ) (xs : List ℕ) (p : ℕ) : Type 0 where
  pub before : List ℕ
  pub after : List ℕ
  pub split : xs ≡ before ++ p ∷ after
  pub fits : n ≤ (pages p).property
  pub least :
      (x : ℕ) → 0 < count x xs → n ≤ (pages x).property → (pages p).property ≤ (pages x).property
  pub first :
      (x : ℕ)
      → 0 < count x before
      → n ≤ (pages x).property
      → (pages p).property < (pages x).property

-- No block among `xs` has `n` pages.
abbrev pub AllSmall : (ℕ → Page) → ℕ → List ℕ → Type 0
AllSmall pages n xs = (x : ℕ) → 0 < count x xs → (pages x).property < n

-- What the walk has chosen among the blocks that it has seen.
abbrev Chosen : (ℕ → Page) → ℕ → List ℕ → Option ℕ → Type 0
Chosen pages n xs none = AllSmall pages n xs
Chosen pages n xs (some p) = IsLeast pages n xs p

-- The size that the walk keeps is the one of the block that it has chosen, or above all to come.
abbrev Kept : (ℕ → Page) → List ℕ → Option ℕ → ℕ → Type 0
Kept pages ys none min_size = (x : ℕ) → 0 < count x ys → (pages x).property < min_size
Kept pages ys (some p) min_size = min_size ≡ (pages p).property

module _ (pages : ℕ → Page) (n x : ℕ) (seen : List ℕ) where
  abbrev grown : List ℕ
  grown = seen ++ x ∷ []

  -- A block is among the ones seen or the new one.
  grown-cases : (y : ℕ) → 0 < count y grown → (0 < count y seen) ⊎ (y ≡ x)
  grown-cases y i = elim (Bool-cases (y == x)) [
    | inl same ↦ inr (ground (arith, same))
    | inr other ↦ inl (ground (arith, other, i, count-append y seen (x ∷ [])))
  ]

  -- A block of exactly `n` pages ends the walk.
  IsLeast-exact :
      (rest : List ℕ)
      → (pages x).property ≡ n
      → ((y : ℕ) → 0 < count y seen → (pages y).property ≢ n)
      → IsLeast pages n (seen ++ x ∷ rest) x
  IsLeast-exact rest exact other = record {
    before = seen;
    after = rest;
    split = refl;
    fits = omega (arith, exact);
    least = λ y i le. omega (arith, exact, le);
    first = λ y i le. omega (arith, exact, le, other y i);
  }

  -- A block that is smaller than the one that is kept takes its place.
  Chosen-better :
      (page : Option ℕ) (min_size : ℕ) (ys : List ℕ)
      → Chosen pages n seen page
      → Kept pages ys page min_size
      → n < (pages x).property
      → (pages x).property < min_size
      → IsLeast pages n grown x
  Chosen-better page min_size ys c kept fits less = record {
    before = seen;
    after = [];
    split = refl;
    fits = omega (arith, fits);
    least = λ y i le. elim (grown-cases y i) [
      | inl old ↦ (let h = above page min_size c kept less y old le in omega (arith, h))
      | inr same ↦ omega (arith, ap (λ z. (pages z).property) same)
    ];
    first = λ y i le. above page min_size c kept less y i le;
  }
    where
      above :
          (page : Option ℕ) (min_size : ℕ)
          → Chosen pages n seen page
          → Kept pages ys page min_size
          → (pages x).property < min_size
          → (y : ℕ) → 0 < count y seen
          → n ≤ (pages y).property
          → (pages x).property < (pages y).property
      above none min_size c kept less y i le = absurd (let h = c y i in omega (arith, h, le))
      above (some p) min_size c kept less y i le =
          let h = c.least y i le in omega (arith, h, kept, less)

  -- Else the choice stays.
  Chosen-same :
      (page : Option ℕ) (min_size : ℕ) (ys : List ℕ)
      → Chosen pages n seen page
      → Kept pages (x ∷ ys) page min_size
      → (pages x).property ≢ n
      → (ltb n (pages x).property && ltb (pages x).property min_size) ≡ false
      → Chosen pages n grown page
  Chosen-same none min_size ys c kept other worse = λ y i. elim (grown-cases y i) [
    | inl old ↦ c y old
    | inr same ↦
        let h : (pages x).property < min_size = kept x (ground arith) in
        let g : (pages x).property < n = ground (arith, h, other, worse) in
        omega (arith, ap (λ z. (pages z).property) same, g)
  ]
  Chosen-same (some p) min_size ys c kept other worse = record {
    before = c.before;
    after = c.after ++ x ∷ [];
    split = ap (λ l. l ++ x ∷ []) c.split ∙ append_assoc c.before (p ∷ c.after) (x ∷ []);
    fits = c.fits;
    least = λ y i le. elim (grown-cases y i) [
      | inl old ↦ c.least y old le
      | inr same ↦
          let same' = ap (λ z. (pages z).property) same in
          let g : n ≤ (pages x).property = omega (arith, same', le) in
          let h : min_size ≤ (pages x).property = ground (arith, g, other, worse) in
          omega (arith, same', h, kept)
    ];
    first = c.first;
  }

  others :
      ((y : ℕ) → 0 < count y seen → (pages y).property ≢ n)
      → (pages x).property ≢ n
      → (y : ℕ) → 0 < count y grown
      → (pages y).property ≢ n
  others old new y i = elim (grown-cases y i) [
    | inl o ↦ old y o
    | inr same ↦ λ e. new (sym (ap (λ z. (pages z).property) same) ∙ e)
  ]

Kept-tail :
    (pages : ℕ → Page) (x : ℕ) (ys : List ℕ) (page : Option ℕ) (min_size : ℕ)
    → Kept pages (x ∷ ys) page min_size
    → Kept pages ys page min_size
Kept-tail pages x ys none min_size kept = λ y i. kept y (omega (arith, i))
Kept-tail pages x ys (some p) min_size kept = kept

find_best-Chosen :
    (m : Pmm) (n k le : ℕ) (seen ys : List ℕ) (page : Option ℕ) (min_size : ℕ)
    → Seg m.links le (links_of ys) free_list
    → length ys < k
    → Chosen m.pages n seen page
    → Kept m.pages ys page min_size
    → ((y : ℕ) → 0 < count y seen → (m.pages y).property ≢ n)
    → (r : Option ℕ) × (find_best k m n le page min_size ≡ ok r) × Chosen m.pages n (seen ++ ys) r
unfolding find_best
find_best-Chosen m n zero le seen ys page min_size s fuel c kept other =
    absurd (omega (arith, fuel))
find_best-Chosen m n (suc k) le seen [] page min_size s fuel c kept other =
    (page, ground (arith, s), subst (λ l. Chosen m.pages n l page) (sym (append-nil seen)) c)
find_best-Chosen m n (suc k) le seen (x ∷ ys) page min_size s fuel c kept other =
    elim (Bool-cases ((m.pages x).property == n)) [
      | inl exact ↦ (
        some x,
        ground (arith, s, exact),
        IsLeast-exact m.pages n x seen ys (ground (arith, exact)) other,
      )
      | inr differs ↦
          let ne : (m.pages x).property ≢ n = ground (arith, differs) in
          let next = append_assoc seen (x ∷ []) ys in
          elim (Bool-cases (ltb n (m.pages x).property && ltb (m.pages x).property min_size)) [
            | inl better ↦
                let (r, e, d) =
                  find_best-Chosen m n k (page_link x) (seen ++ x ∷ []) ys (some x)
                    (m.pages x).property s.2 (omega (arith, fuel))
                    (Chosen-better m.pages n x seen page min_size (x ∷ ys) c kept
                      (ground (arith, better)) (ground (arith, better)))
                    refl (others m.pages n x seen other ne) in
                (r, ground (arith, s, differs, better, e), subst (λ l. Chosen m.pages n l r) next d)
            | inr worse ↦
                let (r, e, d) =
                  find_best-Chosen m n k (page_link x) (seen ++ x ∷ []) ys page min_size s.2
                    (omega (arith, fuel))
                    (Chosen-same m.pages n x seen page min_size ys c kept ne worse)
                    (Kept-tail m.pages x ys page min_size kept)
                    (others m.pages n x seen other ne) in
                (r, ground (arith, s, differs, worse, e), subst (λ l. Chosen m.pages n l r) next d)
          ]
    ]

total-count :
    (pages : ℕ → Page) (xs : List ℕ) (x : ℕ) → 0 < count x xs → (pages x).property ≤ total pages xs
total-count pages [] x i = absurd (omega (arith, i))
total-count pages (y ∷ ys) x i = elim (Bool-cases (x == y)) [
  | inl same ↦
      (let e : x ≡ y = ground (arith, same) in omega (arith, ap (λ z. (pages z).property) e))
  | inr other ↦ (let h = total-count pages ys x (ground (arith, other, i)) in omega (arith, h))
]

-- What best fit does on the blocks `xs`: it gives the first of the smallest that are large enough
-- and leaves the rest of it in its place, or finds that all are too small.
abbrev pub BestFits : (m : Pmm) (n : ℕ) (xs : List ℕ) → Run (Option ℕ × Pmm) → Type 0
BestFits m n xs result =
    ((result ≡ ok (none, m)) × AllSmall m.pages n xs)
    ⊎ ((p : ℕ) × (m' : Pmm) × (c : IsLeast m.pages n xs p) × (result ≡ ok (some p, m'))
        × Holds m' (view m.pages c.before ++ (rest_view m.pages n p ++ view m.pages c.after)))

module _ (m : Pmm) (n : ℕ) (xs : List ℕ) (free : IsFreeList m xs) (pos : 0 < n) where
  answers :
      (r : Option ℕ)
      → ltb m.nr_free n ≡ false
      → find_best (rounds m) m n free_list none (m.nr_free + 1) ≡ ok r
      → Chosen m.pages n xs r
      → BestFits m n xs (best_fit_alloc_pages m n)
  unfolding best_fit_alloc_pages
  answers none enough e c = inl (rw (lt→ltb 0 n pos, enough, e), c)
  answers (some p) enough e c = inr (
    p,
    take_block m p n,
    c,
    rw (lt→ltb 0 n pos, enough, e),
    take_block-Holds m n p c.before c.after (rw c.split at free) pos c.fits,
  )

  -- On a well-formed free list `best_fit_alloc_pages` with n > 0 does not fail. It gives the first
  -- of the smallest blocks of at least n pages and leaves a well-formed free list, in which the
  -- rest of the block stands in its place, or it gives none and changes nothing, and every block
  -- is smaller than n.
  pub best_fit_alloc_pages-IsLeast : BestFits m n xs (best_fit_alloc_pages m n)
  unfolding best_fit_alloc_pages
  best_fit_alloc_pages-IsLeast = elim (Bool-cases (ltb m.nr_free n)) [
    | inl short ↦ inl (
      rw (lt→ltb 0 n pos, short),
      λ x i.
          (let h = total-count m.pages xs x i in
            omega (arith, h, free.counted, ltb→lt m.nr_free n short)),
    )
    | inr enough ↦
        let (r, e, c) =
          find_best-Chosen m n (rounds m) free_list [] xs none (m.nr_free + 1) free.ring.chain
            (room m n xs free pos) (λ y i. absurd (omega (arith, i)))
            (λ x i. (let h = total-count m.pages xs x i in omega (arith, h, free.counted)))
            (λ y i. absurd (omega (arith, i))) in
        answers r enough e c
  ]
