-- ===== src/Buddy/Join.antt =====
-- Joining a held block with its buddy.
use oslabcode.Prelude.{
  ℕ, ◌+◌, ◌-◌, ◌*◌, ◌^◌, ◌≤◌, ◌<◌, ◌≡◌, ◌≢◌, refl, sym, ap, ◌⊎◌, inl, inr, true, false, List, [],
  ◌∷◌, arith, ltb, leb, ◌==◌, if◌then◌else◌, Bool-cases, update, length, count,
}
use mathlib.Core.Path.{subst}
use oslabcode.Buddy.{Buddy, unlink}
use oslabcode.Buddy.Merge.{pow_pos}
use oslabcode.Buddy.Valid.{IsFreeBlock, IsBuddy}
use oslabcode.Buddy.Held.{IsHeld}
use oslabcode.Buddy.Alloc.{buddy_block-fewer}

abbrev one_if : ℕ → ℕ → ℕ
one_if a b = if a == b then 1 else 0

count-unlink :
    (p q : ℕ) (l : List ℕ) → 0 < count p l → count q (unlink p l) + one_if q p ≡ count q l
count-unlink p q [] i = absurd (omega (arith, i))
count-unlink p q (x ∷ xs) i = elim (Bool-cases (p == x)) [
  | inl here ↦ ground (arith, here)
  | inr there ↦ ground (arith, there, count-unlink p q xs (ground (arith, there, i)))
]

length-unlink : (p : ℕ) (l : List ℕ) → 0 < count p l → length (unlink p l) + 1 ≡ length l
length-unlink p [] i = absurd (omega (arith, i))
length-unlink p (x ∷ xs) i = elim (Bool-cases (p == x)) [
  | inl here ↦ ground (arith, here)
  | inr there ↦ ground (arith, there, length-unlink p xs (ground (arith, there, i)))
]

-- A free block leaves its list and is no head any more.
abbrev pub dropped : Buddy → (page order : ℕ) → Buddy
dropped s page order = record s {
  free_list = update s.free_list order (unlink page (s.free_list order));
  nr_free = update s.nr_free order (s.nr_free order - 1);
  is_head = update s.is_head page false;
}

module _ (s : Buddy) (b order page : ℕ) (held : IsHeld s b order)
    (i : 0 < count page (s.free_list order)) where
  abbrev after : Buddy
  after = dropped s page order

  half : IsFreeBlock s page order
  half = held.valid.blocks page order i

  was_listed :
      (q o : ℕ) → 0 < count q (after.free_list o) → (0 < count q (s.free_list o)) × (page ≢ q)
  was_listed q o h = elim (Bool-cases (order == o)) [
    | inl here ↦
        let e : order ≡ o = ground (arith, here) in
        let h' = rw here at h in
        let c = count-unlink page q (s.free_list order) i in
        (
          subst (λ x. 0 < count q (s.free_list x)) e (omega (arith, h', c)),
          λ same. ground (arith, h', c, same, held.valid.distinct order q),
        )
    | inr there ↦
        let h' = rw there at h in
        (
          h',
          λ same.
              (let z = (held.valid.blocks q o h').sized in
                let z' = half.sized in ground (arith, there, same, z, z', ap s.property same)),
        )
  ]

  after-IsFreeBlock : (q o : ℕ) → 0 < count q (after.free_list o) → IsFreeBlock after q o
  after-IsFreeBlock q o h =
      let (listed, ne) = was_listed q o h in
      let f = held.valid.blocks q o listed in
      record {
        aligned = f.aligned;
        headed = ground (arith, f.headed, ne);
        sized = f.sized;
        alone = λ x lo hi. ground (arith, f.alone x lo hi);
        usable = f.usable;
        merged =
            λ more. buddy_block-fewer s after refl (λ x o h. ground (arith, h)) q o (f.merged more);
      }

  listed_after :
      (q o : ℕ) → after.is_head q ≡ true → after.property q ≡ o → 0 < count q (after.free_list o)
  listed_after q o h z =
      let ne : page ≢ q = ground (arith, h) in
      let j = held.valid.listed q o (ground (arith, h, ne)) z in
      elim (Bool-cases (order == o)) [
        | inl here ↦
            let e : order ≡ o = ground (arith, here) in
            let j' = subst (λ x. 0 < count q (s.free_list x)) (sym e) j in
            ground (arith, here, j', ne, count-unlink page q (s.free_list order) i)
        | inr there ↦ ground (arith, there, j)
      ]

  after-IsBuddy : IsBuddy after
  after-IsBuddy = record {
    blocks = after-IsFreeBlock;
    distinct = λ o a. ground (
      arith,
      held.valid.distinct o a,
      held.valid.distinct order a,
      count-unlink page a (s.free_list order) i,
    );
    counted = λ o. ground (
      arith,
      held.valid.counted o,
      held.valid.counted order,
      length-unlink page (s.free_list order) i,
    );
    listed = listed_after;
    small = held.valid.small;
  }

  -- Free blocks lie on one side of the block that left its list.
  beside : (q o : ℕ) → 0 < count q (after.free_list o) → (q + 2 ^ o ≤ page) ⊎ (page + 2 ^ order ≤ q)
  beside q o h =
      let (listed, ne) = was_listed q o h in
      let f = held.valid.blocks q o listed in
      elim (Bool-cases (ltb q page)) [
        | inl low ↦ elim (Bool-cases (leb (q + 2 ^ o) page)) [
          | inl l ↦ inl (ground (arith, l))
          | inr l ↦ absurd (
              let g = f.alone page (ground (arith, low)) (ground (arith, l)) in
              let g' = half.headed in cc)
        ]
        | inr high ↦ elim (Bool-cases (leb (page + 2 ^ order) q)) [
          | inl l ↦ inr (ground (arith, l))
          | inr l ↦ absurd (
              let g = half.alone q (ground (arith, high, ne)) (ground (arith, l)) in
              let g' = f.headed in cc)
        ]
      ]

  -- The two halves are `low` and the block behind it.
  module _ (low m : ℕ) (block : low ≡ s.base_addr + m * 2 ^ (order + 1))
      (twice : 2 ^ (order + 1) ≡ 2 ^ order * 2)
      (sides : ((low ≡ b) × (page ≡ low + 2 ^ order))
        ⊎ ((low ≡ page) × (b ≡ low + 2 ^ order))) where
    within :
        (q : ℕ)
        → low ≤ q
        → q < low + 2 ^ (order + 1)
        → ((b ≤ q) × (q < b + 2 ^ order)) ⊎ ((page ≤ q) × (q < page + 2 ^ order))
    within q lo hi = elim sides [
      | inl (e, f) ↦ elim (Bool-cases (ltb q page)) [
        | inl l ↦ inl (omega (arith, e, lo), ground (arith, e, f, l))
        | inr l ↦ inr (ground (arith, l), omega (arith, f, hi, twice))
      ]
      | inr (e, f) ↦ elim (Bool-cases (ltb q b)) [
        | inl l ↦ inr (omega (arith, e, lo), ground (arith, e, f, l))
        | inr l ↦ inl (ground (arith, l), omega (arith, f, hi, twice))
      ]
    ]

    pub dropped-IsHeld : IsHeld after low (order + 1)
    dropped-IsHeld = record {
      valid = after-IsBuddy;
      at = (m, block);
      away = λ q o h.
          (let (listed, ne) = was_listed q o h in both q o (held.away q o listed) (beside q o h));
      clear = λ q lo hi. elim (within q lo hi) [
        | inl (l, r) ↦ ground (arith, held.clear q l r)
        | inr (l, r) ↦ elim (Bool-cases (page == q)) [
          | inl here ↦ ground (arith, here)
          | inr there ↦ ground (arith, there, half.alone q (ground (arith, there, l)) r)
        ]
      ];
      usable = λ q lo hi. elim (within q lo hi) [
        | inl (l, r) ↦ held.usable q l r
        | inr (l, r) ↦ half.usable q l r
      ];
    }
      where
        both :
            (q o : ℕ)
            → (q + 2 ^ o ≤ b) ⊎ (b + 2 ^ order ≤ q)
            → (q + 2 ^ o ≤ page) ⊎ (page + 2 ^ order ≤ q)
            → (q + 2 ^ o ≤ low) ⊎ (low + 2 ^ (order + 1) ≤ q)
        both q o x y = elim (Bool-cases (leb (q + 2 ^ o) low)) [
          | inl l ↦ inl (ground (arith, l))
          | inr l ↦ inr (omega (arith, above q o x y (ground (arith, l)), twice))
        ]
          where
            above :
                (q o : ℕ)
                → (q + 2 ^ o ≤ b) ⊎ (b + 2 ^ order ≤ q)
                → (q + 2 ^ o ≤ page) ⊎ (page + 2 ^ order ≤ q)
                → low < q + 2 ^ o
                → low + 2 ^ order * 2 ≤ q
            above q o x y l = ground (arith, x, y, l, sides, pow_pos o, pow_pos order)
