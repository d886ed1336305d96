-- ===== src/Buddy/RoundTrip.antt =====
-- An allocation by the buddy system and the release of what it gave.
use oslabcode.Prelude.{
  ℕ, zero, suc, ◌+◌, ◌-◌, ◌/◌, ◌%◌, ◌^◌, ◌≤◌, ◌<◌, ◌≡◌, ◌≢◌, refl, sym, ap, ◌∙◌, ◌⊎◌, inl, inr,
  Bool, true, false, ◌&&◌, none, some, List, ◌∷◌, arith, ltb, leb, ◌==◌, ltb→lt, Bool-cases, update,
  assert, ok, chain_ok, fun_ext,
}
use mathlib.Core.Path.{subst}
use native.Mathlib.Nat.{zero-div}
use oslabcode.Buddy.{
  Buddy, add_block, order_up, split_block, buddy_system_alloc_pages, buddy_location, buddy_block,
  clear_flags, merge_blocks, buddy_system_free_pages,
}
use oslabcode.Buddy.Valid.{IsFreeBlock, IsBuddy}
use oslabcode.Buddy.Steps.{
  split_block-Split, Cleared, clear_flags-Cleared, taken, given, Taken, find_order-Taken, pow_mono,
}
use oslabcode.Buddy.Orders.{order_up-least}
use oslabcode.Buddy.Merge.{Like, pow_pos, merge-split}

module _ (s t : Buddy) (p j : ℕ) (like : Like p (2 ^ j) s t) where
  same_location : buddy_location t p j ≡ buddy_location s p j
  unfolding buddy_location
  same_location = rw like.same_base

  upper : buddy_location s p j ≡ false → 0 < p
  unfolding buddy_location
  upper e = elim (Bool-cases (p == 0)) [
    | inl z ↦
        let z' : p ≡ 0 = ground (arith, z) in
        let f : ((0 - s.base_addr) / 2 ^ j % 2 == 0) ≡ false =
          subst (λ x. ((x - s.base_addr) / 2 ^ j % 2 == 0) ≡ false) z' e in
        let g : 0 - s.base_addr ≡ 0 = omega arith in let f' = rw (g, zero-div (2 ^ j)) at f in cc
    | inr z ↦ ground (arith, z)
  ]

  same_buddy : buddy_block t p j ≡ buddy_block s p j
  unfolding buddy_block
  same_buddy = elim (Bool-cases (buddy_location s p j)) [
    | inl l ↦ rw (
      same_location,
      l,
      like.heads (p + 2 ^ j) (inr (omega arith)),
      like.properties (p + 2 ^ j) (inr (omega arith)),
    )
    | inr l ↦
        let below : p - 2 ^ j < p = omega (arith, upper l, pow_pos j) in
        rw (
          same_location,
          l,
          like.heads (p - 2 ^ j) (inl below),
          like.properties (p - 2 ^ j) (inl below),
        )
  ]

  -- The merged block has no free buddy, so merging stops.
  merge_stops : (k : ℕ) → (0 < k → buddy_block s p j ≡ none) → merge_blocks k t p j ≡ (t, p, j)
  unfolding merge_blocks
  merge_stops zero none_free = refl
  merge_stops (suc k) none_free =
      let none_now : buddy_block t p j ≡ none = same_buddy ∙ none_free (omega arith) in
      rw (merge_blocks, none_now)

-- The free lists, their counts and the heads of free blocks are those of `s`.
abbrev pub SameFree : Buddy → Buddy → Type 0
SameFree s t =
    (t.free_list ≡ s.free_list) × (t.nr_free ≡ s.nr_free) × ((q : ℕ) → t.is_head q ≡ s.is_head q)

-- `buddy_system_free_pages` by its parts.
pub free_parts :
    (x t t' : Buddy) (n p order base j : ℕ)
    → (ltb 0 n && leb n x.max_pages) ≡ true
    → order_up n ≡ ok order
    → clear_flags n x p ≡ ok t
    → merge_blocks
        (t.max_orders - order)
        (record t { property = update t.property p n; is_head = update t.is_head p true })
        p
        order
      ≡ (t', base, j)
    → buddy_system_free_pages x p n ≡ ok (add_block t' base j)
unfolding buddy_system_free_pages
free_parts x t t' n p order base j range up cleared merged = rw (range, up, cleared, merged)

-- A block of order `j` was taken and split down to `order`, which is enough for `n` pages.
module _ (s : Buddy) (p order j n : ℕ) (rest : List ℕ) (block : IsFreeBlock s p j)
    (from : order ≤ j) (to : j < s.max_orders + 1) (some_free : 0 < s.nr_free j)
    (first : s.free_list j ≡ p ∷ rest) (fits : n ≤ 2 ^ order) where
  split : Buddy
  split = split_block (taken s j rest) p order j

  split-heads : (q : ℕ) → q < p + 2 ^ order → split.is_head q ≡ s.is_head q
  unfolding split
  split-heads q l = (split_block-Split j (taken s j rest) p order).heads q l

  pages_clear :
      (q : ℕ)
      → p ≤ q
      → q < p + n
      → ((given s p order j rest).reserved q ≡ false) × ((given s p order j rest).is_head q ≡ false)
  unfolding split
  pages_clear q lo hi =
      let le = pow_mono order j from in
      let r = (split_block-Split j (taken s j rest) p order).kept.0 in
      (
        ap (λ f. f q) r ∙ block.usable q lo (omega (arith, hi, fits, le)),
        elim (Bool-cases (p == q)) [
          | inl here ↦ ground (arith, here)
          | inr there ↦ ground (
            arith,
            there,
            split-heads q (omega (arith, hi, fits)),
            block.alone q (ground (arith, there, lo)) (omega (arith, hi, fits, le)),
          )
        ],
      )

  -- Before merging, the state is like the one behind the split.
  before : Buddy → Buddy
  before t = record t { property = update t.property p n; is_head = update t.is_head p true }

  before-Like :
      (t : Buddy) → Cleared (given s p order j rest) t → Like p (2 ^ order) split (before t)
  unfolding split before
  before-Like t c = record {
    lists = c.lists.0;
    counts = c.lists.1;
    heads = λ q out.
        off_head q
          (elim out [ inl l ↦ omega (arith, l) | inr l ↦ omega (arith, l, pow_pos order) ]);
    properties = λ q out.
        off_property q
          (elim out [ inl l ↦ omega (arith, l) | inr l ↦ omega (arith, l, pow_pos order) ]);
    inside = λ q lo hi. ground (
      arith,
      lo,
      c.heads q,
      split-heads q hi,
      block.alone q lo (omega (arith, hi, pow_mono order j from)),
    );
    same_base = c.kept.1;
  }
    where
      off_head : (q : ℕ) → p ≢ q → (before t).is_head q ≡ split.is_head q
      off_head q ne = ground (arith, ne, c.heads q)

      off_property : (q : ℕ) → p ≢ q → (before t).property q ≡ split.property q
      off_property q ne = ground (arith, ne, ap (λ f. f q) c.kept.0)

  same_buddies : buddy_block (taken s j rest) p j ≡ buddy_block s p j
  unfolding buddy_block buddy_location
  same_buddies = refl

  merged_back :
      (t : Buddy)
      → Cleared (given s p order j rest) t
      → (t' : Buddy) × (merge_blocks (s.max_orders - order) (before t) p order ≡ (t', p, j))
        × SameFree s (add_block t' p j)
  unfolding split
  merged_back t c =
      let (m, aligned) = block.aligned in
      let (t', e, like) =
        merge-split j (taken s j rest) (before t) p m order (j - order) (s.max_orders - j)
          (omega (arith, from)) aligned block.alone (before-Like t c) in
      let stop =
        merge_stops (taken s j rest) t' p j like (s.max_orders - j)
          (λ more. same_buddies ∙ block.merged (omega (arith, more))) in
      let rounds : j - order + (s.max_orders - j) ≡ s.max_orders - order =
        omega (arith, from, to) in
      (t', ap (λ k. merge_blocks k (before t) p order) (sym rounds) ∙ e ∙ stop, restored t' like)
    where
      apart : (q : ℕ) → p ≢ q → (ltb p q && ltb q (p + 2 ^ j)) ≡ false → (q < p) ⊎ (p + 2 ^ j ≤ q)
      apart q ne out = elim (Bool-cases (ltb q p)) [
        | inl l ↦ inl (ltb→lt q p l)
        | inr l ↦ inr (ground (arith, ne, out, l))
      ]

      restored : (t' : Buddy) → Like p (2 ^ j) (taken s j rest) t' → SameFree s (add_block t' p j)
      restored t' like = (
        fun_ext (λ o. ground (arith, first, ap (λ f. f o) like.lists, ap (λ f. f j) like.lists)),
        fun_ext
            (λ o. ground (arith, some_free, ap (λ f. f o) like.counts, ap (λ f. f j) like.counts)),
        λ q. elim (Bool-cases (p == q)) [
          | inl here ↦ ground (arith, here, block.headed)
          | inr there ↦ elim (Bool-cases (ltb p q && ltb q (p + 2 ^ j))) [
            | inl within ↦ ground (
              arith,
              there,
              within,
              like.inside q (ground (arith, within)) (ground (arith, within)),
              block.alone q (ground (arith, within)) (ground (arith, within)),
            )
            | inr without ↦
                ground (arith, there, like.heads q (apart q (ground (arith, there)) without))
          ]
        ],
      )

  freed :
      order_up n ≡ ok order
      → (ltb 0 n && leb n s.max_pages) ≡ true
      → (s'' : Buddy) × (buddy_system_free_pages (given s p order j rest) p n ≡ ok s'')
        × SameFree s s''
  unfolding before
  freed up range =
      let (t, cleared, c) = clear_flags-Cleared n (given s p order j rest) p pages_clear in
      let (t', merged, same) = merged_back t c in
      let kept = (split_block-Split j (taken s j rest) p order).kept in
      let orders : t.max_orders ≡ s.max_orders = c.kept.2 ∙ kept.2 in
      let pages : (ltb 0 n && leb n (given s p order j rest).max_pages) ≡ true =
        ap (λ x. ltb 0 n && leb n x) kept.3 ∙ range in
      (
        add_block t' p j,
        free_parts (given s p order j rest) t t' n p order p j pages up cleared
            (ap (λ x. merge_blocks (x - order) (before t) p order) orders ∙ merged),
        same,
      )

free-Taken :
    (s : Buddy) (n p order : ℕ) (s' : Buddy)
    → IsBuddy s
    → order_up n ≡ ok order
    → (ltb 0 n && leb n s.max_pages) ≡ true
    → n ≤ 2 ^ order
    → Taken s s' p order order (s.max_orders + 1 - order)
    → (s'' : Buddy) × (buddy_system_free_pages s' p n ≡ ok s'') × SameFree s s''
free-Taken s n p order s' v up range fits found =
    let to : found.j < s.max_orders + 1 = omega (arith, found.from, found.to) in
    subst (λ x. (s'' : Buddy) × (buddy_system_free_pages x p n ≡ ok s'') × SameFree s s'')
      found.gives
      (freed s p order found.j n found.rest (v.blocks p found.j (rw found.first (ground arith)))
        found.from to found.some_free found.first fits up range)

-- When an allocation of `n` pages gives the block `p`, freeing `p` and `n` succeeds, and the free
-- lists in their order, their counts and the heads of free blocks are as before the allocation.
pub free-alloc_pages :
    (s : Buddy) (n p : ℕ) (s' : Buddy)
    → IsBuddy s
    → buddy_system_alloc_pages s n ≡ ok (some p, s')
    → (s'' : Buddy) × (buddy_system_free_pages s' p n ≡ ok s'') × SameFree s s''
unfolding buddy_system_alloc_pages
free-alloc_pages s n p s' v e =
    let (u, asked, e1) = chain_ok (assert (ltb 0 n && leb n s.max_pages)) _ (some p, s') e in
    let range = in_range (ltb 0 n && leb n s.max_pages) asked in
    let (order, up, fits, least) =
      order_up-least n (ground (arith, range)) (ground (arith, range, v.small)) in
    free-Taken s n p order s' v up range fits
      (find_order-Taken (s.max_orders + 1 - order) s order order p s' (rw up at e1))
  where
    in_range : (b : Bool) {u : Unit {0}} → assert b ≡ ok u → b ≡ true
    in_range true e = refl
    in_range false e = cc
