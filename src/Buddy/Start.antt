-- ===== src/Buddy/Start.antt =====
-- The buddy system behind `buddy_system_init` and `buddy_system_init_memmap`.
use oslabcode.Prelude.{
  ℕ, zero, suc, ◌+◌, ◌%◌, ◌^◌, ◌≤◌, ◌<◌, ◌≡◌, refl, sym, ap, ◌∙◌, inl, inr, true, false, [], arith,
  ◌==◌, Bool-cases, update, ok, count, leb,
}
use mathlib.Core.Path.{subst}
use native.Mathlib.Nat.{zero-mul, one-mul}
use oslabcode.Buddy.{
  Buddy, max_order, add_block, buddy_system_init, reset_pages, buddy_system_init_memmap,
  buddy_system_nr_free_pages, free_below,
}
use oslabcode.Buddy.Orders.{order_down-greatest, pow_le}
use oslabcode.Buddy.Valid.{IsFreeBlock, IsBuddy}

-- What the loop over the pages leaves.
record Reset (s t : Buddy) (p k : ℕ) : Type 0 where
  lists : (t.free_list ≡ s.free_list) × (t.nr_free ≡ s.nr_free)
  within : (q : ℕ) → p ≤ q → q < p + k → (t.is_head q ≡ false) × (t.reserved q ≡ false)
  before : (q : ℕ) → q < p → (t.is_head q ≡ s.is_head q) × (t.reserved q ≡ s.reserved q)
  still : (q : ℕ) → s.is_head q ≡ false → t.is_head q ≡ false

reset_pages-Reset :
    (k : ℕ) (s : Buddy) (p : ℕ)
    → ((q : ℕ) → p ≤ q → q < p + k → s.reserved q ≡ true)
    → (t : Buddy) × (reset_pages k s p ≡ ok t) × Reset s t p k
unfolding reset_pages
reset_pages-Reset zero s p h = (
  s,
  refl,
  record {
    lists = (refl, refl);
    within = λ q lo hi. absurd (omega (arith, lo, hi));
    before = λ q l. (refl, refl);
    still = λ q o. o;
  },
)
reset_pages-Reset (suc k) s p h =
    let s1 = record s {
      reserved = update s.reserved p false;
      is_head = update s.is_head p false;
      property = update s.property p 0;
      ref = update s.ref p 0;
    } in
    let (t, e, r) =
      reset_pages-Reset k s1 (p + 1)
        (λ q lo hi. ground (arith, lo, h q (omega (arith, lo)) (omega (arith, hi)))) in
    (
      t,
      rw (h p (omega arith) (omega arith)) e,
      record {
        lists = r.lists;
        within = λ q lo hi. elim (Bool-cases (p == q)) [
          | inl here ↦
              let (a, b) = r.before q (ground (arith, here)) in
              (a ∙ ground (arith, here), b ∙ ground (arith, here))
          | inr there ↦ r.within q (ground (arith, lo, there)) (omega (arith, hi))
        ];
        before = λ q l.
            (let (a, b) = r.before q (omega (arith, l)) in
              (a ∙ ground (arith, l), b ∙ ground (arith, l)));
        still = λ q o. r.still q (ground (arith, o));
      },
    )

-- `free_below` of counts that are 0.
free_below-zero :
    (s : Buddy) (k : ℕ) → ((order : ℕ) → order < k → s.nr_free order ≡ 0) → free_below s k ≡ 0
free_below-zero s zero none_free = refl
free_below-zero s (suc k) none_free =
    rw (free_below-zero s k (λ o l. none_free o (omega (arith, l))), none_free k (omega arith))
      (omega (arith, zero-mul (2 ^ k)))

-- A block put on free lists that are empty.
module _ (t : Buddy) (base n order : ℕ) (empty : (o : ℕ) → t.free_list o ≡ [])
    (none_free : (o : ℕ) → t.nr_free o ≡ 0) (fits : 2 ^ order ≤ n) (in_u32 : 2 ^ order < 2 ^ 32)
    (orders : t.max_orders ≡ order) (at_base : t.base_addr ≡ base) (small : t.max_pages ≤ 2 ^ 63)
    (headless : (q : ℕ) → t.is_head q ≡ false)
    (clear : (q : ℕ)
      → base ≤ q
      → q < base + n
      → (t.is_head q ≡ false) × (t.reserved q ≡ false)) where
  only_block :
      (p o : ℕ) → 0 < count p ((add_block t base order).free_list o) → (p ≡ base) × (o ≡ order)
  only_block p o h = ground (arith, h, empty o, empty order)

  the_block : IsFreeBlock (add_block t base order) base order
  the_block = record {
    aligned = (0, omega (arith, at_base, zero-mul (2 ^ order)));
    headed = ground arith;
    sized = ground arith;
    alone =
        λ q lo hi. ground (arith, lo, (clear q (omega (arith, lo)) (omega (arith, hi, fits))).0);
    usable = λ q lo hi. (clear q lo (omega (arith, hi, fits))).1;
    merged = λ more. absurd (omega (arith, more, orders));
  }

  started : IsBuddy (add_block t base order)
  started = record {
    blocks = λ p o h.
        (let (a, b) = only_block p o h in
          subst (λ x. IsFreeBlock (add_block t base order) x o) (sym a)
            (subst (λ x. IsFreeBlock (add_block t base order) base x) (sym b) the_block));
    distinct = λ o a. ground (arith, empty o, empty order);
    counted = λ o. ground (arith, empty o, empty order, none_free o, none_free order);
    listed = λ q o h z. ground (arith, h, z, headless q);
    small = small;
  }

  one_free : buddy_system_nr_free_pages (add_block t base order) ≡ 2 ^ order
  unfolding buddy_system_nr_free_pages
  one_free =
      let s = add_block t base order in
      let step : t.max_orders + 1 ≡ suc order = omega (arith, orders) in
      let here : s.nr_free order ≡ 1 = ground (arith, none_free order) in
      let below : free_below s order ≡ 0 =
        free_below-zero s order (λ o l. ground (arith, l, none_free o)) in
      ap (free_below s) step ∙ rw (below, here) (ground (arith, in_u32, one-mul (2 ^ order)))

-- An order whose block has fewer than 2 ^ 16 pages has a list.
in_area : (order n : ℕ) → 2 ^ order ≤ n → n < 2 ^ 16 → order ≤ max_order
in_area order n le lt = elim (Bool-cases (leb order max_order)) [
  | inl low ↦ ground arith
  | inr high ↦
      let more : 2 ^ 16 ≤ 2 ^ order = pow_le 16 order (ground (arith, high)) in
      absurd (omega (arith, more, le, lt))
]

-- When no page has PG_property, and no list but those of the orders up to MAX_ORDER holds a block,
-- initialising the buddy system and giving it the `n` reserved pages from `base` on, where 0 < n and
-- n < 2 ^ 16, succeeds and leaves well-formed free lists. The number of free pages is the power of
-- two of the largest order, at most MAX_ORDER, whose power is at most `n`.
pub init_memmap-IsBuddy :
    (s : Buddy) (base n : ℕ)
    → 0 < n
    → n < 2 ^ 16
    → ((q : ℕ) → base ≤ q → q < base + n → s.reserved q ≡ true)
    → ((q : ℕ) → s.is_head q ≡ false)
    → ((o : ℕ) → max_order < o → (s.free_list o ≡ []) × (s.nr_free o ≡ 0))
    → (s' : Buddy) × (order : ℕ) × (buddy_system_init_memmap (buddy_system_init s) base n ≡ ok s')
      × IsBuddy s'
      × (order ≤ max_order)
      × (s'.max_orders ≡ order)
      × (buddy_system_nr_free_pages s' ≡ 2 ^ order)
      × (2 ^ order ≤ n)
      × (n < 2 ^ (order + 1))
unfolding buddy_system_init_memmap buddy_system_init
init_memmap-IsBuddy s base n pos small h heads outside =
    let (t, e, r) = reset_pages-Reset n (buddy_system_init s) base h in
    let (order, o, le, gt) = order_down-greatest n pos (omega (arith, small)) in
    let listed = in_area order n le small in
    let in_u32 : 2 ^ order < 2 ^ 32 = omega (arith, le, small) in
    let t1 = record t { max_orders = order; max_pages = 2 ^ order % 2 ^ 32; base_addr = base } in
    let not_zero : (n == 0) ≡ false = ground (arith, pos) in
    let low : leb order max_order ≡ true = ground (arith, listed) in
    let empty : (q : ℕ) → t.free_list q ≡ [] =
      λ q. ap (λ f. f q) r.lists.0 ∙ ground (arith, outside q) in
    let none_free : (q : ℕ) → t.nr_free q ≡ 0 =
      λ q. ap (λ f. f q) r.lists.1 ∙ ground (arith, outside q) in
    (
      add_block t1 base order,
      order,
      rw (not_zero, e, o, low),
      started t1 base n order empty none_free le in_u32 refl refl (omega (arith, in_u32))
          (λ q. r.still q (heads q)) r.within,
      listed,
      refl,
      one_free t1 base n order empty none_free le in_u32 refl refl (omega (arith, in_u32))
          (λ q. r.still q (heads q)) r.within,
      le,
      gt,
    )
