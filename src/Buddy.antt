-- ===== src/Buddy.antt =====
-- The buddy system of labcode/lab2/kern/mm/buddy_system_pmm.c. A page is its number; addresses
-- count pages. A free list is the list of its blocks' first pages from the head on.
pub mod Alloc
pub mod Finish
pub mod Held
pub mod Join
pub mod Merge
pub mod Orders
pub mod Release
pub mod RoundTrip
pub mod Start
pub mod Steps
pub mod Total
pub mod Valid
use oslabcode.Prelude.{
  ℕ, zero, suc, ◌+◌, ◌-◌, ◌*◌, ◌/◌, ◌%◌, ◌^◌, ◌≤◌, ◌<◌, ◌≡◌, ◌≢◌, refl, sym, ap, ◌∙◌, ◌↔◌, ◌⊎◌, inl,
  inr, Bool, true, false, not, ◌&&◌, ◌||◌, Option, none, some, List, [], ◌∷◌, ◌++◌, map,
  append_assoc, append-nil, arith, ltb, leb, ◌==◌, if◌then◌else◌, ltb→lt, lt→ltb, le→ltb, ==_iff,
  Bool-cases, Option-cases, update, ◌>>=◌, ◌>>◌, assert, Run, ok, panic, out_of_fuel, length,
  chain_ok, e_inval, e_no_mem, e_busy, e_max_open, count, count-append, Distinct, fun_ext, min,
}

-- `free_area` by its orders, the pages with PG_property and PG_reserved, the fields `property` and
-- `ref` of the pages, BASE_ADDR, MAX_ORDERS and MAX_PAGES.
pub record Buddy : Type 0 where
  pub free_list : ℕ → List ℕ
  pub nr_free : ℕ → ℕ
  pub is_head : ℕ → Bool
  pub reserved : ℕ → Bool
  pub property : ℕ → ℕ
  pub ref : ℕ → ℕ
  pub base_addr : ℕ
  pub max_orders : ℕ
  pub max_pages : ℕ

-- `unlink` of a page from the list that it is on.
abbrev pub unlink : ℕ → List ℕ → List ℕ
unlink p [] = []
unlink p (q ∷ qs) = if p == q then qs else q ∷ unlink p qs

-- The loop of `order_down`.
unfoldable pub halvings : (fuel : ℕ) → (n : ℕ) → Run ℕ
halvings zero n = out_of_fuel
halvings (suc k) n =
    let rest = halvings k (n / 2) in if n / 2 == 0 then ok 0 else (do r ← rest; ok (r + 1))

unfoldable pub order_down : ℕ → Run ℕ
unfolding halvings
order_down n = if n == 0 then ok 0 else halvings 64 n

-- The loop of `order_up`, with `size` in 64 bits.
unfoldable pub doublings : (fuel : ℕ) → (n size order : ℕ) → Run ℕ
doublings zero n size order = out_of_fuel
doublings (suc k) n size order =
    let rest = doublings k n ((size * 2) % 2 ^ 64) (order + 1) in
    if ltb size n then rest else ok order

unfoldable pub order_up : ℕ → Run ℕ
unfolding doublings
order_up n = if n == 0 then ok 0 else doublings 64 n 1 0

-- `MAX_ORDER`: `free_area` has a list for each order up to it.
abbrev pub max_order : ℕ
max_order = 15

-- `buddy_system_init`
unfoldable pub buddy_system_init : Buddy → Buddy
buddy_system_init s = record s {
  free_list = λ o. if leb o max_order then [] else s.free_list o;
  nr_free = λ o. if leb o max_order then 0 else s.nr_free o;
}

-- The block from `p` on becomes a free block of an order: the statements that put it on its list.
abbrev pub add_block : Buddy → (p order : ℕ) → Buddy
add_block s p order = record s {
  property = update s.property p order;
  is_head = update s.is_head p true;
  free_list = update s.free_list order (p ∷ s.free_list order);
  nr_free = update s.nr_free order (s.nr_free order + 1);
}

-- The loop of `buddy_system_init_memmap` over the pages.
unfoldable pub reset_pages : (left : ℕ) → Buddy → (p : ℕ) → Run Buddy
reset_pages zero s p = ok s
reset_pages (suc k) s p = do
  assert (s.reserved p)
  reset_pages k
      (record s {
        reserved = update s.reserved p false;
        is_head = update s.is_head p false;
        property = update s.property p 0;
        ref = update s.ref p 0;
      })
      (p + 1)

-- An order above `MAX_ORDER`, which has no list, is a panic.
unfoldable pub buddy_system_init_memmap : Buddy → (base n : ℕ) → Run Buddy
unfolding reset_pages
buddy_system_init_memmap s base n = do
  assert (not (n == 0))
  s1 ← reset_pages n s base
  order ← order_down n
  assert (leb order max_order)
  ok (
      add_block (record s1 { max_orders = order; max_pages = 2 ^ order % 2 ^ 32; base_addr = base })
        base order)

-- The loop of `buddy_system_alloc_pages` that halves a block down to `order`.
unfoldable pub split_block : Buddy → (p order cur_order : ℕ) → Buddy
split_block s p order zero = s
split_block s p order (suc c) =
    let rest = split_block (add_block s (p + 2 ^ c) c) p order c in
    if ltb order (suc c) then rest else s

-- The body of the loop over the orders on a list of free blocks that is not empty.
unfoldable pub give_block : Buddy → (order i : ℕ) → List ℕ → Run (Option ℕ × Buddy)
unfolding split_block
give_block s order i [] = panic
give_block s order i (p ∷ rest) =
    let taken = record s {
      free_list = update s.free_list i rest;
      nr_free = update s.nr_free i (s.nr_free i - 1);
    } in
    let s1 = split_block taken p order i in
    ok (
      some p,
      record s1 {
        property = update s1.property p (2 ^ order);
        is_head = update s1.is_head p false;
      },
    )

-- The loop over the orders from `i` on, `left` of which are left. That a count is above 0 and the
-- list empty is no state of the code: it ends in `panic`.
unfoldable pub find_order : (left : ℕ) → Buddy → (order i : ℕ) → Run (Option ℕ × Buddy)
unfolding give_block
find_order zero s order i = ok (none, s)
find_order (suc k) s order i =
    let rest = find_order k s order (i + 1) in
    if ltb 0 (s.nr_free i) then give_block s order i (s.free_list i) else rest

unfoldable pub buddy_system_alloc_pages : Buddy → (n : ℕ) → Run (Option ℕ × Buddy)
unfolding order_up find_order
buddy_system_alloc_pages s n = do
  assert (ltb 0 n && leb n s.max_pages)
  order ← order_up n
  find_order (s.max_orders + 1 - order) s order order

-- Whether a block is the lower one of two.
unfoldable pub buddy_location : Buddy → (base order : ℕ) → Bool
buddy_location s base order = ((base - s.base_addr) / 2 ^ order) % 2 == 0

unfoldable pub buddy_block : Buddy → (base order : ℕ) → Option ℕ
unfolding buddy_location
buddy_block s base order =
    let p = if buddy_location s base order then base + 2 ^ order else base - 2 ^ order in
    if s.is_head p && s.property p == order then some p else none

-- The loop of `buddy_system_free_pages` over the pages.
unfoldable pub clear_flags : (left : ℕ) → Buddy → (p : ℕ) → Run Buddy
clear_flags zero s p = ok s
clear_flags (suc k) s p = do
  assert (not (s.reserved p) && not (s.is_head p))
  clear_flags k
      (record s {
        reserved = update s.reserved p false;
        is_head = update s.is_head p false;
        ref = update s.ref p 0;
      })
      (p + 1)

-- The block `page` leaves its list, and the upper one of the two is no block any more.
abbrev pub joined : Buddy → (base page order : ℕ) → (lower : Bool) → Buddy
joined s base page order lower = record s {
  free_list = update s.free_list order (unlink page (s.free_list order));
  nr_free = update s.nr_free order (s.nr_free order - 1);
  is_head = update s.is_head (if lower then page else base) false;
}

-- The loop that merges a block with its buddy, `left` orders below MAX_ORDERS.
unfoldable pub merge_blocks : (left : ℕ) → Buddy → (base order : ℕ) → Buddy × ℕ × ℕ
unfolding buddy_block buddy_location
merge_blocks zero s base order = (s, base, order)
merge_blocks (suc k) s base order = elim (buddy_block s base order) [
  | none ↦ (s, base, order)
  | some page ↦
      let lower = buddy_location s base order in
      merge_blocks k (joined s base page order lower) (if lower then base else page) (order + 1)
]

unfoldable pub buddy_system_free_pages : Buddy → (base n : ℕ) → Run Buddy
unfolding order_up clear_flags merge_blocks
buddy_system_free_pages s base n = do
  assert (ltb 0 n && leb n s.max_pages)
  order ← order_up n
  s1 ← clear_flags n s base
  let s2 = record s1 { property = update s1.property base n; is_head = update s1.is_head base true }
  let (s3, base', order') = merge_blocks (s2.max_orders - order) s2 base order
  ok (add_block s3 base' order')

-- The sum of `buddy_system_nr_free_pages` over the orders below a bound, of products in 32 bits.
abbrev pub free_below : Buddy → ℕ → ℕ
free_below s zero = 0
free_below s (suc order) = free_below s order + (s.nr_free order * 2 ^ order) % 2 ^ 32

unfoldable pub buddy_system_nr_free_pages : Buddy → ℕ
buddy_system_nr_free_pages s = free_below s (s.max_orders + 1)
