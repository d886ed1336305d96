-- ===== src/Buddy/Steps.antt =====
-- What splitting a block, clearing its pages and looking for a free block leave.
use oslabcode.Prelude.{
  ℕ, zero, suc, ◌+◌, ◌-◌, ◌^◌, ◌≤◌, ◌<◌, ◌≡◌, refl, sym, ap, ◌∙◌, inl, inr, false, some, List, [],
  ◌∷◌, arith, ltb, ltb→lt, Bool-cases, update, ok,
}
use native.Mathlib.Nat.{pow-le-pow_right}
use oslabcode.Buddy.{Buddy, add_block, split_block, give_block, find_order, clear_flags}

-- What stays while a block is split.
pub record Split (s t : Buddy) (p order : ℕ) : Type 0 where
  pub heads : (q : ℕ) → q < p + 2 ^ order → t.is_head q ≡ s.is_head q
  pub kept :
      (t.reserved ≡ s.reserved)
      × (t.base_addr ≡ s.base_addr)
      × (t.max_orders ≡ s.max_orders)
      × (t.max_pages ≡ s.max_pages)

pub pow_mono : (m n : ℕ) → m ≤ n → 2 ^ m ≤ 2 ^ n
pow_mono m n le = pow-le-pow_right (omega arith) le

pub split_block-Split :
    (c : ℕ) (s : Buddy) (p order : ℕ) → Split s (split_block s p order c) p order
unfolding split_block
split_block-Split zero s p order = record { heads = λ q l. refl; kept = (refl, refl, refl, refl) }
split_block-Split (suc c) s p order = elim (Bool-cases (ltb order (suc c))) [
  | inr stop ↦ rw stop (record { heads = λ q l. refl; kept = (refl, refl, refl, refl) })
  | inl more ↦
      let ih = split_block-Split c (add_block s (p + 2 ^ c) c) p order in
      rw more (record {
        heads = λ q l. ih.heads q l ∙ ground (arith, l, pow_mono order c (ground (arith, more)));
        kept = ih.kept;
      })
]

-- What the loop over the pages of a block leaves.
pub record Cleared (s t : Buddy) : Type 0 where
  pub lists : (t.free_list ≡ s.free_list) × (t.nr_free ≡ s.nr_free)
  pub heads : (q : ℕ) → t.is_head q ≡ s.is_head q
  pub reserves : (q : ℕ) → t.reserved q ≡ s.reserved q
  pub pages : t.max_pages ≡ s.max_pages
  pub kept : (t.property ≡ s.property) × (t.base_addr ≡ s.base_addr) × (t.max_orders ≡ s.max_orders)

pub clear_flags-Cleared :
    (k : ℕ) (s : Buddy) (p : ℕ)
    → ((q : ℕ) → p ≤ q → q < p + k → (s.reserved q ≡ false) × (s.is_head q ≡ false))
    → (t : Buddy) × (clear_flags k s p ≡ ok t) × Cleared s t
unfolding clear_flags
clear_flags-Cleared zero s p h = (
  s,
  refl,
  record {
    lists = (refl, refl);
    heads = λ q. refl;
    reserves = λ q. refl;
    pages = refl;
    kept = (refl, refl, refl);
  },
)
clear_flags-Cleared (suc k) s p h =
    let (r, d) = h p (omega arith) (omega arith) in
    let s1 = record s {
      reserved = update s.reserved p false;
      is_head = update s.is_head p false;
      ref = update s.ref p 0;
    } in
    let (t, e, c) = clear_flags-Cleared k s1 (p + 1) (λ q lo hi.
      (let (r', d') = h q (omega (arith, lo)) (omega (arith, hi)) in
        (ground (arith, r'), ground (arith, d')))) in
    (
      t,
      rw (r, d) e,
      record {
        lists = c.lists;
        heads = λ q. c.heads q ∙ ground (arith, d);
        reserves = λ q. c.reserves q ∙ ground (arith, r);
        pages = c.pages;
        kept = c.kept;
      },
    )

-- The block that is found, `taken` off its list and what becomes of it.
abbrev pub taken : Buddy → (order : ℕ) → List ℕ → Buddy
taken s j rest = record s {
  free_list = update s.free_list j rest;
  nr_free = update s.nr_free j (s.nr_free j - 1);
}

abbrev pub given : Buddy → (p order j : ℕ) → List ℕ → Buddy
given s p order j rest =
    let s1 = split_block (taken s j rest) p order j in
    record s1 { property = update s1.property p (2 ^ order); is_head = update s1.is_head p false }

pub record Taken (s s' : Buddy) (p order i k : ℕ) : Type 0 where
  pub j : ℕ
  pub rest : List ℕ
  pub from : i ≤ j
  pub to : j < i + k
  pub some_free : 0 < s.nr_free j
  pub first : s.free_list j ≡ p ∷ rest
  pub gives : given s p order j rest ≡ s'

give_block-Taken :
    (s : Buddy) (order i k : ℕ) (blocks : List ℕ) (p : ℕ) (s' : Buddy)
    → 0 < k
    → 0 < s.nr_free i
    → s.free_list i ≡ blocks
    → give_block s order i blocks ≡ ok (some p, s')
    → Taken s s' p order i k
unfolding give_block
give_block-Taken s order i k [] p s' lt pos e f = cc
give_block-Taken s order i k (q ∷ rest) p s' lt pos e f =
    let same : q ≡ p = cc in
    let state : given s q order i rest ≡ s' = cc in
    record {
      j = i;
      rest = rest;
      from = omega arith;
      to = omega (arith, lt);
      some_free = pos;
      first = e ∙ ap (λ x. x ∷ rest) same;
      gives = ap (λ x. given s x order i rest) (sym same) ∙ state;
    }

pub find_order-Taken :
    (k : ℕ) (s : Buddy) (order i p : ℕ) (s' : Buddy)
    → find_order k s order i ≡ ok (some p, s')
    → Taken s s' p order i k
unfolding find_order
find_order-Taken zero s order i p s' e = cc
find_order-Taken (suc k) s order i p s' e = elim (Bool-cases (ltb 0 (s.nr_free i))) [
  | inl here ↦
      give_block-Taken s order i (suc k) (s.free_list i) p s' (omega arith)
        (ltb→lt 0 (s.nr_free i) here) refl (rw here at e)
  | inr later ↦
      let t = find_order-Taken k s order (i + 1) p s' (rw later at e) in
      record {
        j = t.j;
        rest = t.rest;
        from = omega (arith, t.from);
        to = omega (arith, t.to);
        some_free = t.some_free;
        first = t.first;
        gives = t.gives;
      }
]
