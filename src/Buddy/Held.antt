-- ===== src/Buddy/Held.antt =====
-- Blocks that are on no free list, and splitting them.
use oslabcode.Prelude.{
  ℕ, zero, suc, ◌+◌, ◌-◌, ◌*◌, ◌%◌, ◌^◌, ◌≤◌, ◌<◌, ◌≡◌, ◌≢◌, refl, sym, ap, ◌∙◌, ◌⊎◌, inl, inr,
  true, false, ◌&&◌, Option, none, some, arith, ltb, ◌==◌, if◌then◌else◌, Bool-cases, count,
}
use mathlib.Core.Path.{subst}
use native.Mathlib.Nat.{mul_assoc, mul_comm, add-mul}
use oslabcode.Buddy.{Buddy, add_block, split_block, buddy_location, buddy_block}
use oslabcode.Buddy.Orders.{two-pow}
use oslabcode.Buddy.Merge.{IsBlock, pow_pos, location-IsBlock}
use oslabcode.Buddy.Valid.{IsFreeBlock, IsBuddy}

-- The free lists are well-formed, and the block of order `c` at `p` is on none of them: it is
-- aligned, touches no free block, has no heads, and its pages are not reserved.
pub record IsHeld (s : Buddy) (p c : ℕ) : Type 0 where
  pub valid : IsBuddy s
  pub at : (m : ℕ) × IsBlock s p m c
  pub away : (q o : ℕ) → 0 < count q (s.free_list o) → (q + 2 ^ o ≤ p) ⊎ (p + 2 ^ c ≤ q)
  pub clear : (q : ℕ) → p ≤ q → q < p + 2 ^ c → s.is_head q ≡ false
  pub usable : (q : ℕ) → p ≤ q → q < p + 2 ^ c → s.reserved q ≡ false

pub halves :
    (b m w : ℕ)
    → (b + m * (w * 2) ≡ b + m * 2 * w)
      × (b + m * (w * 2) + w ≡ b + (m * 2 + 1) * w)
      × (b + m * (w * 2) + w * 2 ≡ b + (m * 2 + 2) * w)
halves b m w =
    let e : m * (w * 2) ≡ m * 2 * w = ap (λ x. m * x) (mul_comm w 2) ∙ sym (mul_assoc m 2 w) in
    let f : (m * 2 + 1) * w ≡ m * 2 * w + 1 * w = add-mul (m * 2) 1 w in
    let g : (m * 2 + 2) * w ≡ m * 2 * w + 2 * w = add-mul (m * 2) 2 w in
    (omega (arith, e), omega (arith, e, f), omega (arith, e, g))

module _ (s : Buddy) (p c m : ℕ) (held : IsHeld s p (suc c))
    (block : p ≡ s.base_addr + m * (2 ^ c * 2)) (twice : 2 ^ suc c ≡ 2 ^ c * 2) where
  abbrev upper : ℕ
  upper = p + 2 ^ c

  abbrev after : Buddy
  after = add_block s upper c

  upper-IsBlock : IsBlock after upper (m * 2 + 1) c
  upper-IsBlock = ap (λ x. x + 2 ^ c) block ∙ (halves s.base_addr m (2 ^ c)).1

  -- The upper half has the lower one as its buddy, which is not free.
  upper-IsFreeBlock : IsFreeBlock after upper c
  unfolding buddy_block
  upper-IsFreeBlock = record {
    aligned = (m * 2 + 1, upper-IsBlock);
    headed = ground arith;
    sized = ground arith;
    alone =
        λ q lo hi. ground (arith, lo, held.clear q (omega (arith, lo)) (omega (arith, hi, twice)));
    usable = λ q lo hi. held.usable q (omega (arith, lo)) (omega (arith, hi, twice));
    merged = λ more.
        (let odd : (m * 2 + 1) % 2 ≡ 1 = omega arith in
          let loc : buddy_location after upper c ≡ false =
            location-IsBlock after upper (m * 2 + 1) c upper-IsBlock ∙ rw odd in
          let low : upper - 2 ^ c ≡ p = omega arith in
          rw (loc, low)
            (ground
              (arith, pow_pos c, held.clear p (omega arith) (omega (arith, pow_pos (suc c))))));
  }

  module _ (q o : ℕ) (i : 0 < count q (s.free_list o)) where
    old : IsFreeBlock s q o
    old = held.valid.blocks q o i

    differs : upper ≢ q
    differs e = elim (held.away q o i) [
      | inl l ↦ omega (arith, l, e, pow_pos c)
      | inr r ↦ omega (arith, r, e, pow_pos c, twice)
    ]

    apart : (x : ℕ) → q < x → x < q + 2 ^ o → upper ≢ x
    apart x lo hi e = elim (held.away q o i) [
      | inl l ↦ omega (arith, l, e, hi)
      | inr r ↦ omega (arith, r, e, lo, pow_pos c, twice)
    ]

    -- The upper half is no buddy of order `o` of another block.
    no_buddy_above : q + 2 ^ o ≡ upper → c ≢ o
    no_buddy_above e same = elim (held.away q o i) [
      | inl l ↦ omega (arith, l, e, pow_pos c)
      | inr r ↦ (let w : 2 ^ c ≡ 2 ^ o = ap (λ x. 2 ^ x) same in omega (arith, r, e, w, pow_pos c))
    ]

    no_buddy_below : buddy_location s q o ≡ false → q - 2 ^ o ≡ upper → c ≢ o
    no_buddy_below loc e same =
        let w : 2 ^ c ≡ 2 ^ o = ap (λ x. 2 ^ x) same in
        let b : q ≡ s.base_addr + (m * 2 + 2) * 2 ^ c =
          (let h : q ≡ s.base_addr + m * (2 ^ c * 2) + 2 ^ c * 2 =
              omega (arith, e, w, block, pow_pos c) in
            h)
          ∙ (halves s.base_addr m (2 ^ c)).2 in
        let even : (m * 2 + 2) % 2 ≡ 0 = omega arith in
        let lower : buddy_location s q c ≡ true = location-IsBlock s q (m * 2 + 2) c b ∙ rw even in
        (let loc' : buddy_location s q c ≡ false =
            subst (λ x. buddy_location s q x ≡ false) (sym same) loc in
          cc)

    no_head :
        (x : ℕ)
        → (upper ≡ x → c ≢ o)
        → ◌≡◌ {A = Option ℕ} (if s.is_head x && s.property x == o then some x else none) none
        → ◌≡◌ {A = Option ℕ}
            (if after.is_head x && after.property x == o then some x else none)
            none
    no_head x ne before = elim (Bool-cases (upper == x)) [
      | inl here ↦ (let h = ne (ground (arith, here)) in ground (arith, here, h))
      | inr there ↦ ground (arith, there, before)
    ]

    kept-merged : buddy_block s q o ≡ none → buddy_block after q o ≡ none
    unfolding buddy_block
    kept-merged before = elim (Bool-cases (buddy_location s q o)) [
      | inl l ↦
          rw (same_location ∙ l)
            (no_head (q + 2 ^ o) (λ e. no_buddy_above (sym e)) (rw l at before))
      | inr l ↦
          rw (same_location ∙ l)
            (no_head (q - 2 ^ o) (λ e. no_buddy_below l (sym e)) (rw l at before))
    ]
      where
        same_location : buddy_location after q o ≡ buddy_location s q o
        same_location = unfold buddy_location in refl

    old-IsFreeBlock : IsFreeBlock after q o
    old-IsFreeBlock = record {
      aligned = old.aligned;
      headed = ground (arith, old.headed);
      sized = ground (arith, old.sized, differs);
      alone = λ x lo hi. ground (arith, old.alone x lo hi, apart x lo hi);
      usable = old.usable;
      merged = λ more. kept-merged (old.merged more);
    }

  after-cases :
      (q o : ℕ)
      → 0 < count q (after.free_list o)
      → ((q ≡ upper) × (o ≡ c)) ⊎ (0 < count q (s.free_list o))
  after-cases q o i = elim (Bool-cases (c == o)) [
    | inr there ↦ inr (ground (arith, there, i))
    | inl here ↦ elim (Bool-cases (q == upper)) [
      | inl same ↦ inl (ground (arith, same), ground (arith, here))
      | inr other ↦
          inr (
            ground
              (arith, here, other, i, let e : c ≡ o = ground (arith, here) in ap s.free_list e))
    ]
  ]

  not_listed : count upper (s.free_list c) ≡ 0
  not_listed = elim (Bool-cases (count upper (s.free_list c) == 0)) [
    | inl none_there ↦ ground (arith, none_there)
    | inr some_there ↦ absurd (differs upper c (ground (arith, some_there)) refl)
  ]

  listed_after :
      (q o : ℕ) → after.is_head q ≡ true → after.property q ≡ o → 0 < count q (after.free_list o)
  listed_after q o h z = elim (Bool-cases (upper == q)) [
    | inl here ↦ ground (arith, here, h, z)
    | inr there ↦
        (let i = held.valid.listed q o (ground (arith, there, h)) (ground (arith, there, z)) in
          ground (arith, i, ap s.free_list))
  ]

  after-IsBuddy : IsBuddy after
  after-IsBuddy = record {
    blocks = λ q o i. elim (after-cases q o i) [
      | inl (a, b) ↦
          subst (λ x. IsFreeBlock after x o) (sym a)
            (subst (λ x. IsFreeBlock after upper x) (sym b) upper-IsFreeBlock)
      | inr before ↦ old-IsFreeBlock q o before
    ];
    distinct = λ o a. ground (arith, held.valid.distinct o a, held.valid.distinct c a, not_listed);
    counted = λ o. ground (arith, held.valid.counted o, held.valid.counted c);
    listed = λ q o h z. listed_after q o h z;
    small = held.valid.small;
  }

  after-IsHeld : IsHeld after p c
  after-IsHeld = record {
    valid = after-IsBuddy;
    at = (m * 2, block ∙ (halves s.base_addr m (2 ^ c)).0);
    away = λ q o i. elim (after-cases q o i) [
      | inl (a, b) ↦ inr (omega (arith, a))
      | inr before ↦ elim (held.away q o before) [
        | inl l ↦ inl l
        | inr r ↦ inr (omega (arith, r, twice))
      ]
    ];
    clear = λ q lo hi. ground (arith, hi, held.clear q lo (omega (arith, hi, twice)));
    usable = λ q lo hi. held.usable q lo (omega (arith, hi, twice));
  }

-- Splitting a held block down to `order` leaves the block of that order held.
pub split_block-IsHeld :
    (c : ℕ) (s : Buddy) (p order : ℕ)
    → order ≤ c
    → IsHeld s p c
    → IsHeld (split_block s p order c) p order
unfolding split_block
split_block-IsHeld zero s p order le held =
    subst (IsHeld s p) (let e : 0 ≡ order = omega (arith, le) in e) held
split_block-IsHeld (suc c) s p order le held = elim (Bool-cases (ltb order (suc c))) [
  | inr stop ↦
      rw stop (subst (IsHeld s p) (let e : suc c ≡ order = ground (arith, stop, le) in e) held)
  | inl more ↦
      let step : suc c ≡ c + 1 = omega arith in
      let twice : 2 ^ suc c ≡ 2 ^ c * 2 = ap (λ x. 2 ^ x) step ∙ two-pow c in
      let (m, block) = held.at in
      rw more (
        split_block-IsHeld c (add_block s (p + 2 ^ c) c) p order (ground (arith, more))
          (after-IsHeld s p c m held (block ∙ ap (λ x. s.base_addr + m * x) twice) twice))
]
