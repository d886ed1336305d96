-- ===== src/Buddy/Finish.antt =====
-- Putting a held block on its free list.
use oslabcode.Prelude.{
  ℕ, ◌+◌, ◌-◌, ◌*◌, ◌%◌, ◌^◌, ◌<◌, ◌≡◌, ◌≢◌, refl, sym, ap, ◌∙◌, ◌⊎◌, inl, inr, true, false, ◌&&◌,
  Option, none, some, arith, ◌==◌, if◌then◌else◌, Bool-cases, count,
}
use mathlib.Core.Path.{subst}
use native.Mathlib.Nat.{add-mul}
use oslabcode.Buddy.{Buddy, add_block, buddy_location, buddy_block}
use oslabcode.Buddy.Merge.{pow_pos, location-IsBlock, IsBlock}
use oslabcode.Buddy.Valid.{IsFreeBlock, IsBuddy}
use oslabcode.Buddy.Held.{IsHeld}

-- The buddy of a block is found by the head and the order that it has.
pub buddy_block-some :
    (s : Buddy) (b o page : ℕ)
    → buddy_block s b o ≡ some page
    → (s.is_head page ≡ true)
      × (s.property page ≡ o)
      × (((buddy_location s b o ≡ true) × (page ≡ b + 2 ^ o))
          ⊎ ((buddy_location s b o ≡ false) × (page ≡ b - 2 ^ o)))
unfolding buddy_block
buddy_block-some s b o page e = elim (Bool-cases (buddy_location s b o)) [
  | inl l ↦ (let (h, z, at) = found (b + 2 ^ o) (rw l at e) in (h, z, inl (l, at)))
  | inr l ↦ (let (h, z, at) = found (b - 2 ^ o) (rw l at e) in (h, z, inr (l, at)))
]
  where
    found :
        (x : ℕ)
        → ◌≡◌ {A = Option ℕ} (if s.is_head x && s.property x == o then some x else none) (some page)
        → (s.is_head page ≡ true) × (s.property page ≡ o) × (page ≡ x)
    found x h = elim (Bool-cases (s.is_head x && s.property x == o)) [
      | inl there ↦
          let h' = rw there at h in
          let same : x ≡ page = cc in
          (
            subst (λ y. s.is_head y ≡ true) same (ground (arith, there)),
            subst (λ y. s.property y ≡ o) same (ground (arith, there)),
            sym same,
          )
      | inr gone ↦ (let h' = rw gone at h in cc)
    ]

-- An upper block lies a block above the base.
pub upper_room :
    (s : Buddy) (b m o : ℕ)
    → IsBlock s b m o
    → buddy_location s b o ≡ false
    → (m % 2 ≡ 1) × (b ≡ s.base_addr + (m - 1) * 2 ^ o + 2 ^ o)
upper_room s b m o e l =
    let odd : (m % 2 == 0) ≡ false = sym (location-IsBlock s b m o e) ∙ l in
    let odd' : m % 2 ≡ 1 = ground (arith, odd) in
    let one : m ≡ m - 1 + 1 = omega (arith, odd') in
    let split : m * 2 ^ o ≡ (m - 1) * 2 ^ o + 1 * 2 ^ o =
      ap (λ x. x * 2 ^ o) one ∙ add-mul (m - 1) 1 (2 ^ o) in
    (odd', omega (arith, e, split))

pub lower_parity :
    (s : Buddy) (b m o : ℕ) → IsBlock s b m o → buddy_location s b o ≡ true → m % 2 ≡ 0
lower_parity s b m o e l =
    let even : (m % 2 == 0) ≡ true = sym (location-IsBlock s b m o e) ∙ l in ground (arith, even)

-- Two blocks are each other's buddies.
buddy_back :
    (s : Buddy) (q m o b : ℕ)
    → IsBlock s q m o
    → s.is_head q ≡ true
    → s.property q ≡ o
    → ((buddy_location s q o ≡ true) × (b ≡ q + 2 ^ o))
      ⊎ ((buddy_location s q o ≡ false) × (b ≡ q - 2 ^ o))
    → buddy_block s b o ≡ some q
unfolding buddy_block
buddy_back s q m o b e h z (inl (l, at)) =
    let even = lower_parity s q m o e l in
    let up : IsBlock s b (m + 1) o = omega (arith, at, e, add-mul m 1 (2 ^ o)) in
    let odd : (m + 1) % 2 ≡ 1 = omega (arith, even) in
    let loc : buddy_location s b o ≡ false = location-IsBlock s b (m + 1) o up ∙ rw odd in
    let back : b - 2 ^ o ≡ q = omega (arith, at) in rw (loc, back, h, z) (ground arith)
buddy_back s q m o b e h z (inr (l, at)) =
    let (odd, room) = upper_room s q m o e l in
    let low : IsBlock s b (m - 1) o = omega (arith, at, room) in
    let even : (m - 1) % 2 ≡ 0 = omega (arith, odd) in
    let loc : buddy_location s b o ≡ true = location-IsBlock s b (m - 1) o low ∙ rw even in
    let back : b + 2 ^ o ≡ q = omega (arith, at, room) in rw (loc, back, h, z) (ground arith)

module _ (s : Buddy) (b o : ℕ) (held : IsHeld s b o)
    (alone : o < s.max_orders → buddy_block s b o ≡ none) where
  abbrev put : Buddy
  put = add_block s b o

  out : s.is_head b ≡ false
  out = held.clear b (omega arith) (omega (arith, pow_pos o))

  -- The block itself is no buddy of its own.
  self_merged : buddy_block s b o ≡ none → buddy_block put b o ≡ none
  unfolding buddy_block
  self_merged e = elim (Bool-cases (buddy_location s b o)) [
    | inl l ↦ rw (same_location ∙ l) (ground (arith, rw l at e, pow_pos o))
    | inr l ↦
        let (m, block) = held.at in
        let (odd, room) = upper_room s b m o block l in
        let ne : b ≢ b - 2 ^ o = omega (arith, room, pow_pos o) in
        rw (same_location ∙ l) (ground (arith, rw l at e, ne))
  ]
    where
      same_location : buddy_location put b o ≡ buddy_location s b o
      same_location = unfold buddy_location in refl

  new-IsFreeBlock : IsFreeBlock put b o
  new-IsFreeBlock = record {
    aligned = held.at;
    headed = ground arith;
    sized = ground arith;
    alone = λ q lo hi. ground (arith, lo, held.clear q (omega (arith, lo)) hi);
    usable = held.usable;
    merged = λ more. self_merged (alone more);
  }

  module _ (q o' : ℕ) (i : 0 < count q (s.free_list o')) where
    old : IsFreeBlock s q o'
    old = held.valid.blocks q o' i

    differs : b ≢ q
    differs e = let h = old.headed in let h' = ap s.is_head e in let h'' = out in cc

    outside : (x : ℕ) → q < x → x < q + 2 ^ o' → b ≢ x
    outside x lo hi e = elim (held.away q o' i) [
      | inl l ↦ omega (arith, l, e, hi)
      | inr r ↦ omega (arith, r, e, lo, pow_pos o)
    ]

    -- The block that is put is not of the order of which it would be a buddy.
    not_buddy :
        o' < s.max_orders
        → ((buddy_location s q o' ≡ true) × (b ≡ q + 2 ^ o'))
          ⊎ ((buddy_location s q o' ≡ false) × (b ≡ q - 2 ^ o'))
        → o ≢ o'
    not_buddy more at same =
        let (m, block) = old.aligned in
        let back = buddy_back s q m o' b block old.headed old.sized at in
        let back' : buddy_block s b o ≡ some q =
          subst (λ x. buddy_block s b x ≡ some q) (sym same) back in
        let gone = alone (subst (λ x. x < s.max_orders) (sym same) more) in cc

    still_no_head :
        (x : ℕ)
        → (b ≡ x → o ≢ o')
        → ◌≡◌ {A = Option ℕ} (if s.is_head x && s.property x == o' then some x else none) none
        → ◌≡◌ {A = Option ℕ} (if put.is_head x && put.property x == o' then some x else none) none
    still_no_head x ne before = elim (Bool-cases (b == x)) [
      | inl here ↦ (let h = ne (ground (arith, here)) in ground (arith, here, h))
      | inr there ↦ ground (arith, there, before)
    ]

    still-merged : o' < s.max_orders → buddy_block s q o' ≡ none → buddy_block put q o' ≡ none
    unfolding buddy_block
    still-merged more before = elim (Bool-cases (buddy_location s q o')) [
      | inl l ↦
          rw (same_location ∙ l)
            (still_no_head (q + 2 ^ o') (λ e. not_buddy more (inl (l, e))) (rw l at before))
      | inr l ↦
          rw (same_location ∙ l)
            (still_no_head (q - 2 ^ o') (λ e. not_buddy more (inr (l, e))) (rw l at before))
    ]
      where
        same_location : buddy_location put q o' ≡ buddy_location s q o'
        same_location = unfold buddy_location in refl

    old-IsFreeBlock : IsFreeBlock put q o'
    old-IsFreeBlock = record {
      aligned = old.aligned;
      headed = ground (arith, old.headed);
      sized = ground (arith, old.sized, differs);
      alone = λ x lo hi. ground (arith, old.alone x lo hi, outside x lo hi);
      usable = old.usable;
      merged = λ more. still-merged more (old.merged more);
    }

  put-cases :
      (q o' : ℕ)
      → 0 < count q (put.free_list o')
      → ((q ≡ b) × (o' ≡ o)) ⊎ (0 < count q (s.free_list o'))
  put-cases q o' i = elim (Bool-cases (o == o')) [
    | inr there ↦ inr (ground (arith, there, i))
    | inl here ↦ elim (Bool-cases (q == b)) [
      | inl same ↦ inl (ground (arith, same), ground (arith, here))
      | inr other ↦ inr (
          ground (arith, here, other, i, let e : o ≡ o' = ground (arith, here) in ap s.free_list e))
    ]
  ]

  not_listed : count b (s.free_list o) ≡ 0
  not_listed = elim (Bool-cases (count b (s.free_list o) == 0)) [
    | inl none_there ↦ ground (arith, none_there)
    | inr some_there ↦ absurd (differs b o (ground (arith, some_there)) refl)
  ]

  pub add_block-IsBuddy : IsBuddy put
  add_block-IsBuddy = record {
    blocks = λ q o' i. elim (put-cases q o' i) [
      | inl (e, f) ↦
          subst (λ x. IsFreeBlock put x o') (sym e)
            (subst (λ x. IsFreeBlock put b x) (sym f) new-IsFreeBlock)
      | inr before ↦ old-IsFreeBlock q o' before
    ];
    distinct =
        λ o' a. ground (arith, held.valid.distinct o' a, held.valid.distinct o a, not_listed);
    counted = λ o'. ground (arith, held.valid.counted o', held.valid.counted o);
    listed = λ q o' h z. elim (Bool-cases (b == q)) [
      | inl here ↦ ground (arith, here, h, z)
      | inr there ↦
          (let i = held.valid.listed q o' (ground (arith, there, h)) (ground (arith, there, z)) in
            ground (arith, i, ap s.free_list))
    ];
    small = held.valid.small;
  }
