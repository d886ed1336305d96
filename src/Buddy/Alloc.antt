-- ===== src/Buddy/Alloc.antt =====
-- The block that the buddy system gives, and the free lists that are left.
use oslabcode.Prelude.{
  ℕ, zero, suc, ◌+◌, ◌-◌, ◌^◌, ◌≤◌, ◌<◌, ◌≡◌, ◌≢◌, refl, sym, ap, ◌∙◌, inl, inr, Bool, true, false,
  ◌&&◌, Option, none, some, List, ◌∷◌, arith, ltb, leb, ◌==◌, if◌then◌else◌, Bool-cases, update,
  assert, ok, chain_ok, count, fun_ext,
}
use mathlib.Core.Path.{subst}
use oslabcode.Buddy.{
  Buddy, add_block, order_up, split_block, buddy_system_alloc_pages, buddy_location, buddy_block,
}
use oslabcode.Buddy.Orders.{order_up-least}
use oslabcode.Buddy.Merge.{pow_pos}
use oslabcode.Buddy.Steps.{Taken, taken, given, find_order-Taken}
use oslabcode.Buddy.Valid.{IsFreeBlock, IsBuddy}
use oslabcode.Buddy.Held.{IsHeld, split_block-IsHeld}

-- The state with `ClearPageProperty` done on `p`.
abbrev pub hide : Buddy → ℕ → Buddy
hide s p = record s { is_head = update s.is_head p false }

-- A state with fewer heads has no more free buddies.
module _ (s t : Buddy) (same_base : t.base_addr ≡ s.base_addr)
    (fewer : (x o : ℕ)
      → (s.is_head x && s.property x == o) ≡ false
      → (t.is_head x && t.property x == o) ≡ false) where
  pub buddy_block-fewer : (q o : ℕ) → buddy_block s q o ≡ none → buddy_block t q o ≡ none
  unfolding buddy_block
  buddy_block-fewer q o e = elim (Bool-cases (buddy_location s q o)) [
    | inl l ↦ rw (same_location q o ∙ l) (at (q + 2 ^ o) o (rw l at e))
    | inr l ↦ rw (same_location q o ∙ l) (at (q - 2 ^ o) o (rw l at e))
  ]
    where
      same_location : (q o : ℕ) → buddy_location t q o ≡ buddy_location s q o
      same_location q o = unfold buddy_location in rw same_base

      at :
          (x o : ℕ)
          → ◌≡◌ {A = Option ℕ} (if s.is_head x && s.property x == o then some x else none) none
          → ◌≡◌ {A = Option ℕ} (if t.is_head x && t.property x == o then some x else none) none
      at x o h = elim (Bool-cases (s.is_head x && s.property x == o)) [
        | inl there ↦ (let h' = rw there at h in cc)
        | inr gone ↦ rw (fewer x o gone)
      ]

-- The first block of a free list is taken off it.
module _ (s : Buddy) (p j : ℕ) (rest : List ℕ) (v : IsBuddy s)
    (first : s.free_list j ≡ p ∷ rest) where
  block : IsFreeBlock s p j
  block = v.blocks p j (rw first (ground arith))

  abbrev free : Buddy
  free = hide (taken s j rest) p

  was_listed : (q o : ℕ) → 0 < count q (free.free_list o) → (0 < count q (s.free_list o)) × (p ≢ q)
  was_listed q o i = elim (Bool-cases (j == o)) [
    | inl here ↦
        (let e : j ≡ o = ground (arith, here) in
          let i' = rw here at i in
          (
            subst (λ x. 0 < count q (s.free_list x)) e (rw first (ground (arith, i'))),
            λ same. (let d = rw first at (v.distinct j q) in ground (arith, d, i', same)),
          ))
    | inr there ↦
        (let i' = rw there at i in
          (
            i',
            λ same.
                (let z = (v.blocks q o i').sized in
                  let z' = block.sized in ground (arith, there, same, z, z', ap s.property same)),
          ))
  ]

  free-IsFreeBlock : (q o : ℕ) → 0 < count q (free.free_list o) → IsFreeBlock free q o
  free-IsFreeBlock q o i =
      let (listed, ne) = was_listed q o i in
      let b = v.blocks q o listed in
      record {
        aligned = b.aligned;
        headed = ground (arith, b.headed, ne);
        sized = b.sized;
        alone = λ x lo hi. ground (arith, b.alone x lo hi);
        usable = b.usable;
        merged =
            λ more. buddy_block-fewer s free refl (λ x o h. ground (arith, h)) q o (b.merged more);
      }

  listed_free :
      (q o : ℕ) → free.is_head q ≡ true → free.property q ≡ o → 0 < count q (free.free_list o)
  listed_free q o h z =
      let ne : p ≢ q = ground (arith, h) in
      let i = v.listed q o (ground (arith, h, ne)) z in
      elim (Bool-cases (j == o)) [
        | inl here ↦
            let e : j ≡ o = ground (arith, here) in
            let i' = rw first at (subst (λ x. 0 < count q (s.free_list x)) (sym e) i) in
            ground (arith, here, i', ne)
        | inr there ↦ ground (arith, there, i)
      ]

  free-IsHeld : IsHeld free p j
  free-IsHeld = record {
    valid = record {
      blocks = free-IsFreeBlock;
      distinct = λ o a. (let d = rw first at (v.distinct j a) in ground (arith, d, v.distinct o a));
      counted = λ o. (let n = rw first at (v.counted j) in ground (arith, n, v.counted o));
      listed = listed_free;
      small = v.small;
    };
    at = block.aligned;
    away = λ q o i.
        (let (listed, ne) = was_listed q o i in
          let b = v.blocks q o listed in
          elim (Bool-cases (ltb q p)) [
            | inl low ↦ elim (Bool-cases (leb (q + 2 ^ o) p)) [
              | inl l ↦ inl (ground (arith, l))
              | inr l ↦ absurd (
                  let h = b.alone p (ground (arith, low)) (ground (arith, l)) in
                  let h' = block.headed in cc)
            ]
            | inr high ↦ elim (Bool-cases (leb (p + 2 ^ j) q)) [
              | inl l ↦ inr (ground (arith, l))
              | inr l ↦ absurd (
                  let h = block.alone q (ground (arith, high, ne)) (ground (arith, l)) in
                  let h' = b.headed in cc)
            ]
          ]);
    clear = λ q lo hi. elim (Bool-cases (p == q)) [
      | inl here ↦ ground (arith, here)
      | inr there ↦ ground (arith, there, block.alone q (ground (arith, there, lo)) hi)
    ];
    usable = block.usable;
  }

-- `ClearPageProperty` on the block that is split may be done before the split.
hide-split_block :
    (c : ℕ) (s : Buddy) (p order : ℕ)
    → hide (split_block s p order c) p ≡ split_block (hide s p) p order c
unfolding split_block
hide-split_block zero s p order = refl
hide-split_block (suc c) s p order = elim (Bool-cases (ltb order (suc c))) [
  | inr stop ↦ rw stop
  | inl more ↦
      let swap : hide (add_block s (p + 2 ^ c) c) p ≡ add_block (hide s p) (p + 2 ^ c) c =
        ap (λ f. record (add_block s (p + 2 ^ c) c) { is_head = f })
          (fun_ext (λ q. ground (arith, pow_pos c))) in
      rw more (
        hide-split_block c (add_block s (p + 2 ^ c) c) p order
        ∙ ap (λ x. split_block x p order c) swap)
]

-- The field `property` of a page that is no head does not matter, nor do the counts `ref`.
pub property-IsHeld :
    (s : Buddy) (p c size : ℕ) (ref : ℕ → ℕ)
    → IsHeld s p c
    → IsHeld (record s { property = update s.property p size; ref = ref }) p c
property-IsHeld s p c size ref held =
    let out : s.is_head p ≡ false = held.clear p (omega arith) (omega (arith, pow_pos c)) in
    let t = record s { property = update s.property p size; ref = ref } in
    record {
      valid = record {
        blocks = λ q o i.
            (let b = held.valid.blocks q o i in
              record {
                aligned = b.aligned;
                headed = b.headed;
                sized = ground (arith, b.sized, b.headed, out, ap s.is_head);
                alone = b.alone;
                usable = b.usable;
                merged = λ more.
                    buddy_block-fewer s t refl (λ x o h. ground (arith, h, out, ap s.is_head)) q o
                      (b.merged more);
              });
        distinct = held.valid.distinct;
        counted = held.valid.counted;
        listed = λ q o h z.
            (let ne : p ≢ q = (λ e. (let h' = ap s.is_head e in cc)) in
              held.valid.listed q o h (ground (arith, ne, z)));
        small = held.valid.small;
      };
      at = held.at;
      away = held.away;
      clear = held.clear;
      usable = held.usable;
    }

given-IsHeld :
    (s : Buddy) (p order j : ℕ) (rest : List ℕ)
    → IsBuddy s
    → s.free_list j ≡ p ∷ rest
    → order ≤ j
    → IsHeld (given s p order j rest) p order
given-IsHeld s p order j rest v first le =
    property-IsHeld (hide (split_block (taken s j rest) p order j) p) p order (2 ^ order)
      (split_block (taken s j rest) p order j).ref
      (subst (λ x. IsHeld x p order) (sym (hide-split_block j (taken s j rest) p order))
        (split_block-IsHeld j (hide (taken s j rest) p) p order le
          (free-IsHeld s p j rest v first)))

Taken-IsHeld :
    (s s' : Buddy) (p order k : ℕ) → IsBuddy s → Taken s s' p order order k → IsHeld s' p order
Taken-IsHeld s s' p order k v found =
    subst (λ x. IsHeld x p order) found.gives
      (given-IsHeld s p order found.j found.rest v found.first found.from)

-- When an allocation gives a page, the free lists stay well-formed, and the block from the page
-- on, of the order that `order_up` gives and so of at least `n` pages, touches no free block, has
-- no head of one in it, is aligned, and has no reserved page.
pub buddy_system_alloc_pages-IsHeld :
    (s : Buddy) (n p : ℕ) (s' : Buddy)
    → IsBuddy s
    → buddy_system_alloc_pages s n ≡ ok (some p, s')
    → (order : ℕ) × (order_up n ≡ ok order) × (n ≤ 2 ^ order) × IsHeld s' p order
unfolding buddy_system_alloc_pages
buddy_system_alloc_pages-IsHeld s n p s' v e =
    let (u, asked, e1) = chain_ok (assert (ltb 0 n && leb n s.max_pages)) _ (some p, s') e in
    let range = in_range (ltb 0 n && leb n s.max_pages) asked in
    let (order, up, fits, least) =
      order_up-least n (ground (arith, range)) (ground (arith, range, v.small)) in
    (
      order,
      up,
      fits,
      Taken-IsHeld s s' p order (s.max_orders + 1 - order) v
          (find_order-Taken (s.max_orders + 1 - order) s order order p s' (rw up at e1)),
    )
  where
    in_range : (b : Bool) {u : Unit {0}} → assert b ≡ ok u → b ≡ true
    in_range true e = refl
    in_range false e = cc
