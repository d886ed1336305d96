-- ===== src/Buddy/Total.antt =====
-- Every outcome of an allocation by the buddy system.
use oslabcode.Prelude.{
  ℕ, zero, suc, ◌+◌, ◌-◌, ◌^◌, ◌≤◌, ◌<◌, ◌≡◌, refl, sym, ap, ◌∙◌, ◌⊎◌, inl, inr, true, ◌&&◌, Option,
  none, some, List, [], ◌∷◌, arith, ltb, leb, ◌==◌, Bool-cases, Run, ok, length,
}
use mathlib.Core.Path.{subst}
use oslabcode.Buddy.{Buddy, give_block, find_order, buddy_system_alloc_pages}
use oslabcode.Buddy.Orders.{order_up-least}
use oslabcode.Buddy.Valid.{IsBuddy}
use oslabcode.Buddy.Held.{IsHeld}
use oslabcode.Buddy.Alloc.{buddy_system_alloc_pages-IsHeld}

-- The search gives a block, or none when the lists from `i` on are empty.
abbrev Searched : (s : Buddy) (i k : ℕ) → Run (Option ℕ × Buddy) → Type 0
Searched s i k result =
    ((result ≡ ok (none, s)) × ((o : ℕ) → i ≤ o → o < i + k → s.free_list o ≡ []))
    ⊎ ((p : ℕ) × (s' : Buddy) × (result ≡ ok (some p, s')))

give_block-Searched :
    (s : Buddy) (order i k : ℕ) (blocks : List ℕ)
    → 0 < length blocks
    → Searched s i k (give_block s order i blocks)
unfolding give_block
give_block-Searched s order i k [] some_there = absurd (omega (arith, some_there))
give_block-Searched s order i k (p ∷ rest) some_there = inr (p, _, refl)

empty_list : (l : List ℕ) → length l ≡ 0 → l ≡ []
empty_list [] e = refl
empty_list (x ∷ xs) e = absurd (omega (arith, e))

find_order-Searched :
    (k : ℕ) (s : Buddy) (order i : ℕ) → IsBuddy s → Searched s i k (find_order k s order i)
unfolding find_order
find_order-Searched zero s order i v = inl (refl, λ o lo hi. absurd (omega (arith, lo, hi)))
find_order-Searched (suc k) s order i v = elim (Bool-cases (ltb 0 (s.nr_free i))) [
  | inl here ↦
      rw here
        (give_block-Searched s order i (suc k) (s.free_list i) (ground (arith, here, v.counted i)))
  | inr later ↦
      let empty : s.free_list i ≡ [] =
        empty_list (s.free_list i) (ground (arith, later, v.counted i)) in
      elim (find_order-Searched k s order (i + 1) v) [
        | inl (e, rest) ↦ inl (
          rw later e,
          λ o lo hi. elim (Bool-cases (i == o)) [
            | inl at ↦ (let e' : i ≡ o = ground (arith, at) in ap s.free_list (sym e') ∙ empty)
            | inr past ↦ rest o (ground (arith, lo, past)) (omega (arith, hi))
          ],
        )
        | inr (p, s', e) ↦ inr (p, s', rw later e)
      ]
]

-- For 0 < n up to MAX_PAGES and well-formed free lists the allocation does not fail. Either it
-- gives none and changes nothing, and the lists of the orders from the least with n pages up to
-- MAX_ORDERS are empty; or it gives a page, and then the free lists stay well-formed, and the block
-- from the page on, of that least order, touches no free block, is aligned, and has no head of a
-- free block and no reserved page.
pub buddy_system_alloc_pages-total :
    (s : Buddy) (n : ℕ)
    → IsBuddy s
    → 0 < n
    → n ≤ s.max_pages
    → (order : ℕ) × (n ≤ 2 ^ order)
      × ((q : ℕ) → q < order → 2 ^ q < n)
      × (((buddy_system_alloc_pages s n ≡ ok (none, s))
            × ((o : ℕ) → order ≤ o → o ≤ s.max_orders → s.free_list o ≡ []))
          ⊎ ((p : ℕ) × (s' : Buddy) × (buddy_system_alloc_pages s n ≡ ok (some p, s'))
              × IsHeld s' p order))
unfolding buddy_system_alloc_pages
buddy_system_alloc_pages-total s n v pos small =
    let (order, up, fits, least) = order_up-least n pos (omega (arith, small, v.small)) in
    let range : (ltb 0 n && leb n s.max_pages) ≡ true = ground (arith, pos, small) in
    (
      order,
      fits,
      least,
      elim (find_order-Searched (s.max_orders + 1 - order) s order order v) [
        | inl (e, empty) ↦ inl (rw (range, up) e, λ o lo hi. empty o lo (omega (arith, lo, hi)))
        | inr (p, s', e) ↦
            let given : buddy_system_alloc_pages s n ≡ ok (some p, s') = rw (range, up) e in
            let (order', up', fits', held) = buddy_system_alloc_pages-IsHeld s n p s' v given in
            inr (p, s', given, subst (IsHeld s' p) (same order' order (sym up' ∙ up)) held)
      ],
    )
  where
    same : (x y : ℕ) → ◌≡◌ {A = Run ℕ} (ok x) (ok y) → x ≡ y
    same x y e = cc
