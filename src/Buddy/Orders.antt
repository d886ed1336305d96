-- ===== src/Buddy/Orders.antt =====
-- The orders of the buddy system: logarithms rounded up and down.
use oslabcode.Prelude.{
  ℕ, zero, suc, ◌+◌, ◌*◌, ◌/◌, ◌%◌, ◌^◌, ◌≤◌, ◌<◌, ◌≡◌, refl, sym, ap, ◌∙◌, inl, inr, false, arith,
  ltb, ◌==◌, ltb→lt, Bool-cases, ok,
}
use mathlib.Core.Path.{subst}
use native.Mathlib.Nat.{pow-suc, pow-le-pow_right}
use oslabcode.Buddy.{halvings, order_down, doublings, order_up}

pub two-pow : (r : ℕ) → 2 ^ (r + 1) ≡ 2 ^ r * 2
two-pow r = ap (λ x. 2 ^ x) (let e : r + 1 ≡ suc r = omega arith in e) ∙ pow-suc 2 r

pub pow_le : (m n : ℕ) → m ≤ n → 2 ^ m ≤ 2 ^ n
pow_le m n le = pow-le-pow_right (ground arith) le

doublings-least :
    (k n order : ℕ)
    → order + k ≡ 64
    → n ≤ 2 ^ 63
    → ((q : ℕ) → q < order → 2 ^ q < n)
    → (r : ℕ) × (doublings k n (2 ^ order) order ≡ ok r)
      × (n ≤ 2 ^ r)
      × ((q : ℕ) → q < r → 2 ^ q < n)
unfolding doublings
doublings-least zero n order e small below =
    absurd (let h : 2 ^ 63 < n = below 63 (omega (arith, e)) in omega (arith, h, small))
doublings-least (suc k) n order e small below = elim (Bool-cases (ltb (2 ^ order) n)) [
  | inr stop ↦ (order, rw stop, (ground (arith, stop)), below)
  | inl more ↦
      let lt : 2 ^ order < n = ltb→lt (2 ^ order) n more in
      let low : order < 63 = (elim (Bool-cases (ltb order 63)) [
        | inl l ↦ ltb→lt order 63 l
        | inr l ↦
            (let h = pow_le 63 order (ground (arith, l)) in absurd (omega (arith, h, lt, small)))
      ]) in
      let h = pow_le (order + 1) 63 (omega (arith, low)) in
      let twice : 2 ^ (order + 1) ≡ 2 ^ order * 2 = two-pow order in
      let wrap : (2 ^ order * 2) % 2 ^ 64 ≡ 2 ^ (order + 1) = omega (arith, h, twice) in
      let (r, e', up, least) = doublings-least k n (order + 1) (omega (arith, e)) small (λ q l.
        elim (Bool-cases (ltb q order)) [
          | inl l' ↦ below q (ltb→lt q order l')
          | inr l' ↦
              (let same : q ≡ order = ground (arith, l, l') in subst (λ x. 2 ^ x < n) (sym same) lt)
        ]) in
      (r, rw (more, wrap) e', up, least)
]

-- `order_up` of 1 to 2 ^ 63 is the least order whose blocks are large enough.
pub order_up-least :
    (n : ℕ)
    → 0 < n
    → n ≤ 2 ^ 63
    → (r : ℕ) × (order_up n ≡ ok r) × (n ≤ 2 ^ r) × ((q : ℕ) → q < r → 2 ^ q < n)
unfolding order_up
order_up-least n pos small =
    let (r, e, up, least) = doublings-least 64 n 0 refl small (λ q l. absurd (omega (arith, l))) in
    let not_zero : (n == 0) ≡ false = ground (arith, pos) in (r, rw not_zero e, up, least)

halvings-greatest :
    (k n : ℕ)
    → 0 < n
    → n < 2 ^ k
    → (r : ℕ) × (halvings k n ≡ ok r) × (2 ^ r ≤ n) × (n < 2 ^ (r + 1))
unfolding halvings
halvings-greatest zero n pos lt = absurd (let h : n < 1 = lt in omega (arith, h, pos))
halvings-greatest (suc k) n pos lt = elim (Bool-cases (n / 2 == 0)) [
  | inl last ↦ (0, rw last, (omega (arith, pos)), (ground (arith, last)))
  | inr more ↦
      let twice = pow-suc 2 k in
      let (r, e, le, gt) =
        halvings-greatest k (n / 2) (ground (arith, more)) (omega (arith, lt, twice)) in
      let t1 : 2 ^ (r + 1) ≡ 2 ^ r * 2 = two-pow r in
      let t2 : 2 ^ (r + 1 + 1) ≡ 2 ^ (r + 1) * 2 = two-pow (r + 1) in
      (r + 1, rw (more, e), omega (arith, le, t1), omega (arith, gt, t2))
]

-- `order_down` of a number from 1 on is the order of the largest block that fits into it.
pub order_down-greatest :
    (n : ℕ) → 0 < n → n < 2 ^ 64 → (r : ℕ) × (order_down n ≡ ok r) × (2 ^ r ≤ n) × (n < 2 ^ (r + 1))
unfolding order_down
order_down-greatest n pos lt =
    let (r, e, le, gt) = halvings-greatest 64 n pos lt in
    let not_zero : (n == 0) ≡ false = ground (arith, pos) in (r, rw not_zero e, le, gt)
