-- ===== src/Buddy/Merge.antt =====
-- Merging the blocks that a split has made.
use oslabcode.Prelude.{
  ℕ, zero, suc, ◌+◌, ◌-◌, ◌*◌, ◌%◌, ◌^◌, ◌≤◌, ◌<◌, ◌≡◌, sym, ap, ◌∙◌, ◌⊎◌, inl, inr, true, false,
  some, arith, ltb, ◌==◌, ltb→lt, Bool-cases, fun_ext,
}
use mathlib.Core.Path.{subst}
use native.Mathlib.Nat.{mul-div_cancel, pow-le-pow_right, mul_assoc, mul_comm}
use oslabcode.Buddy.{
  Buddy, add_block, split_block, buddy_location, buddy_block, joined, merge_blocks,
}
use oslabcode.Buddy.Orders.{two-pow}

-- The states agree but for the pages of the block of `size` pages from `p` on, and in the second no
-- page behind the first of the block is the head of a block.
pub record Like (p size : ℕ) (s t : Buddy) : Type 0 where
  pub lists : t.free_list ≡ s.free_list
  pub counts : t.nr_free ≡ s.nr_free
  pub heads : (q : ℕ) → (q < p) ⊎ (p + size ≤ q) → t.is_head q ≡ s.is_head q
  pub properties : (q : ℕ) → (q < p) ⊎ (p + size ≤ q) → t.property q ≡ s.property q
  pub inside : (q : ℕ) → p < q → q < p + size → t.is_head q ≡ false
  pub same_base : t.base_addr ≡ s.base_addr

-- The first `p` is the `m`-th block of its order.
abbrev pub IsBlock : Buddy → (p m order : ℕ) → Type 0
IsBlock s p m order = p ≡ s.base_addr + m * 2 ^ order

pub pow_pos : (c : ℕ) → 0 < 2 ^ c
pow_pos c =
    let h : 2 ^ 0 ≤ 2 ^ c = pow-le-pow_right {n = 2} (ground arith) {i = 0} {j = c} (omega arith) in
    omega (arith, h)

pub location-IsBlock :
    (s : Buddy) (p m order : ℕ) → IsBlock s p m order → buddy_location s p order ≡ (m % 2 == 0)
unfolding buddy_location
location-IsBlock s p m order e =
    let off : p - s.base_addr ≡ m * 2 ^ order = omega (arith, e) in
    rw (off, mul-div_cancel m (pow_pos order))

lower_half : (s : Buddy) (p m c : ℕ) → IsBlock s p m (suc c) → IsBlock s p (m * 2) c
lower_half s p m c e =
    let t : 2 ^ suc c ≡ 2 ^ c * 2 = pow-suc_two c in
    e
    ∙ ap (λ x. s.base_addr + x)
        (ap (λ x. m * x) (t ∙ mul_comm (2 ^ c) 2) ∙ sym (mul_assoc m 2 (2 ^ c)))
  where
    pow-suc_two : (c : ℕ) → 2 ^ suc c ≡ 2 ^ c * 2
    pow-suc_two c = ap (λ x. 2 ^ x) (let e : suc c ≡ c + 1 = omega arith in e) ∙ two-pow c

even : (m : ℕ) → (m * 2 % 2 == 0) ≡ true
even m = ground (arith, let e : m * 2 % 2 ≡ 0 = omega arith in e)

module _ (s t : Buddy) (p m c : ℕ) (block : IsBlock t p m (suc c))
    (like : Like p (2 ^ c) (add_block s (p + 2 ^ c) c) t) where
  is_lower : buddy_location t p c ≡ true
  is_lower = location-IsBlock t p (m * 2) c (lower_half t p m c block) ∙ even m

  finds_upper : buddy_block t p c ≡ some (p + 2 ^ c)
  unfolding buddy_block
  finds_upper =
      let h : t.is_head (p + 2 ^ c) ≡ true =
        like.heads (p + 2 ^ c) (inr (omega arith)) ∙ ground arith in
      let o : t.property (p + 2 ^ c) ≡ c =
        like.properties (p + 2 ^ c) (inr (omega arith)) ∙ ground arith in
      rw (is_lower, h, o) (ground arith)

  one_merge :
      (k : ℕ)
      → merge_blocks (suc k) t p c ≡ merge_blocks k (joined t p (p + 2 ^ c) c true) p (c + 1)
  unfolding merge_blocks
  one_merge k = rw (merge_blocks, finds_upper, is_lower)

  joined-Like :
      ((q : ℕ) → p < q → q < p + 2 ^ (c + 1) → s.is_head q ≡ false)
      → Like p (2 ^ (c + 1)) s (joined t p (p + 2 ^ c) c true)
  joined-Like clear =
      let twice = two-pow c in
      record {
        lists = fun_ext (λ o. ground (arith, ap (λ f. f o) like.lists, ap (λ f. f c) like.lists));
        counts =
            fun_ext (λ o. ground (arith, ap (λ f. f o) like.counts, ap (λ f. f c) like.counts));
        heads = λ q out. elim out [
          | inl l ↦ ground (arith, like.heads q (inl l), pow_pos c)
          | inr l ↦ ground (arith, like.heads q (inr (omega (arith, l, twice))), pow_pos c, twice)
        ];
        properties = λ q out. elim out [
          | inl l ↦ ground (arith, like.properties q (inl l))
          | inr l ↦
              ground (arith, like.properties q (inr (omega (arith, l, twice))), pow_pos c, twice)
        ];
        inside = λ q lo hi. elim (Bool-cases (ltb q (p + 2 ^ c))) [
          | inl l ↦ ground (arith, like.inside q lo (ltb→lt q (p + 2 ^ c) l))
          | inr l ↦ elim (Bool-cases (q == p + 2 ^ c)) [
            | inl here ↦ ground (arith, here)
            | inr there ↦
                ground (arith, there, like.heads q (inr (ground (arith, l))), clear q lo hi)
          ]
        ];
        same_base = like.same_base;
      }

-- Merging from `order` on with the blocks that were split off up to order `c` gives the block of
-- order `c`, in a state like the one before the split.
pub merge-split :
    (c : ℕ) (s t : Buddy) (p m order d k : ℕ)
    → order + d ≡ c
    → IsBlock s p m c
    → ((q : ℕ) → p < q → q < p + 2 ^ c → s.is_head q ≡ false)
    → Like p (2 ^ order) (split_block s p order c) t
    → (t' : Buddy) × (merge_blocks (d + k) t p order ≡ merge_blocks k t' p c) × Like p (2 ^ c) s t'
unfolding split_block
merge-split zero s t p m order d k e block clear like =
    let d0 : d + k ≡ k = omega (arith, e) in
    let o0 : order ≡ 0 = omega (arith, e) in
    (
      t,
      ap (λ x. merge_blocks x t p order) d0 ∙ ap (λ x. merge_blocks k t p x) o0,
      subst (λ x. Like p (2 ^ x) s t) o0 like,
    )
merge-split (suc c) s t p m order d k e block clear like = elim (Bool-cases (ltb order (suc c))) [
  | inr stop ↦
      let d0 : d + k ≡ k = ground (arith, stop, e) in
      let o0 : order ≡ suc c = ground (arith, stop, e) in
      (
        t,
        ap (λ x. merge_blocks x t p order) d0 ∙ ap (λ x. merge_blocks k t p x) o0,
        subst (λ x. Like p (2 ^ x) s t) o0 (rw stop at like),
      )
  | inl more ↦
      let s1 = add_block s (p + 2 ^ c) c in
      let step : c + 1 ≡ suc c = omega arith in
      let twice = two-pow c in
      let clear' : (q : ℕ) → p < q → q < p + 2 ^ (c + 1) → s.is_head q ≡ false =
        λ q lo hi. clear q lo (subst (λ x. q < p + 2 ^ x) step hi) in
      let half = lower_half s p m c block in
      let (t1, e1, like1) =
        merge-split c s1 t p (m * 2) order (d - 1) (suc k) (ground (arith, more, e)) half
          (λ q lo hi. ground (arith, hi, clear' q lo (omega (arith, hi, twice))))
          (rw more at like) in
      let count : d - 1 + suc k ≡ d + k = ground (arith, more, e) in
      let block1 : IsBlock t1 p m (suc c) =
        subst (λ b. p ≡ b + m * 2 ^ suc c) (sym like1.same_base) block in
      (
        joined t1 p (p + 2 ^ c) c true,
        ap (λ x. merge_blocks x t p order) (sym count)
            ∙ e1
            ∙ one_merge s t1 p m c block1 like1 k
            ∙ ap (λ x. merge_blocks k (joined t1 p (p + 2 ^ c) c true) p x) step,
        subst (λ x. Like p (2 ^ x) s (joined t1 p (p + 2 ^ c) c true)) step
            (joined-Like s t1 p m c block1 like1 clear'),
      )
]
