-- ===== src/Buddy/Release.antt =====
-- The release of a held block, `buddy_system_free_pages` of buddy_system_pmm.c.
use oslabcode.Prelude.{
  ℕ, zero, suc, ◌+◌, ◌-◌, ◌*◌, ◌/◌, ◌%◌, ◌^◌, ◌≤◌, ◌<◌, ◌≡◌, refl, sym, ap, ◌∙◌, ◌⊎◌, inl, inr,
  true, false, ◌&&◌, none, some, arith, ltb, leb, if◌then◌else◌, Option-cases, update, ok, fun_ext,
}
use mathlib.Core.Path.{subst}
use oslabcode.Buddy.{
  Buddy, add_block, order_up, buddy_location, buddy_block, clear_flags, joined, merge_blocks,
  buddy_system_free_pages,
}
use oslabcode.Buddy.Orders.{two-pow}
use oslabcode.Buddy.Merge.{pow_pos}
use oslabcode.Buddy.Steps.{Cleared, clear_flags-Cleared}
use oslabcode.Buddy.Valid.{IsBuddy}
use oslabcode.Buddy.Held.{IsHeld, halves}
use oslabcode.Buddy.Alloc.{hide, buddy_block-fewer, property-IsHeld}
use oslabcode.Buddy.RoundTrip.{free_parts}
use oslabcode.Buddy.Join.{dropped, dropped-IsHeld}
use oslabcode.Buddy.Finish.{buddy_block-some, upper_room, lower_parity, add_block-IsBuddy}

-- A round of the loop that finds the buddy `page`, on the state `t` with the block `b`.
module _ (t : Buddy) (b o page : ℕ) (held : IsHeld (hide t b) b o)
    (found : buddy_block t b o ≡ some page) where
  next_base : ℕ
  next_base = if buddy_location t b o then b else page

  next : Buddy
  next = joined t b page o (buddy_location t b o)

  some_page :
      (t.is_head page ≡ true)
      × (t.property page ≡ o)
      × (((buddy_location t b o ≡ true) × (page ≡ b + 2 ^ o))
          ⊎ ((buddy_location t b o ≡ false) × (page ≡ b - 2 ^ o)))
  some_page = buddy_block-some t b o page found

  next-IsHeld : IsHeld (hide next next_base) next_base (o + 1)
  unfolding next next_base
  next-IsHeld =
      let (h, z, at) = some_page in
      let (m, block) = held.at in
      let twice = two-pow o in
      elim at [
        | inl (l, e) ↦
            let even : m % 2 ≡ 0 = lower_parity t b m o block l in
            let half : m ≡ m / 2 * 2 = omega (arith, even) in
            let wide : b ≡ t.base_addr + m / 2 * 2 ^ (o + 1) =
              block
              ∙ ap (λ x. t.base_addr + x * 2 ^ o) half
              ∙ sym (halves t.base_addr (m / 2) (2 ^ o)).0
              ∙ ap (λ x. t.base_addr + m / 2 * x) (sym twice) in
            let i = held.valid.listed page o (ground (arith, h, e, pow_pos o)) z in
            let d =
              dropped-IsHeld (hide t b) b o page held i b (m / 2) wide twice (inl (refl, e)) in
            rw l (
              subst (λ f. IsHeld (record (dropped (hide t b) page o) { is_head = f }) b (o + 1))
                (fun_ext (λ q. ground arith)) d)
        | inr (l, e) ↦
            let (odd, room) = upper_room t b m o block l in
            let half : m - 1 ≡ m / 2 * 2 = omega (arith, odd) in
            let wide : page ≡ t.base_addr + m / 2 * 2 ^ (o + 1) =
              (let g : page ≡ t.base_addr + (m - 1) * 2 ^ o = omega (arith, e, room) in g)
              ∙ ap (λ x. t.base_addr + x * 2 ^ o) half
              ∙ sym (halves t.base_addr (m / 2) (2 ^ o)).0
              ∙ ap (λ x. t.base_addr + m / 2 * x) (sym twice) in
            let i = held.valid.listed page o (ground (arith, h, e, room, pow_pos o)) z in
            let d =
              dropped-IsHeld (hide t b) b o page held i page (m / 2) wide twice
                (inr (refl, omega (arith, e, room))) in
            rw l (
              subst (λ f. IsHeld (record (dropped (hide t b) page o) { is_head = f }) page (o + 1))
                (fun_ext (λ q. ground arith)) d)
      ]

  one_round : (k : ℕ) → merge_blocks (suc k) t b o ≡ merge_blocks k next next_base (o + 1)
  unfolding merge_blocks next next_base
  one_round k = rw (merge_blocks, found)

  next_orders : next.max_orders ≡ t.max_orders
  unfolding next
  next_orders = refl

-- What the loop leaves: the block that it has got is held, and has no free buddy, or is of the
-- last order.
record Merged (t : Buddy) (k o : ℕ) (result : Buddy × ℕ × ℕ) : Type 0 where
  state : Buddy
  base : ℕ
  order : ℕ
  is : result ≡ (state, base, order)
  held : IsHeld (hide state base) base order
  stopped : (order ≡ o + k) ⊎ (buddy_block (hide state base) base order ≡ none)
  orders : state.max_orders ≡ t.max_orders

merge_blocks-Merged :
    (k : ℕ) (t : Buddy) (b o : ℕ) → IsHeld (hide t b) b o → Merged t k o (merge_blocks k t b o)
unfolding merge_blocks
merge_blocks-Merged zero t b o held = record {
  state = t;
  base = b;
  order = o;
  is = refl;
  held = held;
  stopped = inl (omega arith);
  orders = refl;
}
merge_blocks-Merged (suc k) t b o held = elim (Option-cases (buddy_block t b o)) [
  | inl gone ↦ record {
    state = t;
    base = b;
    order = o;
    is = rw (merge_blocks, gone);
    held = held;
    stopped = inr (buddy_block-fewer t (hide t b) refl (λ x o h. ground (arith, h)) b o gone);
    orders = refl;
  }
  | inr (page, found) ↦
      let r =
        merge_blocks-Merged k (next t b o page held found) (next_base t b o page held found) (o + 1)
          (next-IsHeld t b o page held found) in
      record {
        state = r.state;
        base = r.base;
        order = r.order;
        is = one_round t b o page held found k ∙ r.is;
        held = r.held;
        stopped = elim r.stopped [ inl all ↦ inl (omega (arith, all)) | inr gone ↦ inr gone ];
        orders = r.orders ∙ next_orders t b o page held found;
      }
]

-- The block that was held is put on the free list of its order after merging.
put_back :
    (t : Buddy) (b o : ℕ) (r : Buddy × ℕ × ℕ)
    → (m : Merged t (t.max_orders - o) o r) → IsBuddy (add_block m.state m.base m.order)
put_back t b o r m =
    subst (λ f. IsBuddy (record (add_block m.state m.base m.order) { is_head = f }))
      (fun_ext (λ q. ground arith))
      (add_block-IsBuddy (hide m.state m.base) m.base m.order m.held (λ more. elim m.stopped [
        | inl all ↦ absurd (omega (arith, all, more, m.orders))
        | inr gone ↦ gone
      ]))

-- The state before merging, when the loop over the pages of a held block has changed no flag.
module _ (s t : Buddy) (p n order : ℕ) (held : IsHeld s p order) (c : Cleared s t) where
  before : Buddy
  before = record t { property = update t.property p n; is_head = update t.is_head p true }

  same_but_ref : record s { property = update s.property p n; ref = t.ref } ≡ hide before p
  unfolding before
  same_but_ref =
      let out : s.is_head p ≡ false = held.clear p (omega arith) (omega (arith, pow_pos order)) in
      let heads : s.is_head ≡ update (update t.is_head p true) p false =
        fun_ext (λ q. ground (arith, c.heads q, out)) in
      let reserves : s.reserved ≡ t.reserved = fun_ext (λ q. sym (c.reserves q)) in
      let properties : update s.property p n ≡ update t.property p n =
        ap (λ f. update f p n) (sym c.kept.0) in
      ap (λ f. record s { property = update s.property p n; ref = t.ref; is_head = f }) heads
      ∙ ap (λ f. record s { property = f; ref = t.ref; is_head = (hide before p).is_head })
          properties
      ∙ ap
          (λ f. record before {
            free_list = f;
            nr_free = s.nr_free;
            reserved = s.reserved;
            is_head = (hide before p).is_head;
            base_addr = s.base_addr;
            max_orders = s.max_orders;
            max_pages = s.max_pages;
          })
          (sym c.lists.0)
      ∙ ap
          (λ f. record before {
            nr_free = f;
            reserved = s.reserved;
            is_head = (hide before p).is_head;
            base_addr = s.base_addr;
            max_orders = s.max_orders;
            max_pages = s.max_pages;
          })
          (sym c.lists.1)
      ∙ ap
          (λ f. record before {
            reserved = f;
            is_head = (hide before p).is_head;
            base_addr = s.base_addr;
            max_orders = s.max_orders;
            max_pages = s.max_pages;
          })
          reserves
      ∙ ap
          (λ f. record before {
            is_head = (hide before p).is_head;
            base_addr = f;
            max_orders = s.max_orders;
            max_pages = s.max_pages;
          })
          (sym c.kept.1)
      ∙ ap
          (λ f. record before {
            is_head = (hide before p).is_head;
            max_orders = f;
            max_pages = s.max_pages;
          })
          (sym c.kept.2)
      ∙ ap (λ f. record before { is_head = (hide before p).is_head; max_pages = f }) (sym c.pages)

  before-IsHeld : IsHeld (hide before p) p order
  before-IsHeld =
      subst (λ x. IsHeld x p order) same_but_ref (property-IsHeld s p order n t.ref held)

  freed :
      (ltb 0 n && leb n s.max_pages) ≡ true
      → order_up n ≡ ok order
      → clear_flags n s p ≡ ok t
      → (s' : Buddy) × (buddy_system_free_pages s p n ≡ ok s') × IsBuddy s'
  unfolding before
  freed range up cleared =
      let m = merge_blocks-Merged (t.max_orders - order) before p order before-IsHeld in
      (
        add_block m.state m.base m.order,
        free_parts s t m.state n p order m.base m.order range up cleared m.is,
        put_back before p order (merge_blocks (t.max_orders - order) before p order) m,
      )

-- Freeing `n` pages from the first page of a held block of the order that `order_up` gives for `n`
-- succeeds and leaves well-formed free lists.
pub buddy_system_free_pages-IsBuddy :
    (s : Buddy) (p n order : ℕ)
    → 0 < n
    → n ≤ s.max_pages
    → order_up n ≡ ok order
    → n ≤ 2 ^ order
    → IsHeld s p order
    → (s' : Buddy) × (buddy_system_free_pages s p n ≡ ok s') × IsBuddy s'
buddy_system_free_pages-IsBuddy s p n order pos small up fits held =
    let (t, cleared, c) = clear_flags-Cleared n s p (λ q lo hi.
      (held.usable q lo (omega (arith, hi, fits)), held.clear q lo (omega (arith, hi, fits)))) in
    freed s t p n order held c (ground (arith, pos, small)) up cleared
