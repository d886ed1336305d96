-- ===== src/Tests/Buddies.antt =====
-- A buddy system of 21 pages, of which 16 are used.
use oslabcode.Prelude.{
  none, ◌⊎◌, ◌^◌, ℕ, ◌+◌, ◌≤◌, ◌<◌, ◌≡◌, refl, sym, ap, true, false, Option, some, [], arith, Run,
  ok, panic, out_of_fuel,
}
use mathlib.Core.Path.{subst}
use oslabcode.Buddy.{
  Buddy, halvings, order_down, doublings, order_up, buddy_system_init, reset_pages,
  buddy_system_init_memmap, split_block, give_block, find_order, buddy_system_alloc_pages,
  buddy_system_free_pages, buddy_system_nr_free_pages,
}
use oslabcode.Buddy.RoundTrip.{SameFree, free-alloc_pages}
use oslabcode.Buddy.Valid.{IsBuddy}
use oslabcode.Buddy.Held.{IsHeld}
use oslabcode.Buddy.Alloc.{buddy_system_alloc_pages-IsHeld}
use oslabcode.Buddy.Release.{buddy_system_free_pages-IsBuddy}
use oslabcode.Buddy.Total.{buddy_system_alloc_pages-total}
use oslabcode.Buddy.Start.{init_memmap-IsBuddy}

abbrev no_buddies : Buddy
no_buddies = record {
  free_list = λ _. [];
  nr_free = λ _. 0;
  is_head = λ _. false;
  reserved = λ _. true;
  property = λ _. 0;
  ref = λ _. 0;
  base_addr = 0;
  max_orders = 0;
  max_pages = 0;
}

buddies_start :
    (s' : Buddy) × (order : ℕ) × (buddy_system_init_memmap (buddy_system_init no_buddies) 100 21
      ≡ ok s')
    × IsBuddy s'
    × (order ≤ 15)
    × (s'.max_orders ≡ order)
    × (buddy_system_nr_free_pages s' ≡ 2 ^ order)
    × (2 ^ order ≤ 21)
    × (21 < 2 ^ (order + 1))
buddies_start =
    init_memmap-IsBuddy no_buddies 100 21 (ground arith) (ground arith) (λ q lo hi. refl)
      (λ q. refl) (λ o l. (refl, refl))

-- The state of a run that succeeds.
abbrev state_of : {A : Type 0} → (A → Buddy) → Run A → Buddy
state_of state (ok a) = state a
state_of state panic = no_buddies
state_of state out_of_fuel = no_buddies

buddies : Buddy
unfolding buddy_system_init buddy_system_init_memmap reset_pages order_down halvings
buddies = state_of (λ s. s) (buddy_system_init_memmap (buddy_system_init no_buddies) 100 21)

buddies-IsBuddy : IsBuddy buddies
unfolding buddies
buddies-IsBuddy =
    let (s, _, e, v, _, _, _, _, _) =
      init_memmap-IsBuddy no_buddies 100 21 (ground arith) (ground arith) (λ q lo hi. refl)
        (λ q. refl) (λ o l. (refl, refl)) in
    subst IsBuddy (ap (state_of (λ s. s)) (sym e)) v

without_three : Buddy
unfolding buddies buddy_system_alloc_pages order_up doublings find_order give_block split_block
without_three = state_of (λ (r : Option ℕ × Buddy). r.1) (buddy_system_alloc_pages buddies 3)

three_given : buddy_system_alloc_pages buddies 3 ≡ ok (some 100, without_three)
unfolding without_three buddies buddy_system_alloc_pages order_up doublings find_order give_block
    split_block
three_given = refl

three_back :
    (s'' : Buddy) × (buddy_system_free_pages without_three 100 3 ≡ ok s'') × SameFree buddies s''
three_back = free-alloc_pages buddies 3 100 without_three buddies-IsBuddy three_given

three_room : 3 ≤ buddies.max_pages
unfolding buddies
three_room = ground arith

three_total :
    (order : ℕ) × (3 ≤ 2 ^ order)
    × ((q : ℕ) → q < order → 2 ^ q < 3)
    × (((buddy_system_alloc_pages buddies 3 ≡ ok (none, buddies))
          × ((o : ℕ) → order ≤ o → o ≤ buddies.max_orders → buddies.free_list o ≡ []))
        ⊎ ((p : ℕ) × (s' : Buddy) × (buddy_system_alloc_pages buddies 3 ≡ ok (some p, s'))
            × IsHeld s' p order))
three_total = buddy_system_alloc_pages-total buddies 3 buddies-IsBuddy (ground arith) three_room

without_three-IsHeld : IsHeld without_three 100 2
without_three-IsHeld =
    let (order, up, fits, held) =
      buddy_system_alloc_pages-IsHeld buddies 3 100 without_three buddies-IsBuddy three_given in
    subst (IsHeld without_three 100) (same up) held
  where
    same : {order : ℕ} → order_up 3 ≡ ok order → order ≡ 2
    same up = let h : order_up 3 ≡ ok 2 = unfold order_up doublings in refl in cc

three_fit : 3 ≤ without_three.max_pages
unfolding without_three buddies buddy_system_alloc_pages order_up doublings find_order give_block
    split_block
three_fit = ground arith

three_freed : (s' : Buddy) × (buddy_system_free_pages without_three 100 3 ≡ ok s') × IsBuddy s'
unfolding order_up doublings
three_freed =
    buddy_system_free_pages-IsBuddy without_three 100 3 2 (ground arith) three_fit refl
      (ground arith) without_three-IsHeld
