-- ===== src/Tests/Areas.antt =====
-- Two areas of an address space, and two timers.
use oslabcode.Prelude.{
  ℕ, ◌+◌, ◌%◌, ◌^◌, ◌≡◌, refl, Bool, true, some, [], ◌∷◌, arith, ◌==◌, if◌then◌else◌, ok, panic,
}
use oslabcode.Vmm.{Vma, Mm, find_walk, find_vma, insert_vma_struct, map_pages, user_mem_check}
use oslabcode.Vmm.Areas.{IsMm, FindsToo, find_vma-find_walk, insert_vma_struct-ok}
use oslabcode.Vmm.Map.{Allowed, user_mem_check-Allowed, map_pages-panic}
use oslabcode.Sched.Timer.{Timers, add_timer, del_timer}
use oslabcode.Sched.Timer.Deadlines.{
  deadlines, insert_deadline, delete_deadline, add_timer-insert, del_timer-delete,
}

abbrev area : ℕ → ℕ → Vma
area start end = record { vm_start = start; vm_end = end; vm_flags = 3 }

abbrev two_areas : Mm
two_areas = record {
  mmap_list = area 0x400000 0x402000 ∷ area 0x500000 0x503000 ∷ [];
  mmap_cache = some (area 0x500000 0x503000);
  map_count = 2;
  mm_count = 0;
}

two_areas-IsMm : IsMm two_areas
two_areas-IsMm = record {
  sorted = (ground arith, ground arith, (ground arith, ground arith, tt));
  cached = unfold find_walk in refl;
  counted = refl;
}

find_in_second :
    ((find_vma two_areas 0x501000).0 ≡ find_walk 0x501000 two_areas.mmap_list)
    × IsMm (find_vma two_areas 0x501000).1
    × ((find_vma two_areas 0x501000).1.mmap_list ≡ two_areas.mmap_list)
find_in_second = find_vma-find_walk two_areas 0x501000 two_areas-IsMm

insert_between :
    (mm' : Mm) × (insert_vma_struct two_areas (area 0x402000 0x403000) ≡ ok mm')
    × IsMm mm'
    × FindsToo (area 0x402000 0x403000) two_areas.mmap_list mm'.mmap_list
insert_between =
    insert_vma_struct-ok two_areas (area 0x402000 0x403000) two_areas-IsMm (ground arith) refl

map_over : map_pages true two_areas 0x4f0000 0x501000 3 ≡ panic
map_over =
    map_pages-panic two_areas 0x4f0000 0x501000 3 two_areas-IsMm refl (unfold find_walk in refl)
      refl

check_first :
    (answer : Bool) × (mm' : Mm) × (user_mem_check two_areas 0x400800 0x1000 true
      ≡ ok (answer, mm'))
    × IsMm mm'
    × (mm'.mmap_list ≡ two_areas.mmap_list)
    × (answer ≡ true → Allowed two_areas.mmap_list 0x400800 ((0x400800 + 0x1000) % 2 ^ 64) true)
check_first = user_mem_check-Allowed two_areas 0x400800 0x1000 true two_areas-IsMm

-- Timers 1 and 2 run out after 3 and after 3 + 4 ticks; timer 5 is to run out after 6.
abbrev two_timers : Timers
two_timers = record {
  timer = λ t. record { expires = if t == 1 then 3 else (if t == 2 then 4 else 6); proc = t };
  timer_list = 1 ∷ 2 ∷ [];
}

add_between :
    (ts' : Timers) × (add_timer two_timers 5 ≡ ok ts')
    × (deadlines ts'.timer 0 ts'.timer_list
        ≡ insert_deadline (5, 6) (deadlines two_timers.timer 0 two_timers.timer_list))
add_between = add_timer-insert two_timers 5 (ground arith) refl (λ a. ground arith)

delete_first :
    deadlines (del_timer two_timers 1).timer 0 (del_timer two_timers 1).timer_list
    ≡ delete_deadline 1 (deadlines two_timers.timer 0 two_timers.timer_list)
delete_first = del_timer-delete two_timers 1 (λ a. ground arith) (ground arith, (ground arith, tt))
