-- ===== src/Tests/Blocks.antt =====
-- A page allocator with one free block, and one with two.
use oslabcode.Prelude.{
  ℕ, ◌<◌, ◌≡◌, refl, false, ◌||◌, some, [], ◌∷◌, arith, ltb, ◌==◌, if◌then◌else◌, ok,
}
use oslabcode.Pmm.{Page, Pmm, default_alloc_pages, default_free_pages, default_init_memmap}
use oslabcode.Pmm.Inv.{IsFreeList}
use oslabcode.Pmm.FirstFit
use oslabcode.Pmm.FirstFit.{view}
use oslabcode.Pmm.Alloc.{Holds, default_alloc_pages-alloc}
use oslabcode.Pmm.BestFit.{best_fit_alloc_pages}
use oslabcode.Pmm.BestFit.Least.{BestFits, best_fit_alloc_pages-IsLeast}
use oslabcode.Pmm.Insert.{Fits}
use oslabcode.Pmm.Free.{default_free_pages-free, default_init_memmap-append}
use oslabcode.Pmm.Tail.{default_alloc_pages_twice}

-- Pages 0 and 1 belong to the kernel, 4 and 5 are a free block.
abbrev pub page_at : ℕ → Page
page_at p = record {
  ref = 0;
  reserved = ltb p 2;
  is_head = p == 4;
  property = if p == 4 then 2 else 0;
}

abbrev pub one_block : Pmm
one_block = record {
  npage = 8;
  pages = page_at;
  links = record { prev = λ a. if a == 0 then 5 else 0; next = λ a. if a == 0 then 5 else 0 };
  nr_free = 2;
}

pub one_block-IsFreeList : IsFreeList one_block (4 ∷ [])
one_block-IsFreeList = record {
  ring = record { chain = (refl, refl, (refl, refl)); distinct = λ a. ground arith };
  blocks = (ground arith, refl, ground arith, ground arith);
  counted = refl;
  small = ground arith;
}

alloc_one :
    (m' : Pmm) × (default_alloc_pages one_block 1
      ≡ ok ((FirstFit.alloc 1 (view one_block.pages (4 ∷ []))).0, m'))
    × Holds m' (FirstFit.alloc 1 (view one_block.pages (4 ∷ []))).1
alloc_one = default_alloc_pages-alloc one_block 1 (4 ∷ []) one_block-IsFreeList (ground arith)

two_pos : 0 < 2
two_pos = ground arith

pages_2_and_3 : Fits one_block 2 2 two_pos [] (4 ∷ [])
pages_2_and_3 = record {
  low = ground arith;
  high = (ground arith, refl, ground arith, ground arith);
}

pages_0_and_1 : Fits one_block 0 2 two_pos [] (4 ∷ [])
pages_0_and_1 = record {
  low = ground arith;
  high = (ground arith, refl, ground arith, ground arith);
}

free_two :
    (m' : Pmm) × (default_free_pages one_block 2 2 ≡ ok m')
    × Holds m' (FirstFit.free (2, 2) (view one_block.pages (4 ∷ [])))
free_two =
    default_free_pages-free one_block 2 2 two_pos [] (4 ∷ []) one_block-IsFreeList pages_2_and_3 tt
      (λ q lo hi. (ground arith, ground arith))

init_two :
    (m' : Pmm) × (default_init_memmap one_block 0 2 ≡ ok m')
    × Holds m' ((0, 2) ∷ view one_block.pages (4 ∷ []))
init_two =
    default_init_memmap-append one_block 0 2 two_pos [] (4 ∷ []) one_block-IsFreeList pages_0_and_1
      tt (λ q lo hi. ground arith)

-- Pages 1 and 3 are free blocks of a page each.
abbrev two_blocks : Pmm
two_blocks = record {
  npage = 8;
  pages = λ p. record {
    ref = 0;
    reserved = false;
    is_head = p == 1 || p == 3;
    property = if p == 1 || p == 3 then 1 else 0;
  };
  links = record {
    prev = λ a. if a == 0 then 4 else (if a == 4 then 2 else 0);
    next = λ a. if a == 0 then 2 else (if a == 2 then 4 else 0);
  };
  nr_free = 2;
}

two_blocks-IsFreeList : IsFreeList two_blocks (1 ∷ 3 ∷ [])
two_blocks-IsFreeList = record {
  ring = record { chain = (refl, refl, (refl, refl, (refl, refl))); distinct = λ a. ground arith };
  blocks = (ground arith, refl, ground arith, (ground arith, refl, ground arith, ground arith));
  counted = refl;
  small = ground arith;
}

alloc_twice :
    (m1 : Pmm) × (m2 : Pmm) × (m3 : Pmm) × (default_free_pages two_blocks 5 2 ≡ ok m1)
    × (default_alloc_pages m1 2 ≡ ok (some 5, m2))
    × (default_alloc_pages m2 2 ≡ ok (some 5, m3))
alloc_twice =
    default_alloc_pages_twice two_blocks 5 2 3 (1 ∷ []) two_blocks-IsFreeList
      (ground arith, refl, ground arith, (ground arith, refl, ground arith, ground arith))
      (ground arith) (ground arith) (λ q lo hi. (refl, ground arith))
      (ground arith, (ground arith, tt)) (ground arith)

-- Pages 1 to 3 and 5 to 6 are free blocks.
abbrev three_and_two : Pmm
three_and_two = record {
  npage = 8;
  pages = λ p. record {
    ref = 0;
    reserved = false;
    is_head = p == 1 || p == 5;
    property = if p == 1 then 3 else (if p == 5 then 2 else 0);
  };
  links = record {
    prev = λ a. if a == 0 then 6 else (if a == 6 then 2 else 0);
    next = λ a. if a == 0 then 2 else (if a == 2 then 6 else 0);
  };
  nr_free = 5;
}

three_and_two-IsFreeList : IsFreeList three_and_two (1 ∷ 5 ∷ [])
three_and_two-IsFreeList = record {
  ring = record { chain = (refl, refl, (refl, refl, (refl, refl))); distinct = λ a. ground arith };
  blocks = (ground arith, refl, ground arith, (ground arith, refl, ground arith, ground arith));
  counted = refl;
  small = ground arith;
}

fit_two : BestFits three_and_two 2 (1 ∷ 5 ∷ []) (best_fit_alloc_pages three_and_two 2)
fit_two =
    best_fit_alloc_pages-IsLeast three_and_two 2 (1 ∷ 5 ∷ []) three_and_two-IsFreeList
      (ground arith)
