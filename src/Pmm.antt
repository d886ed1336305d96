-- ===== src/Pmm.antt =====
-- The first-fit page allocator of labcode/lab8/kern/mm/default_pmm.c, over the linked store of
-- libs/list.h. A page is known by its index in `pages`.
pub mod Inv
pub mod FirstFit
pub mod Alloc
pub mod BestFit
pub mod Merge
pub mod Insert
pub mod Free
pub mod Tail
use oslabcode.Prelude.{
  ℕ, zero, suc, ◌+◌, ◌-◌, ◌*◌, ◌/◌, ◌%◌, ◌^◌, ◌≤◌, ◌<◌, ◌≡◌, ◌≢◌, refl, sym, ap, ◌∙◌, ◌↔◌, ◌⊎◌, inl,
  inr, Bool, true, false, not, ◌&&◌, ◌||◌, Option, none, some, List, [], ◌∷◌, ◌++◌, map,
  append_assoc, append-nil, arith, ltb, leb, ◌==◌, if◌then◌else◌, ltb→lt, lt→ltb, le→ltb, ==_iff,
  Bool-cases, Option-cases, update, ◌>>=◌, ◌>>◌, assert, Run, ok, panic, out_of_fuel, length,
  length-append, count, count-append, Distinct, fun_ext, min,
}
use oslabcode.Links.{
  Links, list_init, list_add, list_add_before, list_del, list_empty, list_next, list_prev,
}

-- `struct Page`, with the two bits of `flags` that are used.
pub record Page : Type 0 where
  pub ref : ℕ
  pub reserved : Bool
  pub is_head : Bool
  pub property : ℕ

-- `free_area`, the page descriptors and the links, with `npage` descriptors in all.
pub record Pmm : Type 0 where
  pub npage : ℕ
  pub pages : ℕ → Page
  pub links : Links
  pub nr_free : ℕ

-- `unsigned int` holds 32 bits.
abbrev pub u32 : ℕ → ℕ
u32 x = x % 2 ^ 32

-- The address of the list head, and of the `page_link` of a page.
abbrev pub free_list : ℕ
free_list = 0

abbrev pub page_link : ℕ → ℕ
page_link p = p + 1

abbrev pub le2page : ℕ → ℕ
le2page le = le - 1

abbrev pub set_page : (ℕ → Page) → ℕ → (Page → Page) → ℕ → Page
set_page pages p f = update pages p (f (pages p))

unfoldable pub default_init : Pmm → Pmm
unfolding list_init
default_init m = record m { links = list_init m.links free_list; nr_free = 0 }

-- Each round of a walk sees one entry of the list; the entries are pages, so these rounds are
-- enough also for a walk that meets the page it has inserted.
abbrev pub rounds : Pmm → ℕ
rounds m = m.npage + 2

-- The walk that puts `base` into a list that is not empty.
unfoldable pub insert_walk : ℕ → Links → (base le : ℕ) → Run Links
unfolding list_add list_add_before list_next
insert_walk zero s base le = out_of_fuel
insert_walk (suc k) s base le =
    let le' = list_next s le in
    let s' = if list_next s le' == free_list then list_add s le' (page_link base) else s in
    let rest = insert_walk k s' base le' in
    if le' == free_list
    then ok s
    else (if ltb base (le2page le') then ok (list_add_before s le' (page_link base)) else rest)

-- `base` goes into the free list, at its place.
unfoldable pub insert_block : Pmm → ℕ → Run Links
unfolding insert_walk list_empty list_add
insert_block m base =
    if list_empty m.links free_list
    then ok (list_add m.links free_list (page_link base))
    else insert_walk (rounds m) m.links base free_list

-- The loop of `default_init_memmap` over the `n` pages from `p`.
unfoldable pub init_pages : ℕ → ℕ → (ℕ → Page) → Run (ℕ → Page)
init_pages zero p pages = ok pages
init_pages (suc n) p pages = do
  assert (pages p).reserved
  init_pages n (p + 1)
      (update pages p (record { ref = 0; reserved = false; is_head = false; property = 0 }))

unfoldable pub set_head : (ℕ → Page) → (base n : ℕ) → ℕ → Page
set_head pages base n = set_page pages base (λ p. record p { property = u32 n; is_head = true })

unfoldable pub default_init_memmap : Pmm → (base n : ℕ) → Run Pmm
unfolding init_pages set_head insert_block
default_init_memmap m base n = do
  assert (ltb 0 n)
  pages ← init_pages n base m.pages
  let m' = record m { pages = set_head pages base n; nr_free = u32 (m.nr_free + n) }
  s ← insert_block m' base
  ok (record m' { links = s })

-- The first block of at least `n` pages behind `le`.
unfoldable pub find_block : ℕ → Pmm → (n le : ℕ) → Run (Option ℕ)
unfolding list_next
find_block zero m n le = out_of_fuel
find_block (suc k) m n le =
    let le' = list_next m.links le in
    let p = le2page le' in
    let rest = find_block k m n le' in
    if le' == free_list then ok none else (if leb n (m.pages p).property then ok (some p) else rest)

-- What `default_alloc_pages` does with the block `page` that it has found.
unfoldable pub take_block : Pmm → (page n : ℕ) → Pmm
unfolding list_del list_add list_prev
take_block m page n =
    let before = list_prev m.links (page_link page) in
    let s = list_del m.links (page_link page) in
    let size = (m.pages page).property in
    let cut = ltb n size in
    let pages =
      if cut
      then set_page m.pages (page + n) (λ p. record p { property = size - n; is_head = true })
      else m.pages in
    record m {
      links = if cut then list_add s before (page_link (page + n)) else s;
      pages = set_page pages page (λ p. record p { is_head = false });
      nr_free = m.nr_free - n;
    }

unfoldable pub default_alloc_pages : Pmm → ℕ → Run (Option ℕ × Pmm)
unfolding find_block take_block
default_alloc_pages m n = do
  assert (ltb 0 n)
  if ltb m.nr_free n then ok (none, m) else do
    found ← find_block (rounds m) m n free_list
    elim found [ none ↦ ok (none, m) | some page ↦ ok (some page, take_block m page n) ]

-- The loop of `default_free_pages` over the `n` pages from `p`.
unfoldable pub clear_pages : ℕ → ℕ → (ℕ → Page) → Run (ℕ → Page)
clear_pages zero p pages = ok pages
clear_pages (suc n) p pages = do
  assert (not (pages p).reserved && not (pages p).is_head)
  clear_pages n (p + 1)
      (set_page pages p (λ q. record q { ref = 0; reserved = false; is_head = false }))

-- The block at `q` becomes the end of the block at `p`.
unfoldable pub fuse : Pmm → (p q : ℕ) → Pmm
unfolding list_del
fuse m p q =
    let size = u32 ((m.pages p).property + (m.pages q).property) in
    record m {
      pages =
          set_page (set_page m.pages p (λ b. record b { property = size })) q
            (λ b. record b { is_head = false });
      links = list_del m.links (page_link q);
    }

-- Joining `base` to the block that ends where it begins: the block's base and the new state.
unfoldable pub merge_before : Pmm → ℕ → ℕ × Pmm
unfolding list_prev
merge_before m base =
    let le = list_prev m.links (page_link base) in
    let p = le2page le in
    if not (le == free_list) && (p + (m.pages p).property == base)
    then (p, fuse m p base)
    else (base, m)

-- Joining the block that begins where `base` ends.
unfoldable pub merge_after : Pmm → ℕ → Pmm
unfolding list_next
merge_after m base =
    let le = list_next m.links (page_link base) in
    let p = le2page le in
    if not (le == free_list) && (base + (m.pages base).property == p) then fuse m base p else m

unfoldable pub default_free_pages : Pmm → (base n : ℕ) → Run Pmm
unfolding clear_pages set_head insert_block merge_before merge_after
default_free_pages m base n = do
  assert (ltb 0 n)
  pages ← clear_pages n base m.pages
  let m' = record m { pages = set_head pages base n; nr_free = u32 (m.nr_free + n) }
  s ← insert_block m' base
  let (base', m'') = merge_before (record m' { links = s }) base
  ok (merge_after m'' base')

unfoldable pub default_nr_free_pages : Pmm → ℕ
default_nr_free_pages m = m.nr_free
