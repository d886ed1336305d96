-- ===== src/Vmm.antt =====
-- The virtual memory areas of labcode/lab8/kern/mm/vmm.c. The list `mmap_list` is the sequence of
-- its areas, which are not written once they are linked.
pub mod Areas
pub mod Map
use oslabcode.Prelude.{
  ℕ, zero, suc, ◌+◌, ◌-◌, ◌*◌, ◌/◌, ◌%◌, ◌^◌, ◌≤◌, ◌<◌, ◌≡◌, ◌≢◌, refl, sym, ap, ◌∙◌, ◌↔◌, ◌⊎◌, inl,
  inr, Bool, true, false, not, ◌&&◌, ◌||◌, Option, none, some, List, [], ◌∷◌, ◌++◌, map,
  append_assoc, append-nil, arith, ltb, leb, ◌==◌, if◌then◌else◌, ltb→lt, lt→ltb, le→ltb, ==_iff,
  Bool-cases, Option-cases, update, ◌>>=◌, ◌>>◌, assert, Run, ok, panic, out_of_fuel, length,
  length-append, e_inval, e_no_mem, e_busy, e_max_open, count, count-append, Distinct, fun_ext, min,
}

-- `struct vma_struct`
pub record Vma : Type 0 where
  pub vm_start : ℕ
  pub vm_end : ℕ
  pub vm_flags : ℕ

-- What vmm.c reads of `struct mm_struct`.
pub record Mm : Type 0 where
  pub mmap_list : List Vma
  pub mmap_cache : Option Vma
  pub map_count : ℕ
  pub mm_count : ℕ

abbrev pub pgsize : ℕ
pgsize = 4096

-- The fresh `mm_struct` of `mm_create`, when there is memory for it.
unfoldable pub mm_create : Bool → Option Mm
mm_create memory =
    if memory
    then some (record { mmap_list = []; mmap_cache = none; map_count = 0; mm_count = 0 })
    else none

unfoldable pub vma_create : Bool → (vm_start vm_end vm_flags : ℕ) → Option Vma
vma_create memory vm_start vm_end vm_flags =
    if memory
    then some (record { vm_start = vm_start; vm_end = vm_end; vm_flags = vm_flags })
    else none

-- Whether an address lies in an area.
abbrev pub holds : ℕ → Vma → Bool
holds addr v = leb v.vm_start addr && ltb addr v.vm_end

-- The loop of `find_vma`.
unfoldable pub find_walk : ℕ → List Vma → Option Vma
find_walk addr [] = none
find_walk addr (v ∷ vs) = if holds addr v then some v else find_walk addr vs

abbrev pub cache_hit : ℕ → Option Vma → Bool
cache_hit addr none = false
cache_hit addr (some v) = holds addr v

-- `find_vma` of an `mm` that is there: the area, and the state with the cache set.
unfoldable pub find_vma : Mm → ℕ → Option Vma × Mm
unfolding find_walk
find_vma mm addr =
    let found =
      if cache_hit addr mm.mmap_cache then mm.mmap_cache else find_walk addr mm.mmap_list in
    (found, elim found [ none ↦ mm | some v ↦ record mm { mmap_cache = some v } ])

unfoldable pub check_vma_overlap : Vma → Vma → Run (Unit {0})
check_vma_overlap before next = do
  assert (ltb before.vm_start before.vm_end)
  assert (leb before.vm_end next.vm_start)
  assert (ltb next.vm_start next.vm_end)

abbrev pub check_before : Option Vma → Vma → Run (Unit {0})
check_before none v = ok tt
check_before (some u) v = check_vma_overlap u v

-- The walk of `insert_vma_struct` behind the area `before`.
unfoldable pub insert_vma_walk : Option Vma → Vma → List Vma → Run (List Vma)
unfolding check_vma_overlap
insert_vma_walk before v [] = do check_before before v; ok (v ∷ [])
insert_vma_walk before v (u ∷ us) =
    let later = (do rest ← insert_vma_walk (some u) v us; ok (u ∷ rest)) in
    if ltb v.vm_start u.vm_start
    then (do check_before before v; check_vma_overlap v u; ok (v ∷ u ∷ us))
    else later

unfoldable pub insert_vma_struct : Mm → Vma → Run Mm
unfolding insert_vma_walk
insert_vma_struct mm v = do
  assert (ltb v.vm_start v.vm_end)
  list ← insert_vma_walk none v mm.mmap_list
  ok (record mm { mmap_list = list; map_count = mm.map_count + 1 })

-- `ROUNDDOWN` and `ROUNDUP` to pages, in 64 bits.
abbrev pub round_down : ℕ → ℕ
round_down a = a - a % pgsize

abbrev pub round_up : ℕ → ℕ
round_up a = round_down ((a + pgsize - 1) % 2 ^ 64)

abbrev pub user_access : ℕ → ℕ → Bool
user_access start end = leb 0x0020_0000 start && ltb start end && leb end 0x8000_0000

-- `mm_map` of the pages from `start` to `end`.
unfoldable pub map_pages : Bool → Mm → (start end vm_flags : ℕ) → Run (ℕ × Option Vma × Mm)
unfolding find_vma vma_create insert_vma_struct
map_pages memory mm start end vm_flags =
    let (found, mm') = find_vma mm start in
    let taken : Bool = elim found [ none ↦ false | some v ↦ ltb v.vm_start end ] in
    if not (user_access start end)
    then ok (e_inval, none, mm)
    else (if taken then ok (e_inval, none, mm') else elim (vma_create memory start end vm_flags) [
      | none ↦ ok (e_no_mem, none, mm')
      | some v ↦ do mm'' ← insert_vma_struct mm' v; ok (0, some v, mm'')
    ])

-- `mm_map` returns the new area through `vma_store`; `memory` says whether `kmalloc` succeeds.
unfoldable pub mm_map : Bool → Mm → (addr len vm_flags : ℕ) → Run (ℕ × Option Vma × Mm)
unfolding map_pages
mm_map memory mm addr len vm_flags =
    map_pages memory mm (round_down addr) (round_up ((addr + len) % 2 ^ 64)) vm_flags

-- `mm_destroy` gives back the areas in the order of the list.
unfoldable pub mm_destroy : Mm → Run (List Vma)
mm_destroy mm = do assert (mm.mm_count == 0); ok mm.mmap_list

abbrev pub vm_read : ℕ
vm_read = 1

abbrev pub vm_write : ℕ
vm_write = 2

abbrev pub vm_stack : ℕ
vm_stack = 8

-- `flags & bit` of a flag that is a power of two.
abbrev pub has_flag : ℕ → ℕ → Bool
has_flag flags bit = (flags / bit) % 2 == 1

-- The loop of `user_mem_check`; a round moves on to the end of an area.
unfoldable pub mem_check_walk : ℕ → Mm → (start end : ℕ) → Bool → Run (Bool × Mm)
unfolding find_vma
mem_check_walk zero mm start end write = out_of_fuel
mem_check_walk (suc k) mm start end write =
    if ltb start end
    then (let (found, mm') = find_vma mm start in
        elim found [
          | none ↦ ok (false, mm')
          | some v ↦
              let rest = mem_check_walk k mm' v.vm_end end write in
              if ltb start v.vm_start
              then ok (false, mm')
              else (if not (has_flag v.vm_flags (if write then vm_write else vm_read))
                  then ok (false, mm')
                  else (if write && has_flag v.vm_flags vm_stack && ltb start (v.vm_start + pgsize)
                      then ok (false, mm')
                      else rest))
        ])
    else ok (true, mm)

-- `user_mem_check` of an `mm` that is there: each round uses up an area.
unfoldable pub user_mem_check : Mm → (addr len : ℕ) → Bool → Run (Bool × Mm)
unfolding mem_check_walk
user_mem_check mm addr len write =
    let end = (addr + len) % 2 ^ 64 in
    if user_access addr end
    then mem_check_walk (length mm.mmap_list + 1) mm addr end write
    else ok (false, mm)
