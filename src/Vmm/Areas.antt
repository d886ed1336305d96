-- ===== src/Vmm/Areas.antt =====
-- The sorted list of areas: looking up and inserting.
use oslabcode.Prelude.{
  ℕ, ◌+◌, ◌≤◌, ◌<◌, ◌≡◌, refl, sym, ◌∙◌, inl, inr, Bool, true, false, ◌&&◌, ◌||◌, Option, none,
  some, List, [], ◌∷◌, arith, ltb, leb, if◌then◌else◌, ltb→lt, lt→ltb, Bool-cases, Option-cases, ok,
  panic, length,
}
use oslabcode.Vmm.{
  Vma, Mm, holds, find_walk, cache_hit, find_vma, check_vma_overlap, check_before, insert_vma_walk,
  insert_vma_struct,
}

-- The areas are not empty, and stand one behind the other from `lo` on.
abbrev pub IsSorted : ℕ → List Vma → Type 0
IsSorted lo [] = Unit
IsSorted lo (v ∷ vs) = (lo ≤ v.vm_start) × (v.vm_start < v.vm_end) × IsSorted v.vm_end vs

abbrev pub IsCached : Option Vma → List Vma → Type 0
IsCached none vs = Unit
IsCached (some v) vs = find_walk v.vm_start vs ≡ some v

-- The list is sorted, and the cache holds one of its areas.
pub record IsMm (mm : Mm) : Type 0 where
  pub sorted : IsSorted 0 mm.mmap_list
  pub cached : IsCached mm.mmap_cache mm.mmap_list
  pub counted : mm.map_count ≡ length mm.mmap_list

-- No area below `lo` is found in a list that begins there.
find_walk-below :
    (addr lo : ℕ) (vs : List Vma) → IsSorted lo vs → addr < lo → find_walk addr vs ≡ none
unfolding find_walk
find_walk-below addr lo [] s lt = refl
find_walk-below addr lo (v ∷ vs) s lt = ground (arith, find_walk-below addr v.vm_end vs)

-- What is found holds the address.
find_walk-holds :
    (addr : ℕ) (vs : List Vma) (v : Vma) → find_walk addr vs ≡ some v → holds addr v ≡ true
unfolding find_walk
find_walk-holds addr [] v e = cc
find_walk-holds addr (u ∷ us) v e = ground (arith, find_walk-holds addr us v)

-- An area of the list is what is found at all its addresses.
find_walk-same :
    (addr lo : ℕ) (vs : List Vma) (v : Vma)
    → IsSorted lo vs
    → find_walk v.vm_start vs ≡ some v
    → holds addr v ≡ true
    → find_walk addr vs ≡ some v
unfolding find_walk
find_walk-same addr lo [] v s e h = cc
find_walk-same addr lo (u ∷ us) v s e h =
    ground (arith, find_walk-same addr u.vm_end us v, find_walk-below v.vm_start u.vm_end us)

-- What is found by an address is found by its first address too.
pub find_walk-start :
    (addr lo : ℕ) (vs : List Vma) (v : Vma)
    → IsSorted lo vs
    → find_walk addr vs ≡ some v
    → find_walk v.vm_start vs ≡ some v
unfolding find_walk
find_walk-start addr lo [] v s e = cc
find_walk-start addr lo (u ∷ us) v s e =
    ground (arith, find_walk-start addr u.vm_end us v, find_walk-below v.vm_start u.vm_end us)

cache-found :
    (addr : ℕ) (c : Option Vma) (vs : List Vma)
    → IsSorted 0 vs
    → IsCached c vs
    → (if cache_hit addr c then c else find_walk addr vs) ≡ find_walk addr vs
cache-found addr none vs s k = refl
cache-found addr (some v) vs s k = elim (Bool-cases (holds addr v)) [
  | inl hit ↦ rw hit (sym (find_walk-same addr 0 vs v s k hit))
  | inr miss ↦ rw miss
]

find_vma-none :
    (mm : Mm) (addr : ℕ)
    → (if cache_hit addr mm.mmap_cache then mm.mmap_cache else find_walk addr mm.mmap_list) ≡ none
    → find_vma mm addr ≡ (none, mm)
unfolding find_vma
find_vma-none mm addr e = ground (arith, e)

find_vma-some :
    (mm : Mm) (addr : ℕ) (v : Vma)
    → (if cache_hit addr mm.mmap_cache then mm.mmap_cache else find_walk addr mm.mmap_list) ≡ some v
    → find_vma mm addr ≡ (some v, record mm { mmap_cache = some v })
unfolding find_vma
find_vma-some mm addr v e = ground (arith, e)

-- On a valid list the cache changes no answer of `find_vma`: it answers as the walk of the list,
-- which it leaves as it is, and the cache stays true.
pub find_vma-find_walk :
    (mm : Mm) (addr : ℕ)
    → IsMm mm
    → ((find_vma mm addr).0 ≡ find_walk addr mm.mmap_list)
      × IsMm (find_vma mm addr).1
      × ((find_vma mm addr).1.mmap_list ≡ mm.mmap_list)
find_vma-find_walk mm addr v =
    let same = cache-found addr mm.mmap_cache mm.mmap_list v.sorted v.cached in
    elim (Option-cases (find_walk addr mm.mmap_list)) [
      | inl e ↦ rw (find_vma-none mm addr (same ∙ e), e) (refl, v, refl)
      | inr (u, e) ↦
          rw (find_vma-some mm addr u (same ∙ e), e)
            (
              refl,
              record {
                sorted = v.sorted;
                cached = find_walk-start addr 0 mm.mmap_list u v.sorted e;
                counted = v.counted;
              },
              refl,
            )
    ]

-- The area shares no address with those of the list.
abbrev pub apart : Vma → List Vma → Bool
apart v [] = true
apart v (u ∷ us) = (leb u.vm_end v.vm_start || leb v.vm_end u.vm_start) && apart v us

apart-above :
    (v : Vma) (lo : ℕ) (us : List Vma) → IsSorted lo us → v.vm_end ≤ lo → apart v us ≡ true
apart-above v lo [] s h = refl
apart-above v lo (u ∷ us) s h = ground (arith, apart-above v u.vm_end us s.2)

abbrev BeforeOk : Option Vma → ℕ → ℕ → Type 0
BeforeOk none lo start = Unit
BeforeOk (some u) lo start = (u.vm_start < u.vm_end) × (u.vm_end ≡ lo) × (u.vm_end ≤ start)

abbrev BeforeBad : Option Vma → ℕ → Type 0
BeforeBad none start = ⊥
BeforeBad (some u) start = start < u.vm_end

check_before-ok :
    (before : Option Vma) (lo : ℕ) (v : Vma)
    → v.vm_start < v.vm_end
    → BeforeOk before lo v.vm_start
    → check_before before v ≡ ok tt
unfolding check_vma_overlap
check_before-ok none lo v ne b = refl
check_before-ok (some u) lo v ne b = ground arith

check_before-bad :
    (before : Option Vma) (v : Vma) → BeforeBad before v.vm_start → check_before before v ≡ panic
unfolding check_vma_overlap
check_before-bad none v b = absurd b
check_before-bad (some u) v b = ground arith

check-ok :
    (v u : Vma)
    → v.vm_start < v.vm_end
    → u.vm_start < u.vm_end
    → v.vm_end ≤ u.vm_start
    → check_vma_overlap v u ≡ ok tt
unfolding check_vma_overlap
check-ok v u p q r = ground arith

check-bad : (v u : Vma) → u.vm_start < v.vm_end → check_vma_overlap v u ≡ panic
unfolding check_vma_overlap
check-bad v u p = ground arith

-- What a lookup finds after an insertion.
abbrev pub FindsToo : Vma → List Vma → List Vma → Type 0
FindsToo v us us' =
    (addr : ℕ) → find_walk addr us' ≡ (if holds addr v then some v else find_walk addr us)

insert-ok :
    (before : Option Vma) (lo : ℕ) (v : Vma) (us : List Vma)
    → v.vm_start < v.vm_end
    → lo ≤ v.vm_start
    → BeforeOk before lo v.vm_start
    → IsSorted lo us
    → apart v us ≡ true
    → (us' : List Vma) × (insert_vma_walk before v us ≡ ok us')
      × IsSorted lo us'
      × FindsToo v us us'
      × (length us' ≡ length us + 1)
unfolding find_walk insert_vma_walk
insert-ok before lo v [] ne low b s free =
    (v ∷ [], rw (check_before-ok before lo v ne b), (low, ne, tt), λ addr. refl, omega arith)
insert-ok before lo v (u ∷ us) ne low b s free = elim (Bool-cases (ltb v.vm_start u.vm_start)) [
  | inl early ↦ (
    v ∷ u ∷ us,
    rw (early, check_before-ok before lo v ne b, check-ok v u ne s.1 (ground (arith, free))),
    (low, ne, (ground (arith, free), s.1, s.2)),
    λ addr. refl,
    omega arith,
  )
  | inr late ↦
      let (us', e, s', finds, more) =
        insert-ok (some u) u.vm_end v us ne (ground (arith, free)) (s.1, refl, ground (arith, free))
          s.2 (ground (arith, free)) in
      (u ∷ us', rw (late, e), (s.0, s.1, s'), λ addr. ground (arith, finds addr, free), omega arith)
]

-- A walk behind an area that overlaps fails, and so does one that meets such an area.
insert-bad :
    (before : Option Vma) (v : Vma) (us : List Vma) (lo : ℕ)
    → IsSorted lo us
    → v.vm_start < lo
    → BeforeBad before v.vm_start
    → insert_vma_walk before v us ≡ panic
unfolding insert_vma_walk
insert-bad before v [] lo s lt b = rw (check_before-bad before v b)
insert-bad before v (u ∷ us) lo s lt b = ground (arith, check_before-bad before v b)

insert-panic :
    (before : Option Vma) (lo : ℕ) (v : Vma) (us : List Vma)
    → v.vm_start < v.vm_end
    → BeforeOk before lo v.vm_start
    → IsSorted lo us
    → apart v us ≡ false
    → insert_vma_walk before v us ≡ panic
unfolding insert_vma_walk
insert-panic before lo v [] ne b s bad = cc
insert-panic before lo v (u ∷ us) ne b s bad = elim (Bool-cases (ltb v.vm_start u.vm_start)) [
  | inl early ↦ rw (
    early,
    check_before-ok before lo v ne b,
    check-bad v u (ground (arith, apart-above v u.vm_end us s.2)),
  )
  | inr late ↦ elim (Bool-cases (leb u.vm_end v.vm_start)) [
    | inl behind ↦
        rw (
          late,
          insert-panic (some u) u.vm_end v us ne (s.1, refl, ground arith) s.2 (ground arith),
        )
    | inr over ↦ rw (late, insert-bad (some u) v us u.vm_end s.2 (ground arith) (ground arith))
  ]
]

apart-holds :
    (addr : ℕ) (v u : Vma) (us : List Vma)
    → find_walk addr us ≡ some u
    → apart v us ≡ true
    → holds addr v ≡ false
unfolding find_walk
apart-holds addr v u [] e free = cc
apart-holds addr v u (w ∷ us) e free = ground (arith, apart-holds addr v u us)

IsCached-after :
    (c : Option Vma) (v : Vma) (us us' : List Vma)
    → IsCached c us
    → apart v us ≡ true
    → FindsToo v us us'
    → IsCached c us'
IsCached-after none v us us' k free finds = tt
IsCached-after (some u) v us us' k free finds =
    ground (arith, finds u.vm_start, apart-holds u.vm_start v u us)

-- Inserting a non-empty area that overlaps none keeps the list sorted and the cache true, and a
-- lookup then finds the new area at its addresses and what it found before at all others.
pub insert_vma_struct-ok :
    (mm : Mm) (v : Vma)
    → IsMm mm
    → v.vm_start < v.vm_end
    → apart v mm.mmap_list ≡ true
    → (mm' : Mm) × (insert_vma_struct mm v ≡ ok mm')
      × IsMm mm'
      × FindsToo v mm.mmap_list mm'.mmap_list
unfolding insert_vma_struct
insert_vma_struct-ok mm v w ne free =
    let (us', e, s, finds, more) =
      insert-ok none 0 v mm.mmap_list ne (omega arith) tt w.sorted free in
    (
      record mm { mmap_list = us'; map_count = mm.map_count + 1 },
      rw (lt→ltb _ _ ne, e),
      record {
        sorted = s;
        cached = IsCached-after mm.mmap_cache v mm.mmap_list us' w.cached free finds;
        counted = omega (arith, w.counted);
      },
      finds,
    )

-- Inserting an area that overlaps one of a valid list fails an assertion.
pub insert_vma_struct-panic :
    (mm : Mm) (v : Vma) → IsMm mm → apart v mm.mmap_list ≡ false → insert_vma_struct mm v ≡ panic
unfolding insert_vma_struct
insert_vma_struct-panic mm v w bad = elim (Bool-cases (ltb v.vm_start v.vm_end)) [
  | inl ne ↦ rw (ne, insert-panic none 0 v mm.mmap_list (ltb→lt _ _ ne) tt w.sorted bad)
  | inr empty ↦ rw empty
]
