-- ===== src/Vmm/Map.antt =====
-- Mapping a region, and checking the access to a range of user memory.
use oslabcode.Prelude.{
  ℕ, zero, suc, ◌+◌, ◌%◌, ◌^◌, ◌≤◌, ◌<◌, ◌≡◌, refl, sym, ap, ◌∙◌, inl, inr, Bool, true, false, ◌&&◌,
  none, some, List, [], ◌∷◌, arith, ltb, if◌then◌else◌, ltb→lt, Bool-cases, Option-cases, ◌>>=◌,
  Run, ok, panic, length,
}
use mathlib.Core.Path.{subst}
use oslabcode.Vmm.{
  map_pages, Vma, Mm, holds, find_walk, find_vma, vma_create, insert_vma_struct, user_access,
  vm_read, vm_write, vm_stack, pgsize, has_flag, mem_check_walk, user_mem_check,
}
use oslabcode.Vmm.Areas.{
  IsSorted, IsMm, find_vma-find_walk, apart, FindsToo, insert_vma_struct-ok,
  insert_vma_struct-panic,
}

-- How many areas end above an address.
abbrev above : ℕ → List Vma → ℕ
above a [] = 0
above a (v ∷ vs) = (if ltb a v.vm_end then 1 else 0) + above a vs

above-le : (a : ℕ) (vs : List Vma) → above a vs ≤ length vs
above-le a [] = omega arith
above-le a (v ∷ vs) = ground (arith, above-le a vs)

above_mono : (a b : ℕ) (vs : List Vma) → a ≤ b → above b vs ≤ above a vs
above_mono a b [] le = omega arith
above_mono a b (v ∷ vs) le = ground (arith, above_mono a b vs)

holds-found : (a : ℕ) (vs : List Vma) (v : Vma) → find_walk a vs ≡ some v → a < v.vm_end
unfolding find_walk
holds-found a [] v e = cc
holds-found a (u ∷ us) v e = ground (arith, holds-found a us v)

not_below : (a lo : ℕ) (vs : List Vma) (v : Vma) → IsSorted lo vs → find_walk a vs ≡ some v → lo ≤ a
unfolding find_walk
not_below a lo [] v s e = cc
not_below a lo (u ∷ us) v s e = ground (arith, not_below a u.vm_end us v s.2)

found-same :
    (a b lo : ℕ) (vs : List Vma) (v : Vma)
    → IsSorted lo vs
    → find_walk a vs ≡ some v
    → a ≤ b
    → b < v.vm_end
    → find_walk b vs ≡ some v
unfolding find_walk
found-same a b lo [] v s e le lt = cc
found-same a b lo (u ∷ us) v s e le lt =
    ground (arith, found-same a b u.vm_end us v s.2, not_below a u.vm_end us v s.2)

-- Behind the end of an area that is found, one area fewer ends.
above-found :
    (a : ℕ) (vs : List Vma) (v : Vma) → find_walk a vs ≡ some v → above v.vm_end vs < above a vs
unfolding find_walk
above-found a [] v e = cc
above-found a (u ∷ us) v e = elim (Bool-cases (holds a u)) [
  | inl here ↦ ground (arith, above_mono a v.vm_end us)
  | inr there ↦ ground (arith, above-found a us v, holds-found a us v)
]

-- Every address of the range lies in an area with the right that the access needs.
abbrev pub Allowed : List Vma → (start end : ℕ) → Bool → Type 0
Allowed vs start end write =
    (a : ℕ)
    → start ≤ a
    → a < end
    → (v : Vma) × (find_walk a vs ≡ some v)
      × (has_flag v.vm_flags (if write then vm_write else vm_read) ≡ true)

-- The check of a range ends, keeps the areas, and allows only what they allow.
abbrev Checked : Mm → (start end : ℕ) → Bool → Run (Bool × Mm) → Type 0
Checked mm start end write r =
    (answer : Bool) × (mm' : Mm) × (r ≡ ok (answer, mm'))
    × IsMm mm'
    × (mm'.mmap_list ≡ mm.mmap_list)
    × (answer ≡ true → Allowed mm.mmap_list start end write)

-- A range that begins in an allowed area is allowed when the rest is.
Allowed-step :
    (vs : List Vma) (start end : ℕ) (write : Bool) (v : Vma)
    → IsSorted 0 vs
    → find_walk start vs ≡ some v
    → has_flag v.vm_flags (if write then vm_write else vm_read) ≡ true
    → Allowed vs v.vm_end end write
    → Allowed vs start end write
Allowed-step vs start end write v s e right rest a lo hi = elim (Bool-cases (ltb a v.vm_end)) [
  | inl here ↦ (v, found-same start a 0 vs v s e lo (ltb→lt _ _ here), right)
  | inr far ↦ rest a (ground arith) hi
]

walk-next :
    (k : ℕ) (mm : Mm) (start end : ℕ) (write : Bool) (v : Vma)
    → ltb start end ≡ true
    → (find_vma mm start).0 ≡ some v
    → ltb start v.vm_start ≡ false
    → has_flag v.vm_flags (if write then vm_write else vm_read) ≡ true
    → (write && has_flag v.vm_flags vm_stack && ltb start (v.vm_start + pgsize)) ≡ false
    → mem_check_walk (suc k) mm start end write
      ≡ mem_check_walk k (find_vma mm start).1 v.vm_end end write
unfolding mem_check_walk
walk-next k mm start end write v more e inside right clear = rw (more, e, inside, right, clear)

walk-Checked :
    (k : ℕ) (mm : Mm) (start end : ℕ) (write : Bool)
    → IsMm mm
    → above start mm.mmap_list < k
    → Checked mm start end write (mem_check_walk k mm start end write)
unfolding mem_check_walk
walk-Checked zero mm start end write w lt = absurd (omega arith)
walk-Checked (suc k) mm start end write w lt = elim (Bool-cases (ltb start end)) [
  | inr done ↦ (true, mm, rw done, w, refl, λ _ a lo hi. absurd (ground arith))
  | inl more ↦
      let (same, w', list) = find_vma-find_walk mm start w in
      elim (Option-cases (find_vma mm start).0) [
        | inl e ↦ (false, (find_vma mm start).1, rw (more, e), w', list, λ f. cc)
        | inr (v, e) ↦
            let found = sym same ∙ e in
            let (answer, mm'', e', w'', list', allowed) =
              walk-Checked k (find_vma mm start).1 v.vm_end end write w' (
                subst (λ vs. above v.vm_end vs < k) (sym list)
                  (omega (arith, above-found start mm.mmap_list v found))) in
            elim (Bool-cases (ltb start v.vm_start)) [
              | inl low ↦ (false, (find_vma mm start).1, rw (more, e, low), w', list, λ f. cc)
              | inr inside ↦
                  elim (Bool-cases (has_flag v.vm_flags (if write then vm_write else vm_read))) [
                    | inr barred ↦ (
                      false,
                      (find_vma mm start).1,
                      rw (more, e, inside, barred),
                      w',
                      list,
                      λ f. cc,
                    )
                    | inl right ↦
                        elim (Bool-cases (
                          write
                          && has_flag v.vm_flags vm_stack
                          && ltb start (v.vm_start + pgsize))) [
                            | inl guard ↦ (
                              false,
                              (find_vma mm start).1,
                              rw (more, e, inside, right, guard),
                              w',
                              list,
                              λ f. cc,
                            )
                            | inr clear ↦ (
                              answer,
                              mm'',
                              walk-next k mm start end write v more e inside right clear ∙ e',
                              w'',
                              list' ∙ list,
                              λ t.
                                  Allowed-step mm.mmap_list start end write v w.sorted found right
                                    (subst (λ vs. Allowed vs v.vm_end end write) list (allowed t)),
                            )
                          ]
                  ]
            ]
      ]
]

-- `user_mem_check` ends within its rounds, keeps the areas, and says yes only for a range of user
-- addresses all of which lie in areas with the right to read, or to write.
pub user_mem_check-Allowed :
    (mm : Mm) (addr len : ℕ) (write : Bool)
    → IsMm mm
    → (answer : Bool) × (mm' : Mm) × (user_mem_check mm addr len write ≡ ok (answer, mm'))
      × IsMm mm'
      × (mm'.mmap_list ≡ mm.mmap_list)
      × (answer ≡ true → Allowed mm.mmap_list addr ((addr + len) % 2 ^ 64) write)
unfolding user_mem_check
user_mem_check-Allowed mm addr len write w =
    let end = (addr + len) % 2 ^ 64 in
    elim (Bool-cases (user_access addr end)) [
      | inr out ↦ (false, mm, rw out, w, refl, λ f. cc)
      | inl user ↦ rw user (
          walk-Checked (length mm.mmap_list + 1) mm addr end write w
            (omega (arith, above-le addr mm.mmap_list)))
    ]

find_walk-apart :
    (addr : ℕ) (v : Vma) (us : List Vma)
    → apart v us ≡ true
    → holds addr v ≡ true
    → find_walk addr us ≡ none
unfolding find_walk
find_walk-apart addr v [] free h = refl
find_walk-apart addr v (u ∷ us) free h = ground (arith, find_walk-apart addr v us)

-- What `mm_map` does when no area holds the start of the pages: it inserts the new area.
map_pages-insert :
    (mm : Mm) (start end vm_flags : ℕ)
    → user_access start end ≡ true
    → (find_vma mm start).0 ≡ none
    → let v : Vma = record { vm_start = start; vm_end = end; vm_flags = vm_flags } in
      map_pages true mm start end vm_flags
      ≡ (insert_vma_struct (find_vma mm start).1 v >>= λ mm'. ok (0, some v, mm'))
unfolding map_pages vma_create
map_pages-insert mm start end vm_flags user e = rw (user, e)

-- Mapping pages of user addresses that overlap no area, with memory for the new area, adds it,
-- keeps the list of areas valid, and gives back the new area.
pub map_pages-ok :
    (mm : Mm) (start end vm_flags : ℕ)
    → let v : Vma = record { vm_start = start; vm_end = end; vm_flags = vm_flags } in
      IsMm mm
      → user_access start end ≡ true
      → apart v mm.mmap_list ≡ true
      → (mm' : Mm) × (map_pages true mm start end vm_flags ≡ ok (0, some v, mm'))
        × IsMm mm'
        × FindsToo v mm.mmap_list mm'.mmap_list
map_pages-ok mm start end vm_flags w user free =
    let v : Vma = record { vm_start = start; vm_end = end; vm_flags = vm_flags } in
    let ne : start < end = ground (arith, user) in
    let (same, w', list) = find_vma-find_walk mm start w in
    let e = same ∙ find_walk-apart start v mm.mmap_list free (ground (arith, ne)) in
    let (mm', done, w'', finds) =
      insert_vma_struct-ok (find_vma mm start).1 v w' ne
        (subst (λ vs. apart v vs ≡ true) (sym list) free) in
    (
      mm',
      map_pages-insert mm start end vm_flags user e ∙ ap (λ r. r >>= λ m. ok (0, some v, m)) done,
      w'',
      subst (λ vs. FindsToo v vs mm'.mmap_list) list finds,
    )

-- Mapping pages that reach into an area behind their start fails an assertion, where no area
-- holds the start: the test for an overlap looks at the area of the start only.
pub map_pages-panic :
    (mm : Mm) (start end vm_flags : ℕ)
    → let v : Vma = record { vm_start = start; vm_end = end; vm_flags = vm_flags } in
      IsMm mm
      → user_access start end ≡ true
      → find_walk start mm.mmap_list ≡ none
      → apart v mm.mmap_list ≡ false
      → map_pages true mm start end vm_flags ≡ panic
map_pages-panic mm start end vm_flags w user free over =
    let v : Vma = record { vm_start = start; vm_end = end; vm_flags = vm_flags } in
    let (same, w', list) = find_vma-find_walk mm start w in
    map_pages-insert mm start end vm_flags user (same ∙ free)
    ∙ ap (λ r. r >>= λ m. ok (0, some v, m))
        (insert_vma_struct-panic (find_vma mm start).1 v w'
          (subst (λ vs. apart v vs ≡ false) (sym list) over))
