-- ===== src/Pmm/FirstFit.antt =====
-- What a first-fit allocator promises, on the sequence of its free blocks, each with its first
-- page and its size.
use oslabcode.Prelude.{
  ℕ, ◌+◌, ◌-◌, ◌≤◌, ◌<◌, ◌≡◌, refl, ap, Option, none, some, List, [], ◌∷◌, ◌++◌, arith, ltb, leb,
  ◌==◌, if◌then◌else◌,
}
use oslabcode.Pmm.{Page}
use oslabcode.Pmm.Inv.{Blocks, total-le}

abbrev pub Block : Type 0
Block = ℕ × ℕ

-- The first block that is large enough gives its first pages; what is left stays in its place.
unfoldable pub alloc : ℕ → List Block → Option ℕ × List Block
alloc n [] = (none, [])
alloc n ((p, size) ∷ bs) =
    let later = alloc n bs in
    if leb n size
    then (some p, if ltb n size then (p + n, size - n) ∷ bs else bs)
    else (later.0, (p, size) ∷ later.1)

-- A block joins the block behind it if they touch.
unfoldable pub join : Block → List Block → List Block
join (p, size) [] = (p, size) ∷ []
join (p, size) ((q, more) ∷ bs) =
    if p + size == q then (p, size + more) ∷ bs else (p, size) ∷ (q, more) ∷ bs

-- A block that comes behind another joins it if they touch, and then the block behind.
unfoldable pub join_behind : (before b : Block) → List Block → List Block
unfolding join
join_behind (o, less) (p, size) bs =
    if o + less == p then join (o, less + size) bs else (o, less) ∷ join (p, size) bs

-- The place of a freed block behind the block `before`.
unfoldable pub free_behind : (before b : Block) → List Block → List Block
unfolding join_behind
free_behind before b [] = join_behind before b []
free_behind before b (c ∷ bs) =
    let later = free_behind c b bs in
    if ltb b.0 c.0 then join_behind before b (c ∷ bs) else before ∷ later

-- A freed block goes to its place in address order, and joins the neighbours that it touches.
unfoldable pub free : Block → List Block → List Block
unfolding free_behind join
free b [] = b ∷ []
free b (c ∷ bs) = let later = free_behind c b bs in if ltb b.0 c.0 then join b (c ∷ bs) else later

-- The blocks that a list of heads stands for.
abbrev pub view : (ℕ → Page) → List ℕ → List Block
view pages [] = []
view pages (x ∷ xs) = (x, (pages x).property) ∷ view pages xs

pub view-append :
    (pages : ℕ → Page) (xs ys : List ℕ) → view pages (xs ++ ys) ≡ view pages xs ++ view pages ys
view-append pages [] ys = refl
view-append pages (x ∷ xs) ys = ap (λ l. (x, (pages x).property) ∷ l) (view-append pages xs ys)

-- The view of blocks depends on the pages between their bounds only.
pub view-frame :
    (pages pages' : ℕ → Page) (lo hi : ℕ) (xs : List ℕ)
    → ((p : ℕ) → lo ≤ p → p < hi → pages' p ≡ pages p)
    → Blocks pages lo xs hi
    → view pages' xs ≡ view pages xs
view-frame pages pages' lo hi [] f b = refl
view-frame pages pages' lo hi (x ∷ xs) f b =
    let e = f x b.0 (omega (arith, total-le pages (x + (pages x).property) hi xs b.3)) in
    rw
      (e, view-frame pages pages' (x + (pages x).property) hi xs (λ p l u. f p (omega arith) u) b.3)
