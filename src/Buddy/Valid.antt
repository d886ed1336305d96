-- ===== src/Buddy/Valid.antt =====
-- What well-formed free lists of the buddy system are.
use oslabcode.Prelude.{ℕ, ◌+◌, ◌^◌, ◌≤◌, ◌<◌, ◌≡◌, true, false, none, length, count, Distinct}
use oslabcode.Buddy.{Buddy, buddy_block}
use oslabcode.Buddy.Merge.{IsBlock}

-- A free block is aligned to its order, its first page is its only head, its pages are not
-- reserved, and its buddy is not free, since the two would be merged.
pub record IsFreeBlock (s : Buddy) (p order : ℕ) : Type 0 where
  pub aligned : (m : ℕ) × IsBlock s p m order
  pub headed : s.is_head p ≡ true
  pub sized : s.property p ≡ order
  pub alone : (q : ℕ) → p < q → q < p + 2 ^ order → s.is_head q ≡ false
  pub usable : (q : ℕ) → p ≤ q → q < p + 2 ^ order → s.reserved q ≡ false
  pub merged : order < s.max_orders → buddy_block s p order ≡ none

-- Every free list holds free blocks, each once, and is counted, and every head is on its list.
pub record IsBuddy (s : Buddy) : Type 0 where
  pub blocks : (p order : ℕ) → 0 < count p (s.free_list order) → IsFreeBlock s p order
  pub distinct : (order : ℕ) → Distinct (s.free_list order)
  pub counted : (order : ℕ) → s.nr_free order ≡ length (s.free_list order)
  pub listed :
      (p order : ℕ) → s.is_head p ≡ true → s.property p ≡ order → 0 < count p (s.free_list order)
  pub small : s.max_pages ≤ 2 ^ 63
