-- ===== src/Prelude/Lists.antt =====
-- Lists measured by native numbers, under the library's names.
use Prim.Native.Nat.{ℕ, suc, ◌+◌, ◌≤◌}
use mathlib.Core.Path.{◌≡◌}
use mathlib.Core.List.{List, [], ◌∷◌, ◌++◌}
use native.Mathlib.Omega.{arith}
use oslabcode.Prelude.Tests.{◌==◌, if◌then◌else◌}

module _ {ℓ} {A : Type ℓ} where
  abbrev pub length : List A → ℕ
  length [] = 0
  length (x ∷ xs) = suc (length xs)

  pub length-append : (front rear : List A) → length (front ++ rear) ≡ length front + length rear
  length-append (first ∷ front) rear = omega (arith, length-append front rear)
  length-append [] rear = omega arith

-- How often a number stands in a list.
abbrev pub count : ℕ → List ℕ → ℕ
count a [] = 0
count a (x ∷ xs) = (if a == x then 1 else 0) + count a xs

-- Occurrences in a list of two parts.
pub count-append :
    (it : ℕ) (front rear : List ℕ) → count it (front ++ rear) ≡ count it front + count it rear
count-append it (first ∷ front) rear = omega (arith, count-append it front rear)
count-append it [] rear = omega arith

-- No number stands twice.
abbrev pub Distinct : List ℕ → Type 0
Distinct xs = (a : ℕ) → count a xs ≤ 1
