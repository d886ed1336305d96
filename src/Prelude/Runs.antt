-- ===== src/Prelude/Runs.antt =====
-- Kernel code that may stop: a failed `assert` ends in `panic`, and a loop that is given too few
-- rounds in `out_of_fuel`.
use mathlib.Core.Path.{◌≡◌, refl}
use mathlib.Core.Bool.{Bool, true, false}

pub data Run {ℓ} (A : Type ℓ) : Type ℓ where
  out_of_fuel panic : Run A
  ok : A → Run A

infixl 5 ◌>>=◌ ◌>>◌
abbrev pub ◌>>=◌ {ℓ κ} : {A : Type ℓ} {B : Type κ} → Run A → (A → Run B) → Run B
out_of_fuel >>= rest = out_of_fuel
panic >>= rest = panic
ok value >>= rest = rest value

abbrev pub ◌>>◌ {ℓ} : {B : Type ℓ} → Run (Unit {0}) → Run B → Run B
m >> k = m >>= λ _. k

-- `assert(b)`
abbrev pub assert : Bool → Run (Unit {0})
assert true = ok tt
assert false = panic

-- A chain that succeeds has a first part that succeeds, with the rest after it.
pub chain_ok {ℓ κ} :
    {A : Type ℓ} {B : Type κ} (first : Run A) (rest : A → Run B) (last : B)
    → (first >>= rest) ≡ ok last
    → (middle : A) × (first ≡ ok middle) × (rest middle ≡ ok last)
chain_ok out_of_fuel rest last done = cc
chain_ok panic rest last done = cc
chain_ok (ok middle) rest last done = (middle, refl, done)
