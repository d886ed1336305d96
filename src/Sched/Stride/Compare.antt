-- ===== src/Sched/Stride/Compare.antt =====
-- The comparison of strides over 32 bits that wrap round.
use oslabcode.Prelude.{ℕ, ◌+◌, ◌%◌, ◌^◌, ◌<◌, ◌≡◌, arith, ltb, ◌==◌, if◌then◌else◌}
use oslabcode.Sched.Stride.{Sign, minus, zero_sign, plus, stride_comp}

-- Which of two unbounded strides is less.
abbrev pub true_comp : ℕ → ℕ → Sign
true_comp a b = if a == b then zero_sign else (if ltb b a then plus else minus)

-- Two strides that lie within 2 ^ 31 of one another compare, by their low 32 bits, as they do.
pub stride_comp_lem :
    (a b : ℕ)
    → a < b + 2 ^ 31
    → b < a + 2 ^ 31
    → stride_comp (a % 2 ^ 32) (b % 2 ^ 32) ≡ true_comp a b
unfolding stride_comp
stride_comp_lem a b h k = ground arith
