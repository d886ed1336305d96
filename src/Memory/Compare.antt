-- ===== src/Memory/Compare.antt =====
-- What the comparison of two strings tells: strcmp of labcode/lab8/libs/string.c.
use oslabcode.Prelude.{
  ℕ, zero, suc, ◌+◌, ◌-◌, ◌^◌, ◌≤◌, ◌<◌, ◌≡◌, ◌≢◌, sym, ap, ◌∙◌, ◌⊎◌, inl, inr, true, false, arith,
  ◌==◌, Bool-cases, ok,
}
use mathlib.Core.Path.{subst}
use oslabcode.Memory.{Memory, byte_diff, strcmp}
use oslabcode.Memory.Copy.{IsString, tail-IsString, first-IsString, end-IsString}

-- Two strings agree up to the end of the first, of the length `len`.
abbrev pub IsSame : Memory → (s1 s2 len : ℕ) → Type 0
IsSame mem s1 s2 len = (i : ℕ) → i ≤ len → mem (s1 + i) ≡ mem (s2 + i)

-- They differ at a place that is not behind the end of the first.
pub record IsOther (mem : Memory) (s1 s2 len : ℕ) : Type 0 where
  pub at : ℕ
  pub inside : at ≤ len
  pub differ : mem (s1 + at) ≢ mem (s2 + at)

first_only : (mem : Memory) (s1 s2 i : ℕ) → i ≡ 0 → mem s1 ≡ mem s2 → mem (s1 + i) ≡ mem (s2 + i)
first_only mem s1 s2 i start e =
    let at1 : s1 + i ≡ s1 = omega (arith, start) in
    let at2 : s2 + i ≡ s2 = omega (arith, start) in ap mem at1 ∙ e ∙ sym (ap mem at2)

first_differ : (mem : Memory) (s1 s2 : ℕ) → mem s1 ≢ mem s2 → mem (s1 + 0) ≢ mem (s2 + 0)
first_differ mem s1 s2 ne e =
    let at1 : s1 + 0 ≡ s1 = omega arith in
    let at2 : s2 + 0 ≡ s2 = omega arith in ne (sym (ap mem at1) ∙ e ∙ ap mem at2)

next_place : (s i : ℕ) → s + (i + 1) ≡ s + 1 + i
next_place s i = omega arith

IsSame-next :
    (mem : Memory) (s1 s2 len : ℕ)
    → mem s1 ≡ mem s2
    → IsSame mem (s1 + 1) (s2 + 1) len
    → IsSame mem s1 s2 (suc len)
IsSame-next mem s1 s2 len e agree i lt = elim (Bool-cases (i == 0)) [
  | inl start ↦ first_only mem s1 s2 i (ground (arith, start)) e
  | inr later ↦
      let pred : i ≡ i - 1 + 1 = ground (arith, later) in
      subst (λ j. mem (s1 + j) ≡ mem (s2 + j)) (sym pred)
        (ap mem (next_place s1 (i - 1))
          ∙ agree (i - 1) (ground (arith, later, lt))
          ∙ sym (ap mem (next_place s2 (i - 1))))
]

-- Of bytes, strcmp tells with 0 that two strings agree, and with another number that they do not.
pub strcmp-cases :
    (rounds len : ℕ) (mem : Memory) (s1 s2 : ℕ)
    → IsString mem s1 len
    → len < rounds
    → ((a : ℕ) → mem a < 2 ^ 8)
    → (c : ℕ) × (strcmp rounds mem s1 s2 ≡ ok c)
      × ((((c == 0) ≡ true) × IsSame mem s1 s2 len) ⊎ (((c == 0) ≡ false) × IsOther mem s1 s2 len))
unfolding strcmp
strcmp-cases zero len mem s1 s2 h enough bytes = absurd (omega (arith, enough))
strcmp-cases (suc n) zero mem s1 s2 h enough bytes =
    let e = end-IsString mem s1 h in
    let stop : (mem s1 == 0) ≡ true = ground (arith, e) in
    let b1 = bytes s1 in
    let b2 = bytes s2 in
    (
      byte_diff (mem s1) (mem s2),
      rw stop,
      elim (Bool-cases (mem s1 == mem s2)) [
        | inl same ↦ inl (
          ground (arith, same, b1, b2),
          λ i lt. first_only mem s1 s2 i (omega (arith, lt)) (ground (arith, same)),
        )
        | inr other ↦ inr (
          ground (arith, other, b1, b2),
          record {
            at = 0;
            inside = omega arith;
            differ = first_differ mem s1 s2 (ground (arith, other));
          },
        )
      ],
    )
strcmp-cases (suc n) (suc len) mem s1 s2 h enough bytes =
    let first = first-IsString mem s1 len h in
    let more : (mem s1 == 0) ≡ false = ground (arith, first) in
    let b1 = bytes s1 in
    let b2 = bytes s2 in
    elim (Bool-cases (mem s1 == mem s2)) [
      | inr other ↦ (
        byte_diff (mem s1) (mem s2),
        rw (more, other),
        inr (
          ground (arith, other, b1, b2),
          record {
            at = 0;
            inside = omega arith;
            differ = first_differ mem s1 s2 (ground (arith, other));
          },
        ),
      )
      | inl same ↦
          let (c, e, told) =
            strcmp-cases n len mem (s1 + 1) (s2 + 1) (tail-IsString mem s1 len h)
              (omega (arith, enough)) bytes in
          (
            c,
            rw (more, same) e,
            elim told [
              | inl (zero_c, agree) ↦
                  inl (zero_c, IsSame-next mem s1 s2 len (ground (arith, same)) agree)
              | inr (some_c, o) ↦ inr (
                some_c,
                record {
                  at = o.at + 1;
                  inside = let k = o.inside in omega (arith, k);
                  differ = λ eq.
                      o.differ
                        (sym (ap mem (next_place s1 o.at)) ∙ eq ∙ ap mem (next_place s2 o.at));
                },
              )
            ],
          )
    ]
