-- ===== src/Bitmap/Alloc.antt =====
-- Which bit the bitmap gives, and that it can be given back.
use oslabcode.Prelude.{
  ℕ, zero, suc, ◌+◌, ◌*◌, ◌/◌, ◌%◌, ◌≤◌, ◌<◌, ◌≡◌, ◌≢◌, refl, sym, ◌⊎◌, inl, inr, true, false, none,
  some, arith, ◌==◌, lt→ltb, ==_iff, Bool-cases, Option-cases, ok, e_no_mem,
}
use mathlib.Core.Path.{subst}
use oslabcode.Bitmap.{
  word_bits, Word, Bitmap, set_bit, find_bit, nonzero, alloc_walk, bitmap_alloc, bitmap_translate,
  bitmap_test, bitmap_free,
}

find_bit-some :
    (k offset : ℕ) (w : Word) (i : ℕ)
    → find_bit k offset w ≡ some i
    → (offset ≤ i) × (i < offset + k) × (w i ≡ true) × ((j : ℕ) → offset ≤ j → j < i → w j ≡ false)
unfolding find_bit
find_bit-some zero offset w i e = cc
find_bit-some (suc k) offset w i e = elim (Bool-cases (w offset)) [
  | inl here ↦
      let same : offset ≡ i = ground (arith, e, here) in
      (
        omega (arith, same),
        omega (arith, same),
        subst (λ j. w j ≡ true) same here,
        λ j lo hi. absurd (omega (arith, same)),
      )
  | inr there ↦
      let (lo, hi, one, below) = find_bit-some k (offset + 1) w i (rw there at e) in
      (
        omega arith,
        omega arith,
        one,
        λ j l h. elim (Bool-cases (j == offset)) [
          | inl same ↦ ground (arith, there)
          | inr other ↦ below j (ground arith) h
        ],
      )
]

find_bit-none :
    (k offset : ℕ) (w : Word)
    → find_bit k offset w ≡ none
    → (j : ℕ) → offset ≤ j
    → j < offset + k
    → w j ≡ false
unfolding find_bit
find_bit-none zero offset w e j lo hi = absurd (omega arith)
find_bit-none (suc k) offset w e j lo hi = elim (Bool-cases (w offset)) [
  | inl here ↦ absurd (ground (arith, e, here))
  | inr there ↦ elim (Bool-cases (j == offset)) [
    | inl same ↦ ground (arith, there)
    | inr other ↦ find_bit-none k (offset + 1) w (rw there at e) j (ground arith) (omega arith)
  ]
]

nonzero-none : (w : Word) → find_bit word_bits 0 w ≡ none → nonzero w ≡ false
nonzero-none w e = rw (nonzero, e)

nonzero-some : (w : Word) (offset : ℕ) → find_bit word_bits 0 w ≡ some offset → nonzero w ≡ true
nonzero-some w offset e = rw (nonzero, e)

-- No bit of the word is 1.
abbrev pub Full : Word → Type 0
Full w = (j : ℕ) → j < word_bits → w j ≡ false

-- The bit is 1, and none before it is.
pub record IsLowest (map : ℕ → Word) (start ix offset : ℕ) : Type 0 where
  pub in_word : offset < word_bits
  pub one : map ix offset ≡ true
  pub words : (i : ℕ) → start ≤ i → i < ix → Full (map i)
  pub bits : (j : ℕ) → j < offset → map ix j ≡ false

alloc_walk-cases :
    (k start : ℕ) (map : ℕ → Word)
    → ((alloc_walk k start map ≡ ok none) × ((i : ℕ) → start ≤ i → i < start + k → Full (map i)))
      ⊎ ((ix : ℕ) × (offset : ℕ) × (alloc_walk k start map ≡ ok (some (ix, offset)))
          × (start ≤ ix)
          × (ix < start + k)
          × IsLowest map start ix offset)
unfolding alloc_walk
alloc_walk-cases zero start map = inl (refl, λ i lo hi. absurd (omega arith))
alloc_walk-cases (suc k) start map = elim (Option-cases (find_bit word_bits 0 (map start))) [
  | inr (offset, e) ↦
      let (_, hi, one, below) = find_bit-some word_bits 0 (map start) offset e in
      inr (
        start,
        offset,
        rw (nonzero-some (map start) offset e, e),
        omega arith,
        omega arith,
        record {
          in_word = omega arith;
          one = one;
          words = λ i lo lt. absurd (omega arith);
          bits = λ j lt. below j (omega arith) lt;
        },
      )
  | inl e ↦
      let here = λ (j : ℕ) (lt : j < word_bits).
        find_bit-none word_bits 0 (map start) e j (omega arith) lt in
      elim (alloc_walk-cases k (start + 1) map) [
        | inl (stop, rest) ↦ inl (
          rw (nonzero-none (map start) e) stop,
          λ i lo hi. elim (Bool-cases (i == start)) [
            | inl same ↦ subst (λ i. Full (map i)) (sym ((==_iff i start).0 same)) here
            | inr other ↦ rest i (ground arith) (omega arith)
          ],
        )
        | inr (ix, offset, found, lo, hi, low) ↦ inr (
          ix,
          offset,
          rw (nonzero-none (map start) e) found,
          omega arith,
          omega arith,
          record {
            in_word = low.in_word;
            one = low.one;
            words = λ i l h. elim (Bool-cases (i == start)) [
              | inl same ↦ subst (λ i. Full (map i)) (sym ((==_iff i start).0 same)) here
              | inr other ↦ low.words i (ground arith) h
            ];
            bits = low.bits;
          },
        )
      ]
]

-- `bitmap_alloc` never fails its assertion: it gives the lowest bit that is 1 and clears it alone,
-- or fails with -E_NO_MEM when all words are 0.
pub bitmap_alloc-IsLowest :
    (b : Bitmap)
    → ((bitmap_alloc b ≡ ok (e_no_mem, 0, b)) × ((i : ℕ) → i < b.nwords → Full (b.map i)))
      ⊎ ((ix : ℕ) × (offset : ℕ) × (bitmap_alloc b
            ≡ ok (0, ix * word_bits + offset, record b { map = set_bit b.map ix offset false }))
          × (ix < b.nwords)
          × IsLowest b.map 0 ix offset)
unfolding bitmap_alloc
bitmap_alloc-IsLowest b = elim (alloc_walk-cases b.nwords 0 b.map) [
  | inl (stop, full) ↦ inl (rw stop, λ i lt. full i (omega arith) (omega arith))
  | inr (ix, offset, found, _, hi, low) ↦ inr (ix, offset, rw (found, low.one), omega arith, low)
]

-- Freeing a block within the bitmap whose bit is 0 succeeds and makes the bit 1, and tests of all
-- other indices answer as before.
pub bitmap_free-bitmap_test :
    (b : Bitmap) (index : ℕ)
    → index < b.nbits
    → bitmap_test b index ≡ ok false
    → (b' : Bitmap) × (bitmap_free b index ≡ ok b')
      × (bitmap_test b' index ≡ ok true)
      × ((other : ℕ) → other ≢ index → bitmap_test b' other ≡ bitmap_test b other)
unfolding bitmap_free bitmap_test bitmap_translate
bitmap_free-bitmap_test b index lt used =
    let bit : b.map (index / word_bits) (index % word_bits) ≡ false = ground (arith, used) in
    (
      record b { map = set_bit b.map (index / word_bits) (index % word_bits) true },
      rw (lt→ltb index b.nbits lt, bit),
      rw (lt→ltb index b.nbits lt) (ground arith),
      λ other ne. ground arith,
    )
