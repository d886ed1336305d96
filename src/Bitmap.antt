-- ===== src/Bitmap.antt =====
-- The bitmap of free blocks, labcode/lab8/kern/fs/sfs/bitmap.c. A word is its 32 bits, which are 1
-- for what is free.
pub mod Alloc
use oslabcode.Prelude.{
  ℕ, zero, suc, ◌+◌, ◌-◌, ◌*◌, ◌/◌, ◌%◌, ◌^◌, ◌≤◌, ◌<◌, ◌≡◌, ◌≢◌, refl, sym, ap, ◌∙◌, ◌↔◌, ◌⊎◌, inl,
  inr, Bool, true, false, not, ◌&&◌, ◌||◌, Option, none, some, List, [], ◌∷◌, ◌++◌, append_assoc,
  append-nil, arith, ltb, leb, ◌==◌, if◌then◌else◌, ltb→lt, lt→ltb, le→ltb, ==_iff, Bool-cases,
  Option-cases, update, ◌>>=◌, ◌>>◌, assert, Run, ok, panic, out_of_fuel, length, e_inval, e_no_mem,
  e_busy, e_max_open, count, count-append, Distinct, fun_ext, min,
}

abbrev pub word_bits : ℕ
word_bits = 32

abbrev pub Word : Type 0
Word = ℕ → Bool

-- `struct bitmap`
pub record Bitmap : Type 0 where
  pub nbits : ℕ
  pub nwords : ℕ
  pub map : ℕ → Word

abbrev pub set_bit : (ℕ → Word) → (ix offset : ℕ) → Bool → ℕ → Word
set_bit map ix offset b = update map ix (update (map ix) offset b)

-- The loop of `bitmap_create` that marks the bits of the last word from `offset` on, with `left`
-- to go: it flips bits that are 1.
unfoldable pub mark_rest : (left offset ix : ℕ) → (ℕ → Word) → ℕ → Word
mark_rest zero offset ix map = map
mark_rest (suc k) offset ix map =
    mark_rest k (offset + 1) ix (set_bit map ix offset (not (map ix offset)))

-- `bitmap_create`: `memory` and `more` say whether the two calls of `kmalloc` succeed.
unfoldable pub bitmap_create : (memory more : Bool) → ℕ → Run (Option Bitmap)
unfolding mark_rest
bitmap_create memory more nbits = do
  assert (not (nbits == 0) && ltb nbits ((nbits + word_bits) % 2 ^ 64))
  let nwords = (nbits + word_bits - 1) / word_bits
  let ix = nwords - 1
  let overbits = nbits - ix * word_bits
  let full : ℕ → Word = λ _ _. true
  if not (memory && more)
      then ok none
      else (if nbits == nwords * word_bits
          then ok (some (record { nbits = nbits; nwords = nwords; map = full }))
          else (do
            assert (nbits / word_bits == ix)
            assert (ltb 0 overbits && ltb overbits word_bits)
            ok (
                some (record {
                  nbits = nbits;
                  nwords = nwords;
                  map = mark_rest (word_bits - overbits) overbits ix full;
                }))))

-- The first bit of a word that is 1, from `offset` on.
unfoldable pub find_bit : (left offset : ℕ) → Word → Option ℕ
find_bit zero offset w = none
find_bit (suc k) offset w =
    let later = find_bit k (offset + 1) w in if w offset then some offset else later

-- `map[ix] != 0`
abbrev pub nonzero : Word → Bool
nonzero w = elim (find_bit word_bits 0 w) [ none ↦ false | some offset ↦ true ]

-- The loops of `bitmap_alloc`; the assertion fails when a word that is not 0 has no bit.
unfoldable pub alloc_walk : (left ix : ℕ) → (ℕ → Word) → Run (Option (ℕ × ℕ))
unfolding find_bit
alloc_walk zero ix map = ok none
alloc_walk (suc k) ix map =
    let later = alloc_walk k (ix + 1) map in
    if nonzero (map ix)
    then elim (find_bit word_bits 0 (map ix)) [
      | none ↦ panic
      | some offset ↦ ok (some (ix, offset))
    ]
    else later

-- `bitmap_alloc` with its result, the index that it stores, and the bitmap after it.
unfoldable pub bitmap_alloc : Bitmap → Run (ℕ × ℕ × Bitmap)
unfolding alloc_walk
bitmap_alloc b = do
  found ← alloc_walk b.nwords 0 b.map
  elim found [
    | none ↦ ok (e_no_mem, 0, b)
    | some p ↦
        ok
          (0, p.0 * word_bits + p.1, record b { map = set_bit b.map p.0 p.1 (not (b.map p.0 p.1)) })
  ]

-- `bitmap_translate`: the word of an index, and the place of its bit.
unfoldable pub bitmap_translate : Bitmap → ℕ → Run (ℕ × ℕ)
bitmap_translate b index = do assert (ltb index b.nbits); ok (index / word_bits, index % word_bits)

unfoldable pub bitmap_test : Bitmap → ℕ → Run Bool
unfolding bitmap_translate
bitmap_test b index = do (ix, offset) ← bitmap_translate b index; ok (b.map ix offset)

unfoldable pub bitmap_free : Bitmap → ℕ → Run Bitmap
unfolding bitmap_translate
bitmap_free b index = do
  (ix, offset) ← bitmap_translate b index
  assert (not (b.map ix offset))
  ok (record b { map = set_bit b.map ix offset true })

-- `bitmap_getdata`: the words, and the bytes that they take.
unfoldable pub bitmap_getdata : Bitmap → (ℕ → Word) × ℕ
bitmap_getdata b = (b.map, 4 * b.nwords)
