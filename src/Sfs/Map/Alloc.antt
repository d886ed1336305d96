-- ===== src/Sfs/Map/Alloc.antt =====
-- Taking a block of the disk: sfs_block_alloc of labcode/lab8/kern/fs/sfs/sfs_inode.c.
use oslabcode.Prelude.{
  ℕ, ◌+◌, ◌-◌, ◌*◌, ◌/◌, ◌%◌, ◌<◌, ◌≡◌, ◌≢◌, refl, ap, ◌∙◌, ◌⊎◌, inl, inr, true, false, arith, ltb,
  ◌==◌, lt→ltb, Bool-cases, update, ok, e_no_mem,
}
use oslabcode.Bitmap.{Bitmap, word_bits, set_bit, bitmap_alloc, bitmap_test, bitmap_translate}
use oslabcode.Bitmap.Alloc.{Full, IsLowest, bitmap_alloc-IsLowest}
use oslabcode.Sfs.{Sfs, write_block, sfs_clear_block, sfs_block_alloc}
use oslabcode.Sfs.Map.Lookup.{IsInUse, sfs_block_inuse-IsInUse}

-- The bitmap has room for all free blocks, which are on the device, and they are counted.
pub record IsFs (s : Sfs) : Type 0 where
  pub free_block :
      (ix offset : ℕ)
      → ix < s.freemap.nwords
      → offset < word_bits
      → s.freemap.map ix offset ≡ true
      → (0 < ix * word_bits + offset)
        × (ix * word_bits + offset < s.blocks)
        × (ix * word_bits + offset < s.d_blocks)
        × (ix * word_bits + offset < s.freemap.nbits)
        × (0 < s.unused_blocks)

-- What the file system is when the block `b` has been taken.
pub record Allocated (s : Sfs) (b : ℕ) (s' : Sfs) : Type 0 where
  pub was_free : bitmap_test s.freemap b ≡ ok true
  pub in_use : IsInUse s' b
  pub blank : (r : ℕ) → s'.disk b r ≡ 0
  pub other_blocks : (n r : ℕ) → n ≢ b → s'.disk n r ≡ s.disk n r
  pub other_bits : (n : ℕ) → n ≢ b → bitmap_test s'.freemap n ≡ bitmap_test s.freemap n
  pub sizes : (s'.blocks ≡ s.blocks) × (s'.d_blocks ≡ s.d_blocks)
  pub counted : s'.unused_blocks + 1 ≡ s.unused_blocks
  pub marked : s'.super_dirty ≡ true

test-map :
    (m : Bitmap) (n : ℕ)
    → n < m.nbits
    → bitmap_test m n ≡ ok (m.map (n / word_bits) (n % word_bits))
unfolding bitmap_test bitmap_translate
test-map m n lt = rw (lt→ltb n m.nbits lt)

-- A test of another bit than the one that is cleared.
test-clear :
    (m : Bitmap) (ix offset n : ℕ)
    → offset < word_bits
    → n ≢ ix * word_bits + offset
    → bitmap_test (record m { map = set_bit m.map ix offset false }) n ≡ bitmap_test m n
unfolding bitmap_test bitmap_translate
test-clear m ix offset n lt ne = elim (Bool-cases (ltb n m.nbits)) [
  | inr out ↦ rw out
  | inl inside ↦ elim (Bool-cases (ix == n / word_bits)) [
    | inr away ↦ rw (inside, away)
    | inl same ↦
        let other : (offset == n % word_bits) ≡ false = ground (arith, same, ne, lt) in
        let word : ix ≡ n / word_bits = ground (arith, same) in
        rw (inside, same, other) (ap (λ q. ok (m.map q (n % word_bits))) word)
  ]
]

module _ (s : Sfs) (ix offset : ℕ) (hi : ix < s.freemap.nwords)
    (low : IsLowest s.freemap.map 0 ix offset) (fs : IsFs s) where
  b : ℕ
  b = ix * word_bits + offset

  taken : Sfs
  taken = record s {
    freemap = record s.freemap { map = set_bit s.freemap.map ix offset false };
    unused_blocks = s.unused_blocks - 1;
    super_dirty = true;
  }

  place : (b / word_bits ≡ ix) × (b % word_bits ≡ offset)
  unfolding b
  place = let lt = low.in_word in (omega (arith, lt), omega (arith, lt))

  free_b :
      (0 < b) × (b < s.blocks) × (b < s.d_blocks) × (b < s.freemap.nbits) × (0 < s.unused_blocks)
  unfolding b
  free_b = fs.free_block ix offset hi low.in_word low.one

  was_free_b : bitmap_test s.freemap b ≡ ok true
  was_free_b =
      let (_, _, _, in_map, _) = free_b in
      test-map s.freemap b in_map
      ∙ ap (λ q. ok (s.freemap.map q (b % word_bits))) place.0
      ∙ ap (λ r. ok (s.freemap.map ix r)) place.1
      ∙ ap ok low.one

  taken-IsInUse : IsInUse taken b
  unfolding taken
  taken-IsInUse =
      let (some_block, in_fs, on_device, in_map, _) = free_b in
      record {
        some_block = some_block;
        in_fs = in_fs;
        on_device = on_device;
        in_use =
            test-map taken.freemap b in_map
            ∙ ap (λ q. ok (taken.freemap.map q (b % word_bits))) place.0
            ∙ ap (λ r. ok (taken.freemap.map ix r)) place.1
            ∙ (let cleared : set_bit s.freemap.map ix offset false ix offset ≡ false =
                  ground arith in
                ap ok cleared);
      }

  cleared : Sfs
  cleared = record taken { disk = update s.disk b (λ _. 0) }

  clear_run : sfs_clear_block 1 taken b ≡ ok (0, cleared)
  unfolding sfs_clear_block write_block cleared taken
  clear_run =
      let (some_block, in_fs, on_device, _, _) = free_b in
      ground (arith, some_block, in_fs, on_device)

  alloc_run :
      bitmap_alloc s.freemap ≡ ok (0, b, taken.freemap) → sfs_block_alloc s ≡ ok (0, b, cleared)
  unfolding sfs_block_alloc
  alloc_run e =
      let (_, _, _, _, some_unused) = free_b in
      let room : ltb 0 s.unused_blocks ≡ true = lt→ltb 0 s.unused_blocks some_unused in
      rw (e, room)
        (unfold taken in rw (sfs_block_inuse-IsInUse taken b taken-IsInUse) (rw clear_run))

  other_bits_b : (n : ℕ) → n ≢ b → bitmap_test taken.freemap n ≡ bitmap_test s.freemap n
  unfolding b taken
  other_bits_b n ne = test-clear s.freemap ix offset n low.in_word ne

  cleared-Allocated : Allocated s b cleared
  unfolding cleared taken
  cleared-Allocated =
      let u = taken-IsInUse in
      let (_, _, _, _, some_unused) = free_b in
      record {
        was_free = was_free_b;
        in_use = record {
          some_block = u.some_block;
          in_fs = u.in_fs;
          on_device = u.on_device;
          in_use = u.in_use;
        };
        blank = λ r. ground arith;
        other_blocks = λ n r ne. ground (arith, ne);
        other_bits = other_bits_b;
        sizes = (refl, refl);
        counted = omega (arith, some_unused);
        marked = refl;
      }

-- `sfs_block_alloc` takes a free block, which it clears, counts and marks in the bitmap and nothing
-- else, or fails with -E_NO_MEM and changes nothing when no block is free.
pub sfs_block_alloc-Allocated :
    (s : Sfs)
    → IsFs s
    → ((sfs_block_alloc s ≡ ok (e_no_mem, 0, s))
        × ((ix : ℕ) → ix < s.freemap.nwords → Full (s.freemap.map ix)))
      ⊎ ((b : ℕ) × (s' : Sfs) × (sfs_block_alloc s ≡ ok (0, b, s')) × Allocated s b s')
unfolding b cleared taken
sfs_block_alloc-Allocated s fs = elim (bitmap_alloc-IsLowest s.freemap) [
  | inl (none_free, full) ↦ inl (no_block none_free, full)
  | inr (ix, offset, e, hi, low) ↦ inr (
    ix * word_bits + offset,
    cleared s ix offset hi low fs,
    alloc_run s ix offset hi low fs e,
    cleared-Allocated s ix offset hi low fs,
  )
]
  where
    no_block :
        bitmap_alloc s.freemap ≡ ok (e_no_mem, 0, s.freemap)
        → sfs_block_alloc s ≡ ok (e_no_mem, 0, s)
    no_block e = unfold sfs_block_alloc in rw e
