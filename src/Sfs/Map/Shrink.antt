-- ===== src/Sfs/Map/Shrink.antt =====
-- Taking off the last block of a file: sfs_bmap_truncate_nolock of
-- labcode/lab8/kern/fs/sfs/sfs_inode.c for the direct blocks.
use oslabcode.Prelude.{
  ℕ, ◌+◌, ◌-◌, ◌%◌, ◌^◌, ◌≤◌, ◌<◌, ◌≡◌, ◌≢◌, refl, sym, ap, ◌∙◌, ◌⊎◌, inl, inr, Bool, true, false,
  map, arith, ltb, ◌==◌, ltb→lt, lt→ltb, Bool-cases, update, Run, ok, panic, e_no_mem,
}
use mathlib.Core.Path.{subst}
use oslabcode.Bitmap.{Bitmap, bitmap_test, bitmap_translate}
use oslabcode.Bitmap.Alloc.{bitmap_free-bitmap_test}
use oslabcode.Sfs.{Sfs, sfs_block_free}
use oslabcode.Sfs.Map.{
  ndirect, State, sfs_bmap_free_nolock, sfs_bmap_load_nolock, sfs_bmap_truncate_nolock,
}
use oslabcode.Sfs.Map.Alloc.{IsFs}
use oslabcode.Sfs.Map.Grow.{Grown, load-Grown}
use oslabcode.Sfs.Map.Lookup.{IsInUse, IsFile, block_of, sfs_block_inuse-IsInUse}

in_range : (m : Bitmap) (n : ℕ) → bitmap_test m n ≡ ok false → n < m.nbits
unfolding bitmap_test bitmap_translate
in_range m n e = elim (Bool-cases (ltb n m.nbits)) [
  | inl lt ↦ ltb→lt n m.nbits lt
  | inr out ↦ let stop : bitmap_test m n ≡ panic = rw out in absurd (no_panic (sym stop ∙ e))
]
  where
    no_panic : (◌≡◌ {A = Run Bool} panic (ok false)) → ⊥
    no_panic h = cc

-- What the file system is when the block `b` has been freed.
pub record Freed (s : Sfs) (b : ℕ) (s' : Sfs) : Type 0 where
  pub free : bitmap_test s'.freemap b ≡ ok true
  pub other_bits : (n : ℕ) → n ≢ b → bitmap_test s'.freemap n ≡ bitmap_test s.freemap n
  pub same_disk : s'.disk ≡ s.disk
  pub sizes : (s'.blocks ≡ s.blocks) × (s'.d_blocks ≡ s.d_blocks)
  pub counted : s'.unused_blocks ≡ (s.unused_blocks + 1) % 2 ^ 32

-- Freeing a block in use does not fail.
pub sfs_block_free-Freed :
    (s : Sfs) (b : ℕ) → IsInUse s b → (s' : Sfs) × (sfs_block_free s b ≡ ok s') × Freed s b s'
unfolding sfs_block_free
sfs_block_free-Freed s b u =
    let (map, run, free, others) =
      bitmap_free-bitmap_test s.freemap b (in_range s.freemap b u.in_use) u.in_use in
    (
      record s {
        freemap = map;
        unused_blocks = (s.unused_blocks + 1) % 2 ^ 32;
        super_dirty = true;
      },
      rw (sfs_block_inuse-IsInUse s b u, run),
      record {
        free = free;
        other_bits = others;
        same_disk = refl;
        sizes = (refl, refl);
        counted = refl;
      },
    )

-- What a file is without its last block.
pub record Shrunk (st st' : State) : Type 0 where
  pub fewer : st'.sin.blocks + 1 ≡ st.sin.blocks
  pub freed : Freed st.sfs (block_of st st'.sin.blocks) st'.sfs
  pub unset : st'.sin.direct st'.sin.blocks ≡ 0
  pub kept : (i : ℕ) → i < st'.sin.blocks → block_of st' i ≡ block_of st i
  pub file : IsFile st'
  pub same_size : st'.sin.size ≡ st.sin.size

module _ (st : State) (file : IsFile st) (n : ℕ) (last : st.sin.blocks ≡ n + 1) (low : n < ndirect)
    (s' : Sfs) (f : Freed st.sfs (st.sin.direct n) s') where
  shrunk : State
  shrunk = record {
    sfs = s';
    sin = record st.sin { direct = update st.sin.direct n 0; blocks = n; dirty = true };
  }

  direct_is : block_of st n ≡ st.sin.direct n
  direct_is = ground (arith, low)

  shrunk-kept : (i : ℕ) → i < n → block_of shrunk i ≡ block_of st i
  unfolding shrunk
  shrunk-kept i lt = ground (arith, low, lt)

  shrunk-used : (i : ℕ) → i < n → IsInUse s' (block_of shrunk i)
  shrunk-used i lt =
      let lt_blocks : i < st.sin.blocks = omega (arith, lt, last) in
      let lt_last : n < st.sin.blocks = omega (arith, last) in
      let u = file.used i lt_blocks in
      let (same_blocks, same_device) = f.sizes in
      let away : block_of st i ≢ st.sin.direct n = λ e.
        let same : i ≡ n = file.apart i n lt_blocks lt_last (e ∙ sym direct_is) in
        omega (arith, same, lt) in
      subst (IsInUse s') (sym (shrunk-kept i lt)) (record {
        some_block = u.some_block;
        in_fs = let h = u.in_fs in omega (arith, h, same_blocks);
        on_device = let h = u.on_device in omega (arith, h, same_device);
        in_use = f.other_bits (block_of st i) away ∙ u.in_use;
      })

  shrunk-Shrunk : Shrunk st shrunk
  unfolding shrunk
  shrunk-Shrunk = record {
    fewer = omega (arith, last);
    freed = subst (λ b. Freed st.sfs b s') (sym direct_is) f;
    unset = ground arith;
    kept = shrunk-kept;
    file = record {
      few = let h = file.few in omega (arith, h, last);
      used = shrunk-used;
      apart = λ i j lt_i lt_j e.
          file.apart i j (omega (arith, lt_i, last)) (omega (arith, lt_j, last))
            (sym (shrunk-kept i lt_i) ∙ e ∙ shrunk-kept j lt_j);
      entries = λ more. absurd (omega (arith, more, low));
      own = λ i more lt. absurd (omega (arith, more, low));
    };
    same_size = refl;
  }

  with_blocks : ℕ → State
  with_blocks m = record {
    sfs = s';
    sin = record st.sin { direct = update st.sin.direct n 0; blocks = m; dirty = true };
  }

  truncate_run :
      0 < st.sin.direct n
      → sfs_block_free st.sfs (st.sin.direct n) ≡ ok s'
      → sfs_bmap_truncate_nolock st ≡ ok (0, shrunk)
  unfolding sfs_bmap_truncate_nolock sfs_bmap_free_nolock shrunk with_blocks
  truncate_run some_block e =
      let some_blocks : (st.sin.blocks == 0) ≡ false = ground (arith, last) in
      let index : st.sin.blocks - 1 ≡ n = omega (arith, last) in
      let direct : ltb n ndirect ≡ true = lt→ltb n ndirect low in
      let nonzero : (st.sin.direct n == 0) ≡ false = ground (arith, some_block) in
      rw (some_blocks, index, direct, nonzero, e) (ap (λ m. ok (0, with_blocks m)) index)

-- Truncating a well-formed file of 1 to 12 blocks frees its last block and leaves a well-formed file
-- of the others.
pub truncate-Shrunk :
    (st : State)
    → IsFile st
    → 0 < st.sin.blocks
    → st.sin.blocks ≤ ndirect
    → (st' : State) × (sfs_bmap_truncate_nolock st ≡ ok (0, st')) × Shrunk st st'
truncate-Shrunk st file some_blocks few =
    let n = st.sin.blocks - 1 in
    let last : st.sin.blocks ≡ n + 1 = omega (arith, some_blocks) in
    let low : n < ndirect = omega (arith, some_blocks, few) in
    let u =
      subst (IsInUse st.sfs) (let e : block_of st n ≡ st.sin.direct n = ground (arith, low) in e)
        (file.used n (omega (arith, some_blocks))) in
    let (s', run, f) = sfs_block_free-Freed st.sfs (st.sin.direct n) u in
    (
      shrunk st file n last low s' f,
      truncate_run st file n last low s' f u.some_block run,
      shrunk-Shrunk st file n last low s' f,
    )

-- What a file was before a block was added and taken off again, but for the bytes of that block.
pub record Restored (st st' : State) : Type 0 where
  pub same_blocks : st'.sin.blocks ≡ st.sin.blocks
  pub same_bits : (n : ℕ) → bitmap_test st'.sfs.freemap n ≡ bitmap_test st.sfs.freemap n
  pub same_unused : st'.sfs.unused_blocks ≡ st.sfs.unused_blocks
  pub same_map : (i : ℕ) → i < st.sin.blocks → block_of st' i ≡ block_of st i
  pub same_bytes :
      (i r : ℕ) → i < st.sin.blocks → st'.sfs.disk (block_of st i) r ≡ st.sfs.disk (block_of st i) r
  pub file : IsFile st'

-- Truncating a file that has grown by a direct block.
truncate-Grown :
    (st : State) (b : ℕ) (grown : State)
    → IsFile st
    → st.sin.blocks < ndirect
    → st.sfs.unused_blocks < 2 ^ 32
    → Grown st b grown
    → (st' : State) × (sfs_bmap_truncate_nolock grown ≡ ok (0, st')) × Restored st st'
truncate-Grown st b grown file few small g =
    let more = g.more in
    let (st', run, h) =
      truncate-Shrunk grown g.file (omega (arith, more)) (omega (arith, more, few)) in
    let same : st'.sin.blocks ≡ st.sin.blocks = let fewer = h.fewer in omega (arith, fewer, more) in
    let freed : Freed grown.sfs b st'.sfs =
      subst (λ n. Freed grown.sfs n st'.sfs) (ap (block_of grown) same ∙ g.new) h.freed in
    (
      st',
      run,
      record {
        same_blocks = same;
        same_bits = λ n. elim (Bool-cases (n == b)) [
          | inl here ↦
              let at : b ≡ n = ground (arith, here) in
              subst (λ m. bitmap_test st'.sfs.freemap m ≡ bitmap_test st.sfs.freemap m) at
                (freed.free ∙ sym g.allocated.was_free)
          | inr away ↦
              let ne : n ≢ b = ground (arith, away) in
              freed.other_bits n ne ∙ g.allocated.other_bits n ne
        ];
        same_unused =
            let up = freed.counted in
            let down = g.allocated.counted in omega (arith, up, down, small);
        same_map = λ i lt. h.kept i (omega (arith, lt, same)) ∙ g.old i lt;
        same_bytes = λ i r lt.
            let disk = ap (λ d. d (block_of st i) r) freed.same_disk in
            disk ∙ g.allocated.other_blocks (block_of st i) r (old_apart st b grown file g i lt);
        file = h.file;
      },
    )
  where
    old_apart :
        (st : State) (b : ℕ) (grown : State)
        → IsFile st
        → Grown st b grown
        → (i : ℕ) → i < st.sin.blocks
        → block_of st i ≢ b
    old_apart st b grown file g i lt e =
        let more = g.more in
        let same : i ≡ st.sin.blocks =
          g.file.apart i st.sin.blocks (omega (arith, lt, more)) (omega (arith, more))
            (g.old i lt ∙ e ∙ sym g.new) in
        omega (arith, same, lt)

-- Adding a block to a well-formed file with fewer than 12 blocks fails with -E_NO_MEM, or succeeds,
-- and truncating the file then succeeds too and restores its blocks and their bytes, the bitmap and
-- the count of unused blocks.
pub truncate-load :
    (st : State)
    → IsFile st
    → IsFs st.sfs
    → st.sin.blocks < ndirect
    → st.sin.direct st.sin.blocks ≡ 0
    → st.sfs.unused_blocks < 2 ^ 32
    → (sfs_bmap_load_nolock st st.sin.blocks ≡ ok (e_no_mem, 0, st))
      ⊎ ((b : ℕ) × (grown : State) × (st' : State) × (sfs_bmap_load_nolock st st.sin.blocks
            ≡ ok (0, b, grown))
          × (sfs_bmap_truncate_nolock grown ≡ ok (0, st'))
          × Restored st st')
truncate-load st file fs few empty small = elim (load-Grown st file fs few empty) [
  | inl (full, _) ↦ inl full
  | inr (b, grown, load, g) ↦
      let (st', run, back) = truncate-Grown st b grown file few small g in
      inr (b, grown, st', load, run, back)
]
