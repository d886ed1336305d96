-- ===== src/Sfs.antt =====
-- The disk blocks of the simple file system: labcode/lab8/kern/fs/sfs/sfs_io.c, and the functions
-- on blocks of sfs_inode.c. A disk is the bytes of its blocks. A function that returns a code gives
-- it first, 0 for success, and what it stores behind it. The buffer `sfs_buffer` is filled before
-- each use and is not kept; the semaphores around the disk are taken and given back in each function.
pub mod Dir
pub mod Map
pub mod Transfer
use oslabcode.Prelude.{
  ℕ, zero, suc, ◌+◌, ◌-◌, ◌*◌, ◌/◌, ◌%◌, ◌^◌, ◌≤◌, ◌<◌, ◌≡◌, ◌≢◌, refl, sym, ap, ◌∙◌, ◌↔◌, ◌⊎◌, inl,
  inr, Bool, true, false, not, ◌&&◌, ◌||◌, Option, none, some, List, [], ◌∷◌, ◌++◌, map,
  append_assoc, append-nil, arith, ltb, leb, ◌==◌, if◌then◌else◌, ltb→lt, lt→ltb, le→ltb, ==_iff,
  Bool-cases, Option-cases, update, ◌>>=◌, ◌>>◌, assert, Run, ok, panic, out_of_fuel, length,
  chain_ok, e_inval, e_no_mem, e_busy, e_max_open, count, count-append, Distinct, fun_ext, min,
}
use oslabcode.Bitmap.{Bitmap, bitmap_alloc, bitmap_test, bitmap_free}
use oslabcode.Memory.{Memory}

abbrev pub sfs_blksize : ℕ
sfs_blksize = 4096

-- The parts of `struct sfs_fs` and of its super block and device that files use.
pub record Sfs : Type 0 where
  pub freemap : Bitmap
  pub blocks : ℕ
  pub unused_blocks : ℕ
  pub super_dirty : Bool
  pub d_blocks : ℕ
  pub disk : ℕ → ℕ → ℕ

-- `memcpy` of `len` bytes between a buffer and other bytes, which do not overlap.
abbrev pub copied : Memory → (dst : ℕ) → Memory → (src len : ℕ) → Memory
copied mem dst bytes src len a =
    if leb dst a && ltb a (dst + len) then bytes (src + (a - dst)) else mem a

-- A `uint32_t` in the bytes of a block, the low byte first.
abbrev pub get_u32 : (ℕ → ℕ) → (offset : ℕ) → ℕ
get_u32 bytes offset =
    bytes offset
    + 2 ^ 8 * bytes (offset + 1)
    + 2 ^ 16 * bytes (offset + 2)
    + 2 ^ 24 * bytes (offset + 3)

abbrev pub u32_bytes : ℕ → Memory
u32_bytes n k =
    if k == 0
    then n % 2 ^ 8
    else (if k == 1
        then n / 2 ^ 8 % 2 ^ 8
        else (if k == 2 then n / 2 ^ 16 % 2 ^ 8 else n / 2 ^ 24 % 2 ^ 8))

module _ (s : Sfs) where
  -- `sfs_rwblock_nolock` with `check`, to read and to write. `disk0_io` refuses a block behind the
  -- end of the device. The product of a block number and the size of a block is not wrapped at
  -- 2 ^ 32, which takes a disk of 4 GB.
  unfoldable pub read_block : ℕ → Run (ℕ × Memory)
  read_block blkno = do
    assert (not (blkno == 0) && ltb blkno s.blocks)
    ok (if ltb s.d_blocks (blkno + 1) then e_inval else 0, s.disk blkno)

  unfoldable pub write_block : Memory → ℕ → Run (ℕ × Sfs)
  write_block bytes blkno = do
    assert (not (blkno == 0) && ltb blkno s.blocks)
    ok (
        if ltb s.d_blocks (blkno + 1)
        then (e_inval, s)
        else (0, record s { disk = update s.disk blkno bytes }))

  unfoldable pub sfs_rbuf : Memory → (buf len blkno offset : ℕ) → Run (ℕ × Memory)
  sfs_rbuf mem buf len blkno offset = do
    assert (ltb offset sfs_blksize && leb (offset + len) sfs_blksize)
    (ret, bytes) ← read_block blkno
    ok (ret, if ret == 0 then copied mem buf bytes offset len else mem)

  unfoldable pub sfs_wbuf : Memory → (buf len blkno offset : ℕ) → Run (ℕ × Sfs)
  sfs_wbuf mem buf len blkno offset = do
    assert (ltb offset sfs_blksize && leb (offset + len) sfs_blksize)
    (ret, bytes) ← read_block blkno
    if ret == 0 then write_block (copied bytes offset mem buf len) blkno else ok (ret, s)

  -- `sfs_rbuf` into a `uint32_t`.
  unfoldable pub read_u32 : (blkno offset : ℕ) → Run (ℕ × ℕ)
  read_u32 blkno offset = do
    (ret, bytes) ← sfs_rbuf (λ _. 0) 0 4 blkno offset
    ok (ret, get_u32 bytes 0)

  unfoldable pub sfs_block_inuse : ℕ → Run Bool
  sfs_block_inuse ino = do
    assert (not (ino == 0) && ltb ino s.blocks)
    free ← bitmap_test s.freemap ino
    ok (not free)

-- `sfs_rblock` and `sfs_wblock` by the loop of `sfs_rwblock`, over the blocks from `blkno` on.
unfoldable pub sfs_rblock : (nblks : ℕ) → Sfs → Memory → (buf blkno : ℕ) → Run (ℕ × Memory)
sfs_rblock zero s mem buf blkno = ok (0, mem)
sfs_rblock (suc k) s mem buf blkno = do
  (ret, bytes) ← read_block s blkno
  if ret == 0
      then sfs_rblock k s (copied mem buf bytes 0 sfs_blksize) (buf + sfs_blksize) (blkno + 1)
      else ok (ret, mem)

unfoldable pub sfs_wblock : (nblks : ℕ) → Sfs → Memory → (buf blkno : ℕ) → Run (ℕ × Sfs)
sfs_wblock zero s mem buf blkno = ok (0, s)
sfs_wblock (suc k) s mem buf blkno = do
  (ret, s1) ← write_block s (λ a. mem (buf + a)) blkno
  if ret == 0 then sfs_wblock k s1 mem (buf + sfs_blksize) (blkno + 1) else ok (ret, s1)

-- `sfs_wbuf` from a `uint32_t`.
unfoldable pub write_u32 : Sfs → (n blkno offset : ℕ) → Run (ℕ × Sfs)
write_u32 s n blkno offset = sfs_wbuf s (u32_bytes n) 0 4 blkno offset

unfoldable pub sfs_clear_block : (nblks : ℕ) → Sfs → (blkno : ℕ) → Run (ℕ × Sfs)
sfs_clear_block zero s blkno = ok (0, s)
sfs_clear_block (suc k) s blkno = do
  (ret, s1) ← write_block s (λ _. 0) blkno
  if ret == 0 then sfs_clear_block k s1 (blkno + 1) else ok (ret, s1)

-- `sfs_block_alloc`, with the block that it stores.
unfoldable pub sfs_block_alloc : Sfs → Run (ℕ × ℕ × Sfs)
sfs_block_alloc s = do
  (ret, ino, map) ← bitmap_alloc s.freemap
  if not (ret == 0) then ok (ret, ino, record s { freemap = map }) else do
    assert (ltb 0 s.unused_blocks)
    let s1 = record s { freemap = map; unused_blocks = s.unused_blocks - 1; super_dirty = true }
    inuse ← sfs_block_inuse s1 ino
    assert inuse
    (cleared, s2) ← sfs_clear_block 1 s1 ino
    ok (cleared, ino, s2)

unfoldable pub sfs_block_free : Sfs → ℕ → Run Sfs
sfs_block_free s ino = do
  inuse ← sfs_block_inuse s ino
  assert inuse
  map ← bitmap_free s.freemap ino
  ok (record s {
    freemap = map;
    unused_blocks = (s.unused_blocks + 1) % 2 ^ 32;
    super_dirty = true;
  })
