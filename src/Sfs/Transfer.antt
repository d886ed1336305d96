-- ===== src/Sfs/Transfer.antt =====
-- Reading and writing a file: sfs_io_nolock and sfs_io of labcode/lab8/kern/fs/sfs/sfs_inode.c.
pub mod Whole
pub mod Parts
pub mod Read
pub mod Written
pub mod Write
pub mod ReadBack
pub mod Resize
use oslabcode.Prelude.{
  ℕ, zero, suc, ◌+◌, ◌-◌, ◌*◌, ◌/◌, ◌%◌, ◌^◌, ◌≤◌, ◌<◌, ◌≡◌, ◌≢◌, refl, sym, ap, ◌∙◌, ◌↔◌, ◌⊎◌, inl,
  inr, Bool, true, false, not, ◌&&◌, ◌||◌, Option, none, some, List, [], ◌∷◌, ◌++◌, map,
  append_assoc, append-nil, arith, ltb, leb, ◌==◌, if◌then◌else◌, ltb→lt, lt→ltb, le→ltb, ==_iff,
  Bool-cases, Option-cases, update, ◌>>=◌, ◌>>◌, assert, Run, ok, panic, out_of_fuel, length,
  chain_ok, e_inval, e_no_mem, e_busy, e_max_open, count, count-append, Distinct, fun_ext, min,
}
use oslabcode.Memory.{Memory}
use oslabcode.Memory.Buffer.{Iobuf, iobuf_skip}
use oslabcode.Sfs.{Sfs, sfs_blksize, sfs_rbuf, sfs_wbuf, sfs_rblock, sfs_wblock}
use oslabcode.Sfs.Map.{Inode, State, sfs_bmap_load_nolock}

abbrev pub max_file_size : ℕ
max_file_size = 2 ^ 27

-- An `off_t` is 64 bits; it is negative from 2 ^ 63 on.
abbrev pub is_negative : ℕ → Bool
is_negative n = leb (2 ^ 63) n

-- The local variables of `sfs_io_nolock` that change, with the code `ret`.
pub record Io : Type 0 where
  pub ret : ℕ
  pub state : State
  pub mem : Memory
  pub buf : ℕ
  pub offset : ℕ
  pub alen : ℕ
  pub blkno : ℕ

-- `alen += size, buf += size, offset += size, blkno ++`
abbrev pub advanced : Io → ℕ → Io
advanced x size = record x {
  alen = x.alen + size;
  buf = x.buf + size;
  offset = x.offset + size;
  blkno = x.blkno + 1;
}

-- `sfs_bmap_load_nolock` and then `sfs_buf_op` on a part of the block, or `sfs_block_op` on it.
unfoldable pub part_op : (write : Bool) → (size blkoff : ℕ) → Io → Run Io
part_op write size blkoff x = do
  (ret, ino, st) ← sfs_bmap_load_nolock x.state x.blkno
  if not (ret == 0)
      then ok (record x { ret = ret; state = st })
      else (if write
          then (do
            (wrote, s) ← sfs_wbuf st.sfs x.mem x.buf size ino blkoff
            ok (record x { ret = wrote; state = record st { sfs = s } }))
          else (do
            (read, mem) ← sfs_rbuf st.sfs x.mem x.buf size ino blkoff
            ok (record x { ret = read; state = st; mem = mem })))

unfoldable pub block_op : (write : Bool) → Io → Run Io
block_op write x = do
  (ret, ino, st) ← sfs_bmap_load_nolock x.state x.blkno
  if not (ret == 0)
      then ok (record x { ret = ret; state = st })
      else (if write
          then (do
            (wrote, s) ← sfs_wblock 1 st.sfs x.mem x.buf ino
            ok (record x { ret = wrote; state = record st { sfs = s } }))
          else (do
            (read, mem) ← sfs_rblock 1 st.sfs x.mem x.buf ino
            ok (record x { ret = read; state = st; mem = mem })))

-- The loop over the whole blocks.
unfoldable pub whole_blocks : (nblks : ℕ) → (write : Bool) → Io → Run Io
whole_blocks zero write x = ok x
whole_blocks (suc k) write x = do
  x1 ← block_op write x
  if x1.ret == 0 then whole_blocks k write (advanced x1 sfs_blksize) else ok x1

-- The last block, if the end is not aligned.
unfoldable pub last_part : (write : Bool) → (endpos : ℕ) → Io → Run Io
last_part write endpos x =
    let size = endpos - x.offset in
    if ltb x.offset endpos
    then (do
      x1 ← part_op write size 0 x
      ok (if x1.ret == 0 then record x1 { alen = x1.alen + size } else x1))
    else ok x

-- The three parts of the transfer; `goto out` ends it.
unfoldable pub transfer : (write : Bool) → (endpos : ℕ) → Io → Run Io
transfer write endpos x = do
  let blkoff = x.offset % sfs_blksize
  let nblks = endpos / sfs_blksize - x.blkno
  let size = if nblks == 0 then endpos - x.offset else sfs_blksize - blkoff
  if blkoff == 0
      then (do
        x1 ← whole_blocks nblks write x
        if x1.ret == 0 then last_part write endpos x1 else ok x1)
      else (do
        x1 ← part_op write size blkoff x
        if not (x1.ret == 0)
            then ok x1
            else (if nblks == 0 then ok (advanced x1 size) else (do
              x2 ← whole_blocks (nblks - 1) write (advanced x1 size)
              if x2.ret == 0 then last_part write endpos x2 else ok x2)))

-- What is behind the label `out`.
unfoldable pub finish : (write : Bool) → Io → ℕ × ℕ × Memory × State
finish write x =
    let st = x.state in
    let size = x.offset + x.alen in
    (
      x.ret,
      x.alen,
      x.mem,
      if write && ltb st.sin.size size
          then record st { sin = record st.sin { size = size % 2 ^ 32; dirty = true } }
          else st,
    )

-- `sfs_io_nolock`, with the length that it stores.
unfoldable pub sfs_io_nolock :
    State → Memory → (buf offset len : ℕ) → (write : Bool) → Run (ℕ × ℕ × Memory × State)
sfs_io_nolock st mem buf offset len write = do
  assert (not st.sin.is_dir)
  let end = (offset + len) % 2 ^ 64
  let top = if ltb max_file_size end then max_file_size else end
  let endpos = if not write && ltb st.sin.size top then st.sin.size else top
  let start : Io = record {
    ret = 0;
    state = st;
    mem = mem;
    buf = buf;
    offset = offset;
    alen = 0;
    blkno = offset / sfs_blksize;
  }
  if is_negative offset || leb max_file_size offset || (is_negative end || ltb end offset)
      then ok (e_inval, 0, mem, st)
      else (if offset == end || (not write && leb st.sin.size offset)
          then ok (0, 0, mem, st)
          else (do x ← transfer write endpos start; ok (finish write x)))

-- `sfs_io`, which `sfs_read` and `sfs_write` are with `write` given.
unfoldable pub sfs_io : State → Memory → Iobuf → (write : Bool) → Run (ℕ × Memory × Iobuf × State)
sfs_io st mem iob write = do
  (ret, alen, mem', st') ← sfs_io_nolock st mem iob.io_base iob.io_offset iob.io_resid write
  iob' ← (if alen == 0 then ok iob else iobuf_skip iob alen)
  ok (ret, mem', iob', st')
