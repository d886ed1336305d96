-- ===== src/Sfs/Map.antt =====
-- The blocks of a file: the functions from sfs_bmap_get_sub_nolock to sfs_bmap_truncate_nolock of
-- labcode/lab8/kern/fs/sfs/sfs_inode.c.
pub mod Alloc
pub mod Grow
pub mod Lookup
pub mod Shrink
use oslabcode.Prelude.{
  ℕ, zero, suc, ◌+◌, ◌-◌, ◌*◌, ◌/◌, ◌%◌, ◌^◌, ◌≤◌, ◌<◌, ◌≡◌, ◌≢◌, refl, sym, ap, ◌∙◌, ◌↔◌, ◌⊎◌, inl,
  inr, Bool, true, false, not, ◌&&◌, ◌||◌, Option, none, some, List, [], ◌∷◌, ◌++◌, map,
  append_assoc, append-nil, arith, ltb, leb, ◌==◌, if◌then◌else◌, ltb→lt, lt→ltb, le→ltb, ==_iff,
  Bool-cases, Option-cases, update, ◌>>=◌, ◌>>◌, assert, Run, ok, panic, out_of_fuel, length,
  chain_ok, e_inval, e_no_mem, e_busy, e_max_open, count, count-append, Distinct, fun_ext, min,
}
use oslabcode.Bitmap.{Bitmap}
use oslabcode.Sfs.{Sfs, read_u32, write_u32, sfs_block_inuse, sfs_block_alloc, sfs_block_free}

abbrev pub ndirect : ℕ
ndirect = 12

abbrev pub blk_nentry : ℕ
blk_nentry = 1024

-- `struct sfs_inode` with its `struct sfs_disk_inode`.
pub record Inode : Type 0 where
  pub size : ℕ
  pub is_dir : Bool
  pub nlinks : ℕ
  pub blocks : ℕ
  pub direct : ℕ → ℕ
  pub indirect : ℕ
  pub ino : ℕ
  pub dirty : Bool

-- A file system with one of its inodes in memory.
pub record State : Type 0 where
  pub sfs : Sfs
  pub sin : Inode

-- The end of `sfs_bmap_get_sub_nolock`: a block for the entry, and its number in the block `ent`.
unfoldable pub new_entry : Sfs → (entp ent offset : ℕ) → Run (ℕ × ℕ × ℕ × Sfs)
new_entry s entp ent offset = do
  (ret, ino, s1) ← sfs_block_alloc s
  if not (ret == 0)
      then (do s2 ← (if ent == entp then ok s1 else sfs_block_free s1 ent); ok (ret, 0, entp, s2))
      else (do
        (wrote, s2) ← write_u32 s1 ino ent offset
        if wrote == 0 then ok (0, ino, ent, s2) else (do
          s3 ← sfs_block_free s2 ino
          s4 ← (if ent == entp then ok s3 else sfs_block_free s3 ent)
          ok (wrote, 0, entp, s4)))

-- `sfs_bmap_get_sub_nolock`, with the block that it stores and the entry block.
unfoldable pub sfs_bmap_get_sub_nolock : Sfs → (entp index : ℕ) → Bool → Run (ℕ × ℕ × ℕ × Sfs)
sfs_bmap_get_sub_nolock s entp index create = do
  assert (ltb index blk_nentry)
  let offset = index * 4
  if not (entp == 0)
      then (do
        (ret, ino) ← read_u32 s entp offset
        if not (ret == 0)
            then ok (ret, 0, entp, s)
            else (if not (ino == 0) || not create
                then ok (0, ino, entp, s)
                else new_entry s entp entp offset))
      else (if not create then ok (0, 0, entp, s) else (do
        (ret, ent, s1) ← sfs_block_alloc s
        if not (ret == 0) then ok (ret, 0, entp, s1) else new_entry s1 entp ent offset))

-- The end of `sfs_bmap_get_nolock`.
unfoldable pub checked : State → ℕ → Run (ℕ × ℕ × State)
checked st ino = do
  inuse ← (if ino == 0 then ok true else sfs_block_inuse st.sfs ino)
  assert inuse
  ok (0, ino, st)

unfoldable pub sfs_bmap_get_nolock : State → (index : ℕ) → Bool → Run (ℕ × ℕ × State)
sfs_bmap_get_nolock st index create =
    let sin = st.sin in
    if ltb index ndirect
    then (if (sin.direct index == 0) && create
        then (do
          (ret, ino, s1) ← sfs_block_alloc st.sfs
          if ret == 0
              then checked
                  (record {
                    sfs = s1;
                    sin = record sin { direct = update sin.direct index ino; dirty = true };
                  })
                  ino
              else ok (ret, 0, record st { sfs = s1 }))
        else checked st (sin.direct index))
    else (if ltb (index - ndirect) blk_nentry
        then (do
          (ret, ino, ent, s1) ← sfs_bmap_get_sub_nolock st.sfs sin.indirect (index - ndirect) create
          if not (ret == 0)
              then ok (ret, 0, record st { sfs = s1 })
              else (if ent == sin.indirect then checked (record st { sfs = s1 }) ino else (do
                assert (sin.indirect == 0)
                checked (record { sfs = s1; sin = record sin { indirect = ent; dirty = true } })
                    ino)))
        else panic)

unfoldable pub sfs_bmap_free_sub_nolock : Sfs → (ent index : ℕ) → Run (ℕ × Sfs)
sfs_bmap_free_sub_nolock s ent index = do
  inuse ← sfs_block_inuse s ent
  assert (inuse && ltb index blk_nentry)
  let offset = index * 4
  (ret, ino) ← read_u32 s ent offset
  if not (ret == 0)
      then ok (ret, s)
      else (if ino == 0 then ok (0, s) else (do
        (wrote, s1) ← write_u32 s 0 ent offset
        if wrote == 0 then (do s2 ← sfs_block_free s1 ino; ok (0, s2)) else ok (wrote, s1)))

unfoldable pub sfs_bmap_free_nolock : State → (index : ℕ) → Run (ℕ × State)
sfs_bmap_free_nolock st index =
    let sin = st.sin in
    if ltb index ndirect
    then (if sin.direct index == 0 then ok (0, st) else (do
      s1 ← sfs_block_free st.sfs (sin.direct index)
      ok (
        0,
        record { sfs = s1; sin = record sin { direct = update sin.direct index 0; dirty = true } },
      )))
    else (if ltb (index - ndirect) blk_nentry && not (sin.indirect == 0)
        then (do
          (ret, s1) ← sfs_bmap_free_sub_nolock st.sfs sin.indirect (index - ndirect)
          ok (ret, record st { sfs = s1 }))
        else ok (0, st))

unfoldable pub sfs_bmap_load_nolock : State → (index : ℕ) → Run (ℕ × ℕ × State)
sfs_bmap_load_nolock st index = do
  assert (leb index st.sin.blocks)
  let create = index == st.sin.blocks
  (ret, ino, st1) ← sfs_bmap_get_nolock st index create
  if not (ret == 0) then ok (ret, 0, st1) else do
    inuse ← sfs_block_inuse st1.sfs ino
    assert inuse
    ok (
      0,
      ino,
      if create then record st1 { sin = record st1.sin { blocks = st1.sin.blocks + 1 } } else st1,
    )

unfoldable pub sfs_bmap_truncate_nolock : State → Run (ℕ × State)
sfs_bmap_truncate_nolock st = do
  assert (not (st.sin.blocks == 0))
  (ret, st1) ← sfs_bmap_free_nolock st (st.sin.blocks - 1)
  ok (
    ret,
    if ret == 0
        then record st1 { sin = record st1.sin { blocks = st1.sin.blocks - 1; dirty = true } }
        else st1,
  )
