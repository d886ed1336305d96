-- ===== src/Sfs/Transfer/Resize.antt =====
-- Changing the length of a file: sfs_truncfile and sfs_tryseek of
-- labcode/lab8/kern/fs/sfs/sfs_inode.c.
use oslabcode.Prelude.{
  ℕ, zero, suc, ◌+◌, ◌-◌, ◌/◌, ◌^◌, true, not, ltb, leb, ◌==◌, if◌then◌else◌, ◌>>=◌, ◌>>◌, assert,
  Run, ok, e_inval,
}
use oslabcode.Sfs.{sfs_blksize}
use oslabcode.Sfs.Map.{State, sfs_bmap_load_nolock, sfs_bmap_truncate_nolock}

-- The loops of `sfs_truncfile`, which add and take off blocks at the end.
unfoldable pub add_blocks : (more : ℕ) → State → Run (ℕ × State)
add_blocks zero st = ok (0, st)
add_blocks (suc k) st = do
  (ret, ino, st1) ← sfs_bmap_load_nolock st st.sin.blocks
  if ret == 0 then add_blocks k st1 else ok (ret, st1)

unfoldable pub drop_blocks : (more : ℕ) → State → Run (ℕ × State)
drop_blocks zero st = ok (0, st)
drop_blocks (suc k) st = do
  (ret, st1) ← sfs_bmap_truncate_nolock st
  if ret == 0 then drop_blocks k st1 else ok (ret, st1)

-- `sfs_truncfile`; a negative length is from 2 ^ 63 on.
unfoldable pub sfs_truncfile : State → (len : ℕ) → Run (ℕ × State)
sfs_truncfile st len =
    let tblks = (len + sfs_blksize - 1) / sfs_blksize in
    let nblks = st.sin.blocks in
    if ltb (2 ^ 27) len
    then ok (e_inval, st)
    else (if st.sin.size == len then (do assert (tblks == nblks); ok (0, st)) else (do
      (ret, st1) ←
          (if ltb nblks tblks
            then add_blocks (tblks - nblks) st
            else drop_blocks (nblks - tblks) st)
      if not (ret == 0) then ok (ret, st1) else do
        assert (st1.sin.blocks == tblks)
        ok (0, record st1 { sin = record st1.sin { size = len; dirty = true } })))

unfoldable pub sfs_tryseek : State → (pos : ℕ) → Run (ℕ × State)
sfs_tryseek st pos =
    if leb (2 ^ 27) pos
    then ok (e_inval, st)
    else (if ltb st.sin.size pos then sfs_truncfile st pos else ok (0, st))
