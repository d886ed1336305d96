-- ===== src/Sfs/Dir.antt =====
-- The entries of a directory: sfs_dirent_read_nolock to sfs_dirent_findino_nolock, and
-- sfs_getdirentry, of labcode/lab8/kern/fs/sfs/sfs_inode.c. An entry fills a block of its own; in
-- memory it is its number of an inode, of 4 bytes, and its name, of 256.
pub mod Search
use oslabcode.Prelude.{
  ℕ, zero, suc, ◌+◌, ◌-◌, ◌*◌, ◌/◌, ◌%◌, ◌^◌, ◌≤◌, ◌<◌, ◌≡◌, ◌≢◌, refl, sym, ap, ◌∙◌, ◌↔◌, ◌⊎◌, inl,
  inr, Bool, true, false, not, ◌&&◌, ◌||◌, Option, none, some, List, [], ◌∷◌, ◌++◌, map,
  append_assoc, append-nil, arith, ltb, leb, ◌==◌, if◌then◌else◌, ltb→lt, lt→ltb, le→ltb, ==_iff,
  Bool-cases, Option-cases, update, ◌>>=◌, ◌>>◌, assert, Run, ok, panic, out_of_fuel, length,
  chain_ok, e_inval, e_no_mem, e_busy, e_max_open, count, count-append, Distinct, fun_ext, min,
}
use oslabcode.Memory.{Memory, strlen, strcmp}
use oslabcode.Memory.Buffer.{Iobuf, iobuf_move}
use oslabcode.Sfs.{get_u32, sfs_rbuf, sfs_block_inuse}
use oslabcode.Sfs.Map.{State, sfs_bmap_load_nolock}

abbrev pub max_fname_len : ℕ
max_fname_len = 255

-- `sizeof(struct sfs_disk_entry)`
abbrev pub entry_size : ℕ
entry_size = 260

abbrev pub e_noent : ℕ
e_noent = 16

-- The fields of the entry that is at `entry`.
abbrev pub entry_ino : Memory → (entry : ℕ) → ℕ
entry_ino mem entry = get_u32 mem entry

abbrev pub entry_name : (entry : ℕ) → ℕ
entry_name entry = entry + 4

unfoldable pub sfs_dirent_read_nolock : State → Memory → (slot entry : ℕ) → Run (ℕ × Memory × State)
sfs_dirent_read_nolock st mem slot entry = do
  assert (st.sin.is_dir && ltb slot st.sin.blocks)
  (ret, ino, st1) ← sfs_bmap_load_nolock st slot
  if not (ret == 0) then ok (ret, mem, st1) else (do
    inuse ← sfs_block_inuse st1.sfs ino
    assert inuse
    (read, mem1) ← sfs_rbuf st1.sfs mem entry entry_size ino 0
    ok (read, if read == 0 then update mem1 (entry_name entry + max_fname_len) 0 else mem1, st1))

-- What `sfs_dirent_search_nolock` gives: the inode and the slot of the name, if it is found, and the
-- slot that it stores as empty, if any.
pub record Searched : Type 0 where
  pub ret : ℕ
  pub found : Option (ℕ × ℕ)
  pub empty_slot : Option ℕ
  pub mem : Memory
  pub state : State

-- The loop over the slots from `i` on; `rounds` bounds the comparison of two names.
unfoldable pub search_slots :
    (left i : ℕ)
    → (rounds : ℕ) → State
    → Memory
    → (name entry : ℕ) → (empty_slot : Option ℕ) → Run Searched
search_slots zero i rounds st mem name entry empty_slot =
    ok (record { ret = e_noent; found = none; empty_slot = empty_slot; mem = mem; state = st })
search_slots (suc n) i rounds st mem name entry empty_slot = do
  (ret, mem1, st1) ← sfs_dirent_read_nolock st mem i entry
  if not (ret == 0)
      then ok (record { ret = ret; found = none; empty_slot = empty_slot; mem = mem1; state = st1 })
      else (if entry_ino mem1 entry == 0
          then search_slots n (i + 1) rounds st1 mem1 name entry (some i)
          else (do
            order ← strcmp rounds mem1 name (entry_name entry)
            if order == 0
                then ok (record {
                  ret = 0;
                  found = some (entry_ino mem1 entry, i);
                  empty_slot = empty_slot;
                  mem = mem1;
                  state = st1;
                })
                else search_slots n (i + 1) rounds st1 mem1 name entry empty_slot))

-- `sfs_dirent_search_nolock`; `room` is what `kmalloc` gives for the entry.
unfoldable pub sfs_dirent_search_nolock :
    (rounds : ℕ) → State → Memory → (name : ℕ) → (room : Option ℕ) → Run Searched
sfs_dirent_search_nolock rounds st mem name room = do
  len ← strlen rounds mem name
  assert (leb len max_fname_len)
  elim room [
    | none ↦ ok (record { ret = e_no_mem; found = none; empty_slot = none; mem = mem; state = st })
    | some entry ↦ search_slots st.sin.blocks 0 rounds st mem name entry (some st.sin.blocks)
  ]

-- The loop of `sfs_dirent_findino_nolock`.
unfoldable pub find_ino : (left i : ℕ) → State → Memory → (ino entry : ℕ) → Run (ℕ × Memory × State)
find_ino zero i st mem ino entry = ok (e_noent, mem, st)
find_ino (suc n) i st mem ino entry = do
  (ret, mem1, st1) ← sfs_dirent_read_nolock st mem i entry
  if not (ret == 0)
      then ok (ret, mem1, st1)
      else (if entry_ino mem1 entry == ino
          then ok (0, mem1, st1)
          else find_ino n (i + 1) st1 mem1 ino entry)

unfoldable pub sfs_dirent_findino_nolock :
    State → Memory → (ino entry : ℕ) → Run (ℕ × Memory × State)
sfs_dirent_findino_nolock st mem ino entry = find_ino st.sin.blocks 0 st mem ino entry

-- The loop of `sfs_getdirentry_sub_nolock`: the entry of the given number among those in use.
unfoldable pub find_used :
    (left i : ℕ) → State → Memory → (slot entry : ℕ) → Run (ℕ × Memory × State)
find_used zero i st mem slot entry = ok (e_noent, mem, st)
find_used (suc n) i st mem slot entry = do
  (ret, mem1, st1) ← sfs_dirent_read_nolock st mem i entry
  if not (ret == 0)
      then ok (ret, mem1, st1)
      else (if entry_ino mem1 entry == 0
          then find_used n (i + 1) st1 mem1 slot entry
          else (if slot == 0
              then ok (0, mem1, st1)
              else find_used n (i + 1) st1 mem1 (slot - 1) entry))

unfoldable pub sfs_getdirentry_sub_nolock :
    State → Memory → (slot entry : ℕ) → Run (ℕ × Memory × State)
sfs_getdirentry_sub_nolock st mem slot entry = find_used st.sin.blocks 0 st mem slot entry

-- `sfs_dentry_size`
abbrev pub dentry_size : ℕ
dentry_size = 256

-- `sfs_getdirentry`, with what `kmalloc` gives for the entry; a negative offset is from 2 ^ 63 on.
unfoldable pub sfs_getdirentry :
    State → Memory → Iobuf → (room : Option ℕ) → Run (ℕ × Memory × Iobuf × State)
sfs_getdirentry st mem iob room = elim room [
  | none ↦ ok (e_no_mem, mem, iob, st)
  | some entry ↦
      let offset = iob.io_offset in
      let slot = offset / dentry_size % 2 ^ 32 in
      if leb (2 ^ 63) offset || not (offset % dentry_size == 0)
      then ok (e_inval, mem, iob, st)
      else (if ltb st.sin.blocks slot then ok (e_noent, mem, iob, st) else (do
        (ret, mem1, st1) ← sfs_getdirentry_sub_nolock st mem slot entry
        if not (ret == 0) then ok (ret, mem1, iob, st1) else (do
          (moved, count, mem2, iob') ← iobuf_move mem1 iob (entry_name entry) dentry_size true
          ok (moved, mem2, iob', st1))))
]
