-- ===== src/Sfs/Map/Lookup.antt =====
-- The blocks of a well-formed file, and loading one of them.
use oslabcode.Prelude.{
  ℕ, ◌+◌, ◌-◌, ◌*◌, ◌≤◌, ◌<◌, ◌≡◌, ◌≢◌, inl, inr, Bool, true, false, arith, ltb, leb, ◌==◌,
  if◌then◌else◌, ltb→lt, lt→ltb, Bool-cases, ok,
}
use oslabcode.Bitmap.{bitmap_test}
use oslabcode.Sfs.{Sfs, sfs_blksize, get_u32, read_block, sfs_rbuf, read_u32, sfs_block_inuse}
use oslabcode.Sfs.Map.{
  ndirect, blk_nentry, State, sfs_bmap_get_sub_nolock, checked, sfs_bmap_get_nolock,
  sfs_bmap_load_nolock,
}

-- A block of the file system and of the device that the bitmap says is in use.
pub record IsInUse (s : Sfs) (b : ℕ) : Type 0 where
  pub some_block : 0 < b
  pub in_fs : b < s.blocks
  pub on_device : b < s.d_blocks
  pub in_use : bitmap_test s.freemap b ≡ ok false

-- The number of the block that holds the bytes of the file from `index` * 4096 on, or 0.
abbrev pub block_of : State → ℕ → ℕ
block_of st index =
    if ltb index ndirect
    then st.sin.direct index
    else (if st.sin.indirect == 0
        then 0
        else get_u32 (st.sfs.disk st.sin.indirect) ((index - ndirect) * 4))

-- The blocks of a file are in use, and they are different blocks.
pub record IsFile (st : State) : Type 0 where
  pub few : st.sin.blocks ≤ ndirect + blk_nentry
  pub used : (i : ℕ) → i < st.sin.blocks → IsInUse st.sfs (block_of st i)
  pub apart :
      (i j : ℕ) → i < st.sin.blocks → j < st.sin.blocks → block_of st i ≡ block_of st j → i ≡ j
  pub entries : ndirect < st.sin.blocks → IsInUse st.sfs st.sin.indirect
  pub own : (i : ℕ) → ndirect < st.sin.blocks → i < st.sin.blocks → block_of st i ≢ st.sin.indirect

module _ (s : Sfs) (b : ℕ) (u : IsInUse s b) where
  pub read_block-IsInUse : read_block s b ≡ ok (0, s.disk b)
  unfolding read_block
  read_block-IsInUse = ground (arith, u.some_block, u.in_fs, u.on_device)

  pub sfs_block_inuse-IsInUse : sfs_block_inuse s b ≡ ok true
  unfolding sfs_block_inuse
  sfs_block_inuse-IsInUse =
      let nonzero : (b == 0) ≡ false = ground (arith, u.some_block) in
      rw (nonzero, lt→ltb b s.blocks u.in_fs, u.in_use)

  pub read_u32-IsInUse :
      (offset : ℕ)
      → offset + 4 ≤ sfs_blksize
      → read_u32 s b offset ≡ ok (0, get_u32 (s.disk b) offset)
  unfolding read_u32 sfs_rbuf
  read_u32-IsInUse offset fits =
      let in_block : ltb offset sfs_blksize ≡ true = ground (arith, fits) in
      let to_end : leb (offset + 4) sfs_blksize ≡ true = ground (arith, fits) in
      let first : offset + 0 ≡ offset = omega arith in
      rw (in_block, to_end, read_block-IsInUse, first)

pub checked-IsInUse : (st : State) (b : ℕ) → IsInUse st.sfs b → checked st b ≡ ok (0, b, st)
unfolding checked
checked-IsInUse st b u =
    let nonzero : (b == 0) ≡ false = ground (arith, u.some_block) in
    rw (nonzero, sfs_block_inuse-IsInUse st.sfs b u)

-- A block that the map holds is given, without a change.
module _ (st : State) (index b : ℕ) (u : IsInUse st.sfs b) where
  nonzero : (b == 0) ≡ false
  nonzero = ground (arith, u.some_block)

  pub get-direct :
      (create : Bool)
      → index < ndirect
      → st.sin.direct index ≡ b
      → sfs_bmap_get_nolock st index create ≡ ok (0, b, st)
  unfolding sfs_bmap_get_nolock
  get-direct create low e = rw (lt→ltb index ndirect low, e, nonzero) (checked-IsInUse st b u)

  pub get-indirect :
      (create : Bool)
      → ndirect ≤ index
      → index < ndirect + blk_nentry
      → IsInUse st.sfs st.sin.indirect
      → get_u32 (st.sfs.disk st.sin.indirect) ((index - ndirect) * 4) ≡ b
      → sfs_bmap_get_nolock st index create ≡ ok (0, b, st)
  unfolding sfs_bmap_get_nolock sfs_bmap_get_sub_nolock
  get-indirect create high few entries e =
      let there : ltb index ndirect ≡ false = ground (arith, high) in
      let room : ltb (index - ndirect) blk_nentry ≡ true = ground (arith, high, few) in
      let some_entries : (st.sin.indirect == 0) ≡ false = ground (arith, entries.some_block) in
      let same : (st.sin.indirect == st.sin.indirect) ≡ true = ground arith in
      rw
        (
          there,
          room,
          some_entries,
          read_u32-IsInUse st.sfs st.sin.indirect entries ((index - ndirect) * 4)
              (omega (arith, high, few)),
          e,
          nonzero,
          same,
        )
        (checked-IsInUse st b u)

-- The block of an index of a file is given, without a change.
module _ (st : State) (file : IsFile st) (index : ℕ) (lt : index < st.sin.blocks) where
  pub get-IsFile :
      (create : Bool) → sfs_bmap_get_nolock st index create ≡ ok (0, block_of st index, st)
  get-IsFile create = elim (Bool-cases (ltb index ndirect)) [
    | inl low ↦
        get-direct st index (block_of st index) (file.used index lt) create
          (ltb→lt index ndirect low) (rw low)
    | inr high ↦
        let more : ndirect < st.sin.blocks = ground (arith, high, lt) in
        let entries = file.entries more in
        let some_entries : (st.sin.indirect == 0) ≡ false = ground (arith, entries.some_block) in
        get-indirect st index (block_of st index) (file.used index lt) create (ground (arith, high))
          (omega (arith, lt, file.few)) entries (rw (high, some_entries))
  ]

  -- Loading a block of a well-formed file gives its block and changes nothing.
  pub load-IsFile : sfs_bmap_load_nolock st index ≡ ok (0, block_of st index, st)
  unfolding sfs_bmap_load_nolock
  load-IsFile =
      let range : leb index st.sin.blocks ≡ true = ground (arith, lt) in
      let old : (index == st.sin.blocks) ≡ false = ground (arith, lt) in
      rw (
        range,
        old,
        get-IsFile false,
        sfs_block_inuse-IsInUse st.sfs (block_of st index) (file.used index lt),
      )
