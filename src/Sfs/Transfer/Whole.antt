-- ===== src/Sfs/Transfer/Whole.antt =====
-- Well-formed files, and the frame of sfs_io_nolock of labcode/lab8/kern/fs/sfs/sfs_inode.c around
-- a transfer.
use oslabcode.Prelude.{
  ℕ, ◌+◌, ◌*◌, ◌/◌, ◌%◌, ◌^◌, ◌≤◌, ◌<◌, ◌≡◌, ap, ◌∙◌, Bool, true, false, not, ◌&&◌, ◌||◌, arith,
  ltb, leb, ◌==◌, if◌then◌else◌, ok,
}
use oslabcode.Memory.{Memory}
use oslabcode.Sfs.{sfs_blksize}
use oslabcode.Sfs.Map.{State}
use oslabcode.Sfs.Map.Lookup.{block_of, IsFile}
use oslabcode.Sfs.Transfer.{Io, max_file_size, is_negative, transfer, finish, sfs_io_nolock}

-- The bytes of a file.
abbrev pub content : State → ℕ → ℕ
content st k = st.sfs.disk (block_of st (k / sfs_blksize)) (k % sfs_blksize)

pub content-block :
    (st : State) (k blkno r : ℕ)
    → k ≡ blkno * sfs_blksize + r
    → r < sfs_blksize
    → content st k ≡ st.sfs.disk (block_of st blkno) r
content-block st k blkno r e lt =
    let quotient : k / sfs_blksize ≡ blkno = omega (arith, e, lt) in
    let rest : k % sfs_blksize ≡ r = omega (arith, e, lt) in
    ap (λ q. st.sfs.disk (block_of st q) (k % sfs_blksize)) quotient
    ∙ ap (st.sfs.disk (block_of st blkno)) rest

-- A well-formed file whose blocks hold its bytes.
pub record IsWhole (st : State) : Type 0 where
  pub file : IsFile st
  pub is_file : st.sin.is_dir ≡ false
  pub held : st.sin.size ≤ st.sin.blocks * sfs_blksize

-- The end position of a transfer.
abbrev pub end_of : State → (offset len : ℕ) → Bool → ℕ
end_of st offset len write =
    let top = if ltb max_file_size (offset + len) then max_file_size else offset + len in
    if not write && ltb st.sin.size top then st.sin.size else top

abbrev pub start_of : State → Memory → (buf offset : ℕ) → Io
start_of st mem buf offset = record {
  ret = 0;
  state = st;
  mem = mem;
  buf = buf;
  offset = offset;
  alen = 0;
  blkno = offset / sfs_blksize;
}

-- `sfs_io_nolock` on a file at an offset that it does not refuse.
module _ (st : State) (mem : Memory) (buf offset len : ℕ) (write : Bool)
    (plain : st.sin.is_dir ≡ false) (low : offset < max_file_size)
    (small : offset + len < 2 ^ 63) where
  wrap : (offset + len) % 2 ^ 64 ≡ offset + len
  wrap = omega (arith, small)

  allowed :
      (is_negative offset
        || leb max_file_size offset
        || (is_negative (offset + len) || ltb (offset + len) offset))
      ≡ false
  allowed = ground (arith, low, small)

  no_dir : not st.sin.is_dir ≡ true
  no_dir = rw plain

  pub io-nothing :
      (offset == offset + len || (not write && leb st.sin.size offset)) ≡ true
      → sfs_io_nolock st mem buf offset len write ≡ ok (0, 0, mem, st)
  unfolding sfs_io_nolock
  io-nothing none_asked = rw (no_dir, wrap, allowed, none_asked)

  pub io-transfer :
      (x : Io)
      → (offset == offset + len || (not write && leb st.sin.size offset)) ≡ false
      → transfer write (end_of st offset len write) (start_of st mem buf offset) ≡ ok x
      → sfs_io_nolock st mem buf offset len write ≡ ok (finish write x)
  unfolding sfs_io_nolock
  io-transfer x some_asked e = rw (no_dir, wrap, allowed, some_asked, e)
