-- ===== src/Sfs/Transfer/Write.antt =====
-- What a write leaves of a well-formed file: sfs_io_nolock of labcode/lab8/kern/fs/sfs/sfs_inode.c.
use oslabcode.Prelude.{
  ℕ, ◌+◌, ◌*◌, ◌/◌, ◌%◌, ◌^◌, ◌≤◌, ◌<◌, ◌≡◌, refl, sym, ap, ◌∙◌, inl, inr, Bool, true, false, not,
  ◌&&◌, ◌||◌, arith, ltb, leb, ◌==◌, if◌then◌else◌, Bool-cases, ok,
}
use Prim.Native.Nat.{max}
use oslabcode.Memory.{Memory}
use oslabcode.Sfs.{sfs_blksize}
use oslabcode.Sfs.Map.{State}
use oslabcode.Sfs.Map.Lookup.{block_of, IsFile}
use oslabcode.Sfs.Transfer.{Io, transfer, finish, sfs_io_nolock}
use oslabcode.Sfs.Transfer.Whole.{content, content-block, IsWhole, end_of, start_of, io-transfer}
use oslabcode.Sfs.Transfer.Parts.{last_offset, transfer-Through}
use oslabcode.Sfs.Transfer.Written.{
  with_disk, IsForeign, stored, block_of-with_disk, IsFile-with_disk, Written, part_laws,
}

-- What a write of `len` bytes at `offset` leaves.
pub record Overwritten (st : State) (mem : Memory) (buf offset len : ℕ) (st' : State) : Type 0 where
  pub file : IsFile st'
  pub same_shape : (st'.sin.blocks ≡ st.sin.blocks) × (st'.sin.is_dir ≡ st.sin.is_dir)
  pub bytes :
      (k : ℕ) → k < st.sin.blocks * sfs_blksize → content st' k ≡ stored st mem buf offset len k
  pub others : (n r : ℕ) → IsForeign st n → st'.sfs.disk n r ≡ st.sfs.disk n r
  pub size_is : st'.sin.size ≡ max st.sin.size (last_offset offset (offset + len) + len)

module _ (st : State) (mem : Memory) (buf offset len : ℕ) (file : IsFile st) (like : Io)
    (w : Written st file mem buf offset like len) where
  -- The state behind a write, with the size that is stored.
  sized : ℕ → Bool → State
  sized size dirty = record {
    sfs = record st.sfs { disk = like.state.sfs.disk };
    sin = record st.sin { size = size; dirty = dirty };
  }

  sized-Overwritten :
      (size : ℕ) (dirty : Bool)
      → size ≡ max st.sin.size (last_offset offset (offset + len) + len)
      → Overwritten st mem buf offset len (sized size dirty)
  unfolding sized
  sized-Overwritten size dirty e =
      let disk = like.state.sfs.disk in
      let whole = IsFile-with_disk st file disk w.others in
      record {
        file = record {
          few = whole.few;
          used = whole.used;
          apart = whole.apart;
          entries = whole.entries;
          own = whole.own;
        };
        same_shape = (refl, refl);
        bytes = λ k lt.
            let i = k / sfs_blksize in
            let r = k % sfs_blksize in
            let lt_i : i < st.sin.blocks = omega (arith, lt) in
            let split : i * sfs_blksize + r ≡ k = omega arith in
            ap (λ n. disk n r) (block_of-with_disk st file disk w.others i lt_i)
            ∙ w.bytes i r lt_i (omega arith)
            ∙ ap (stored st mem buf offset len) split;
        others = w.others;
        size_is = e;
      }

  finish-sized :
      (x : Io) (top : ℕ)
      → x.ret ≡ 0
      → x.state ≡ with_disk st like.state.sfs.disk
      → x.mem ≡ mem
      → x.alen ≡ len
      → x.offset ≡ top
      → finish true x ≡ (
        0,
        len,
        mem,
        if ltb st.sin.size (top + len)
            then sized ((top + len) % 2 ^ 32) true
            else sized st.sin.size st.sin.dirty,
      )
  unfolding finish sized
  finish-sized x top ret state same alen off = rw (ret, state, same, alen, off)

-- Writing some bytes within the blocks of a well-formed file does not fail. The bytes of the file
-- from the offset on become those of the buffer and its other bytes stay, no block of another file
-- changes, and the file keeps its blocks and is well-formed but for its size. The new size is not the
-- end of what is written: it is the place of the last block or, in a single block behind its start,
-- the end, and then the whole length once more.
pub sfs_io_nolock-write :
    (st : State) (mem : Memory) (buf offset len : ℕ)
    → IsWhole st
    → 0 < len
    → offset + len ≤ st.sin.blocks * sfs_blksize
    → (st' : State) × (sfs_io_nolock st mem buf offset len true ≡ ok (0, len, mem, st'))
      × Overwritten st mem buf offset len st'
sfs_io_nolock-write st mem buf offset len v some_bytes room =
    let few = v.file.few in
    let end : end_of st offset len true ≡ offset + len = ground (arith, room, few) in
    let more : (offset == offset + len || (not true && leb st.sin.size offset)) ≡ false =
      ground (arith, some_bytes) in
    let h =
      transfer-Through true offset st.sin.blocks (Written st v.file mem buf offset)
        (part_laws st v.file mem buf offset) (start_of st mem buf offset) len (offset + len)
        (record {
          good = refl;
          same_mem = refl;
          still = refl;
          bytes = λ i r lt lt_r. start_bytes i r lt_r;
          others = λ n r foreign. refl;
          at_buf = omega arith;
          at_file = omega arith;
          done = refl;
        })
        refl (omega (arith, some_bytes)) (omega arith) room in
    let w = h.good in
    let (ret, state, same, alen) = h.same in
    let size = last_offset offset (offset + len) + len in
    let small : size % 2 ^ 32 ≡ size = ground (arith, room, few) in
    let run =
      io-transfer st mem buf offset len true v.is_file (omega (arith, room, few, some_bytes))
        (omega (arith, room, few)) h.x more
        (ap (λ e. transfer true e (start_of st mem buf offset)) end ∙ h.is)
      ∙ ap ok (
          finish-sized st mem buf offset len v.file h.like w h.x (last_offset offset (offset + len))
            (ret ∙ w.good) (state ∙ w.still) (same ∙ w.same_mem) (alen ∙ w.done) h.offset_out) in
    elim (Bool-cases (ltb st.sin.size size)) [
      | inl grown ↦ (
        sized st mem buf offset len v.file h.like w (size % 2 ^ 32) true,
        run ∙ rw grown,
        sized-Overwritten st mem buf offset len v.file h.like w (size % 2 ^ 32) true
            (small ∙ ground (arith, grown)),
      )
      | inr kept ↦ (
        sized st mem buf offset len v.file h.like w st.sin.size st.sin.dirty,
        run ∙ rw kept,
        sized-Overwritten st mem buf offset len v.file h.like w st.sin.size st.sin.dirty
            (ground (arith, kept)),
      )
    ]
  where
    start_bytes :
        (i r : ℕ)
        → r < sfs_blksize
        → st.sfs.disk (block_of st i) r ≡ stored st mem buf offset 0 (i * sfs_blksize + r)
    start_bytes i r lt =
        let none_yet : (leb offset (i * sfs_blksize + r) && ltb (i * sfs_blksize + r) (offset + 0))
            ≡ false =
          ground arith in
        rw none_yet (sym (content-block st (i * sfs_blksize + r) i r refl lt))
