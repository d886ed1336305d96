-- ===== src/Sfs/Transfer/Read.antt =====
-- What `sfs_io_nolock` reads from a well-formed file.
use oslabcode.Prelude.{
  ℕ, ◌+◌, ◌-◌, ◌*◌, ◌^◌, ◌≤◌, ◌<◌, ◌≡◌, refl, sym, ap, ◌∙◌, inl, inr, true, false, ◌&&◌, ◌||◌,
  arith, ltb, leb, ◌==◌, if◌then◌else◌, lt→ltb, Bool-cases, Run, ok, count, min,
}
use oslabcode.Memory.{Memory}
use oslabcode.Sfs.{sfs_blksize, copied, sfs_rbuf, sfs_rblock}
use oslabcode.Sfs.Map.{State, sfs_bmap_load_nolock}
use oslabcode.Sfs.Map.Lookup.{block_of, IsFile, load-IsFile, read_block-IsInUse}
use oslabcode.Sfs.Transfer.{Io, max_file_size, advanced, part_op, block_op, finish, sfs_io_nolock}
use oslabcode.Sfs.Transfer.Whole.{
  content, content-block, IsWhole, end_of, start_of, io-nothing, io-transfer,
}
use oslabcode.Sfs.Transfer.Parts.{PartLaws, transfer-Through}

-- The memory with `d` bytes of the file from `o` on at `b`.
abbrev pub loaded : State → Memory → (b o d : ℕ) → Memory
loaded st mem b o d a = if leb b a && ltb a (b + d) then content st (o + (a - b)) else mem a

module _ (st : State) (file : IsFile st) (mem : Memory) (b o : ℕ) where
  -- The local variables when `d` bytes have been read.
  record Read (x : Io) (d : ℕ) : Type 0 where
    good : x.ret ≡ 0
    still : x.state ≡ st
    bytes : (a : ℕ) → x.mem a ≡ loaded st mem b o d a
    at_buf : x.buf ≡ b + d
    at_file : x.offset ≡ o + d
    done : x.alen ≡ d

  -- Copying a part of a block to its place.
  one_copy :
      (x : Io) (d blkno blkoff size : ℕ)
      → Read x d
      → x.offset ≡ blkno * sfs_blksize + blkoff
      → blkoff + size ≤ sfs_blksize
      → (a : ℕ)
      → copied x.mem x.buf (st.sfs.disk (block_of st blkno)) blkoff size a
        ≡ loaded st mem b o (d + size) a
  one_copy x d blkno blkoff size r at fits a =
      elim (Bool-cases (leb (b + d) a && ltb a (b + d + size))) [
        | inl within ↦
            let k = a - (b + d) in
            let here : content st (o + (a - b)) ≡ st.sfs.disk (block_of st blkno) (blkoff + k) =
              content-block st (o + (a - b)) blkno (blkoff + k)
                (ground (arith, within, at, r.at_file)) (ground (arith, within, fits)) in
            rw (r.at_buf, within) (ground (arith, within, here))
        | inr without ↦ rw (r.at_buf, without) (ground (arith, without, r.bytes a))
      ]

  module _ (x : Io) (d blkoff size : ℕ) (r : Read x d)
      (at : x.offset ≡ x.blkno * sfs_blksize + blkoff) (in_file : x.blkno < st.sin.blocks) where
    after : Io
    after = record x {
      mem = copied x.mem x.buf (st.sfs.disk (block_of st x.blkno)) blkoff size;
      state = st;
      ret = 0;
    }

    load_here : sfs_bmap_load_nolock x.state x.blkno ≡ ok (0, block_of st x.blkno, st)
    load_here = rw r.still (load-IsFile st file x.blkno in_file)

    part_op-after :
        blkoff < sfs_blksize → blkoff + size ≤ sfs_blksize → part_op false size blkoff x ≡ ok after
    unfolding part_op sfs_rbuf after
    part_op-after lt fits =
        let start : ltb blkoff sfs_blksize ≡ true = lt→ltb blkoff sfs_blksize lt in
        let end : leb (blkoff + size) sfs_blksize ≡ true = ground (arith, fits) in
        rw (
          load_here,
          start,
          end,
          read_block-IsInUse st.sfs (block_of st x.blkno) (file.used x.blkno in_file),
        )

    after-Read : blkoff + size ≤ sfs_blksize → Read (advanced after size) (d + size)
    unfolding after
    after-Read fits = record {
      good = refl;
      still = refl;
      bytes = one_copy x d x.blkno blkoff size r at fits;
      at_buf = omega (arith, r.at_buf);
      at_file = omega (arith, r.at_file);
      done = omega (arith, r.done);
    }

  block_op-after :
      (x : Io) (d : ℕ) (r : Read x d) (at : x.offset ≡ x.blkno * sfs_blksize + 0)
      (in_file : x.blkno < st.sin.blocks)
      → block_op false x ≡ ok (after x d 0 sfs_blksize r at in_file)
  unfolding block_op sfs_rblock after
  block_op-after x d r at in_file = rw (
    load_here x d 0 sfs_blksize r at in_file,
    read_block-IsInUse st.sfs (block_of st x.blkno) (file.used x.blkno in_file),
  )

  part_laws : PartLaws false o st.sin.blocks Read
  unfolding after
  part_laws = record {
    good_ret = λ x d r. r.good;
    at_file = λ x d r. r.at_file;
    part_law = λ x d blkoff size r at in_file lt fits. record {
      x1 = after x d blkoff size r at in_file;
      is = part_op-after x d blkoff size r at in_file lt fits;
      good = after-Read x d blkoff size r at in_file fits;
      same_offset = refl;
      same_blkno = refl;
    };
    block_law = λ x d r at in_file.
        let at0 : x.offset ≡ x.blkno * sfs_blksize + 0 = omega (arith, at) in
        record {
          x1 = after x d 0 sfs_blksize r at0 in_file;
          is = block_op-after x d r at0 in_file;
          good = after-Read x d 0 sfs_blksize r at0 in_file (omega arith);
          same_offset = refl;
          same_blkno = refl;
        };
  }

-- How many bytes a read gives.
abbrev pub read_length : State → (offset len : ℕ) → ℕ
read_length st offset len = min (min (offset + len) max_file_size) st.sin.size - offset

end_of-read_length :
    (st : State) (offset len : ℕ)
    → (offset == offset + len || leb st.sin.size offset) ≡ false
    → offset < max_file_size
    → (end_of st offset len false - offset ≡ read_length st offset len)
      × (offset < end_of st offset len false)
      × (end_of st offset len false ≤ st.sin.size)
end_of-read_length st offset len h low =
    (ground (arith, h, low), ground (arith, h, low), ground (arith, h, low))

-- A read of a file whose blocks reach to its end.
pub read-within :
    (st : State) (mem : Memory) (buf offset len : ℕ)
    → IsFile st
    → st.sin.is_dir ≡ false
    → min (min (offset + len) max_file_size) st.sin.size ≤ st.sin.blocks * sfs_blksize
    → offset < max_file_size
    → offset + len < 2 ^ 63
    → (mem' : Memory) × (sfs_io_nolock st mem buf offset len false
        ≡ ok (0, read_length st offset len, mem', st))
      × ((a : ℕ) → mem' a ≡ loaded st mem buf offset (read_length st offset len) a)
unfolding finish
read-within st mem buf offset len file plain held low small =
    elim (Bool-cases (offset == offset + len || leb st.sin.size offset)) [
      | inl nothing ↦
          let none_read : read_length st offset len ≡ 0 = ground (arith, nothing) in
          (
            mem,
            io-nothing st mem buf offset len false plain low small nothing
                ∙ ap (λ k. ok (0, k, mem, st)) (sym none_read),
            λ a. rw none_read (ground arith),
          )
      | inr some_bytes ↦
          let (count, more, in_size) = end_of-read_length st offset len some_bytes low in
          let h =
            transfer-Through false offset st.sin.blocks (Read st file mem buf offset)
              (part_laws st file mem buf offset) (start_of st mem buf offset)
              (read_length st offset len) (end_of st offset len false)
              (record {
                good = refl;
                still = refl;
                bytes = λ a. ground arith;
                at_buf = omega arith;
                at_file = omega arith;
                done = refl;
              })
              refl more count (omega (arith, in_size, count, held)) in
          let (ret, state, bytes, alen) = h.same in
          (
            h.x.mem,
            io-transfer st mem buf offset len false plain low small h.x some_bytes h.is
                ∙ results h.x (read_length st offset len) (ret ∙ h.good.good) (alen ∙ h.good.done)
                    (state ∙ h.good.still),
            λ a. ap (λ m. m a) bytes ∙ h.good.bytes a,
          )
    ]
  where
    results :
        (x : Io) (n : ℕ)
        → x.ret ≡ 0
        → x.alen ≡ n
        → x.state ≡ st
        → ◌≡◌ {A = Run (ℕ × ℕ × Memory × State)}
            (ok (x.ret, x.alen, x.mem, x.state))
            (ok (0, n, x.mem, st))
    results x n e f g =
        ap (λ r. ok (r, x.alen, x.mem, x.state)) e
        ∙ ap (λ k. ok (0, k, x.mem, x.state)) f
        ∙ ap (λ s. ok (0, n, x.mem, s)) g

-- Reading from a well-formed file at an offset below the maximal size does not fail. It reads the
-- bytes of the file from the offset on into the buffer, as many as are asked for and the file and
-- the maximal size have, and changes no other byte of the memory and nothing of the file system.
pub sfs_io_nolock-read :
    (st : State) (mem : Memory) (buf offset len : ℕ)
    → IsWhole st
    → offset < max_file_size
    → offset + len < 2 ^ 63
    → (mem' : Memory) × (sfs_io_nolock st mem buf offset len false
        ≡ ok (0, read_length st offset len, mem', st))
      × ((a : ℕ) → mem' a ≡ loaded st mem buf offset (read_length st offset len) a)
sfs_io_nolock-read st mem buf offset len v low small =
    let held = v.held in
    read-within st mem buf offset len v.file v.is_file (omega (arith, held)) low small
