-- ===== src/Sfs/Transfer/Written.antt =====
-- How the parts of a write change a well-formed file: sfs_io_nolock of
-- labcode/lab8/kern/fs/sfs/sfs_inode.c.
use oslabcode.Prelude.{
  ℕ, ◌+◌, ◌-◌, ◌*◌, ◌≤◌, ◌<◌, ◌≡◌, ◌≢◌, refl, sym, ap, ◌∙◌, inl, inr, true, false, ◌&&◌, arith, ltb,
  leb, ◌==◌, if◌then◌else◌, lt→ltb, Bool-cases, update, ok,
}
use mathlib.Core.Path.{subst}
use oslabcode.Memory.{Memory}
use oslabcode.Sfs.{sfs_blksize, copied, read_block, sfs_wbuf, sfs_wblock, write_block}
use oslabcode.Sfs.Map.{State, ndirect, sfs_bmap_load_nolock}
use oslabcode.Sfs.Map.Lookup.{block_of, IsFile, IsInUse, load-IsFile, read_block-IsInUse}
use oslabcode.Sfs.Transfer.{Io, advanced, part_op, block_op}
use oslabcode.Sfs.Transfer.Whole.{content}
use oslabcode.Sfs.Transfer.Parts.{PartLaws}

-- A file on another disk.
abbrev pub with_disk : State → (ℕ → Memory) → State
with_disk st disk = record st { sfs = record st.sfs { disk = disk } }

-- A block that is not one of the file's.
abbrev pub IsForeign : State → ℕ → Type 0
IsForeign st n = (i : ℕ) → i < st.sin.blocks → block_of st i ≢ n

-- A byte of the file, or a byte of the memory at its place among `d` bytes at `o`.
abbrev pub stored : State → Memory → (b o d : ℕ) → (k : ℕ) → ℕ
stored st mem b o d k = if leb o k && ltb k (o + d) then mem (b + (k - o)) else content st k

IsInUse-with_disk :
    (st : State) (disk : ℕ → Memory) (n : ℕ) → IsInUse st.sfs n → IsInUse (with_disk st disk).sfs n
IsInUse-with_disk st disk n u = record {
  some_block = u.some_block;
  in_fs = u.in_fs;
  on_device = u.on_device;
  in_use = u.in_use;
}

module _ (st : State) (file : IsFile st) (disk : ℕ → Memory)
    (others : (n r : ℕ) → IsForeign st n → disk n r ≡ st.sfs.disk n r) where
  pub block_of-with_disk :
      (i : ℕ) → i < st.sin.blocks → block_of (with_disk st disk) i ≡ block_of st i
  block_of-with_disk i lt = elim (Bool-cases (ltb i ndirect)) [
    | inl low ↦ rw low
    | inr high ↦
        let more : ndirect < st.sin.blocks = ground (arith, high, lt) in
        let same : (r : ℕ) → disk st.sin.indirect r ≡ st.sfs.disk st.sin.indirect r =
          λ r. others st.sin.indirect r (λ j low. file.own j more low) in
        let k = (i - ndirect) * 4 in rw (high, same k, same (k + 1), same (k + 2), same (k + 3))
  ]

  pub IsFile-with_disk : IsFile (with_disk st disk)
  IsFile-with_disk = record {
    few = file.few;
    used = λ i lt.
        subst (IsInUse (with_disk st disk).sfs) (sym (block_of-with_disk i lt))
          (IsInUse-with_disk st disk (block_of st i) (file.used i lt));
    apart = λ i j lt_i lt_j e.
        file.apart i j lt_i lt_j (sym (block_of-with_disk i lt_i) ∙ e ∙ block_of-with_disk j lt_j);
    entries = λ more. IsInUse-with_disk st disk st.sin.indirect (file.entries more);
    own = λ i more lt e. file.own i more lt (sym (block_of-with_disk i lt) ∙ e);
  }

module _ (st : State) (file : IsFile st) (mem : Memory) (b o : ℕ) where
  -- The local variables when `d` bytes have been written.
  pub record Written (x : Io) (d : ℕ) : Type 0 where
    pub good : x.ret ≡ 0
    pub same_mem : x.mem ≡ mem
    pub still : x.state ≡ with_disk st x.state.sfs.disk
    pub bytes :
        (i r : ℕ)
        → i < st.sin.blocks
        → r < sfs_blksize
        → x.state.sfs.disk (block_of st i) r ≡ stored st mem b o d (i * sfs_blksize + r)
    pub others : (n r : ℕ) → IsForeign st n → x.state.sfs.disk n r ≡ st.sfs.disk n r
    pub at_buf : x.buf ≡ b + d
    pub at_file : x.offset ≡ o + d
    pub done : x.alen ≡ d

  module _ (x : Io) (d blkoff size : ℕ) (w : Written x d)
      (at : x.offset ≡ x.blkno * sfs_blksize + blkoff) (in_file : x.blkno < st.sin.blocks)
      (block : Memory) where
    place : ℕ
    place = block_of st x.blkno

    after : Io
    after = record x { state = with_disk st (update x.state.sfs.disk place block); ret = 0 }

    load_here :
        sfs_bmap_load_nolock x.state x.blkno
        ≡ ok (0, block_of st x.blkno, with_disk st x.state.sfs.disk)
    load_here =
        let disk = x.state.sfs.disk in
        subst (λ s. sfs_bmap_load_nolock s x.blkno ≡ ok (0, block_of st x.blkno, with_disk st disk))
          (sym w.still)
          (load-IsFile (with_disk st disk) (IsFile-with_disk st file disk w.others) x.blkno in_file
            ∙ ap (λ n. ok (0, n, with_disk st disk))
                (block_of-with_disk st file disk w.others x.blkno in_file))

    write_here :
        write_block (with_disk st x.state.sfs.disk).sfs block (block_of st x.blkno)
        ≡ ok (0, after.state.sfs)
    unfolding write_block after place
    write_here =
        let u = file.used x.blkno in_file in ground (arith, u.some_block, u.in_fs, u.on_device)

    -- Which bytes of its block a part changes.
    part_bytes :
        (r : ℕ)
        → r < sfs_blksize
        → blkoff + size ≤ sfs_blksize
        → copied (x.state.sfs.disk (block_of st x.blkno)) blkoff x.mem x.buf size r
          ≡ stored st mem b o (d + size) (x.blkno * sfs_blksize + r)
    part_bytes r lt fits = elim (Bool-cases (leb blkoff r && ltb r (blkoff + size))) [
      | inl within ↦
          let k = x.blkno * sfs_blksize + r in
          let there : (leb o k && ltb k (o + (d + size))) ≡ true =
            ground (arith, within, at, w.at_file) in
          let source : x.buf + (r - blkoff) ≡ b + (k - o) =
            ground (arith, within, at, w.at_file, w.at_buf) in
          rw (within, there) (ap (λ m. m (x.buf + (r - blkoff))) w.same_mem ∙ ap mem source)
      | inr without ↦
          let k = x.blkno * sfs_blksize + r in
          let same : (leb o k && ltb k (o + (d + size))) ≡ (leb o k && ltb k (o + d)) =
            ground (arith, without, at, w.at_file) in
          rw (without, same) (w.bytes x.blkno r in_file lt)
    ]

    other_bytes :
        (i r : ℕ)
        → i < st.sin.blocks
        → r < sfs_blksize
        → blkoff + size ≤ sfs_blksize
        → (x.blkno == i) ≡ false
        → x.state.sfs.disk (block_of st i) r ≡ stored st mem b o (d + size) (i * sfs_blksize + r)
    other_bytes i r lt lt_r fits away =
        let k = i * sfs_blksize + r in
        let same : (leb o k && ltb k (o + (d + size))) ≡ (leb o k && ltb k (o + d)) =
          ground (arith, at, w.at_file, lt_r, fits, away) in
        rw same (w.bytes i r lt lt_r)

    after-Written :
        ((r : ℕ)
          → r < sfs_blksize
          → block r ≡ copied (x.state.sfs.disk (block_of st x.blkno)) blkoff x.mem x.buf size r)
        → blkoff + size ≤ sfs_blksize
        → Written (advanced after size) (d + size)
    unfolding after place
    after-Written is fits = record {
      good = refl;
      same_mem = w.same_mem;
      still = refl;
      bytes = λ i r lt lt_r. elim (Bool-cases (x.blkno == i)) [
        | inl here ↦
            let i_is : x.blkno ≡ i = ground (arith, here) in
            let own : (place == place) ≡ true = ground arith in
            subst
              (λ i.
                update x.state.sfs.disk place block (block_of st i) r
                ≡ stored st mem b o (d + size) (i * sfs_blksize + r))
              i_is (rw own (is r lt_r ∙ part_bytes r lt_r fits))
        | inr away ↦
            let differ : block_of st x.blkno ≢ block_of st i =
              λ e. let same = file.apart x.blkno i in_file lt e in ground (arith, same, away) in
            let foreign : (place == block_of st i) ≡ false = ground (arith, differ) in
            rw foreign (other_bytes i r lt lt_r fits away)
      ];
      others = λ n r foreign.
          let differ = foreign x.blkno in_file in
          let away : (place == n) ≡ false = ground (arith, differ) in
          rw away (w.others n r foreign);
      at_buf = omega (arith, w.at_buf);
      at_file = omega (arith, w.at_file);
      done = omega (arith, w.done);
    }

  read_here :
      (x : Io) (d : ℕ)
      → Written x d
      → x.blkno < st.sin.blocks
      → read_block (with_disk st x.state.sfs.disk).sfs (block_of st x.blkno)
        ≡ ok (0, x.state.sfs.disk (block_of st x.blkno))
  read_here x d w in_file =
      let disk = x.state.sfs.disk in
      read_block-IsInUse (with_disk st disk).sfs (block_of st x.blkno)
        (IsInUse-with_disk st disk (block_of st x.blkno) (file.used x.blkno in_file))

  -- The block as a part changes it.
  part_block : (x : Io) (blkoff size : ℕ) → Memory
  part_block x blkoff size = copied (x.state.sfs.disk (block_of st x.blkno)) blkoff x.mem x.buf size

  part_op-after :
      (x : Io) (d blkoff size : ℕ) (w : Written x d)
      (at : x.offset ≡ x.blkno * sfs_blksize + blkoff) (in_file : x.blkno < st.sin.blocks)
      → blkoff < sfs_blksize
      → blkoff + size ≤ sfs_blksize
      → part_op true size blkoff x
        ≡ ok (after x d blkoff size w at in_file (part_block x blkoff size))
  unfolding part_op sfs_wbuf part_block
  part_op-after x d blkoff size w at in_file lt fits =
      let start : ltb blkoff sfs_blksize ≡ true = lt→ltb blkoff sfs_blksize lt in
      let end : leb (blkoff + size) sfs_blksize ≡ true = ground (arith, fits) in
      rw
        (
          load_here x d blkoff size w at in_file (part_block x blkoff size),
          start,
          end,
          read_here x d w in_file,
          write_here x d blkoff size w at in_file (part_block x blkoff size),
        )
        (unfold after in refl)

  whole_block : Io → Memory
  whole_block x a = x.mem (x.buf + a)

  block_op-after :
      (x : Io) (d : ℕ) (w : Written x d) (at : x.offset ≡ x.blkno * sfs_blksize + 0)
      (in_file : x.blkno < st.sin.blocks)
      → block_op true x ≡ ok (after x d 0 sfs_blksize w at in_file (whole_block x))
  unfolding block_op sfs_wblock whole_block
  block_op-after x d w at in_file =
      rw
        (
          load_here x d 0 sfs_blksize w at in_file (whole_block x),
          write_here x d 0 sfs_blksize w at in_file (whole_block x),
        )
        (unfold after in refl)

  pub part_laws : PartLaws true o st.sin.blocks Written
  unfolding after part_block whole_block
  part_laws = record {
    good_ret = λ x d w. w.good;
    at_file = λ x d w. w.at_file;
    part_law = λ x d blkoff size w at in_file lt fits. record {
      x1 = after x d blkoff size w at in_file (part_block x blkoff size);
      is = part_op-after x d blkoff size w at in_file lt fits;
      good =
          after-Written x d blkoff size w at in_file (part_block x blkoff size) (λ r lt_r. refl)
            fits;
      same_offset = refl;
      same_blkno = refl;
    };
    block_law = λ x d w at in_file.
        let at0 : x.offset ≡ x.blkno * sfs_blksize + 0 = omega (arith, at) in
        record {
          x1 = after x d 0 sfs_blksize w at0 in_file (whole_block x);
          is = block_op-after x d w at0 in_file;
          good =
              after-Written x d 0 sfs_blksize w at0 in_file (whole_block x)
                (λ r lt_r. ground (arith, lt_r)) (omega arith);
          same_offset = refl;
          same_blkno = refl;
        };
  }
