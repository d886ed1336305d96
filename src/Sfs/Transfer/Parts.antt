-- ===== src/Sfs/Transfer/Parts.antt =====
-- The three parts of a transfer, for what each part keeps of a predicate.
use oslabcode.Prelude.{
  ℕ, zero, suc, ◌+◌, ◌-◌, ◌*◌, ◌/◌, ◌%◌, ◌≤◌, ◌<◌, ◌≡◌, refl, ap, ◌∙◌, inl, inr, Bool, true, false,
  not, ◌&&◌, arith, ltb, ◌==◌, if◌then◌else◌, Bool-cases, ◌>>=◌, Run, ok, count,
}
use mathlib.Core.Path.{subst}
use oslabcode.Sfs.{sfs_blksize}
use oslabcode.Sfs.Transfer.{Io, advanced, part_op, block_op, whole_blocks, last_part, transfer}

-- A part of `size` bytes is transferred, and a predicate of the variables and the number of bytes
-- holds again.
pub record Moved (Good : Io → ℕ → Type 0) (x : Io) (d size : ℕ) (result : Run Io) : Type 0 where
  pub x1 : Io
  pub is : result ≡ ok x1
  pub good : Good (advanced x1 size) (d + size)
  pub same_offset : x1.offset ≡ x.offset
  pub same_blkno : x1.blkno ≡ x.blkno

-- A predicate that the parts of a transfer keep in the first `blocks` blocks of a file.
pub record PartLaws (write : Bool) (o blocks : ℕ) (Good : Io → ℕ → Type 0) : Type 0 where
  pub good_ret : (x : Io) (d : ℕ) → Good x d → x.ret ≡ 0
  pub at_file : (x : Io) (d : ℕ) → Good x d → x.offset ≡ o + d
  pub part_law :
      (x : Io) (d blkoff size : ℕ)
      → Good x d
      → x.offset ≡ x.blkno * sfs_blksize + blkoff
      → x.blkno < blocks
      → blkoff < sfs_blksize
      → blkoff + size ≤ sfs_blksize
      → Moved Good x d size (part_op write size blkoff x)
  pub block_law :
      (x : Io) (d : ℕ)
      → Good x d
      → x.offset ≡ x.blkno * sfs_blksize
      → x.blkno < blocks
      → Moved Good x d sfs_blksize (block_op write x)

-- Where the variable `offset` stands behind a transfer: the last part does not advance it.
abbrev pub last_offset : (offset endpos : ℕ) → ℕ
last_offset offset endpos =
    if not (offset % sfs_blksize == 0) && endpos / sfs_blksize - offset / sfs_blksize == 0
    then endpos
    else endpos / sfs_blksize * sfs_blksize

module _ (write : Bool) (o blocks : ℕ) (Good : Io → ℕ → Type 0)
    (laws : PartLaws write o blocks Good) where
  whole_blocks-Good :
      (n : ℕ) (x : Io) (d : ℕ)
      → Good x d
      → x.offset ≡ x.blkno * sfs_blksize
      → x.blkno + n ≤ blocks
      → (x' : Io) × (whole_blocks n write x ≡ ok x')
        × Good x' (d + n * sfs_blksize)
        × (x'.offset ≡ x'.blkno * sfs_blksize)
  unfolding whole_blocks
  whole_blocks-Good zero x d g at room =
      (x, refl, subst (Good x) (let e : d ≡ d + 0 * sfs_blksize = omega arith in e) g, at)
  whole_blocks-Good (suc n) x d g at room =
      let m = laws.block_law x d g at (omega (arith, room)) in
      let good : (m.x1.ret == 0) ≡ true =
        ap (λ r. r == 0) (laws.good_ret (advanced m.x1 sfs_blksize) (d + sfs_blksize) m.good) in
      let (x', e, g', at') =
        whole_blocks-Good n (advanced m.x1 sfs_blksize) (d + sfs_blksize) m.good
          (omega (arith, at, m.same_offset, m.same_blkno)) (omega (arith, room, m.same_blkno)) in
      let sum : d + sfs_blksize + n * sfs_blksize ≡ d + suc n * sfs_blksize = omega arith in
      (x', rw (m.is, good) e, subst (Good x') sum g', at')

  -- What the three parts leave of `n` bytes, up to where the variables of the buffer stand.
  pub record Through (n out : ℕ) (result : Run Io) : Type 0 where
    pub x : Io
    pub is : result ≡ ok x
    pub like : Io
    pub good : Good like n
    pub same :
        (x.ret ≡ like.ret) × (x.state ≡ like.state) × (x.mem ≡ like.mem) × (x.alen ≡ like.alen)
    pub offset_out : x.offset ≡ out

  last_part-Through :
      (x : Io) (d n endpos : ℕ)
      → Good x d
      → x.offset ≡ x.blkno * sfs_blksize
      → d + (endpos - x.offset) ≡ n
      → endpos < x.offset + sfs_blksize
      → endpos ≤ blocks * sfs_blksize
      → Through n x.offset (last_part write endpos x)
  unfolding last_part
  last_part-Through x d n endpos g at total near room = elim (Bool-cases (ltb x.offset endpos)) [
    | inr over ↦
        let same : d ≡ n = ground (arith, over, total) in
        record {
          x = x;
          is = rw over;
          like = x;
          good = subst (Good x) same g;
          same = (refl, refl, refl, refl);
          offset_out = refl;
        }
    | inl more ↦
        let size = endpos - x.offset in
        let m =
          laws.part_law x d 0 size g (omega (arith, at)) (ground (arith, more, at, room))
            (omega arith) (ground (arith, near)) in
        let good = laws.good_ret (advanced m.x1 size) (d + size) m.good in
        record {
          x = record m.x1 { alen = m.x1.alen + size };
          is = rw (more, m.is, good);
          like = advanced m.x1 size;
          good = subst (Good (advanced m.x1 size)) total m.good;
          same = (refl, refl, refl, refl);
          offset_out = m.same_offset;
        }
  ]

  -- Whole blocks and the last part.
  rest-Through :
      (x : Io) (d n k endpos : ℕ)
      → Good x d
      → x.offset ≡ x.blkno * sfs_blksize
      → k ≡ endpos / sfs_blksize - x.blkno
      → x.offset ≤ endpos
      → d + (endpos - x.offset) ≡ n
      → endpos ≤ blocks * sfs_blksize
      → Through n (endpos / sfs_blksize * sfs_blksize) (
          whole_blocks k write x >>= λ x1. if x1.ret == 0 then last_part write endpos x1 else ok x1)
  rest-Through x d n k endpos g at count low total room =
      let (x1, e, g1, at1) = whole_blocks-Good k x d g at (omega (arith, count, at, low, room)) in
      let off : x1.offset ≡ x.offset + k * sfs_blksize =
        omega (arith, laws.at_file x1 (d + k * sfs_blksize) g1, laws.at_file x d g) in
      let h =
        last_part-Through x1 (d + k * sfs_blksize) n endpos g1 at1
          (omega (arith, off, at, count, low, total)) (omega (arith, off, at, count, low)) room in
      record {
        x = h.x;
        is = rw (e, laws.good_ret x1 (d + k * sfs_blksize) g1) h.is;
        like = h.like;
        good = h.good;
        same = h.same;
        offset_out =
            h.offset_out
            ∙ (let out : x1.offset ≡ endpos / sfs_blksize * sfs_blksize =
                  omega (arith, off, at, count, low) in
                out);
      }

  -- The first block from its middle on, and what comes behind it.
  module _ (x : Io) (n endpos : ℕ) (g : Good x 0) (at : x.blkno ≡ x.offset / sfs_blksize)
      (low : x.offset < endpos) (total : endpos - x.offset ≡ n)
      (room : endpos ≤ blocks * sfs_blksize) where
    k : ℕ
    k = endpos / sfs_blksize - x.blkno

    blkoff : ℕ
    blkoff = x.offset % sfs_blksize

    first_part :
        (size : ℕ) → blkoff + size ≤ sfs_blksize → Moved Good x 0 size (part_op write size blkoff x)
    unfolding blkoff
    first_part size fits =
        laws.part_law x 0 blkoff size g (omega (arith, at)) (omega (arith, at, low, room))
          (omega arith) fits

    within_one :
        k ≡ 0 → (x.offset % sfs_blksize == 0) ≡ false → Through n endpos (transfer write endpos x)
    unfolding transfer k blkoff
    within_one one inside =
        let size = endpos - x.offset in
        let one' : (endpos / sfs_blksize - x.blkno == 0) ≡ true = ground (arith, one) in
        let m = first_part size (omega (arith, one, at, low)) in
        let total0 : 0 + size ≡ n = omega (arith, total) in
        record {
          x = advanced m.x1 size;
          is = rw (inside, one', m.is, laws.good_ret (advanced m.x1 size) (0 + size) m.good);
          like = advanced m.x1 size;
          good = subst (Good (advanced m.x1 size)) total0 m.good;
          same = (refl, refl, refl, refl);
          offset_out = omega (arith, m.same_offset, low);
        }

    beyond_one :
        0 < k
        → (x.offset % sfs_blksize == 0) ≡ false
        → Through n (endpos / sfs_blksize * sfs_blksize) (transfer write endpos x)
    unfolding transfer k blkoff
    beyond_one more inside =
        let size = sfs_blksize - blkoff in
        let more' : (endpos / sfs_blksize - x.blkno == 0) ≡ false = ground (arith, more) in
        let m = first_part size (omega arith) in
        let good : (m.x1.ret == 0) ≡ true =
          ap (λ r. r == 0) (laws.good_ret (advanced m.x1 size) (0 + size) m.good) in
        let (at1, count, low1, total1) =
          behind size (advanced m.x1 size) (ap (λ y. y + size) m.same_offset)
            (ap (λ y. y + 1) m.same_blkno) refl more in
        let h =
          rest-Through (advanced m.x1 size) (0 + size) n (k - 1) endpos m.good at1 count low1 total1
            room in
        record {
          x = h.x;
          is = rw (inside, more', m.is, good) h.is;
          like = h.like;
          good = h.good;
          same = h.same;
          offset_out = h.offset_out;
        }
      where
        behind :
            (size : ℕ) (x1 : Io)
            → x1.offset ≡ x.offset + size
            → x1.blkno ≡ x.blkno + 1
            → size ≡ sfs_blksize - blkoff
            → 0 < k
            → (x1.offset ≡ x1.blkno * sfs_blksize)
              × (k - 1 ≡ endpos / sfs_blksize - x1.blkno)
              × (x1.offset ≤ endpos)
              × (0 + size + (endpos - x1.offset) ≡ n)
        behind size x1 e f g more = (
          omega (arith, e, f, g, at),
          omega (arith, f),
          omega (arith, e, g, more, at),
          omega (arith, e, g, more, at, total),
        )

  -- A transfer of `n` bytes in the blocks of the file goes through and keeps the predicate.
  pub transfer-Through :
      (x : Io) (n endpos : ℕ)
      → Good x 0
      → x.blkno ≡ x.offset / sfs_blksize
      → x.offset < endpos
      → endpos - x.offset ≡ n
      → endpos ≤ blocks * sfs_blksize
      → Through n (last_offset x.offset endpos) (transfer write endpos x)
  unfolding transfer k
  transfer-Through x n endpos g at low total room =
      elim (Bool-cases (x.offset % sfs_blksize == 0)) [
        | inl aligned ↦ rw aligned (
            rest-Through x 0 n (endpos / sfs_blksize - x.blkno) endpos g
              (ground (arith, aligned, at)) refl (omega (arith, low)) (omega (arith, total)) room)
        | inr inside ↦ elim (Bool-cases (endpos / sfs_blksize - x.offset / sfs_blksize == 0)) [
          | inl one ↦
              subst (λ out. Through n out (transfer write endpos x)) (ground (arith, inside, one))
                (within_one x n endpos g at low total room (ground (arith, one, at)) inside)
          | inr more ↦
              subst (λ out. Through n out (transfer write endpos x)) (ground (arith, inside, more))
                (beyond_one x n endpos g at low total room (ground (arith, more, at)) inside)
        ]
      ]
