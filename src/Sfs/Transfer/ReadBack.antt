-- ===== src/Sfs/Transfer/ReadBack.antt =====
-- Reading what has been written: sfs_io_nolock of labcode/lab8/kern/fs/sfs/sfs_inode.c.
use oslabcode.Prelude.{
  ℕ, ◌+◌, ◌-◌, ◌*◌, ◌≤◌, ◌<◌, ◌≡◌, ap, ◌∙◌, inl, inr, true, false, ◌&&◌, arith, ltb, leb,
  Bool-cases, ok,
}
use oslabcode.Memory.{Memory}
use oslabcode.Sfs.{sfs_blksize, copied}
use oslabcode.Sfs.Map.{State}
use oslabcode.Sfs.Transfer.{sfs_io_nolock}
use oslabcode.Sfs.Transfer.Whole.{IsWhole}
use oslabcode.Sfs.Transfer.Parts.{last_offset}
use oslabcode.Sfs.Transfer.Read.{loaded, read_length, read-within}
use oslabcode.Sfs.Transfer.Write.{sfs_io_nolock-write}

-- What is written within the blocks of a well-formed file is read back: a write of some bytes and a
-- read of as many at the same offset succeed, and the read copies the bytes of the first buffer to
-- the second and changes nothing else.
pub read-write :
    (st : State) (mem : Memory) (buf dst offset len : ℕ)
    → IsWhole st
    → 0 < len
    → offset + len ≤ st.sin.blocks * sfs_blksize
    → (st' : State) × (mem' : Memory) × (sfs_io_nolock st mem buf offset len true
        ≡ ok (0, len, mem, st'))
      × (sfs_io_nolock st' mem dst offset len false ≡ ok (0, len, mem', st'))
      × ((a : ℕ) → mem' a ≡ copied mem dst mem buf len a)
read-write st mem buf dst offset len v some_bytes room =
    let (st', wrote, after) = sfs_io_nolock-write st mem buf offset len v some_bytes room in
    let (same_blocks, same_kind) = after.same_shape in
    let few = v.file.few in
    let reach : offset + len ≤ last_offset offset (offset + len) + len = ground arith in
    let count : read_length st' offset len ≡ len = omega (arith, after.size_is, reach, room, few) in
    let (mem', read, bytes) =
      read-within st' mem dst offset len after.file (same_kind ∙ v.is_file)
        (omega (arith, same_blocks, room)) (omega (arith, some_bytes, room, few))
        (omega (arith, room, few)) in
    (
      st',
      mem',
      wrote,
      read ∙ ap (λ n. ok (0, n, mem', st')) count,
      λ a.
          bytes a
          ∙ ap (λ n. loaded st' mem dst offset n a) count
          ∙ elim (Bool-cases (leb dst a && ltb a (dst + len))) [
            | inl within ↦
                let in_blocks : offset + (a - dst) < st.sin.blocks * sfs_blksize =
                  ground (arith, within, room) in
                let there : (leb offset (offset + (a - dst))
                      && ltb (offset + (a - dst)) (offset + len))
                    ≡ true =
                  ground (arith, within) in
                let source : buf + (offset + (a - dst) - offset) ≡ buf + (a - dst) = omega arith in
                rw within (after.bytes (offset + (a - dst)) in_blocks ∙ rw there (ap mem source))
            | inr without ↦ rw without
          ],
    )
