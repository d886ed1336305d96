-- ===== src/Memory/Buffer.antt =====
-- The transfers of labcode/lab8/kern/fs/iobuf.c between a buffer and memory.
use oslabcode.Prelude.{
  ℕ, ◌+◌, ◌-◌, ◌≤◌, ◌≡◌, inl, inr, Bool, arith, ltb, leb, ◌==◌, if◌then◌else◌, Bool-cases, refl,
  min, ◌>>=◌, ◌>>◌, assert, Run, ok, e_no_mem,
}
use oslabcode.Memory.{Memory, memmove, memset}
use oslabcode.Memory.Copy.{moved, memmove-moved}

-- `struct iobuf`
pub record Iobuf : Type 0 where
  pub io_base : ℕ
  pub io_offset : ℕ
  pub io_len : ℕ
  pub io_resid : ℕ

unfoldable pub iobuf_init : (base len offset : ℕ) → Iobuf
iobuf_init base len offset = record {
  io_base = base;
  io_offset = offset;
  io_len = len;
  io_resid = len;
}

-- The bytes that a buffer has taken or given.
unfoldable pub iobuf_used : Iobuf → ℕ
iobuf_used iob = iob.io_len - iob.io_resid

unfoldable pub iobuf_skip : Iobuf → ℕ → Run Iobuf
iobuf_skip iob n = do
  assert (leb n iob.io_resid)
  ok (record iob {
    io_base = iob.io_base + n;
    io_offset = iob.io_offset + n;
    io_resid = iob.io_resid - n;
  })

-- The bytes of a transfer: no more than the buffer has room for.
abbrev pub moved_length : Iobuf → ℕ → ℕ
moved_length iob len = if ltb len iob.io_resid then len else iob.io_resid

-- The result, the bytes copied, the memory and the buffer after `iobuf_move`.
unfoldable pub iobuf_move : Memory → Iobuf → (src len : ℕ) → Bool → Run (ℕ × ℕ × Memory × Iobuf)
unfolding iobuf_skip
iobuf_move mem iob src len m2b =
    let alen = moved_length iob len in
    let ret = if len - alen == 0 then 0 else e_no_mem in
    if ltb 0 alen
    then (do
      let mem' = if m2b then memmove mem iob.io_base src alen else memmove mem src iob.io_base alen
      iob' ← iobuf_skip iob alen
      ok (ret, alen, mem', iob'))
    else ok (ret, alen, mem, iob)

unfoldable pub iobuf_move_zeros : Memory → Iobuf → (len : ℕ) → Run (ℕ × ℕ × Memory × Iobuf)
unfolding iobuf_skip
iobuf_move_zeros mem iob len =
    let alen = moved_length iob len in
    let ret = if len - alen == 0 then 0 else e_no_mem in
    if ltb 0 alen
    then (do
      let mem' = memset mem iob.io_base 0 alen
      iob' ← iobuf_skip iob alen
      ok (ret, alen, mem', iob'))
    else ok (ret, alen, mem, iob)

-- A transfer between a buffer, whose `io_resid` is no more than its length, and `len` bytes at
-- `src`, into the buffer where `m2b` and out of it otherwise, never fails: it copies the lesser of
-- `len` and `io_resid` bytes and changes no other, as if the source were read first, says by 0
-- whether these are all `len` bytes, and counts them as used; the base and the offset of the buffer
-- grow by their number, so that the next transfer goes on behind them.
pub iobuf_move-iobuf_used :
    (mem : Memory) (iob : Iobuf) (src len : ℕ) (m2b : Bool)
    → iob.io_resid ≤ iob.io_len
    → (n : ℕ) × (mem' : Memory) × (iob' : Iobuf) × (iobuf_move mem iob src len m2b
        ≡ ok (if leb len iob.io_resid then 0 else e_no_mem, n, mem', iob'))
      × (n ≡ min len iob.io_resid)
      × ((a : ℕ)
          → mem' a ≡ (if m2b then moved mem iob.io_base src n a else moved mem src iob.io_base n a))
      × (iobuf_used iob' ≡ iobuf_used iob + n)
      × (iob'.io_base ≡ iob.io_base + n)
      × (iob'.io_offset ≡ iob.io_offset + n)
      × (iob'.io_resid + n ≡ iob.io_resid)
      × (iob'.io_len ≡ iob.io_len)
unfolding iobuf_move iobuf_skip iobuf_used
iobuf_move-iobuf_used mem iob src len m2b room =
    let n = moved_length iob len in
    let mem' = if m2b then memmove mem iob.io_base src n else memmove mem src iob.io_base n in
    let iob' : Iobuf = record iob {
      io_base = iob.io_base + n;
      io_offset = iob.io_offset + n;
      io_resid = iob.io_resid - n;
    } in
    elim (Bool-cases (ltb 0 n)) [
      | inl some ↦ (
        n,
        mem',
        iob',
        ground arith,
        ground arith,
        λ a.
            ground
              (arith, memmove-moved mem iob.io_base src n a, memmove-moved mem src iob.io_base n a),
        ground arith,
        refl,
        refl,
        ground arith,
        refl,
      )
      | inr nothing ↦ (
        n,
        mem,
        iob,
        ground arith,
        ground arith,
        λ a. ground arith,
        ground arith,
        ground arith,
        ground arith,
        ground arith,
        refl,
      )
    ]
