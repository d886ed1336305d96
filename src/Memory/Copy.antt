-- ===== src/Memory/Copy.antt =====
-- What the copies of string.c leave in memory, and that strings with an end are measured.
use oslabcode.Prelude.{
  ℕ, zero, suc, ◌+◌, ◌-◌, ◌≤◌, ◌<◌, ◌≡◌, ap, ◌∙◌, ◌⊎◌, ◌&&◌, arith, ltb, leb, if◌then◌else◌, update,
  ok,
}
use oslabcode.Memory.{
  Memory, strlen_walk, strlen, strcpy, memcpy, copy_down, copy_up, memmove, memcmp,
}

-- The bytes that a copy of `n` bytes from `src` to `dst` should leave.
abbrev pub moved : Memory → (dst src n : ℕ) → Memory
moved mem dst src n a = if leb dst a && ltb a (dst + n) then mem (src + (a - dst)) else mem a

copy_up-moved :
    (n : ℕ) (mem : Memory) (d s a : ℕ)
    → (d ≤ s) ⊎ (s + n ≤ d)
    → copy_up mem d s n a ≡ moved mem d s n a
unfolding copy_up
copy_up-moved zero mem d s a h = ground arith
copy_up-moved (suc n) mem d s a h =
    ground (arith, copy_up-moved n (update mem d (mem s)) (d + 1) (s + 1) a)

copy_down-moved :
    (n : ℕ) (mem : Memory) (d s d_end s_end a : ℕ)
    → s ≤ d
    → d_end ≡ d + n
    → s_end ≡ s + n
    → copy_down mem d_end s_end n a ≡ moved mem d s n a
unfolding copy_down
copy_down-moved zero mem d s d_end s_end a h e f = ground arith
copy_down-moved (suc n) mem d s d_end s_end a h e f = ground (
  arith,
  copy_down-moved n (update mem (d_end - 1) (mem (s_end - 1))) d s (d_end - 1) (s_end - 1) a,
)

-- `memmove` leaves at the destination what was at the source, and all other bytes alone, also
-- where the two overlap.
pub memmove-moved :
    (mem : Memory) (dst src n a : ℕ) → memmove mem dst src n a ≡ moved mem dst src n a
unfolding memmove
memmove-moved mem dst src n a =
    ground
      (arith, copy_down-moved n mem dst src (dst + n) (src + n) a, copy_up-moved n mem dst src a)

-- `memcpy` does so where the source does not run into the destination.
pub memcpy-moved :
    (n : ℕ) (mem : Memory) (d s a : ℕ)
    → (d ≤ s) ⊎ (s + n ≤ d)
    → memcpy mem d s n a ≡ moved mem d s n a
unfolding memcpy
memcpy-moved zero mem d s a h = ground arith
memcpy-moved (suc n) mem d s a h =
    ground (arith, memcpy-moved n (update mem d (mem s)) (d + 1) (s + 1) a)

-- The two blocks hold the same bytes.
abbrev pub SameBytes : Memory → (v1 v2 n : ℕ) → Type 0
SameBytes mem v1 v2 n = (i : ℕ) → i < n → mem (v1 + i) ≡ mem (v2 + i)

-- `memcmp` is 0 only on equal blocks of bytes.
pub memcmp-SameBytes :
    (n : ℕ) (mem : Memory) (v1 v2 : ℕ)
    → ((a : ℕ) → mem a < 256)
    → memcmp mem v1 v2 n ≡ 0
    → SameBytes mem v1 v2 n
unfolding memcmp
memcmp-SameBytes zero mem v1 v2 bytes e i lt = absurd (omega arith)
memcmp-SameBytes (suc n) mem v1 v2 bytes e zero lt = ground (arith, bytes v1, bytes v2)
memcmp-SameBytes (suc n) mem v1 v2 bytes e (suc i) lt =
    ground (arith, bytes v1, bytes v2, memcmp-SameBytes n mem (v1 + 1) (v2 + 1) bytes _ i)

-- The string at `s` has its end after `len` bytes.
pub record IsString (mem : Memory) (s len : ℕ) : Type 0 where
  pub end : mem (s + len) ≡ 0
  pub inside : (i : ℕ) → i < len → 0 < mem (s + i)

pub tail-IsString : (mem : Memory) (s len : ℕ) → IsString mem s (suc len) → IsString mem (s + 1) len
tail-IsString mem s len h = record {
  end = let e : s + 1 + len ≡ s + suc len = omega arith in rw e h.end;
  inside =
      λ i lt. let e : s + 1 + i ≡ s + suc i = omega arith in rw e (h.inside (suc i) (omega arith));
}

pub first-IsString : (mem : Memory) (s len : ℕ) → IsString mem s (suc len) → 0 < mem s
first-IsString mem s len h = rw (let e : s + 0 ≡ s = omega arith in e) at (h.inside 0 (omega arith))

pub end-IsString : (mem : Memory) (s : ℕ) → IsString mem s 0 → mem s ≡ 0
end-IsString mem s h = rw (let e : s + 0 ≡ s = omega arith in e) at h.end

write-IsString :
    (mem : Memory) (dst src len : ℕ)
    → IsString mem src (suc len)
    → (dst ≤ src) ⊎ (src + suc len < dst)
    → IsString (update mem dst (mem src)) (src + 1) len
write-IsString mem dst src len h apart =
    let t = tail-IsString mem src len h in
    record { end = ground (arith, t.end); inside = λ i lt. ground (arith, t.inside i lt) }

strlen_walk-len :
    (len k : ℕ) (mem : Memory) (s cnt : ℕ)
    → IsString mem s len
    → len < k
    → strlen_walk k mem s cnt ≡ ok (cnt + len)
unfolding strlen_walk
strlen_walk-len len zero mem s cnt h lt = absurd (omega arith)
strlen_walk-len zero (suc k) mem s cnt h lt = ground (arith, end-IsString mem s h)
strlen_walk-len (suc len) (suc k) mem s cnt h lt = ground (
  arith,
  first-IsString mem s len h,
  strlen_walk-len len k mem (s + 1) (cnt + 1) (tail-IsString mem s len h),
)

-- A string that has an end is measured, whatever the number of rounds above its length.
pub strlen-len :
    (len k : ℕ) (mem : Memory) (s : ℕ) → IsString mem s len → len < k → strlen k mem s ≡ ok len
unfolding strlen
strlen-len len k mem s h lt = strlen_walk-len len k mem s 0 h lt ∙ ap ok (omega arith)

-- Copying a string with its end, where the source does not run into the destination and with more
-- rounds than its length, is copying so many bytes.
pub strcpy-memcpy :
    (len k : ℕ) (mem : Memory) (dst src : ℕ)
    → IsString mem src len
    → (dst ≤ src) ⊎ (src + len < dst)
    → len < k
    → strcpy k mem dst src ≡ ok (memcpy mem dst src (len + 1))
unfolding strcpy memcpy
strcpy-memcpy len zero mem dst src h apart lt = absurd (omega arith)
strcpy-memcpy zero (suc k) mem dst src h apart lt = ground (arith, end-IsString mem src h)
strcpy-memcpy (suc len) (suc k) mem dst src h apart lt = ground (
  arith,
  first-IsString mem src len h,
  strcpy-memcpy len k (update mem dst (mem src)) (dst + 1) (src + 1)
      (write-IsString mem dst src len h apart),
)
