-- ===== src/Tests/Bits.antt =====
-- A bitmap of which the first bit is in use, and a transfer to a buffer.
use oslabcode.Prelude.{ℕ, ◌+◌, ◌*◌, ◌%◌, ◌<◌, ◌≡◌, ◌⊎◌, true, false, not, arith, ◌==◌, ok, e_no_mem}
use oslabcode.Bitmap.{word_bits, Bitmap, set_bit, bitmap_alloc}
use oslabcode.Bitmap.Alloc.{Full, IsLowest, bitmap_alloc-IsLowest}
use oslabcode.Memory.{Memory}
use oslabcode.Memory.Copy.{moved}
use oslabcode.Memory.Buffer.{Iobuf, iobuf_used, iobuf_move, iobuf_move-iobuf_used}

abbrev forty_bits : Bitmap
forty_bits = record { nbits = 40; nwords = 2; map = λ ix offset. not (offset == 0) }

alloc_bit :
    ((bitmap_alloc forty_bits ≡ ok (e_no_mem, 0, forty_bits))
      × ((i : ℕ) → i < 2 → Full (forty_bits.map i)))
    ⊎ ((ix : ℕ) × (offset : ℕ) × (bitmap_alloc forty_bits
          ≡ ok (
            0,
            ix * word_bits + offset,
            record forty_bits { map = set_bit forty_bits.map ix offset false },
          ))
        × (ix < 2)
        × IsLowest forty_bits.map 0 ix offset)
alloc_bit = bitmap_alloc-IsLowest forty_bits

-- Room for 5 more bytes of 8.
abbrev buffer : Iobuf
buffer = record { io_base = 103; io_offset = 3; io_len = 8; io_resid = 5 }

move_five :
    (n : ℕ) × (mem' : Memory) × (iob' : Iobuf) × (iobuf_move (λ a. a % 256) buffer 200 9 true
      ≡ ok (e_no_mem, n, mem', iob'))
    × (n ≡ 5)
    × ((a : ℕ) → mem' a ≡ moved (λ b. b % 256) 103 200 n a)
    × (iobuf_used iob' ≡ iobuf_used buffer + n)
    × (iob'.io_base ≡ 103 + n)
    × (iob'.io_offset ≡ 3 + n)
    × (iob'.io_resid + n ≡ 5)
    × (iob'.io_len ≡ 8)
move_five = iobuf_move-iobuf_used (λ a. a % 256) buffer 200 9 true (ground arith)
