-- ===== src/Tests/Rings.antt =====
-- A string in memory, and the table of open files.
use oslabcode.Prelude.{
  ℕ, ◌+◌, ◌%◌, ◌^◌, ◌<◌, ◌≡◌, ◌≢◌, refl, ◌⊎◌, inl, inr, true, false, arith, ltb, ◌==◌,
  if◌then◌else◌, ok, e_max_open, min,
}
use oslabcode.Memory.{Memory, memmove}
use oslabcode.Memory.Copy.{moved, memmove-moved}
use oslabcode.File.{
  fd_none, fd_init, fd_opened, Vfs, Files, is_none, set_file, minus, no_fd, fd_array_alloc,
}
use oslabcode.File.Calls.{file_read}
use oslabcode.File.Table.{fd_array_alloc-lowest, file_read-ok}

-- The string "hi" at 100, and zeros elsewhere.
abbrev greeting : Memory
greeting a = if a == 100 then 104 else (if a == 101 then 105 else 0)

move_over : memmove greeting 101 100 3 102 ≡ moved greeting 101 100 3 102
move_over = memmove-moved greeting 101 100 3 102

-- A file system that counts its calls, and gives at most 3 bytes to a read.
abbrev counting : Vfs ℕ
counting = record {
  vfs_open = λ w path flags. ok (0, 9, w + 1);
  vfs_close = λ w node. ok (w + 1);
  vop_fstat = λ w node. ok (0, 50, w + 1);
  vop_read = λ w node base len offset. ok (0, min len 3, w + 1);
  vop_write = λ w node base len offset. ok (0, len, w + 1);
  vop_tryseek = λ w node pos. ok (0, w + 1);
  vop_fsync = λ w node. ok (0, w + 1);
  vop_ref_inc = λ w node. ok (w + 1);
  vop_open_inc = λ w node. ok (w + 1);
}

-- The entries 0 and 1 are open, the others free.
abbrev two_files : Files ℕ
two_files = record {
  fd_array = λ i. record {
    status = if ltb i 2 then fd_opened else fd_none;
    readable = true;
    writable = false;
    fd = i;
    pos = 10;
    node = if ltb i 2 then 9 else 0;
    open_count = if ltb i 2 then 1 else 0;
  };
  nentry = 4;
  files_count = 1;
  world = 0;
}

alloc_entry :
    ((f : ℕ) × (fd_array_alloc two_files no_fd
        ≡ ok (inr f, set_file two_files f (λ x. record x { status = fd_init; node = 0 })))
      × (f < 4)
      × (is_none (two_files.fd_array f).status ≡ true)
      × ((i : ℕ) → i < f → is_none (two_files.fd_array i).status ≡ false))
    ⊎ ((fd_array_alloc two_files no_fd ≡ ok (inl (minus e_max_open), two_files))
        × ((i : ℕ) → i < 4 → is_none (two_files.fd_array i).status ≡ false))
alloc_entry = fd_array_alloc-lowest two_files (ground arith) (λ f free. ground arith)

read_three :
    (s' : Files ℕ) × (file_read counting two_files 1 500 8 ≡ ok (0, 3, s'))
    × (s'.fd_array 1 ≡ record (two_files.fd_array 1) { pos = (10 + 3) % 2 ^ 64 })
    × (s'.world ≡ 1)
    × ((i : ℕ) → i ≢ 1 → s'.fd_array i ≡ two_files.fd_array i)
read_three =
    file_read-ok counting two_files 1 500 8 0 3 1
      (record {
        in_range = refl;
        opened = refl;
        named = refl;
        used = ground arith;
        counted = ground arith;
      })
      refl refl
