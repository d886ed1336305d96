-- ===== src/File/Calls.antt =====
-- The calls on open files of labcode/lab8/kern/fs/file.c.
use oslabcode.Prelude.{
  ℕ, ◌+◌, ◌/◌, ◌%◌, ◌^◌, inl, inr, Bool, true, false, not, Option, none, some, ◌==◌, if◌then◌else◌,
  ◌>>=◌, Run, ok, e_inval,
}
use oslabcode.File.{
  Vfs, Files, set_file, minus, no_fd, fd_array_alloc, fd2file, fd_array_free, fd_array_acquire,
  fd_array_release, fd_array_open, fd_array_close, fd_array_dup, is_opened,
}

-- `O_ACCMODE` masks two bits, `O_APPEND` is one.
abbrev accmode : ℕ → ℕ
accmode open_flags = open_flags % 4

abbrev appends : ℕ → Bool
appends open_flags = (open_flags / 0x20) % 2 == 1

-- The rights of an access mode: reading and writing.
abbrev access : ℕ → Option (Bool × Bool)
access mode =
    if mode == 0
    then some (true, false)
    else (if mode == 1 then some (false, true) else (if mode == 2 then some (true, true) else none))

module _ {W : Type 0} (vfs : Vfs W) where
  -- `file_open` with an inode at hand: the entry is filled and opened.
  unfoldable pub open_entry : Files W → (f node pos : ℕ) → Bool → Bool → Run (ℕ × Files W)
  unfolding fd_array_open
  open_entry s f node pos readable writable = do
    s' ←
        fd_array_open vfs
          (set_file s f
            (λ x. record x { pos = pos; node = node; readable = readable; writable = writable }))
          f
    ok ((s'.fd_array f).fd, s')

  -- `file_open` after the entry is allocated.
  unfoldable pub open_node : Files W → (f path open_flags : ℕ) → Bool → Bool → Run (ℕ × Files W)
  unfolding fd_array_free open_entry
  open_node s f path open_flags readable writable = do
    (ret, node, w) ← vfs.vfs_open s.world path open_flags
    let s' = record s { world = w }
    if not (ret == 0)
        then (do s'' ← fd_array_free vfs s' f; ok (ret, s''))
        else (if appends open_flags
            then (do
              (ret', size, w') ← vfs.vop_fstat w node
              if not (ret' == 0)
                  then (do
                    w'' ← vfs.vfs_close w' node
                    s'' ←
                        fd_array_free vfs
                          (set_file (record s { world = w'' }) f (λ x. record x { pos = 0 })) f
                    ok (ret', s''))
                  else open_entry (record s { world = w' }) f node size readable writable)
            else open_entry s' f node 0 readable writable)

  unfoldable pub file_open : Files W → (path open_flags : ℕ) → Run (ℕ × Files W)
  unfolding fd_array_alloc open_node
  file_open s path open_flags = elim (access (accmode open_flags)) [
    | none ↦ ok (minus e_inval, s)
    | some (readable, writable) ↦ do
      (found, s') ← fd_array_alloc s no_fd
      elim found [ inl e ↦ ok (e, s') | inr f ↦ open_node s' f path open_flags readable writable ]
  ]

  unfoldable pub file_close : Files W → ℕ → Run (ℕ × Files W)
  unfolding fd2file fd_array_close
  file_close s fd = do
    found ← fd2file s fd
    elim found [
      | none ↦ ok (minus e_inval, s)
      | some f ↦ do s' ← fd_array_close vfs s f; ok (0, s')
    ]

  -- `file->pos += copied` of an open file; `off_t` has 64 bits.
  unfoldable pub advance : Files W → (f copied : ℕ) → Files W
  advance s f copied =
      if is_opened (s.fd_array f).status
      then set_file s f (λ x. record x { pos = (x.pos + copied) % 2 ^ 64 })
      else s

  -- The second result is what is stored at `copied_store`.
  unfoldable pub file_read : Files W → (fd base len : ℕ) → Run (ℕ × ℕ × Files W)
  unfolding fd2file fd_array_acquire advance fd_array_release
  file_read s fd base len = do
    found ← fd2file s fd
    elim found [
      | none ↦ ok (minus e_inval, 0, s)
      | some f ↦ if not (s.fd_array f).readable then ok (minus e_inval, 0, s) else (do
        s1 ← fd_array_acquire vfs s f
        (ret, copied, w) ← vfs.vop_read s1.world (s1.fd_array f).node base len (s1.fd_array f).pos
        s2 ← fd_array_release vfs (advance (record s1 { world = w }) f copied) f
        ok (ret, copied, s2))
    ]

  unfoldable pub file_write : Files W → (fd base len : ℕ) → Run (ℕ × ℕ × Files W)
  unfolding fd2file fd_array_acquire advance fd_array_release
  file_write s fd base len = do
    found ← fd2file s fd
    elim found [
      | none ↦ ok (minus e_inval, 0, s)
      | some f ↦ if not (s.fd_array f).writable then ok (minus e_inval, 0, s) else (do
        s1 ← fd_array_acquire vfs s f
        (ret, copied, w) ← vfs.vop_write s1.world (s1.fd_array f).node base len (s1.fd_array f).pos
        s2 ← fd_array_release vfs (advance (record s1 { world = w }) f copied) f
        ok (ret, copied, s2))
    ]

  -- The place that `file_seek` is asked for: `LSEEK_SET`, `LSEEK_CUR` or `LSEEK_END`.
  unfoldable pub seek_target : Files W → (f pos whence : ℕ) → Run (ℕ × ℕ × W)
  seek_target s f pos whence =
      if whence == 0
      then ok (0, pos, s.world)
      else (if whence == 1
          then ok (0, (pos + (s.fd_array f).pos) % 2 ^ 64, s.world)
          else (if whence == 2
              then (do
                (ret, size, w) ← vfs.vop_fstat s.world (s.fd_array f).node
                ok (ret, if ret == 0 then (pos + size) % 2 ^ 64 else pos, w))
              else ok (minus e_inval, pos, s.world)))

  unfoldable pub file_seek : Files W → (fd pos whence : ℕ) → Run (ℕ × Files W)
  unfolding fd2file fd_array_acquire seek_target fd_array_release
  file_seek s fd pos whence = do
    found ← fd2file s fd
    elim found [
      | none ↦ ok (minus e_inval, s)
      | some f ↦ do
        s1 ← fd_array_acquire vfs s f
        (ret, pos', w) ← seek_target s1 f pos whence
        (ret', s2) ←
            (if ret == 0
              then (do
                (ret', w') ← vfs.vop_tryseek w (s1.fd_array f).node pos'
                let s' = record s1 { world = w' }
                ok (ret', if ret' == 0 then set_file s' f (λ x. record x { pos = pos' }) else s'))
              else ok (ret, record s1 { world = w }))
        s3 ← fd_array_release vfs s2 f
        ok (ret', s3)
    ]

  -- The second result is the size, which stands for all that `stat` holds.
  unfoldable pub file_fstat : Files W → ℕ → Run (ℕ × ℕ × Files W)
  unfolding fd2file fd_array_acquire fd_array_release
  file_fstat s fd = do
    found ← fd2file s fd
    elim found [
      | none ↦ ok (minus e_inval, 0, s)
      | some f ↦ do
        s1 ← fd_array_acquire vfs s f
        (ret, size, w) ← vfs.vop_fstat s1.world (s1.fd_array f).node
        s2 ← fd_array_release vfs (record s1 { world = w }) f
        ok (ret, size, s2)
    ]

  unfoldable pub file_fsync : Files W → ℕ → Run (ℕ × Files W)
  unfolding fd2file fd_array_acquire fd_array_release
  file_fsync s fd = do
    found ← fd2file s fd
    elim found [
      | none ↦ ok (minus e_inval, s)
      | some f ↦ do
        s1 ← fd_array_acquire vfs s f
        (ret, w) ← vfs.vop_fsync s1.world (s1.fd_array f).node
        s2 ← fd_array_release vfs (record s1 { world = w }) f
        ok (ret, s2)
    ]

  unfoldable pub file_dup : Files W → (fd1 fd2 : ℕ) → Run (ℕ × Files W)
  unfolding fd2file fd_array_alloc fd_array_dup
  file_dup s fd1 fd2 = do
    found ← fd2file s fd1
    elim found [
      | none ↦ ok (minus e_inval, s)
      | some file1 ↦ do
        (room, s1) ← fd_array_alloc s fd2
        elim room [
          | inl e ↦ ok (e, s1)
          | inr file2 ↦ do s2 ← fd_array_dup vfs s1 file2 file1; ok ((s2.fd_array file2).fd, s2)
        ]
    ]
