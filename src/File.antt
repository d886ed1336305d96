-- ===== src/File.antt =====
-- The table of open files of a process, labcode/lab8/kern/fs/file.c. The inodes behind it are
-- reached through the operations of the virtual file system.
pub mod Calls
pub mod Table
use oslabcode.Prelude.{
  ℕ, zero, suc, ◌+◌, ◌-◌, ◌*◌, ◌/◌, ◌%◌, ◌^◌, ◌≤◌, ◌<◌, ◌≡◌, ◌≢◌, refl, sym, ap, ◌∙◌, ◌↔◌, ◌⊎◌, inl,
  inr, Bool, true, false, not, ◌&&◌, ◌||◌, Option, none, some, List, [], ◌∷◌, ◌++◌, map,
  append_assoc, append-nil, arith, ltb, leb, ◌==◌, if◌then◌else◌, ltb→lt, lt→ltb, le→ltb, ==_iff,
  Bool-cases, Option-cases, update, ◌>>=◌, ◌>>◌, assert, Run, ok, panic, out_of_fuel, length,
  length-append, e_inval, e_no_mem, e_busy, e_max_open, count, count-append, Distinct, fun_ext, min,
}

-- The states of a table entry: FD_NONE, FD_INIT, FD_OPENED, FD_CLOSED.
pub data Status : Type 0 where
  fd_none fd_init fd_opened fd_closed : Status

-- `struct file`; the inode 0 is `NULL`.
pub record File : Type 0 where
  pub status : Status
  pub readable : Bool
  pub writable : Bool
  pub fd : ℕ
  pub pos : ℕ
  pub node : ℕ
  pub open_count : ℕ

-- What file.c calls of the virtual file system: each call answers with its result, what it stores
-- for the caller, and the state of the file systems and of the memory after it.
pub record Vfs (W : Type 0) : Type 0 where
  pub vfs_open : W → (path open_flags : ℕ) → Run (ℕ × ℕ × W)
  pub vfs_close : W → (node : ℕ) → Run W
  pub vop_fstat : W → (node : ℕ) → Run (ℕ × ℕ × W)
  pub vop_read : W → (node base len offset : ℕ) → Run (ℕ × ℕ × W)
  pub vop_write : W → (node base len offset : ℕ) → Run (ℕ × ℕ × W)
  pub vop_tryseek : W → (node pos : ℕ) → Run (ℕ × W)
  pub vop_fsync : W → (node : ℕ) → Run (ℕ × W)
  pub vop_ref_inc : W → (node : ℕ) → Run W
  pub vop_open_inc : W → (node : ℕ) → Run W

-- `current->filesp`, with its number of entries, and the state behind the inodes.
pub record Files (W : Type 0) : Type 0 where
  pub fd_array : ℕ → File
  pub nentry : ℕ
  pub files_count : ℕ
  pub world : W

abbrev pub is_none : Status → Bool
is_none fd_none = true
is_none fd_init = false
is_none fd_opened = false
is_none fd_closed = false

abbrev pub is_init : Status → Bool
is_init fd_none = false
is_init fd_init = true
is_init fd_opened = false
is_init fd_closed = false

abbrev pub is_opened : Status → Bool
is_opened fd_none = false
is_opened fd_init = false
is_opened fd_opened = true
is_opened fd_closed = false

abbrev pub is_closed : Status → Bool
is_closed fd_none = false
is_closed fd_init = false
is_closed fd_opened = false
is_closed fd_closed = true

-- An `int` is its 32 bits: `minus e` is `-e`, and a file descriptor below 0 is 2 ^ 31 or more.
abbrev pub minus : ℕ → ℕ
minus e = 2 ^ 32 - e

abbrev pub no_fd : ℕ
no_fd = minus 0x9527

-- The loop of `fd_array_init` over the entries from `fd` on.
unfoldable pub init_entries : (left fd : ℕ) → (ℕ → File) → ℕ → File
init_entries zero fd a = a
init_entries (suc k) fd a =
    init_entries k (fd + 1)
      (update a fd (record (a fd) { open_count = 0; status = fd_none; fd = fd }))

unfoldable pub fd_array_init : ℕ → (ℕ → File) → ℕ → File
unfolding init_entries
fd_array_init nentry fd_array = init_entries nentry 0 fd_array

-- The loop of `fd_array_alloc` for `NO_FD`.
unfoldable pub find_none : (left fd : ℕ) → (ℕ → File) → Option ℕ
find_none zero fd a = none
find_none (suc k) fd a =
    let later = find_none k (fd + 1) a in if is_none (a fd).status then some fd else later

module _ {W : Type 0} where
  abbrev pub set_file : Files W → ℕ → (File → File) → Files W
  set_file s f change = record s { fd_array = update s.fd_array f (change (s.fd_array f)) }

  abbrev pub testfd : Files W → ℕ → Bool
  testfd s fd = ltb fd (2 ^ 31) && ltb fd s.nentry

  -- `get_fd_array`: the table itself is the state's.
  unfoldable pub get_fd_array : Files W → Run (Unit {0})
  get_fd_array s = assert (ltb 0 s.files_count)

  -- The entry that `fd_array_alloc` finds, or its error.
  unfoldable pub choose_entry : Files W → ℕ → ℕ ⊎ ℕ
  unfolding find_none
  choose_entry s fd =
      if fd == no_fd
      then elim (find_none s.nentry 0 s.fd_array) [ none ↦ inl (minus e_max_open) | some f ↦ inr f ]
      else (if testfd s fd
          then (if is_none (s.fd_array fd).status then inr fd else inl (minus e_busy))
          else inl (minus e_inval))

  unfoldable pub fd_array_alloc : Files W → ℕ → Run ((ℕ ⊎ ℕ) × Files W)
  unfolding get_fd_array choose_entry
  fd_array_alloc s fd = do
    get_fd_array s
    elim (choose_entry s fd) [
      | inl e ↦ ok (inl e, s)
      | inr f ↦ do
        assert ((s.fd_array f).open_count == 0)
        ok (inr f, set_file s f (λ x. record x { status = fd_init; node = 0 }))
    ]

  -- `fd2file`: an entry, which has the number of the descriptor, or the error -E_INVAL.
  unfoldable pub fd2file : Files W → ℕ → Run (Option ℕ)
  unfolding get_fd_array
  fd2file s fd =
      if testfd s fd
      then (do
        get_fd_array s
        ok (
            if is_opened (s.fd_array fd).status && ((s.fd_array fd).fd == fd)
            then some fd
            else none))
      else ok none

  unfoldable pub file_testfd : Files W → ℕ → (readable writable : Bool) → Run Bool
  unfolding fd2file
  file_testfd s fd readable writable = do
    found ← fd2file s fd
    elim found [
      | none ↦ ok false
      | some f ↦ ok (
          if readable && not (s.fd_array f).readable
          then false
          else not (writable && not (s.fd_array f).writable))
    ]

  module _ (vfs : Vfs W) where
    unfoldable pub fd_array_free : Files W → ℕ → Run (Files W)
    fd_array_free s f = do
      assert (is_init (s.fd_array f).status || is_closed (s.fd_array f).status)
      assert ((s.fd_array f).open_count == 0)
      world ←
          (if is_closed (s.fd_array f).status
            then vfs.vfs_close s.world (s.fd_array f).node
            else ok s.world)
      ok (set_file (record s { world = world }) f (λ x. record x { status = fd_none }))

    unfoldable pub fd_array_acquire : Files W → ℕ → Run (Files W)
    fd_array_acquire s f = do
      assert (is_opened (s.fd_array f).status)
      ok (set_file s f (λ x. record x { open_count = x.open_count + 1 }))

    unfoldable pub fd_array_release : Files W → ℕ → Run (Files W)
    unfolding fd_array_free
    fd_array_release s f = do
      assert (is_opened (s.fd_array f).status || is_closed (s.fd_array f).status)
      assert (ltb 0 (s.fd_array f).open_count)
      let s' = set_file s f (λ x. record x { open_count = x.open_count - 1 })
      if (s'.fd_array f).open_count == 0 then fd_array_free s' f else ok s'

    unfoldable pub fd_array_open : Files W → ℕ → Run (Files W)
    fd_array_open s f = do
      assert (is_init (s.fd_array f).status && not ((s.fd_array f).node == 0))
      ok (set_file s f (λ x. record x { status = fd_opened; open_count = x.open_count + 1 }))

    unfoldable pub fd_array_close : Files W → ℕ → Run (Files W)
    unfolding fd_array_free
    fd_array_close s f = do
      assert (is_opened (s.fd_array f).status)
      assert (ltb 0 (s.fd_array f).open_count)
      let s' = set_file s f (λ x. record x { status = fd_closed; open_count = x.open_count - 1 })
      if (s'.fd_array f).open_count == 0 then fd_array_free s' f else ok s'

    unfoldable pub fd_array_dup : Files W → (to from : ℕ) → Run (Files W)
    unfolding fd_array_open
    fd_array_dup s to from = do
      assert (is_init (s.fd_array to).status && is_opened (s.fd_array from).status)
      let node = (s.fd_array from).node
      w1 ← vfs.vop_ref_inc s.world node
      w2 ← vfs.vop_open_inc w1 node
      fd_array_open
          (set_file (record s { world = w2 }) to
            (λ x. record x {
              pos = (s.fd_array from).pos;
              readable = (s.fd_array from).readable;
              writable = (s.fd_array from).writable;
              node = node;
            }))
          to
