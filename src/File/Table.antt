-- ===== src/File/Table.antt =====
-- What the calls on open files do to the table.
use oslabcode.Prelude.{
  ℕ, zero, suc, ◌+◌, ◌-◌, ◌%◌, ◌^◌, ◌≤◌, ◌<◌, ◌≡◌, ◌≢◌, refl, ap, ◌∙◌, ◌⊎◌, inl, inr, true, false,
  none, some, arith, ◌==◌, lt→ltb, Bool-cases, Option-cases, ok, e_max_open,
}
use mathlib.Core.Path.{subst}
use oslabcode.File.{
  fd_init, File, Vfs, Files, is_none, is_opened, set_file, testfd, minus, no_fd, find_none,
  get_fd_array, choose_entry, fd_array_alloc, fd2file, fd_array_acquire, fd_array_release,
}
use oslabcode.File.Calls.{advance, file_read}

find_none-lowest :
    (k fd : ℕ) (a : ℕ → File) (f : ℕ)
    → find_none k fd a ≡ some f
    → (fd ≤ f)
      × (f < fd + k)
      × (is_none (a f).status ≡ true)
      × ((i : ℕ) → fd ≤ i → i < f → is_none (a i).status ≡ false)
unfolding find_none
find_none-lowest zero fd a f e = cc
find_none-lowest (suc k) fd a f e = elim (Bool-cases (is_none (a fd).status)) [
  | inl free ↦
      let same : fd ≡ f = ground (arith, e, free) in
      (
        ground (arith, same),
        ground (arith, same),
        subst (λ i. is_none (a i).status ≡ true) same free,
        λ i lo hi. absurd (ground (arith, same)),
      )
  | inr full ↦
      let (lo, hi, free, below) = find_none-lowest k (fd + 1) a f (rw full at e) in
      (omega arith, omega arith, free, λ i l h. ground (arith, below i, full))
]

find_none-full :
    (k fd : ℕ) (a : ℕ → File)
    → find_none k fd a ≡ none
    → (i : ℕ) → fd ≤ i
    → i < fd + k
    → is_none (a i).status ≡ false
unfolding find_none
find_none-full zero fd a e i lo hi = absurd (omega arith)
find_none-full (suc k) fd a e i lo hi = elim (Bool-cases (is_none (a fd).status)) [
  | inl free ↦ absurd (ground (arith, e, free))
  | inr full ↦ elim (Bool-cases (i == fd)) [
    | inl here ↦ ground (arith, full)
    | inr there ↦ find_none-full k (fd + 1) a (rw full at e) i (ground arith) (omega arith)
  ]
]

-- An entry of the table that a descriptor names.
pub record IsOpen {W : Type 0} (s : Files W) (fd : ℕ) : Type 0 where
  pub in_range : testfd s fd ≡ true
  pub opened : is_opened (s.fd_array fd).status ≡ true
  pub named : (s.fd_array fd).fd ≡ fd
  pub used : 0 < (s.fd_array fd).open_count
  pub counted : 0 < s.files_count

module _ {W : Type 0} where
  -- `fd_array_alloc` for any descriptor takes the lowest free entry of a table in use, and resets
  -- it; it fails with -E_MAX_OPEN when no entry is free.
  pub fd_array_alloc-lowest :
      (s : Files W)
      → 0 < s.files_count
      → ((f : ℕ) → is_none (s.fd_array f).status ≡ true → (s.fd_array f).open_count ≡ 0)
      → ((f : ℕ) × (fd_array_alloc s no_fd
            ≡ ok (inr f, set_file s f (λ x. record x { status = fd_init; node = 0 })))
          × (f < s.nentry)
          × (is_none (s.fd_array f).status ≡ true)
          × ((i : ℕ) → i < f → is_none (s.fd_array i).status ≡ false))
        ⊎ ((fd_array_alloc s no_fd ≡ ok (inl (minus e_max_open), s))
            × ((i : ℕ) → i < s.nentry → is_none (s.fd_array i).status ≡ false))
  unfolding fd_array_alloc get_fd_array choose_entry
  fd_array_alloc-lowest s counted idle = elim (Option-cases (find_none s.nentry 0 s.fd_array)) [
    | inl e ↦ inr (
      rw (lt→ltb 0 s.files_count counted, e),
      λ i lt. find_none-full s.nentry 0 s.fd_array e i (omega arith) (omega arith),
    )
    | inr (f, e) ↦
        let (lo, hi, free, below) = find_none-lowest s.nentry 0 s.fd_array f e in
        inl (
          f,
          rw (lt→ltb 0 s.files_count counted, e, idle f free),
          omega arith,
          free,
          λ i lt. below i (omega arith) lt,
        )
  ]

  fd2file-open : (s : Files W) (fd : ℕ) → IsOpen s fd → fd2file s fd ≡ ok (some fd)
  unfolding fd2file get_fd_array
  fd2file-open s fd o =
      rw (o.in_range, lt→ltb 0 s.files_count o.counted, o.opened) (ground (arith, o.named))

  module _ (vfs : Vfs W) where
    acquire-ok :
        (s : Files W) (fd : ℕ)
        → is_opened (s.fd_array fd).status ≡ true
        → fd_array_acquire vfs s fd
          ≡ ok (set_file s fd (λ x. record x { open_count = x.open_count + 1 }))
    unfolding fd_array_acquire
    acquire-ok s fd o = rw o

    release-ok :
        (s : Files W) (fd : ℕ)
        → is_opened (s.fd_array fd).status ≡ true
        → 1 < (s.fd_array fd).open_count
        → fd_array_release vfs s fd
          ≡ ok (set_file s fd (λ x. record x { open_count = x.open_count - 1 }))
    unfolding fd_array_release
    release-ok s fd o more = ground (arith, o)

    advance-open :
        (s : Files W) (f copied : ℕ)
        → is_opened (s.fd_array f).status ≡ true
        → advance vfs s f copied ≡ set_file s f (λ x. record x { pos = (x.pos + copied) % 2 ^ 64 })
    unfolding advance
    advance-open s f copied o = rw o

    read-steps :
        (s s1 s' : Files W) (fd base len ret copied : ℕ) (w : W)
        → fd2file s fd ≡ ok (some fd)
        → (s.fd_array fd).readable ≡ true
        → fd_array_acquire vfs s fd ≡ ok s1
        → vfs.vop_read s1.world (s1.fd_array fd).node base len (s1.fd_array fd).pos
          ≡ ok (ret, copied, w)
        → fd_array_release vfs (advance vfs (record s1 { world = w }) fd copied) fd ≡ ok s'
        → file_read vfs s fd base len ≡ ok (ret, copied, s')
    unfolding file_read
    read-steps s s1 s' fd base len ret copied w a b c d e = ground (arith, a, b, c, d, e)

    -- Reading an open, readable file answers with what the inode's read does at the position of
    -- the file, moves the position by what was read, and changes nothing else of the table.
    pub file_read-ok :
        (s : Files W) (fd base len ret copied : ℕ) (w : W)
        → IsOpen s fd
        → (s.fd_array fd).readable ≡ true
        → vfs.vop_read s.world (s.fd_array fd).node base len (s.fd_array fd).pos
          ≡ ok (ret, copied, w)
        → (s' : Files W) × (file_read vfs s fd base len ≡ ok (ret, copied, s'))
          × (s'.fd_array fd
              ≡ record (s.fd_array fd) { pos = ((s.fd_array fd).pos + copied) % 2 ^ 64 })
          × (s'.world ≡ w)
          × ((i : ℕ) → i ≢ fd → s'.fd_array i ≡ s.fd_array i)
    file_read-ok s fd base len ret copied w o r e =
        let s1 = set_file s fd (λ x. record x { open_count = x.open_count + 1 }) in
        let same : s1.fd_array fd
            ≡ record (s.fd_array fd) { open_count = (s.fd_array fd).open_count + 1 } =
          ground arith in
        let s2 =
          set_file (record s1 { world = w }) fd
            (λ x. record x { pos = (x.pos + copied) % 2 ^ 64 }) in
        let same2 : s2.fd_array fd ≡ record (s.fd_array fd) {
          open_count = (s.fd_array fd).open_count + 1;
          pos = ((s.fd_array fd).pos + copied) % 2 ^ 64;
        } =
          ground arith in
        (
          set_file s2 fd (λ x. record x { open_count = x.open_count - 1 }),
          read-steps s s1 _ fd base len ret copied w (fd2file-open s fd o) r
              (acquire-ok s fd o.opened) (rw same e)
              (ap (λ t. fd_array_release vfs t fd)
                  (advance-open (record s1 { world = w }) fd copied (rw same o.opened))
                ∙ release-ok s2 fd (rw same2 o.opened) (rw same2 (omega (arith, o.used)))),
          ground (arith, same2, o.used),
          refl,
          λ i ne. ground arith,
        )
