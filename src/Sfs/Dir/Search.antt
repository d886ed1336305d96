-- ===== src/Sfs/Dir/Search.antt =====
-- What the search of a directory finds: sfs_dirent_search_nolock of
-- labcode/lab8/kern/fs/sfs/sfs_inode.c.
use oslabcode.Prelude.{
  ℕ, zero, suc, ◌+◌, ◌-◌, ◌^◌, ◌≤◌, ◌<◌, ◌≡◌, ◌≢◌, refl, sym, ap, ◌∙◌, ◌⊎◌, inl, inr, true, false,
  ◌&&◌, Option, none, some, arith, ltb, leb, ◌==◌, if◌then◌else◌, lt→ltb, Bool-cases, update, Run,
  ok,
}
use mathlib.Core.Path.{subst}
use oslabcode.Memory.{Memory, strcmp}
use oslabcode.Memory.Copy.{IsString, strlen-len}
use oslabcode.Memory.Compare.{strcmp-cases}
use oslabcode.Sfs.{copied, get_u32, sfs_rbuf}
use oslabcode.Sfs.Map.{State}
use oslabcode.Sfs.Map.Lookup.{
  IsFile, block_of, load-IsFile, read_block-IsInUse, sfs_block_inuse-IsInUse,
}
use oslabcode.Sfs.Dir.{
  max_fname_len, entry_size, e_noent, entry_ino, entry_name, sfs_dirent_read_nolock, Searched,
  search_slots, sfs_dirent_search_nolock,
}

-- The inode of an entry, and the bytes of its name: the last one is read as the end.
abbrev pub slot_ino : State → ℕ → ℕ
slot_ino st i = get_u32 (st.sfs.disk (block_of st i)) 0

abbrev pub slot_byte : State → ℕ → ℕ → ℕ
slot_byte st i j = if j == max_fname_len then 0 else st.sfs.disk (block_of st i) (4 + j)

-- The memory with an entry read to `entry`.
abbrev entry_read : State → Memory → (i entry : ℕ) → Memory
entry_read st mem i entry =
    update (copied mem entry (st.sfs.disk (block_of st i)) 0 entry_size) (entry + 4 + max_fname_len)
      0

-- A slot has the name of the length `len` at `name`.
abbrev pub IsNamed : State → Memory → (name len slot : ℕ) → Type 0
IsNamed st mem name len slot = (j : ℕ) → j ≤ len → mem (name + j) ≡ slot_byte st slot j

-- A slot is empty, or has another name.
pub record IsOtherSlot (st : State) (mem : Memory) (name len slot : ℕ) : Type 0 where
  pub why : (slot_ino st slot ≡ 0) ⊎ ((j : ℕ) × (j ≤ len) × (mem (name + j) ≢ slot_byte st slot j))

-- What is found is the inode and the first slot with the name.
pub record IsFirst (st : State) (mem : Memory) (name len : ℕ) (found : Option (ℕ × ℕ))
    : Type 0 where
  pub slot : ℕ
  pub inside : slot < st.sin.blocks
  pub given : found ≡ some (slot_ino st slot, slot)
  pub in_use : slot_ino st slot ≢ 0
  pub named : IsNamed st mem name len slot
  pub before : (j : ℕ) → j < slot → IsOtherSlot st mem name len j

-- The outcome of a search.
pub record Answer (st : State) (mem : Memory) (name len : ℕ) (result : Run Searched) : Type 0 where
  pub r : Searched
  pub run : result ≡ ok r
  pub same_state : r.state ≡ st
  pub told :
      ((r.ret ≡ 0) × IsFirst st mem name len r.found)
      ⊎ ((r.ret ≡ e_noent)
          × (r.found ≡ none)
          × ((j : ℕ) → j < st.sin.blocks → IsOtherSlot st mem name len j))

-- A byte of an entry that has been read.
read_at :
    (bytes mem : Memory) (entry k : ℕ)
    → k < 259
    → update (copied mem entry bytes 0 entry_size) (entry + 4 + max_fname_len) 0 (entry + k)
      ≡ bytes k
read_at bytes mem entry k lt =
    let place : 0 + (entry + k - entry) ≡ k = omega arith in
    let same : bytes (0 + (entry + k - entry)) ≡ bytes k = ap bytes place in
    ground (arith, lt, same)

read_u32_at :
    (f g : ℕ → ℕ) (at : ℕ) → ((k : ℕ) → k < 4 → f (at + k) ≡ g k) → get_u32 f at ≡ get_u32 g 0
read_u32_at f g at same =
    let start : at + 0 ≡ at = omega arith in
    let first : f at ≡ g 0 = sym (ap f start) ∙ same 0 (omega arith) in
    rw (first, same 1 (omega arith), same 2 (omega arith), same 3 (omega arith))

module _ (st : State) (file : IsFile st) (dir : st.sin.is_dir ≡ true) where
  dirent_read_run :
      (mem : Memory) (i entry : ℕ)
      → i < st.sin.blocks
      → sfs_dirent_read_nolock st mem i entry ≡ ok (0, entry_read st mem i entry, st)
  unfolding sfs_dirent_read_nolock sfs_rbuf
  dirent_read_run mem i entry lt =
      let u = file.used i lt in
      let guard : (st.sin.is_dir && ltb i st.sin.blocks) ≡ true =
        rw dir (lt→ltb i st.sin.blocks lt) in
      rw (
        guard,
        load-IsFile st file i lt,
        sfs_block_inuse-IsInUse st.sfs (block_of st i) u,
        read_block-IsInUse st.sfs (block_of st i) u,
      )

  module _ (mem0 : Memory) (name len entry : ℕ) (string : IsString mem0 name len)
      (short : len ≤ max_fname_len) (apart : (name + len < entry) ⊎ (entry + entry_size ≤ name))
      (bytes : (a : ℕ) → mem0 a < 2 ^ 8) (disk_bytes : (b r : ℕ) → st.sfs.disk b r < 2 ^ 8) where
    -- The memory differs from what it was in the entry only, and holds bytes.
    record IsKept (mem : Memory) : Type 0 where
      outside : (a : ℕ) → (a < entry) ⊎ (entry + entry_size ≤ a) → mem a ≡ mem0 a
      in_bytes : (a : ℕ) → mem a < 2 ^ 8

    read-IsKept : (mem : Memory) (i : ℕ) → IsKept mem → IsKept (entry_read st mem i entry)
    read-IsKept mem i k = record {
      outside = λ a out. ground (arith, out, k.outside a);
      in_bytes =
          λ a. let b = disk_bytes (block_of st i) (a - entry) in ground (arith, b, k.in_bytes a);
    }

    name_kept : (mem : Memory) → IsKept mem → (j : ℕ) → j ≤ len → mem (name + j) ≡ mem0 (name + j)
    name_kept mem k j lt = k.outside (name + j) (ground (arith, apart, lt))

    kept-IsString : (mem : Memory) → IsKept mem → IsString mem name len
    kept-IsString mem k = record {
      end = name_kept mem k len (omega arith) ∙ string.end;
      inside = λ i lt.
          let e = name_kept mem k i (omega (arith, lt)) in
          let p = string.inside i lt in omega (arith, e, p);
    }

    read_byte :
        (mem : Memory) (i j : ℕ)
        → j ≤ max_fname_len
        → entry_read st mem i entry (entry_name entry + j) ≡ slot_byte st i j
    read_byte mem i j lt = elim (Bool-cases (j == max_fname_len)) [
      | inl last ↦ ground (arith, last)
      | inr before ↦
          let place : 0 + (entry + 4 + j - entry) ≡ 4 + j = omega arith in
          let same : st.sfs.disk (block_of st i) (0 + (entry + 4 + j - entry))
              ≡ st.sfs.disk (block_of st i) (4 + j) =
            ap (st.sfs.disk (block_of st i)) place in
          ground (arith, before, lt, same)
    ]

    read_ino : (mem : Memory) (i : ℕ) → entry_ino (entry_read st mem i entry) entry ≡ slot_ino st i
    read_ino mem i =
        read_u32_at (entry_read st mem i entry) (st.sfs.disk (block_of st i)) entry
          (λ k lt. read_at (st.sfs.disk (block_of st i)) mem entry k (omega (arith, lt)))

    compare_run :
        (mem : Memory) (i rounds : ℕ)
        → IsKept mem
        → len < rounds
        → (c : ℕ) × (strcmp rounds (entry_read st mem i entry) name (entry_name entry) ≡ ok c)
          × ((((c == 0) ≡ true) × IsNamed st mem0 name len i)
              ⊎ (((c == 0) ≡ false) × IsOtherSlot st mem0 name len i))
    compare_run mem i rounds k enough =
        let k1 = read-IsKept mem i k in
        let mem1 = entry_read st mem i entry in
        let (c, e, told) =
          strcmp-cases rounds len mem1 name (entry_name entry) (kept-IsString mem1 k1) enough
            k1.in_bytes in
        (
          c,
          e,
          elim told [
            | inl (zero_c, same) ↦ inl (
              zero_c,
              λ j lt.
                  sym (name_kept mem1 k1 j lt)
                  ∙ same j lt
                  ∙ read_byte mem i j (omega (arith, lt, short)),
            )
            | inr (some_c, o) ↦
                let lt = o.inside in
                inr (
                  some_c,
                  record {
                    why = inr (
                      o.at,
                      lt,
                      λ eq. o.differ (
                          name_kept mem1 k1 o.at lt
                          ∙ eq
                          ∙ sym (read_byte mem i o.at (omega (arith, lt, short)))),
                    );
                  },
                )
          ],
        )

    others_next :
        (i : ℕ)
        → ((j : ℕ) → j < i → IsOtherSlot st mem0 name len j)
        → IsOtherSlot st mem0 name len i
        → (j : ℕ) → j < i + 1
        → IsOtherSlot st mem0 name len j
    others_next i before other j lt = elim (Bool-cases (j == i)) [
      | inl same ↦
          let here : i ≡ j = ground (arith, same) in
          subst (λ q. IsOtherSlot st mem0 name len q) here other
      | inr away ↦ before j (ground (arith, away, lt))
    ]

    search_slots-Answer :
        (n i rounds : ℕ) (mem : Memory) (empty_slot : Option ℕ)
        → i + n ≡ st.sin.blocks
        → IsKept mem
        → len < rounds
        → ((j : ℕ) → j < i → IsOtherSlot st mem0 name len j)
        → Answer st mem0 name len (search_slots n i rounds st mem name entry empty_slot)
    unfolding search_slots
    search_slots-Answer zero i rounds mem empty_slot total k enough before = record {
      r = record { ret = e_noent; found = none; empty_slot = empty_slot; mem = mem; state = st };
      run = refl;
      same_state = refl;
      told = inr (refl, refl, λ j lt. before j (omega (arith, lt, total)));
    }
    search_slots-Answer (suc n) i rounds mem empty_slot total k enough before =
        let lt : i < st.sin.blocks = omega (arith, total) in
        let read = dirent_read_run mem i entry lt in
        let mem1 = entry_read st mem i entry in
        let k1 = read-IsKept mem i k in
        let ino = read_ino mem i in
        elim (Bool-cases (slot_ino st i == 0)) [
          | inl empty ↦
              let other : IsOtherSlot st mem0 name len i = record {
                why = inl (ground (arith, empty));
              } in
              let h =
                search_slots-Answer n (i + 1) rounds mem1 (some i) (omega (arith, total)) k1 enough
                  (others_next i before other) in
              record {
                r = h.r;
                run = rw (read, ino, empty) h.run;
                same_state = h.same_state;
                told = h.told;
              }
          | inr used ↦
              let occupied : (entry_ino mem1 entry == 0) ≡ false = rw ino used in
              let (c, compared, told) = compare_run mem i rounds k enough in
              elim told [
                | inl (zero_c, named) ↦ record {
                  r = record {
                    ret = 0;
                    found = some (entry_ino mem1 entry, i);
                    empty_slot = empty_slot;
                    mem = mem1;
                    state = st;
                  };
                  run = rw (read, occupied, compared, zero_c);
                  same_state = refl;
                  told = inl (
                    refl,
                    record {
                      slot = i;
                      inside = lt;
                      given = ap (λ n. some (n, i)) ino;
                      in_use = ground (arith, used);
                      named = named;
                      before = before;
                    },
                  );
                }
                | inr (some_c, other) ↦
                    let h =
                      search_slots-Answer n (i + 1) rounds mem1 empty_slot (omega (arith, total)) k1
                        enough (others_next i before other) in
                    record {
                      r = h.r;
                      run = rw (read, occupied, compared, some_c) h.run;
                      same_state = h.same_state;
                      told = h.told;
                    }
              ]
        ]

    -- Searching a well-formed directory of bytes for a name of at most 255 bytes, which does not
    -- overlap the entry that is read, ends and changes nothing of the file system. It gives the
    -- inode and the slot of the first entry in use that has the name, or -E_NOENT when no slot has it.
    pub search-Answer :
        (rounds : ℕ)
        → len < rounds
        → Answer st mem0 name len (sfs_dirent_search_nolock rounds st mem0 name (some entry))
    unfolding sfs_dirent_search_nolock
    search-Answer rounds enough =
        let kept : IsKept mem0 = record { outside = λ a out. refl; in_bytes = bytes } in
        let h =
          search_slots-Answer st.sin.blocks 0 rounds mem0 (some st.sin.blocks) (omega arith) kept
            enough (λ j lt. absurd (omega (arith, lt))) in
        let fits : leb len max_fname_len ≡ true = ground (arith, short) in
        record {
          r = h.r;
          run = rw (strlen-len len rounds mem0 name string enough, fits) h.run;
          same_state = h.same_state;
          told = h.told;
        }
