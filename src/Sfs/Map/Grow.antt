-- ===== src/Sfs/Map/Grow.antt =====
-- The growth of a file by a direct block: sfs_bmap_load_nolock of
-- labcode/lab8/kern/fs/sfs/sfs_inode.c at the end of the blocks.
use oslabcode.Prelude.{
  ℕ, ◌+◌, ◌<◌, ◌≡◌, ◌≢◌, refl, sym, ap, ◌∙◌, ◌⊎◌, inl, inr, true, false, arith, ltb, leb, ◌==◌,
  lt→ltb, Bool-cases, update, ok, e_no_mem,
}
use mathlib.Core.Path.{subst}
use oslabcode.Bitmap.{bitmap_test}
use oslabcode.Bitmap.Alloc.{Full}
use oslabcode.Sfs.{Sfs, sfs_block_alloc}
use oslabcode.Sfs.Map.{ndirect, State, sfs_bmap_get_nolock, sfs_bmap_load_nolock}
use oslabcode.Sfs.Map.Alloc.{IsFs, Allocated, sfs_block_alloc-Allocated}
use oslabcode.Sfs.Map.Lookup.{IsInUse, IsFile, block_of, checked-IsInUse, sfs_block_inuse-IsInUse}

-- A block that was in use is not the new one, and is in use.
other-IsInUse : (s s' : Sfs) (b n : ℕ) → Allocated s b s' → IsInUse s n → (n ≢ b) × IsInUse s' n
other-IsInUse s s' b n a u =
    let away : n ≢ b = λ same.
      let free = a.was_free in
      let used = subst (λ q. bitmap_test s.freemap q ≡ ok false) same u.in_use in
      true_false (sym free ∙ used) in
    let (same_blocks, same_device) = a.sizes in
    (
      away,
      record {
        some_block = u.some_block;
        in_fs = let lt = u.in_fs in omega (arith, lt, same_blocks);
        on_device = let lt = u.on_device in omega (arith, lt, same_device);
        in_use = a.other_bits n away ∙ u.in_use;
      },
    )
  where
    true_false : (ok true) ≢ (ok false)
    true_false e = cc

-- What a file is with the new block `b`.
pub record Grown (st : State) (b : ℕ) (st' : State) : Type 0 where
  pub file : IsFile st'
  pub more : st'.sin.blocks ≡ st.sin.blocks + 1
  pub new : block_of st' st.sin.blocks ≡ b
  pub old : (i : ℕ) → i < st.sin.blocks → block_of st' i ≡ block_of st i
  pub allocated : Allocated st.sfs b st'.sfs
  pub same_size : st'.sin.size ≡ st.sin.size

module _ (st : State) (file : IsFile st) (few : st.sin.blocks < ndirect) (b : ℕ) (s' : Sfs)
    (a : Allocated st.sfs b s') where
  grown : State
  grown = record {
    sfs = s';
    sin = record st.sin {
      direct = update st.sin.direct st.sin.blocks b;
      dirty = true;
      blocks = st.sin.blocks + 1;
    };
  }

  grown-new : block_of grown st.sin.blocks ≡ b
  unfolding grown
  grown-new = ground (arith, few)

  grown-old : (i : ℕ) → i < st.sin.blocks → block_of grown i ≡ block_of st i
  unfolding grown
  grown-old i lt = ground (arith, few, lt)

  grown-used : (i : ℕ) → i < st.sin.blocks + 1 → IsInUse s' (block_of grown i)
  grown-used i lt = elim (Bool-cases (st.sin.blocks == i)) [
    | inl last ↦
        let same : st.sin.blocks ≡ i = ground (arith, last) in
        subst (λ j. IsInUse s' (block_of grown j)) same
          (subst (IsInUse s') (sym grown-new) a.in_use)
    | inr before ↦
        let old : i < st.sin.blocks = ground (arith, before, lt) in
        subst (IsInUse s') (sym (grown-old i old))
          (other-IsInUse st.sfs s' b (block_of st i) a (file.used i old)).1
  ]

  new_apart : (i : ℕ) → i < st.sin.blocks → block_of grown i ≢ block_of grown st.sin.blocks
  new_apart i lt e =
      (other-IsInUse st.sfs s' b (block_of st i) a (file.used i lt)).0
        (sym (grown-old i lt) ∙ e ∙ grown-new)

  grown-apart :
      (i j : ℕ)
      → i < st.sin.blocks + 1
      → j < st.sin.blocks + 1
      → block_of grown i ≡ block_of grown j
      → i ≡ j
  grown-apart i j lt_i lt_j e = elim (Bool-cases (st.sin.blocks == i)) [
    | inl last_i ↦ elim (Bool-cases (st.sin.blocks == j)) [
      | inl last_j ↦ ground (arith, last_i, last_j)
      | inr old_j ↦
          let same : i ≡ st.sin.blocks = ground (arith, last_i) in
          absurd (new_apart j (ground (arith, old_j, lt_j)) (sym e ∙ ap (block_of grown) same))
    ]
    | inr old_i ↦ elim (Bool-cases (st.sin.blocks == j)) [
      | inl last_j ↦
          let same : j ≡ st.sin.blocks = ground (arith, last_j) in
          absurd (new_apart i (ground (arith, old_i, lt_i)) (e ∙ ap (block_of grown) same))
      | inr old_j ↦
          let lower_i : i < st.sin.blocks = ground (arith, old_i, lt_i) in
          let lower_j : j < st.sin.blocks = ground (arith, old_j, lt_j) in
          file.apart i j lower_i lower_j (sym (grown-old i lower_i) ∙ e ∙ grown-old j lower_j)
    ]
  ]

  grown-Grown : Grown st b grown
  unfolding grown
  grown-Grown = record {
    file = record {
      few = omega (arith, few);
      used = grown-used;
      apart = grown-apart;
      entries = λ more. absurd (omega (arith, more, few));
      own = λ i more lt. absurd (omega (arith, more, few));
    };
    more = refl;
    new = grown-new;
    old = grown-old;
    allocated = a;
    same_size = refl;
  }

  load_run :
      st.sin.direct st.sin.blocks ≡ 0
      → sfs_block_alloc st.sfs ≡ ok (0, b, s')
      → sfs_bmap_load_nolock st st.sin.blocks ≡ ok (0, b, grown)
  unfolding sfs_bmap_load_nolock sfs_bmap_get_nolock grown
  load_run empty e =
      let range : leb st.sin.blocks st.sin.blocks ≡ true = ground arith in
      let last : (st.sin.blocks == st.sin.blocks) ≡ true = ground arith in
      let direct : ltb st.sin.blocks ndirect ≡ true = lt→ltb st.sin.blocks ndirect few in
      let st1 : State = record {
        sfs = s';
        sin = record st.sin { direct = update st.sin.direct st.sin.blocks b; dirty = true };
      } in
      rw (
        range,
        last,
        direct,
        empty,
        e,
        checked-IsInUse st1 b a.in_use,
        sfs_block_inuse-IsInUse s' b a.in_use,
      )

-- Loading the block behind the end of a well-formed file with fewer than 12 blocks takes a free
-- block of the disk, blank and not one of the file's, as the last one of a file that is well-formed
-- and keeps its other blocks; or it fails with -E_NO_MEM and changes nothing when no block is free.
pub load-Grown :
    (st : State)
    → IsFile st
    → IsFs st.sfs
    → st.sin.blocks < ndirect
    → st.sin.direct st.sin.blocks ≡ 0
    → ((sfs_bmap_load_nolock st st.sin.blocks ≡ ok (e_no_mem, 0, st))
        × ((ix : ℕ) → ix < st.sfs.freemap.nwords → Full (st.sfs.freemap.map ix)))
      ⊎ ((b : ℕ) × (st' : State) × (sfs_bmap_load_nolock st st.sin.blocks ≡ ok (0, b, st'))
          × Grown st b st')
load-Grown st file fs few empty = elim (sfs_block_alloc-Allocated st.sfs fs) [
  | inl (none_free, full) ↦ inl (no_block none_free, full)
  | inr (b, s', e, a) ↦ inr (
    b,
    grown st file few b s' a,
    load_run st file few b s' a empty e,
    grown-Grown st file few b s' a,
  )
]
  where
    no_block :
        sfs_block_alloc st.sfs ≡ ok (e_no_mem, 0, st.sfs)
        → sfs_bmap_load_nolock st st.sin.blocks ≡ ok (e_no_mem, 0, st)
    no_block e =
        let range : leb st.sin.blocks st.sin.blocks ≡ true = ground arith in
        let last : (st.sin.blocks == st.sin.blocks) ≡ true = ground arith in
        let direct : ltb st.sin.blocks ndirect ≡ true = lt→ltb st.sin.blocks ndirect few in
        unfold sfs_bmap_load_nolock sfs_bmap_get_nolock in rw (range, last, direct, empty, e)
