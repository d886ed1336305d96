-- ===== src/Tests/Files.antt =====
-- A file of two blocks, with runs of reads and writes on it.
use oslabcode.Prelude.{
  ℕ, ◌+◌, ◌%◌, ◌<◌, ◌≡◌, refl, ◌⊎◌, inl, inr, Bool, true, false, not, ◌&&◌, arith, ltb, leb, ◌==◌,
  if◌then◌else◌, Bool-cases, ok, e_no_mem,
}
use mathlib.Core.Path.{subst}
use oslabcode.Bitmap.{bitmap_test, bitmap_translate}
use oslabcode.Memory.{Memory}
use oslabcode.Sfs.{Sfs, copied}
use oslabcode.Sfs.Map.{State, sfs_bmap_load_nolock, sfs_bmap_truncate_nolock}
use oslabcode.Sfs.Map.Alloc.{IsFs}
use oslabcode.Sfs.Map.Shrink.{Restored, truncate-load}
use oslabcode.Sfs.Map.Grow.{Grown, load-Grown}
use oslabcode.Bitmap.Alloc.{Full}
use oslabcode.Sfs.Map.Lookup.{IsInUse, IsFile, block_of}
use oslabcode.Sfs.Transfer.{sfs_io_nolock}
use oslabcode.Sfs.Transfer.Whole.{IsWhole}
use oslabcode.Sfs.Transfer.Read.{loaded, sfs_io_nolock-read}
use oslabcode.Sfs.Transfer.Write.{Overwritten, sfs_io_nolock-write}
use oslabcode.Sfs.Transfer.ReadBack.{read-write}

abbrev pub disk_with : (ℕ → Memory) → Sfs
disk_with disk = record {
  freemap = record { nbits = 64; nwords = 2; map = λ word bit. not (word == 0 && leb bit 6) };
  blocks = 64;
  unused_blocks = 57;
  super_dirty = false;
  d_blocks = 64;
  disk = disk;
}

abbrev pub two_on : (ℕ → Memory) → Bool → State
two_on disk is_dir = record {
  sfs = disk_with disk;
  sin = record {
    size = 5000;
    is_dir = is_dir;
    nlinks = 1;
    blocks = 2;
    direct = λ i. if ltb i 2 then i + 5 else 0;
    indirect = 0;
    ino = 4;
    dirty = false;
  };
}

abbrev disk_of_64 : Sfs
disk_of_64 = disk_with (λ block k. block + k % 200)

abbrev two_blocks : State
two_blocks = two_on (λ block k. block + k % 200) false

abbrev letters : Memory
letters a = a % 26 + 97

module _ (disk : ℕ → Memory) (is_dir : Bool) where
  used_5 : IsInUse (disk_with disk) 5
  unfolding bitmap_test bitmap_translate
  used_5 = record {
    some_block = omega arith;
    in_fs = omega arith;
    on_device = omega arith;
    in_use = refl;
  }

  used_6 : IsInUse (disk_with disk) 6
  unfolding bitmap_test bitmap_translate
  used_6 = record {
    some_block = omega arith;
    in_fs = omega arith;
    on_device = omega arith;
    in_use = refl;
  }

  pub two_on-IsFile : IsFile (two_on disk is_dir)
  two_on-IsFile = record {
    few = omega arith;
    used = λ i lt. elim (Bool-cases (i == 0)) [
      | inl first ↦
          let here : 5 ≡ block_of (two_on disk is_dir) i = ground (arith, first) in
          subst (IsInUse (disk_with disk)) here used_5
      | inr second ↦
          let here : 6 ≡ block_of (two_on disk is_dir) i = ground (arith, second, lt) in
          subst (IsInUse (disk_with disk)) here used_6
    ];
    apart = λ i j lt_i lt_j e. ground (arith, lt_i, lt_j, e);
    entries = λ more. ground (arith, more);
    own = λ i more lt e. ground (arith, more);
  }

two_blocks-IsFile : IsFile two_blocks
two_blocks-IsFile = two_on-IsFile (λ block k. block + k % 200) false

two_blocks-IsWhole : IsWhole two_blocks
two_blocks-IsWhole = record { file = two_blocks-IsFile; is_file = refl; held = omega arith }

disk_of_64-IsFs : IsFs disk_of_64
disk_of_64-IsFs = record {
  free_block = λ ix offset hi lt one. (
    ground (arith, one),
    ground (arith, hi, lt),
    ground (arith, hi, lt),
    ground (arith, hi, lt),
    omega arith,
  );
}

third_block :
    ((sfs_bmap_load_nolock two_blocks 2 ≡ ok (e_no_mem, 0, two_blocks))
      × ((ix : ℕ) → ix < 2 → Full (disk_of_64.freemap.map ix)))
    ⊎ ((b : ℕ) × (st' : State) × (sfs_bmap_load_nolock two_blocks 2 ≡ ok (0, b, st'))
        × Grown two_blocks b st')
third_block = load-Grown two_blocks two_blocks-IsFile disk_of_64-IsFs (omega arith) refl

add_and_drop :
    (sfs_bmap_load_nolock two_blocks 2 ≡ ok (e_no_mem, 0, two_blocks))
    ⊎ ((b : ℕ) × (grown : State) × (st' : State) × (sfs_bmap_load_nolock two_blocks 2
          ≡ ok (0, b, grown))
        × (sfs_bmap_truncate_nolock grown ≡ ok (0, st'))
        × Restored two_blocks st')
add_and_drop =
    truncate-load two_blocks two_blocks-IsFile disk_of_64-IsFs (omega arith) refl (omega arith)

read_over_end :
    (mem' : Memory) × (sfs_io_nolock two_blocks letters 300 4000 3000 false
      ≡ ok (0, 1000, mem', two_blocks))
    × ((a : ℕ) → mem' a ≡ loaded two_blocks letters 300 4000 1000 a)
read_over_end =
    sfs_io_nolock-read two_blocks letters 300 4000 3000 two_blocks-IsWhole (omega arith)
      (omega arith)

write_inside :
    (st' : State) × (sfs_io_nolock two_blocks letters 0 4000 200 true ≡ ok (0, 200, letters, st'))
    × Overwritten two_blocks letters 0 4000 200 st'
write_inside =
    sfs_io_nolock-write two_blocks letters 0 4000 200 two_blocks-IsWhole (omega arith) (omega arith)

back_300 :
    (st' : State) × (mem' : Memory) × (sfs_io_nolock two_blocks letters 0 4000 200 true
      ≡ ok (0, 200, letters, st'))
    × (sfs_io_nolock st' letters 300 4000 200 false ≡ ok (0, 200, mem', st'))
    × ((a : ℕ) → mem' a ≡ copied letters 300 letters 0 200 a)
back_300 =
    read-write two_blocks letters 0 300 4000 200 two_blocks-IsWhole (omega arith) (omega arith)
