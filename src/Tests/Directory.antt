-- ===== src/Tests/Directory.antt =====
-- A directory of two slots, of which the first is empty, and a search in it.
use oslabcode.Prelude.{ℕ, refl, inl, true, some, arith, ◌==◌, if◌then◌else◌}
use oslabcode.Memory.{Memory}
use oslabcode.Memory.Copy.{IsString}
use oslabcode.Sfs.Map.{State}
use oslabcode.Sfs.Dir.{sfs_dirent_search_nolock}
use oslabcode.Sfs.Dir.Search.{Answer, search-Answer}
use oslabcode.Tests.Files.{two_on, two_on-IsFile}

-- The slot in block 6 leads from "ab" to the inode 9.
abbrev entries : ℕ → Memory
entries block k =
    if block == 6
    then (if k == 0 then 9 else (if k == 4 then 97 else (if k == 5 then 98 else 0)))
    else 0

abbrev directory : State
directory = two_on entries true

-- The string "ab" at 100.
abbrev word : Memory
word a = if a == 100 then 97 else (if a == 101 then 98 else 0)

word-IsString : IsString word 100 2
word-IsString = record { end = refl; inside = λ i lt. ground arith }

find_ab : Answer directory word 100 2 (sfs_dirent_search_nolock 9 directory word 100 (some 1000))
find_ab =
    search-Answer directory (two_on-IsFile entries true) refl word 100 2 1000 word-IsString
      (omega arith) (inl (omega arith)) (λ a. ground arith) (λ b r. ground arith) 9 (omega arith)
