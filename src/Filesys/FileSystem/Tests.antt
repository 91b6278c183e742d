-- ===== src/Filesys/FileSystem/Tests.antt =====
-- The theorems of FileSystem on a disk of zeros, formatted.
use nach_os.Filesys.FileHeader.{sectors_of}
use nach_os.Filesys.FileSystem.{attach}
use nach_os.Base.{
  contains, ◌||◌, ℕ, ◌≡◌, List, [], ◌∷◌, none, ok, arith, replicate, length-replicate, true,
}
use nach_os.Bitmap.{Bitmap}
use nach_os.Filesys.Disk.{Disk, sector_size}
use nach_os.Filesys.OpenFile.View.{IsFormatted}
use nach_os.Filesys.Directory.{Directory, DirectoryEntry}
use nach_os.Filesys.Directory
use nach_os.Filesys.FileSystem.{Memory, FileSystem, create, format, remove, open_file}
use nach_os.Filesys.FileSystem.Remove.{
  HasFile, Removed, remove-absent, remove-Removed, open_file_lem,
}
use nach_os.Filesys.FileSystem.RoundTrip.{open_file-create, create-HasFile, remove-create}
use nach_os.Filesys.FileSystem.Example.{
  bits, names, one_file, one_file-Represents, one_file-HasFile,
}
use nach_os.Filesys.FileHeader.{FileHeader}
use nach_os.Filesys.FileHeader
use nach_os.Filesys.OpenFile.{OpenFile}
use nach_os.Bitmap.View.{is_marked, clear_count}
use nach_os.Base.Words.{bit}
use nach_os.Base.{◌⊎◌, inl, inr, some, Bool, false, Option, sym, ◌∙◌}
use nach_os.Filesys.Directory.{same_name}
use nach_os.Filesys.Directory.Lookup.{lookup, find-lookup}
use nach_os.Filesys.FileSystem.Representation.{IsMemory, Represents}
use nach_os.Filesys.FileSystem.Create.{create_lem, Outcome, CannotCreate}
use nach_os.Filesys.FileSystem.Format.{format_lem}

abbrev zeros : Disk
zeros s = replicate sector_size 0

zeros-IsFormatted : IsFormatted zeros
zeros-IsFormatted s = length-replicate {A = ℕ} sector_size 0

-- Memory that holds what was in it before: entries in use, and other bytes than zero.
abbrev memory : Memory
memory = record {
  buffer = λ k. 255;
  table = replicate 10 (record { in_use = true; sector = 77; name = replicate 10 120 });
  header = record { num_bytes = 1; num_sectors = 2; data_sectors = replicate 30 3 };
}

memory-IsMemory : IsMemory memory
memory-IsMemory = omega arith

abbrev formatted :
    (fs : FileSystem) × (b : Bitmap) × (d : Directory) × (format memory zeros ≡ ok fs)
    × Represents fs b d
    × ((name : List ℕ) → Directory.find d name ≡ none)
formatted =
    let (fs, b, d, e, r, empty, marks, again) =
      format_lem memory zeros memory-IsMemory zeros-IsFormatted in
    (fs, b, d, e, r, empty)

format_lem_example :
    (fs : FileSystem) × (b : Bitmap) × (d : Directory) × (format memory zeros ≡ ok fs)
    × Represents fs b d
    × ((name : List ℕ) → Directory.find d name ≡ none)
    × ((j : ℕ)
        → is_marked b j ≡ (
            contains (0 ∷ 1 ∷ []) j
            || contains (sectors_of fs.free_map_file.hdr) j
            || contains (sectors_of fs.directory_file.hdr) j))
    × (attach fs.disk ≡ ok fs)
format_lem_example = format_lem memory zeros memory-IsMemory zeros-IsFormatted

create_lem_example :
    Outcome memory
      (97 ∷ 98 ∷ [])
      300
      formatted.4
      memory-IsMemory
      (omega arith)
      (omega arith)
      (create memory formatted.0 (97 ∷ 98 ∷ []) 300)
create_lem_example =
    create_lem memory (97 ∷ 98 ∷ []) 300 formatted.4 memory-IsMemory (omega arith) (omega arith)

-- The file "ab" is there, and "cd" is not.
has_ab : Directory.find names (97 ∷ 98 ∷ []) ≡ some 5
unfolding lookup same_name
has_ab = find-lookup names (97 ∷ 98 ∷ [])

has_no_cd : Directory.find names (99 ∷ 100 ∷ []) ≡ none
unfolding lookup same_name
has_no_cd = find-lookup names (99 ∷ 100 ∷ [])

remove-absent_example : remove memory one_file (99 ∷ 100 ∷ []) ≡ ok (false, one_file)
remove-absent_example =
    remove-absent memory (99 ∷ 100 ∷ []) one_file-Represents memory-IsMemory has_no_cd

remove-Removed_example :
    (fs : FileSystem) × (remove memory one_file (97 ∷ 98 ∷ []) ≡ ok (true, fs))
    × Removed one_file fs bits names (97 ∷ 98 ∷ []) (5 ∷ 6 ∷ 7 ∷ 8 ∷ [])
remove-Removed_example =
    remove-Removed memory (97 ∷ 98 ∷ []) one_file-Represents memory-IsMemory has_ab one_file-HasFile

open_file_lem_example :
    ((Directory.find names (97 ∷ 98 ∷ []) ≡ none)
      × (open_file memory one_file (97 ∷ 98 ∷ []) ≡ ok none))
    ⊎ ((k : ℕ) × (Directory.find names (97 ∷ 98 ∷ []) ≡ some k)
        × ((h : FileHeader)
            → FileHeader.fetch_from one_file.disk k ≡ ok h
            → open_file memory one_file (97 ∷ 98 ∷ [])
              ≡ ok (some (record { hdr = h; seek_position = 0 }))))
open_file_lem_example = open_file_lem memory (97 ∷ 98 ∷ []) one_file-Represents memory-IsMemory

-- "cd" of 300 bytes can be created beside it.
can_create : CannotCreate bits names (99 ∷ 100 ∷ []) 300 → ⊥
unfolding lookup same_name clear_count bit
can_create (inl (k, e)) = let e' : ◌≡◌ {A = Option ℕ} none (some k) = sym has_no_cd ∙ e in cc
can_create (inr (inl e)) = absurd (omega arith)
can_create (inr (inr (inl full))) = let e : ◌≡◌ {A = Bool} false true = full.1.0 in cc
can_create (inr (inr (inr tight))) = absurd (omega arith)

abbrev created : (fs : FileSystem) × (create memory one_file (99 ∷ 100 ∷ []) 300 ≡ ok (true, fs))
created =
    elim (create_lem memory (99 ∷ 100 ∷ []) 300 one_file-Represents memory-IsMemory (omega arith)
      (omega arith)) [ inl (e, reason) ↦ absurd (can_create reason) | inr (fs, e, c) ↦ (fs, e) ]

open_file-create_example :
    (file : OpenFile) × (open_file memory created.0 (99 ∷ 100 ∷ []) ≡ ok (some file))
    × (file.hdr.num_bytes ≡ 300)
    × (file.seek_position ≡ 0)
open_file-create_example =
    open_file-create memory (99 ∷ 100 ∷ []) 300 one_file-Represents memory-IsMemory (omega arith)
      (omega arith) created.1

create-HasFile_example :
    (b' : Bitmap) × (d' : Directory) × Represents created.0 b' d'
    × ((sector : ℕ) (h : FileHeader)
        → HasFile one_file bits sector h
        → HasFile created.0 b' sector h)
    × ((sector : ℕ) × (h : FileHeader) × (Directory.find d' (99 ∷ 100 ∷ []) ≡ some sector)
        × (h.num_bytes ≡ 300)
        × HasFile created.0 b' sector h
        × ((old : ℕ) (k : FileHeader)
            → HasFile one_file bits old k
            → (j : ℕ) → contains (old ∷ sectors_of k) j ≡ true
            → contains (sector ∷ sectors_of h) j ≡ false))
create-HasFile_example =
    create-HasFile memory (99 ∷ 100 ∷ []) 300 one_file-Represents memory-IsMemory (omega arith)
      (omega arith) created.1

remove-create_example :
    (fs2 : FileSystem) × (b2 : Bitmap) × (d2 : Directory) × (remove memory created.0 (99 ∷ 100 ∷ [])
      ≡ ok (true, fs2))
    × Represents fs2 b2 d2
    × ((j : ℕ) → is_marked b2 j ≡ is_marked bits j)
    × ((n : List ℕ) → Directory.find d2 n ≡ Directory.find names n)
remove-create_example =
    remove-create memory (99 ∷ 100 ∷ []) 300 one_file-Represents memory-IsMemory (omega arith)
      (omega arith) created.1
