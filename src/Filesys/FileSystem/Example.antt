-- ===== src/Filesys/FileSystem/Example.antt =====
-- A file system with one file, "ab" of 300 bytes, written out sector by sector.
use nach_os.Base.{
  ℕ, zero, suc, ◌^◌, ◌<◌, ◌≡◌, refl, true, false, ◌∷◌, ◌++◌, arith, replicate, if◌then◌else◌, ◌==◌,
  take, drop, get_or-replicate, All,
}
use nach_os.Base.Bytes.{words_bytes, bytes_words}
use nach_os.Base.Words.{bit}
use nach_os.Filesys.Directory.Lookup.{Unique, clash}
use nach_os.Bitmap.{Bitmap, word_at}
use nach_os.Bitmap.View
use nach_os.Bitmap.View.{is_marked}
use nach_os.Filesys.Disk.{Disk, num_sectors, read_sector}
use nach_os.Filesys.FileHeader.{FileHeader, sectors_of}
use nach_os.Filesys.FileHeader
use nach_os.Filesys.OpenFile.View.{IsFile, IsFormatted, sector_at}
use nach_os.Filesys.Directory.{Directory, DirectoryEntry}
use nach_os.Filesys.Directory
use nach_os.Filesys.FileSystem.{FileSystem}
use nach_os.Filesys.FileSystem.Representation.{Represents, Apart, Reserved}
use nach_os.Filesys.FileSystem.Remove.{HasFile, Avoids}

abbrev pub map_header : FileHeader
map_header = record { num_bytes = 128; num_sectors = 1; data_sectors = 2 ∷ replicate 29 0 }

abbrev pub dir_header : FileHeader
dir_header = record { num_bytes = 200; num_sectors = 2; data_sectors = 3 ∷ 4 ∷ replicate 28 0 }

abbrev pub file_header : FileHeader
file_header = record { num_bytes = 300; num_sectors = 3; data_sectors = 6 ∷ 7 ∷ 8 ∷ replicate 27 0 }

-- Sectors 0 to 8 are in use.
abbrev pub bits : Bitmap
bits = record { num_bits = 1024; num_words = 32; words = 511 ∷ replicate 31 0 }

abbrev entry_of_ab : DirectoryEntry
entry_of_ab = record { in_use = true; sector = 5; name = 97 ∷ 98 ∷ replicate 8 0 }

abbrev unused_entry : DirectoryEntry
unused_entry = record { in_use = false; sector = 0; name = replicate 10 0 }

abbrev pub names : Directory
names = record { table = entry_of_ab ∷ replicate 9 unused_entry }

abbrev pub disk : Disk
disk s =
    if s == 2
    then words_bytes bits.words
    else if s == 3
    then take 128 (Directory.to_bytes names.table)
    else if s == 4
    then drop 128 (Directory.to_bytes names.table) ++ replicate 56 0
    else if s == 5
    then FileHeader.to_bytes file_header
    else replicate 128 0

abbrev pub one_file : FileSystem
one_file = record {
  disk = disk;
  free_map_file = record { hdr = map_header; seek_position = 0 };
  directory_file = record { hdr = dir_header; seek_position = 0 };
}

disk-IsFormatted : IsFormatted disk
unfolding words_bytes Directory.to_bytes Directory.entry_bytes Directory.flag_byte
    FileHeader.to_bytes
disk-IsFormatted s = ground arith

map_IsFile : IsFile map_header
map_IsFile = record {
  covered = omega arith;
  stored = omega arith;
  direct = omega arith;
  on_disk = λ i l. ground arith;
  distinct = λ i j p q e. omega arith;
}

dir_IsFile : IsFile dir_header
dir_IsFile = record {
  covered = omega arith;
  stored = omega arith;
  direct = omega arith;
  on_disk = on_disk;
  distinct = distinct;
}
  where
    on_disk : (i : ℕ) → i < 2 → sector_at dir_header i < num_sectors
    on_disk zero l = omega arith
    on_disk (suc zero) l = omega arith
    on_disk (suc (suc i)) l = absurd (omega arith)

    distinct : (i j : ℕ) → i < 2 → j < 2 → sector_at dir_header i ≡ sector_at dir_header j → i ≡ j
    distinct zero zero p q e = refl
    distinct zero (suc zero) p q e = absurd (omega arith)
    distinct (suc zero) zero p q e = absurd (omega arith)
    distinct (suc zero) (suc zero) p q e = refl
    distinct (suc (suc i)) j p q e = absurd (omega arith)
    distinct i (suc (suc j)) p q e = absurd (omega arith)

bits_IsValid : View.IsValid bits
bits_IsValid = record { sized = refl; stored = refl; fits = fits }
  where
    fits : (k : ℕ) → word_at bits k < 2 ^ 32
    fits zero = omega arith
    fits (suc k) = rw (get_or-replicate {A = ℕ} 31 0 k) (omega arith)

-- Copies of an entry that is not in use.
clash-unused :
    (n : ℕ) (e f : DirectoryEntry)
    → clash e f ≡ false
    → All (λ g. clash e g ≡ false) (replicate n f)
clash-unused zero e f h = tt
clash-unused (suc n) e f h = (h, clash-unused n e f h)

Unique-unused : (n : ℕ) (f : DirectoryEntry) → f.in_use ≡ false → Unique (replicate n f)
Unique-unused zero f h = tt
Unique-unused (suc n) f h = (clash-unused n f f (ground arith), Unique-unused n f h)

pub one_file-Represents : Represents one_file bits names
unfolding words_bytes Directory.to_bytes Directory.entry_bytes Directory.flag_byte bit
one_file-Represents = record {
  formatted = disk-IsFormatted;
  map_file = map_IsFile;
  dir_file = dir_IsFile;
  map_size = refl;
  dir_size = refl;
  apart = apart;
  map_reserved = map_reserved;
  dir_reserved = dir_reserved;
  bits_valid = bits_IsValid;
  bits_count = refl;
  dir_valid = record { unique = unique; sized = omega arith };
  dir_stored = omega arith;
  dir_count = refl;
  map_held = refl;
  dir_held = refl;
}
  where
    unique : Unique names.table
    unique = (clash-unused 9 entry_of_ab unused_entry refl, Unique-unused 9 unused_entry refl)

    map_reserved : Reserved bits map_header
    map_reserved zero l = refl
    map_reserved (suc i) l = absurd (omega arith)

    dir_reserved : Reserved bits dir_header
    dir_reserved zero l = refl
    dir_reserved (suc zero) l = refl
    dir_reserved (suc (suc i)) l = absurd (omega arith)

    apart : Apart map_header dir_header
    apart zero zero p q e = absurd (omega arith)
    apart zero (suc zero) p q e = absurd (omega arith)
    apart zero (suc (suc j)) p q e = absurd (omega arith)
    apart (suc i) j p q e = absurd (omega arith)

pub one_file-HasFile : HasFile one_file bits 5 file_header
unfolding FileHeader.to_bytes FileHeader.of_bytes FileHeader.of_words words_bytes bytes_words
    FileHeader.fetch_from read_sector bit
one_file-HasFile = record {
  on_disk = omega arith;
  fetched = refl;
  stored = omega arith;
  held = (
    (omega arith, refl),
    ((omega arith, refl), ((omega arith, refl), ((omega arith, refl), tt))),
  );
  distinct = (refl, (refl, (refl, (refl, tt))));
  not_map = not_map;
  not_dir = not_dir;
}
  where
    not_map : Avoids map_header (5 ∷ sectors_of file_header)
    not_map zero l = refl
    not_map (suc i) l = absurd (omega arith)

    not_dir : Avoids dir_header (5 ∷ sectors_of file_header)
    not_dir zero l = refl
    not_dir (suc zero) l = refl
    not_dir (suc (suc i)) l = absurd (omega arith)
