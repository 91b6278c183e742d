-- ===== src/Filesys/FileSystem/Representation.antt =====
-- What a file system on disk stands for: the set of its used sectors and the map of its names.
use nach_os.Base.{
  ℕ, zero, suc, ◌+◌, ◌/◌, ◌%◌, ap₂, ◌≤◌, ◌<◌, ◌^◌, ◌≡◌, ◌≢◌, refl, ap, ◌∙◌, sym, true, List, ok,
  length, All, tabulate, get_or, arith, ◌∷◌,
}
use nach_os.Bitmap.{Bitmap, div_round_up}
use nach_os.Bitmap.View.{is_marked}
use nach_os.Bitmap.View
use nach_os.Filesys.Disk.{Disk, num_sectors, sector_size}
use nach_os.Filesys.FileHeader.{FileHeader, num_direct}
use nach_os.Filesys.OpenFile.View.{sector_at, byte_at, IsFile, IsFormatted}
use nach_os.Filesys.Directory.{Directory, DirectoryEntry, file_name_max_len}
use nach_os.Filesys.Directory
use nach_os.Filesys.Directory.Lookup.{Sized}
use nach_os.Filesys.Directory.Lookup
use nach_os.Filesys.Directory.Stored.{IsStorable, HoldsTable}
use nach_os.Filesys.Directory.Stored
use nach_os.Filesys.PersistentBitmap.{HoldsBits}
use nach_os.Filesys.PersistentBitmap
use nach_os.Filesys.FileSystem.{
  Memory, FileSystem, num_dir_entries, free_map_file_size, directory_file_size, fetch_directory,
  fetch_free_map,
}

-- Memory of the right sizes.
pub record IsMemory (m : Memory) : Type 0 where
  pub entries : length m.table ≡ num_dir_entries
  pub names : IsStorable m.table
  pub sectors : length m.header.data_sectors ≡ num_direct
  pub words : All (λ s. s < 2 ^ 32) m.header.data_sectors

-- Two files share no sector.
abbrev pub Apart : FileHeader → FileHeader → Type 0
Apart h k = (i j : ℕ) → i < h.num_sectors → j < k.num_sectors → sector_at h i ≢ sector_at k j

-- The file's sectors are marked as used.
abbrev pub Reserved : Bitmap → FileHeader → Type 0
Reserved b h = (i : ℕ) → i < h.num_sectors → is_marked b (sector_at h i) ≡ true

pub record Represents (fs : FileSystem) (b : Bitmap) (d : Directory) : Type 0 where
  pub formatted : IsFormatted fs.disk
  pub map_file : IsFile fs.free_map_file.hdr
  pub dir_file : IsFile fs.directory_file.hdr
  pub map_size : fs.free_map_file.hdr.num_bytes ≡ free_map_file_size
  pub dir_size : fs.directory_file.hdr.num_bytes ≡ directory_file_size
  pub apart : Apart fs.free_map_file.hdr fs.directory_file.hdr
  pub map_reserved : Reserved b fs.free_map_file.hdr
  pub dir_reserved : Reserved b fs.directory_file.hdr
  pub bits_valid : View.IsValid b
  pub bits_count : b.num_bits ≡ num_sectors
  pub dir_valid : Lookup.IsValid d
  pub dir_stored : IsStorable d.table
  pub dir_count : length d.table ≡ num_dir_entries
  pub map_held : HoldsBits fs.disk fs.free_map_file b
  pub dir_held : HoldsTable fs.disk fs.directory_file d.table

-- A file whose sectors are the same on two disks has the same bytes on both.
pub tabulate-byte_at :
    (disk disk' : Disk) (h : FileHeader) (i n : ℕ)
    → IsFile h
    → i + n ≤ h.num_bytes
    → ((j : ℕ) → j < h.num_sectors → disk' (sector_at h j) ≡ disk (sector_at h j))
    → tabulate (byte_at disk' h) i n ≡ tabulate (byte_at disk h) i n
tabulate-byte_at disk disk' h i zero v p same = refl
tabulate-byte_at disk disk' h i (suc n) v p same =
    ap₂ ◌∷◌
      (ap (λ (t : List ℕ). get_or t (i % sector_size) 0)
        (same (i / sector_size) (omega (arith, v.covered))))
      (tabulate-byte_at disk disk' h (suc i) n v (omega arith) same)

-- An operation begins with the directory and the bitmap that the file system represents.
module _ {fs : FileSystem} {b : Bitmap} {d : Directory} (r : Represents fs b d) where
  pub fetch_free_map_lem : fetch_free_map fs ≡ ok b
  unfolding fetch_free_map
  fetch_free_map_lem =
      ap (PersistentBitmap.of_file fs.disk fs.free_map_file) (sym r.bits_count)
      ∙ PersistentBitmap.of_file_lem fs.disk fs.free_map_file b r.map_file r.formatted r.bits_valid
          (omega (arith, r.bits_count)) (omega (arith, r.map_size, map_words)) r.map_held
    where
      map_words : b.num_words ≡ 32
      map_words = r.bits_valid.sized ∙ ap (λ n. div_round_up n 32) r.bits_count

  pub fetch_directory_lem : (m : Memory) → IsMemory m → fetch_directory m fs ≡ ok d
  unfolding fetch_directory
  fetch_directory_lem m im =
      Stored.fetch_from_lem fs.disk fs.directory_file d.table (Directory.new m.table) r.dir_file
        r.formatted r.dir_stored (Stored.new-Sized m.table (Stored.Sized-of m.table im.names))
        (Stored.length-new m.table ∙ im.entries ∙ sym r.dir_count) (omega (arith, r.dir_count))
        (omega (arith, r.dir_size, r.dir_count)) r.dir_held
