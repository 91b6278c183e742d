-- ===== src/Filesys/FileSystem.antt =====
-- filesys/filesys.h and filesys.cc: Create, Open, Remove and the formatting of the disk, over the
-- bitmap file and the directory file. One thread at a time uses the file system, as the source's
-- comments ask. `Memory` is what the objects that an operation allocates hold before they are set.
pub mod Representation
pub mod Create
pub mod Allotted
pub mod Format
pub mod Remove
pub mod RoundTrip
mod Tests
mod Example
use nach_os.Base.{
  ℕ, zero, suc, ◌+◌, ◌*◌, ◌/◌, Bool, true, false, not, List, [], ◌∷◌, Option, none, some, Result,
  ok, abort, ◌>>=◌, ◌>>◌, assert, if◌then◌else◌,
}
use nach_os.Bitmap.{Bitmap}
use nach_os.Bitmap
use nach_os.Filesys.Disk.{Disk, num_sectors}
use nach_os.Filesys.FileHeader.{FileHeader}
use nach_os.Filesys.FileHeader
use nach_os.Filesys.OpenFile.{OpenFile}
use nach_os.Filesys.OpenFile
use nach_os.Filesys.Directory.{Directory, DirectoryEntry}
use nach_os.Filesys.Directory
use nach_os.Filesys.PersistentBitmap

-- FreeMapSector, DirectorySector, NumDirEntries, FreeMapFileSize, DirectoryFileSize
abbrev pub free_map_sector : ℕ
free_map_sector = 0

abbrev pub directory_sector : ℕ
directory_sector = 1

abbrev pub num_dir_entries : ℕ
num_dir_entries = 10

abbrev pub free_map_file_size : ℕ
free_map_file_size = num_sectors / 8

abbrev pub directory_file_size : ℕ
directory_file_size = 20 * num_dir_entries

pub record Memory : Type 0 where
  pub buffer : ℕ → ℕ
  pub table : List DirectoryEntry
  pub header : FileHeader

pub record FileSystem : Type 0 where
  pub disk : Disk
  pub free_map_file : OpenFile
  pub directory_file : OpenFile

-- `new Directory(NumDirEntries)` and FetchFrom, as each operation begins.
pub fetch_directory : Memory → FileSystem → Result Directory
fetch_directory m fs = Directory.fetch_from fs.disk fs.directory_file (Directory.new m.table)

pub fetch_free_map : FileSystem → Result Bitmap
fetch_free_map fs = PersistentBitmap.of_file fs.disk fs.free_map_file num_sectors

-- The end of Create, once there is room for everything: header, directory and bitmap go to disk.
pub flush_created : Memory → FileSystem → Directory → Bitmap → FileHeader → ℕ → Result FileSystem
flush_created m fs directory free_map hdr sector = do
  disk1 ← FileHeader.write_back fs.disk hdr sector
  disk2 ← Directory.write_back m.buffer disk1 fs.directory_file directory
  disk3 ← PersistentBitmap.write_back m.buffer disk2 fs.free_map_file free_map
  ok (record fs { disk = disk3 })

-- Create, once a sector for the header is found.
pub create_at :
    Memory → FileSystem → Directory → Bitmap → List ℕ → ℕ → ℕ → Result (Bool × FileSystem)
create_at m fs directory free_map name size sector =
    let (added, directory') = Directory.add directory name sector in
    let rest = FileHeader.allocate m.header free_map size >>= λ (allocated, hdr, free_map').
    let flushed = flush_created m fs directory' free_map' hdr sector >>= λ fs'. ok (true, fs') in
    if allocated then flushed else ok (false, fs) in
    if added then rest else ok (false, fs)

create_in :
    Memory → FileSystem → Directory → List ℕ → ℕ → Option ℕ → Bitmap → Result (Bool × FileSystem)
create_in m fs directory name size none free_map = ok (false, fs)
create_in m fs directory name size (some sector) free_map =
    create_at m fs directory free_map name size sector

-- Create, once it is known whether the name is in the directory.
create_unless : Memory → FileSystem → Directory → List ℕ → ℕ → Option ℕ → Result (Bool × FileSystem)
unfolding create_in
create_unless m fs directory name size (some found) = ok (false, fs)
create_unless m fs directory name size none = do
  free_map ← fetch_free_map fs
  (sector, free_map') ← Bitmap.find_and_set free_map
  create_in m fs directory name size sector free_map'

-- Create: whether it succeeded, and the file system.
pub create : Memory → FileSystem → List ℕ → ℕ → Result (Bool × FileSystem)
unfolding create_unless
create m fs name initial_size = do
  directory ← fetch_directory m fs
  create_unless m fs directory name initial_size (Directory.find directory name)

open_found : FileSystem → Option ℕ → Result (Option OpenFile)
open_found fs none = ok none
open_found fs (some sector) = OpenFile.new fs.disk sector >>= λ file. ok (some file)

-- Open; `none` is the NULL of a name that is not there.
pub open_file : Memory → FileSystem → List ℕ → Result (Option OpenFile)
unfolding open_found
open_file m fs name = do
  directory ← fetch_directory m fs
  open_found fs (Directory.find directory name)

remove_found : Memory → FileSystem → Directory → List ℕ → Option ℕ → Result (Bool × FileSystem)
remove_found m fs directory name none = ok (false, fs)
remove_found m fs directory name (some sector) = do
  file_hdr ← FileHeader.fetch_from fs.disk sector
  free_map ← fetch_free_map fs
  free_map1 ← FileHeader.deallocate file_hdr free_map
  free_map2 ← Bitmap.clear free_map1 sector
  disk1 ← PersistentBitmap.write_back m.buffer fs.disk fs.free_map_file free_map2
  disk2 ← Directory.write_back m.buffer disk1 fs.directory_file (Directory.remove directory name).1
  ok (true, record fs { disk = disk2 })

-- Remove: whether the file was there, and the file system.
pub remove : Memory → FileSystem → List ℕ → Result (Bool × FileSystem)
unfolding remove_found
remove m fs name = do
  directory ← fetch_directory m fs
  remove_found m fs directory name (Directory.find directory name)

-- The constructor on a formatted disk.
pub attach : Disk → Result FileSystem
attach disk = do
  free_map_file ← OpenFile.new disk free_map_sector
  directory_file ← OpenFile.new disk directory_sector
  ok (record { disk = disk; free_map_file = free_map_file; directory_file = directory_file })

-- The constructor that formats the disk.
pub format : Memory → Disk → Result FileSystem
format m disk = do
  free_map ← Bitmap.new num_sectors
  free_map1 ← Bitmap.mark free_map free_map_sector
  free_map2 ← Bitmap.mark free_map1 directory_sector
  (map_fits, map_hdr, free_map3) ← FileHeader.allocate m.header free_map2 free_map_file_size
  assert map_fits
  (dir_fits, dir_hdr, free_map4) ← FileHeader.allocate m.header free_map3 directory_file_size
  assert dir_fits
  disk1 ← FileHeader.write_back disk map_hdr free_map_sector
  disk2 ← FileHeader.write_back disk1 dir_hdr directory_sector
  fs ← attach disk2
  disk3 ← PersistentBitmap.write_back m.buffer fs.disk fs.free_map_file free_map4
  disk4 ← Directory.write_back m.buffer disk3 fs.directory_file (Directory.new m.table)
  ok (record fs { disk = disk4 })

-- List: the names that are printed.
pub list : Memory → FileSystem → Result (List (List ℕ))
list m fs = fetch_directory m fs >>= Directory.list
