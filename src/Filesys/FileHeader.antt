-- ===== src/Filesys/FileHeader.antt =====
-- filesys/filehdr.h and filehdr.cc: the header of a file, which names its data sectors.
-- Sizes, offsets and sectors are natural numbers, as they are in every call of the file system
-- that is made with a size of at least 0.
pub mod Allocation
pub mod RoundTrip
pub mod Stored
mod Tests
use nach_os.Base.{
  ℕ, zero, suc, ◌+◌, ◌*◌, ◌/◌, Bool, true, false, List, [], ◌∷◌, ◌++◌, Option, none, some, Result,
  ok, abort, fault, ◌>>=◌, ◌>>◌, assert, in_bounds, ltb, if◌then◌else◌, length, get_elem?, get_or,
  set, slice, drop,
}
use nach_os.Base.Bytes.{words_bytes, bytes_words}
use nach_os.Bitmap.{Bitmap, div_round_up}
use nach_os.Bitmap
use nach_os.Filesys.Disk.{Disk, sector_size, read_sector, write_sector}

-- NumDirect: (SectorSize - 2 * sizeof(int)) / sizeof(int)
abbrev pub num_direct : ℕ
num_direct = 30

pub record FileHeader : Type 0 where
  pub num_bytes : ℕ
  pub num_sectors : ℕ
  pub data_sectors : List ℕ

-- `dataSectors[i] = v`
abbrev pub store : List ℕ → ℕ → ℕ → Result (List ℕ)
store xs i v = if ltb i (length xs) then ok (set xs i v) else fault

-- `dataSectors[i] = freeMap->FindAndSet(); ASSERT(dataSectors[i] >= 0)`: the store comes first.
store_found : List ℕ → ℕ → Option ℕ → Result (List ℕ)
store_found xs i none = if ltb i (length xs) then abort else fault
store_found xs i (some k) = store xs i k

-- The loop of Allocate, from round `i` on, with `n` rounds left.
pub allocate_from : ℕ → ℕ → FileHeader → Bitmap → Result (FileHeader × Bitmap)
unfolding store_found
allocate_from zero i h free_map = ok (h, free_map)
allocate_from (suc n) i h free_map = do
  (sector, free_map') ← Bitmap.find_and_set free_map
  data_sectors ← store_found h.data_sectors i sector
  allocate_from n (suc i) (record h { data_sectors = data_sectors }) free_map'

pub allocate : FileHeader → Bitmap → ℕ → Result (Bool × FileHeader × Bitmap)
allocate h free_map file_size = do
  let sectors = div_round_up file_size sector_size
  let h' = record h { num_bytes = file_size; num_sectors = sectors }
  free ← Bitmap.num_clear free_map
  let all = allocate_from sectors 0 h' free_map >>= λ (h'', free_map'). ok (true, h'', free_map')
  if ltb free sectors then ok (false, h', free_map) else all

pub deallocate_from : ℕ → ℕ → FileHeader → Bitmap → Result Bitmap
deallocate_from zero i h free_map = ok free_map
deallocate_from (suc n) i h free_map = do
  sector ← in_bounds (get_elem? h.data_sectors i)
  marked ← Bitmap.test free_map sector
  assert marked
  free_map' ← Bitmap.clear free_map sector
  deallocate_from n (suc i) h free_map'

pub deallocate : FileHeader → Bitmap → Result Bitmap
deallocate h free_map = deallocate_from h.num_sectors 0 h free_map

unfoldable pub byte_to_sector : FileHeader → ℕ → Result ℕ
byte_to_sector h offset = in_bounds (get_elem? h.data_sectors (offset / sector_size))

unfoldable pub file_length : FileHeader → ℕ
file_length h = h.num_bytes

-- `(char *)this`: the object's bytes, and an object with given bytes.
unfoldable pub to_bytes : FileHeader → List ℕ
to_bytes h = words_bytes (h.num_bytes ∷ h.num_sectors ∷ h.data_sectors)

unfoldable pub of_words : List ℕ → FileHeader
of_words ws = record {
  num_bytes = get_or ws 0 0;
  num_sectors = get_or ws 1 0;
  data_sectors = drop 2 ws;
}

unfoldable pub of_bytes : List ℕ → FileHeader
unfolding of_words
of_bytes bytes = of_words (bytes_words bytes)

unfoldable pub fetch_from : Disk → ℕ → Result FileHeader
fetch_from d sector = read_sector d sector >>= λ bytes. ok (of_bytes bytes)

pub write_back : Disk → FileHeader → ℕ → Result Disk
write_back d h sector = write_sector d sector (to_bytes h)

-- The sectors that hold the file's data, in order.
abbrev pub sectors_of : FileHeader → List ℕ
sectors_of h = slice 0 h.data_sectors 0 h.num_sectors
