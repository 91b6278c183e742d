-- ===== src/Filesys/OpenFile.antt =====
-- filesys/openfile.h and openfile.cc: reading and writing an open file through whole sectors.
-- `garbage` is what a fresh `new char[]` buffer holds.
pub mod View
pub mod Reading
pub mod Writing
pub mod Prepare
pub mod WriteAt
mod Tests
use nach_os.Base.{
  ◌^◌, ℕ, zero, suc, ◌+◌, ◌-◌, ◌*◌, ◌/◌, Bool, true, false, not, ◌&&◌, ◌||◌, List, [], ◌∷◌, ◌++◌,
  Result, ok, abort, fault, ◌>>=◌, ◌>>◌, leb, ltb, ◌==◌, if◌then◌else◌, length, slice, overwrite,
  tabulate,
}
use nach_os.Filesys.Disk.{Disk, sector_size, read_sector, write_sector}
use nach_os.Filesys.FileHeader.{FileHeader, byte_to_sector, file_length}
use nach_os.Filesys.FileHeader

pub record OpenFile : Type 0 where
  pub hdr : FileHeader
  pub seek_position : ℕ

-- The constructor.
unfoldable pub new : Disk → ℕ → Result OpenFile
new d sector = FileHeader.fetch_from d sector >>= λ h. ok (record { hdr = h; seek_position = 0 })

pub seek : OpenFile → ℕ → OpenFile
seek f position = record f { seek_position = position }

-- The bytes that a request moves, of a file of `size` bytes. From 2 ^ 31 on the sum of the two ints
-- wraps to a negative one, which is not above the size.
abbrev pub clip : ℕ → ℕ → ℕ → ℕ
clip size num_bytes position =
    if ltb (position + num_bytes) (2 ^ 31) && ltb size (position + num_bytes)
    then size - position
    else num_bytes

-- `(numBytes <= 0) || (position >= fileLength)`
abbrev pub is_empty_request : ℕ → ℕ → ℕ → Bool
is_empty_request size num_bytes position = num_bytes == 0 || leb size position

-- ReadSector of the sectors `i`, .., `i + n - 1` of a file, one after the other.
pub read_sectors : ℕ → ℕ → Disk → FileHeader → Result (List ℕ)
read_sectors zero i d h = ok []
read_sectors (suc n) i d h = do
  sector ← byte_to_sector h (i * sector_size)
  bytes ← read_sector d sector
  rest ← read_sectors n (suc i) d h
  ok (bytes ++ rest)

-- ReadAt after its checks, of `n` bytes that lie in the file.
pub read_clipped : Disk → OpenFile → ℕ → ℕ → Result (ℕ × List ℕ)
read_clipped d f n position = do
  let first_sector = position / sector_size
  let last_sector = (position + n - 1) / sector_size
  buf ← read_sectors (1 + last_sector - first_sector) first_sector d f.hdr
  ok (n, slice 0 buf (position - first_sector * sector_size) n)

-- ReadAt: the number of bytes read, and the bytes.
pub read_at : Disk → OpenFile → ℕ → ℕ → Result (ℕ × List ℕ)
read_at d f num_bytes position =
    let size = file_length f.hdr in
    let all = read_clipped d f (clip size num_bytes position) position in
    if is_empty_request size num_bytes position then ok (0, []) else all

-- WriteSector of the sectors `i`, .., `i + n - 1`, from offset `k` of the buffer on.
pub write_sectors : ℕ → ℕ → ℕ → List ℕ → Disk → FileHeader → Result Disk
write_sectors zero i k buf d h = ok d
write_sectors (suc n) i k buf d h = do
  sector ← byte_to_sector h (i * sector_size)
  d' ← write_sector d sector (slice 0 buf k sector_size)
  write_sectors n (suc i) (k + sector_size) buf d' h

-- `ReadAt(&buf[k], SectorSize, position)`, if it is to be done.
abbrev pub read_into : Bool → Disk → OpenFile → ℕ → ℕ → List ℕ → Result (List ℕ)
read_into needed d f k position buf =
    let read = read_at d f sector_size position >>= λ (_, bytes). ok (overwrite buf k bytes) in
    if needed then read else ok buf

-- `bcopy(from, &buf[k], n)`
abbrev pub copy_in : List ℕ → List ℕ → ℕ → ℕ → Result (List ℕ)
copy_in from buf k n =
    if leb n (length from) then ok (overwrite buf k (slice 0 from 0 n)) else fault

-- WriteAt after its checks, of `n` bytes that lie in the file.
pub write_clipped : (ℕ → ℕ) → Disk → OpenFile → List ℕ → ℕ → ℕ → Result (ℕ × Disk)
write_clipped garbage d f from n position = do
  let first_sector = position / sector_size
  let last_sector = (position + n - 1) / sector_size
  let count = 1 + last_sector - first_sector
  let first_aligned = position == first_sector * sector_size
  let last_aligned = position + n == (last_sector + 1) * sector_size
  let last_needed = not last_aligned && (not (first_sector == last_sector) || first_aligned)
  let fresh = tabulate garbage 0 (count * sector_size)
  buf1 ← read_into (not first_aligned) d f 0 (first_sector * sector_size) fresh
  buf2 ←
      read_into last_needed d f ((last_sector - first_sector) * sector_size)
        (last_sector * sector_size) buf1
  buf3 ← copy_in from buf2 (position - first_sector * sector_size) n
  d' ← write_sectors count first_sector 0 buf3 d f.hdr
  ok (n, d')

-- WriteAt: the number of bytes written, and the disk.
pub write_at : (ℕ → ℕ) → Disk → OpenFile → List ℕ → ℕ → ℕ → Result (ℕ × Disk)
write_at garbage d f from num_bytes position =
    let size = file_length f.hdr in
    let all = write_clipped garbage d f from (clip size num_bytes position) position in
    if is_empty_request size num_bytes position then ok (0, d) else all

-- Read and Write, from the current position, which they advance.
pub read : Disk → OpenFile → ℕ → Result (ℕ × List ℕ × OpenFile)
read d f num_bytes = do
  (result, bytes) ← read_at d f num_bytes f.seek_position
  ok (result, bytes, record f { seek_position = f.seek_position + result })

pub write : (ℕ → ℕ) → Disk → OpenFile → List ℕ → ℕ → Result (ℕ × Disk × OpenFile)
write garbage d f from num_bytes = do
  (result, d') ← write_at garbage d f from num_bytes f.seek_position
  ok (result, d', record f { seek_position = f.seek_position + result })
