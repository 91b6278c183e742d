-- ===== src/Filesys/OpenFile/View.antt =====
-- A file as the function from positions to bytes, and when a header describes one.
use nach_os.Base.{ℕ, ◌*◌, ◌/◌, ◌%◌, ◌≤◌, ◌<◌, ◌≡◌, length, get_or, get_elem?-eq-get_or, arith, ok}
use nach_os.Filesys.Disk.{Disk, sector_size, num_sectors}
use nach_os.Filesys.FileHeader.{FileHeader, num_direct, byte_to_sector}

abbrev pub sector_at : FileHeader → ℕ → ℕ
sector_at h i = get_or h.data_sectors i 0

-- The byte at a position of the file.
abbrev pub byte_at : Disk → FileHeader → ℕ → ℕ
byte_at d h p = get_or (d (sector_at h (p / sector_size))) (p % sector_size) 0

-- The file has the sectors for its bytes, each of them on the disk, and no two the same.
pub record IsFile (h : FileHeader) : Type 0 where
  pub covered : h.num_bytes ≤ h.num_sectors * sector_size
  pub stored : h.num_sectors ≤ length h.data_sectors
  pub direct : h.num_sectors ≤ num_direct
  pub on_disk : (i : ℕ) → i < h.num_sectors → sector_at h i < num_sectors
  pub distinct :
      (i j : ℕ) → i < h.num_sectors → j < h.num_sectors → sector_at h i ≡ sector_at h j → i ≡ j

-- Every sector holds its bytes.
abbrev pub IsFormatted : Disk → Type 0
IsFormatted d = (s : ℕ) → length (d s) ≡ sector_size

pub byte_to_sector_lem :
    (h : FileHeader) (i : ℕ)
    → IsFile h
    → i < h.num_sectors
    → byte_to_sector h (i * sector_size) ≡ ok (sector_at h i)
unfolding byte_to_sector
byte_to_sector_lem h i v l =
    let e : i * sector_size / sector_size ≡ i = omega arith in
    rw (e, get_elem?-eq-get_or h.data_sectors i 0 (omega (arith, v.stored)))
