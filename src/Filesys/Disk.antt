-- ===== src/Filesys/Disk.antt =====
-- filesys/synchdisk.cc over machine/disk.cc, as one thread sees it: a request returns when it is
-- done. A sector is the list of its bytes.
use nach_os.Base.{ℕ, List, Result, ok, ◌>>◌, assert, ltb, ◌==◌, if◌then◌else◌}

-- SectorSize, NumSectors
abbrev pub sector_size : ℕ
sector_size = 128

abbrev pub num_sectors : ℕ
num_sectors = 1024

abbrev pub Disk : Type 0
Disk = ℕ → List ℕ

abbrev pub update : Disk → ℕ → List ℕ → Disk
update d s bytes t = if s == t then bytes else d t

unfoldable pub read_sector : Disk → ℕ → Result (List ℕ)
read_sector d s = do assert (ltb s num_sectors); ok (d s)

unfoldable pub write_sector : Disk → ℕ → List ℕ → Result Disk
write_sector d s bytes = do assert (ltb s num_sectors); ok (update d s bytes)
