-- ===== src/Filesys/OpenFile/Tests.antt =====
-- The theorems of OpenFile at a file of 200 bytes in the sectors 7 and 3.
use nach_os.Base.{
  ℕ, zero, suc, ◌<◌, ◌≡◌, refl, ◌∷◌, ok, arith, ◌>>=◌, tabulate, length-tabulate, replicate,
}
use nach_os.Filesys.Disk.{Disk, sector_size}
use nach_os.Filesys.FileHeader.{FileHeader}
use nach_os.Filesys.OpenFile.{OpenFile, read_at, write_at}
use nach_os.Filesys.OpenFile.View.{sector_at, byte_at, IsFile, IsFormatted}
use nach_os.Filesys.OpenFile.Reading.{read_at_lem}
use nach_os.Filesys.OpenFile.WriteAt.{Written, write_at_lem, read_at-write_at}

-- Every sector holds the numbers from its own on.
abbrev counting : Disk
counting s = tabulate (λ k. k) s sector_size

counting-IsFormatted : IsFormatted counting
counting-IsFormatted s = length-tabulate (λ k. k) s sector_size

abbrev hdr : FileHeader
hdr = record { num_bytes = 200; num_sectors = 2; data_sectors = 7 ∷ 3 ∷ replicate 28 0 }

abbrev file : OpenFile
file = record { hdr = hdr; seek_position = 0 }

hdr-on_disk : (i : ℕ) → i < 2 → sector_at hdr i < 1024
hdr-on_disk zero l = omega arith
hdr-on_disk (suc zero) l = omega arith
hdr-on_disk (suc (suc i)) l = absurd (omega arith)

hdr-distinct : (i j : ℕ) → i < 2 → j < 2 → sector_at hdr i ≡ sector_at hdr j → i ≡ j
hdr-distinct zero zero p q e = refl
hdr-distinct zero (suc zero) p q e = absurd (omega arith)
hdr-distinct (suc zero) zero p q e = absurd (omega arith)
hdr-distinct (suc zero) (suc zero) p q e = refl
hdr-distinct zero (suc (suc j)) p q e = absurd (omega arith)
hdr-distinct (suc zero) (suc (suc j)) p q e = absurd (omega arith)
hdr-distinct (suc (suc i)) j p q e = absurd (omega arith)

pub hdr-IsFile : IsFile hdr
hdr-IsFile = record {
  covered = omega arith;
  stored = omega arith;
  direct = omega arith;
  on_disk = hdr-on_disk;
  distinct = hdr-distinct;
}

-- The request is cut at the end of the file.
read_at_lem_example :
    read_at counting file 100 120 ≡ ok (80, tabulate (byte_at counting hdr) 120 80)
read_at_lem_example =
    read_at_lem counting file 100 120 hdr-IsFile counting-IsFormatted (omega arith) (omega arith)
      (omega arith)

-- Eight bytes over the boundary of the two sectors.
write_at_lem_example :
    (d : Disk) × (write_at (λ k. 99) counting file (replicate 8 1) 8 124 ≡ ok (8, d))
    × Written hdr (replicate 8 1) 8 124 counting d
write_at_lem_example =
    write_at_lem (λ k. 99) counting file (replicate 8 1) 8 124 hdr-IsFile counting-IsFormatted
      (omega arith) (omega arith) (omega arith) (omega arith)

read_at-write_at_example :
    (write_at (λ k. 99) counting file (replicate 8 1) 8 124 >>= λ (n, d). read_at d file 8 124)
    ≡ ok (8, replicate 8 1)
read_at-write_at_example =
    read_at-write_at (λ k. 99) counting file (replicate 8 1) 124 hdr-IsFile counting-IsFormatted
      (omega arith) (omega arith)
