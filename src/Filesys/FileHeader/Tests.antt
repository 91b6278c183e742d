-- ===== src/Filesys/FileHeader/Tests.antt =====
-- Runs of FileHeader, and its theorems at a small bitmap of 64 sectors.
use nach_os.Base.{
  ℕ, zero, suc, ◌≤◌, ◌<◌, ◌^◌, ◌≡◌, refl, true, [], ◌∷◌, ok, fault, arith, ◌>>=◌, replicate, length,
  All, replicate,
}
use nach_os.Bitmap.{Bitmap, word_at}
use nach_os.Bitmap
use nach_os.Bitmap.View.{is_marked, IsValid, clear_count}
use nach_os.Filesys.FileHeader.{
  FileHeader, allocate, allocate_from, store_found, deallocate, write_back, fetch_from, sectors_of,
}
use nach_os.Filesys.FileHeader.Allocation.{
  Taken, Released, clears, allocate_ok, allocate-fault, deallocate_lem,
}
use nach_os.Filesys.FileHeader.RoundTrip.{deallocate-allocate}
use nach_os.Filesys.FileHeader.Stored.{IsStorable, fetch_from-write_back}
use nach_os.Base.Words.{bit}

abbrev sectors : Bitmap
sectors = record { num_bits = 64; num_words = 2; words = 0 ∷ 0 ∷ [] }

sectors-fits : (k : ℕ) → word_at sectors k < 2 ^ 32
sectors-fits zero = omega arith
sectors-fits (suc zero) = omega arith
sectors-fits (suc (suc k)) = omega arith

sectors-IsValid : IsValid sectors
sectors-IsValid = record { sized = refl; stored = refl; fits = sectors-fits }

abbrev blank : FileHeader
blank = record { num_bytes = 0; num_sectors = 0; data_sectors = replicate 30 0 }

all_clear : clears sectors ≡ 64
unfolding clear_count bit
all_clear = refl

-- A file of 300 bytes takes three sectors, and a file of 4000 bytes would take 32, two more than a
-- header can name.
allocate_runs :
    (allocate blank sectors 300
      ≡ ok (
        true,
        record { num_bytes = 300; num_sectors = 3; data_sectors = 0 ∷ 1 ∷ 2 ∷ replicate 27 0 },
        record sectors { words = 7 ∷ 0 ∷ [] },
      ))
    × (allocate blank sectors 4000 ≡ fault)
unfolding allocate allocate_from store_found Bitmap.num_clear Bitmap.count_from Bitmap.find_and_set
    Bitmap.find_from Bitmap.test Bitmap.mark Bitmap.read_word
allocate_runs = (refl, refl)

allocate_ok_example :
    (h : FileHeader) × (b : Bitmap) × (allocate blank sectors 300 ≡ ok (true, h, b))
    × (h.num_bytes ≡ 300)
    × (h.num_sectors ≡ 3)
    × (length h.data_sectors ≡ 30)
    × ((m : ℕ) → 64 ≤ m → All (λ s. s < m) blank.data_sectors → All (λ s. s < m) h.data_sectors)
    × Taken sectors (sectors_of h) b
allocate_ok_example = allocate_ok blank 300 sectors-IsValid (omega (arith, all_clear)) (omega arith)

allocate-fault_example : allocate blank sectors 4000 ≡ fault
allocate-fault_example =
    allocate-fault blank 4000 sectors-IsValid refl (omega arith) (omega (arith, all_clear))

deallocate-allocate_example :
    (h : FileHeader) × (b : Bitmap) × (b' : Bitmap) × (allocate blank sectors 300 ≡ ok (true, h, b))
    × (deallocate h b ≡ ok b')
    × ((j : ℕ) → is_marked b' j ≡ is_marked sectors j)
deallocate-allocate_example =
    deallocate-allocate blank 300 sectors-IsValid (omega (arith, all_clear)) (omega arith)

-- Two sectors of a file, marked.
abbrev two_used : Bitmap
two_used = record sectors { words = 5 ∷ 0 ∷ [] }

two_used-fits : (k : ℕ) → word_at two_used k < 2 ^ 32
two_used-fits zero = omega arith
two_used-fits (suc zero) = omega arith
two_used-fits (suc (suc k)) = omega arith

abbrev two_sectors : FileHeader
two_sectors = record { num_bytes = 200; num_sectors = 2; data_sectors = 2 ∷ 0 ∷ replicate 28 0 }

deallocate_lem_example :
    (b : Bitmap) × (deallocate two_sectors two_used ≡ ok b) × Released two_used (2 ∷ 0 ∷ []) b
unfolding bit
deallocate_lem_example =
    deallocate_lem two_sectors (record { sized = refl; stored = refl; fits = two_used-fits })
      (omega arith) ((omega arith, refl), ((omega arith, refl), tt)) (refl, (refl, tt))

two_sectors-IsStorable : IsStorable two_sectors
two_sectors-IsStorable = omega arith

fetch_from-write_back_example :
    (write_back (λ s. []) two_sectors 7 >>= λ d. fetch_from d 7) ≡ ok two_sectors
fetch_from-write_back_example =
    fetch_from-write_back (λ s. []) two_sectors 7 two_sectors-IsStorable (omega arith)
