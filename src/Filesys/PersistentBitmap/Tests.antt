-- ===== src/Filesys/PersistentBitmap/Tests.antt =====
-- The theorem of PersistentBitmap at forty bits in a file.
use nach_os.Base.{ℕ, zero, suc, ◌<◌, ◌^◌, ◌≡◌, refl, [], ◌∷◌, ◌++◌, ok, arith, replicate, get_or}
use nach_os.Base.Bytes.{words_bytes}
use nach_os.Bitmap.{Bitmap, word_at}
use nach_os.Filesys.Disk.{Disk}
use nach_os.Filesys.OpenFile.{OpenFile}
use nach_os.Filesys.OpenFile.View.{IsFile, IsFormatted}
use nach_os.Filesys.PersistentBitmap.{of_file, of_file_lem}

abbrev forty : Bitmap
forty = record { num_bits = 40; num_words = 2; words = 5 ∷ 2 ∷ [] }

forty-fits : (k : ℕ) → word_at forty k < 2 ^ 32
forty-fits zero = omega arith
forty-fits (suc zero) = omega arith
forty-fits (suc (suc k)) = omega arith

abbrev bits_disk : Disk
bits_disk s = words_bytes forty.words ++ replicate 120 0

bits_disk-IsFormatted : IsFormatted bits_disk
unfolding words_bytes
bits_disk-IsFormatted s = refl

abbrev bits_file : OpenFile
bits_file = record {
  hdr = record { num_bytes = 8; num_sectors = 1; data_sectors = 9 ∷ replicate 29 0 };
  seek_position = 0;
}

bits_file-IsFile : IsFile bits_file.hdr
bits_file-IsFile = record {
  covered = omega arith;
  stored = omega arith;
  direct = omega arith;
  on_disk = first_on_disk;
  distinct = λ i j p q e. omega arith;
}
  where
    first_on_disk : (i : ℕ) → i < 1 → get_or (9 ∷ replicate 29 0) i 0 < 1024
    first_on_disk zero l = omega arith
    first_on_disk (suc i) l = absurd (omega arith)

of_file_lem_example : of_file bits_disk bits_file 40 ≡ ok forty
unfolding words_bytes
of_file_lem_example =
    of_file_lem bits_disk bits_file forty bits_file-IsFile bits_disk-IsFormatted
      (record { sized = refl; stored = refl; fits = forty-fits }) (omega arith) refl refl
