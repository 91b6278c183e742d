-- ===== src/Filesys/FileHeader/Stored.antt =====
-- A header on disk: FetchFrom after WriteBack.
use nach_os.Base.{ℕ, ◌^◌, ◌<◌, ◌≡◌, ap, ◌∷◌, ok, ◌>>=◌, length, All, arith, lt→ltb, ==_refl}
use nach_os.Base.Bytes.{bytes_words-words_bytes, length-words_bytes}
use nach_os.Filesys.Disk.{Disk, num_sectors, sector_size, update, read_sector, write_sector}
use nach_os.Filesys.FileHeader.{
  FileHeader, num_direct, to_bytes, of_bytes, of_words, fetch_from, write_back,
}

-- The fields fit their 32-bit words, and the array has its length.
pub record IsStorable (h : FileHeader) : Type 0 where
  pub num_bytes : h.num_bytes < 2 ^ 32
  pub num_sectors : h.num_sectors < 2 ^ 32
  pub data_sectors : All (λ s. s < 2 ^ 32) h.data_sectors
  pub sized : length h.data_sectors ≡ num_direct

pub of_bytes-to_bytes : (h : FileHeader) → IsStorable h → of_bytes (to_bytes h) ≡ h
unfolding of_bytes to_bytes
of_bytes-to_bytes h v =
    ap of_words (bytes_words-words_bytes _ (v.num_bytes, (v.num_sectors, v.data_sectors)))

-- A header fills its sector exactly.
pub length-to_bytes : (h : FileHeader) → IsStorable h → length (to_bytes h) ≡ sector_size
unfolding to_bytes
length-to_bytes h v =
    omega (arith, length-words_bytes (h.num_bytes ∷ h.num_sectors ∷ h.data_sectors), v.sized)

pub write_back_lem :
    (d : Disk) (h : FileHeader) (s : ℕ)
    → s < num_sectors
    → write_back d h s ≡ ok (update d s (to_bytes h))
unfolding write_back write_sector
write_back_lem d h s p = rw (lt→ltb s num_sectors p)

pub fetch_from_lem : (d : Disk) (s : ℕ) → s < num_sectors → fetch_from d s ≡ ok (of_bytes (d s))
unfolding fetch_from read_sector
fetch_from_lem d s p = rw (lt→ltb s num_sectors p)

-- Writing a header back and fetching it gives the header again, whatever the disk held.
pub fetch_from-write_back :
    (d : Disk) (h : FileHeader) (s : ℕ)
    → IsStorable h
    → s < num_sectors
    → (write_back d h s >>= λ d'. fetch_from d' s) ≡ ok h
fetch_from-write_back d h s v p =
    rw (write_back_lem d h s p, fetch_from_lem (update d s (to_bytes h)) s p, ==_refl s)
      (ap ok (of_bytes-to_bytes h v))
