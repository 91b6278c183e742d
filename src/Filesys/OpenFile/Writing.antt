-- ===== src/Filesys/OpenFile/Writing.antt =====
-- The steps of WriteAt: the partial sectors that are read first, and the sectors written back.
use nach_os.Base.{
  ℕ, zero, suc, ◌+◌, ◌-◌, ◌*◌, ◌≤◌, ◌<◌, ◌≡◌, ◌≢◌, refl, ap, ◌∙◌, Bool, true, false, List, ok,
  length, slice, overwrite, tabulate, get_or, arith, lt→ltb, min, length-slice, length-overwrite,
  length-tabulate, get_or-tabulate, get_or-overwrite_in, get_or-overwrite_below, ==_refl, ne→==,
}
use nach_os.Filesys.Disk.{Disk, sector_size, num_sectors, write_sector, update}
use nach_os.Filesys.FileHeader.{FileHeader}
use nach_os.Filesys.OpenFile.{OpenFile, read_into, write_sectors}
use nach_os.Filesys.OpenFile.View.{sector_at, byte_at, IsFile, IsFormatted, byte_to_sector_lem}
use nach_os.Filesys.OpenFile.Reading.{read_at_lem}

-- `d'` is `d` with the file's sectors `i`, .., `i + n - 1` taken from `buf`, offset `k` on.
pub record Stored (n i k : ℕ) (buf : List ℕ) (h : FileHeader) (d d' : Disk) : Type 0 where
  pub formatted : IsFormatted d'
  pub inside :
      (j : ℕ) → j < n → d' (sector_at h (i + j)) ≡ slice 0 buf (k + j * sector_size) sector_size
  pub outside : (s : ℕ) → ((j : ℕ) → j < n → sector_at h (i + j) ≢ s) → d' s ≡ d s

update-IsFormatted :
    (d : Disk) (s : ℕ) (bytes : List ℕ)
    → IsFormatted d
    → length bytes ≡ sector_size
    → IsFormatted (update d s bytes)
update-IsFormatted d s bytes fm l t = ground (arith, fm t)

Stored-cons :
    (n i k : ℕ) (buf : List ℕ) (h : FileHeader) (d d' : Disk)
    → IsFile h
    → i + suc n ≤ h.num_sectors
    → Stored n
        (suc i)
        (k + sector_size)
        buf
        h
        (update d (sector_at h i) (slice 0 buf k sector_size))
        d'
    → Stored (suc n) i k buf h d d'
Stored-cons n i k buf h d d' v p st = record {
  formatted = st.formatted;
  inside = inside;
  outside = outside;
}
  where
    bytes : List ℕ
    bytes = slice 0 buf k sector_size

    inside :
        (j : ℕ)
        → j < suc n
        → d' (sector_at h (i + j)) ≡ slice 0 buf (k + j * sector_size) sector_size
    inside zero l =
        ap (λ t. d' (sector_at h t)) (let z : i + 0 ≡ i = omega arith in z)
        ∙ st.outside (sector_at h i) (λ j l' e.
          absurd (omega (arith, v.distinct (suc i + j) i (omega arith) (omega arith) e)))
        ∙ rw (==_refl (sector_at h i)) (ap (λ t. slice 0 buf t sector_size) (omega arith))
    inside (suc j) l =
        ap (λ t. d' (sector_at h t)) (let z : i + suc j ≡ suc i + j = omega arith in z)
        ∙ st.inside j (omega arith)
        ∙ ap (λ t. slice 0 buf t sector_size) (omega arith)

    outside : (s : ℕ) → ((j : ℕ) → j < suc n → sector_at h (i + j) ≢ s) → d' s ≡ d s
    outside s ne =
        st.outside s (λ j l e.
          ne (suc j) (omega arith)
            (ap (sector_at h) (let z : i + suc j ≡ suc i + j = omega arith in z) ∙ e))
        ∙ rw (
            ne→== (sector_at h i) s
              λ e. ne 0 (omega arith) (ap (sector_at h) (let z : i + 0 ≡ i = omega arith in z) ∙ e))

pub write_sectors_lem :
    (n i k : ℕ) (buf : List ℕ) (d : Disk) (h : FileHeader)
    → IsFile h
    → IsFormatted d
    → i + n ≤ h.num_sectors
    → (d' : Disk) × (write_sectors n i k buf d h ≡ ok d') × Stored n i k buf h d d'
unfolding write_sectors write_sector
write_sectors_lem zero i k buf d h v fm p = (
  d,
  refl,
  record { formatted = fm; inside = λ j l. absurd (omega arith); outside = λ s ne. refl },
)
write_sectors_lem (suc n) i k buf d h v fm p =
    let s = sector_at h i in
    let bytes = slice 0 buf k sector_size in
    let (d', e, st) =
      write_sectors_lem n (suc i) (k + sector_size) buf (update d s bytes) h v
        (update-IsFormatted d s bytes fm (length-slice buf k sector_size 0)) (omega arith) in
    (
      d',
      rw (byte_to_sector_lem h i v (omega arith), lt→ltb s num_sectors (v.on_disk i (omega arith)))
          e,
      Stored-cons n i k buf h d d' v p st,
    )

-- A sector read into the buffer at `k`, if it is needed: what the buffer holds then.
pub record ReadInto (needed : Bool) (d : Disk) (h : FileHeader) (k position : ℕ) (buf buf' : List ℕ)
    : Type 0 where
  pub sized : length buf' ≡ length buf
  pub inside :
      needed ≡ true
      → (j : ℕ) → k ≤ j
      → j < k + sector_size
      → position + (j - k) < h.num_bytes
      → get_or buf' j 0 ≡ byte_at d h (position + (j - k))
  pub below : (j : ℕ) → j < k → get_or buf' j 0 ≡ get_or buf j 0
  pub unneeded : needed ≡ false → buf' ≡ buf

pub read_into_lem :
    (needed : Bool) (d : Disk) (f : OpenFile) (k position : ℕ) (buf : List ℕ)
    → IsFile f.hdr
    → IsFormatted d
    → position < f.hdr.num_bytes
    → k + sector_size ≤ length buf
    → (buf' : List ℕ) × (read_into needed d f k position buf ≡ ok buf')
      × ReadInto needed d f.hdr k position buf buf'
read_into_lem false d f k position buf v fm p q = (
  buf,
  refl,
  record { sized = refl; inside = λ e. cc; below = λ j l. refl; unneeded = λ e. refl },
)
read_into_lem true d f k position buf v fm p q =
    let n = min sector_size (f.hdr.num_bytes - position) in
    let bytes = tabulate (byte_at d f.hdr) position n in
    let l = length-tabulate (byte_at d f.hdr) position n in
    (
      overwrite buf k bytes,
      rw (
          read_at_lem d f sector_size position v fm (omega arith) p
            (omega (arith, v.covered, v.direct))),
      record {
        sized = length-overwrite buf k bytes;
        inside = λ _ j a b c.
            get_or-overwrite_in buf k bytes j 0 (omega (arith, l)) a (omega (arith, l))
            ∙ get_or-tabulate (byte_at d f.hdr) position n (j - k) 0 (omega arith);
        below = λ j a. get_or-overwrite_below buf k bytes j 0 a;
        unneeded = λ e. cc;
      },
    )
