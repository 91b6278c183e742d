-- ===== src/Filesys/OpenFile/Reading.antt =====
-- ReadAt returns the bytes of the file.
use nach_os.Base.{
  ℕ, zero, suc, ◌+◌, ◌-◌, ◌*◌, ◌/◌, ◌%◌, ◌≤◌, ◌<◌, ◌≡◌, ◌^◌, refl, ap, ◌∙◌, List, [], ◌∷◌, ◌++◌, ok,
  length, tabulate, slice-tabulate, get_or, length-append, arith, lt→ltb, false, min,
}
use native.Mathlib.Decide.{dec_lt}
use nach_os.Filesys.Disk.{Disk, sector_size, num_sectors, read_sector}
use nach_os.Filesys.FileHeader.{FileHeader, file_length}
use nach_os.Filesys.OpenFile.{OpenFile, clip, is_empty_request, read_sectors, read_clipped, read_at}
use nach_os.Filesys.OpenFile.View.{sector_at, byte_at, IsFile, IsFormatted, byte_to_sector_lem}

get_or-append_left :
    (xs ys : List ℕ) (k d : ℕ) → k < length xs → get_or (xs ++ ys) k d ≡ get_or xs k d
get_or-append_left [] ys k d h = absurd (omega arith)
get_or-append_left (x ∷ xs) ys zero d h = refl
get_or-append_left (x ∷ xs) ys (suc k) d h = get_or-append_left xs ys k d (omega arith)

get_or-append_right :
    (xs ys : List ℕ) (k d : ℕ) → get_or (xs ++ ys) (length xs + k) d ≡ get_or ys k d
get_or-append_right [] ys k d = ap (λ t. get_or ys t d) (omega arith)
get_or-append_right (x ∷ xs) ys k d =
    let e : suc (length xs) + k ≡ suc (length xs + k) = omega arith in
    rw e (get_or-append_right xs ys k d)

-- The byte at offset `k` of the file's sector `i`.
byte_at_sector :
    (d : Disk) (h : FileHeader) (i k p : ℕ)
    → k < sector_size
    → p ≡ i * sector_size + k
    → get_or (d (sector_at h i)) k 0 ≡ byte_at d h p
byte_at_sector d h i k p l e =
    let a : p / sector_size ≡ i = omega arith in
    let b : p % sector_size ≡ k = omega arith in rw (a, b)

pub read_sectors_lem :
    (n i : ℕ) (d : Disk) (h : FileHeader)
    → IsFile h
    → IsFormatted d
    → i + n ≤ h.num_sectors
    → (buf : List ℕ) × (read_sectors n i d h ≡ ok buf)
      × (length buf ≡ n * sector_size)
      × ((k : ℕ) → k < n * sector_size → get_or buf k 0 ≡ byte_at d h (i * sector_size + k))
unfolding read_sectors read_sector
read_sectors_lem zero i d h v fm p = ([], refl, refl, λ k l. absurd (omega arith))
read_sectors_lem (suc n) i d h v fm p =
    let (buf, e, l, g) = read_sectors_lem n (suc i) d h v fm (omega arith) in
    let s = sector_at h i in
    let len : length (d s) ≡ 128 = fm s in
    (
      d s ++ buf,
      rw (
        byte_to_sector_lem h i v (omega arith),
        lt→ltb s num_sectors (v.on_disk i (omega arith)),
        e,
      ),
      omega (arith, length-append (d s) buf),
      λ k b. elim (dec_lt k 128) [
        | yes low ↦
            get_or-append_left (d s) buf k 0 (omega arith)
            ∙ byte_at_sector d h i k (i * 128 + k) low refl
        | no high ↦
            ap (λ t. get_or (d s ++ buf) t 0)
              (let z : k ≡ length (d s) + (k - 128) = omega arith in z)
            ∙ get_or-append_right (d s) buf (k - 128) 0
            ∙ g (k - 128) (omega arith)
            ∙ ap (byte_at d h) (omega arith)
      ],
    )

read_clipped_lem :
    (d : Disk) (f : OpenFile) (n position : ℕ)
    → IsFile f.hdr
    → IsFormatted d
    → 0 < n
    → position + n ≤ f.hdr.num_bytes
    → read_clipped d f n position ≡ ok (n, tabulate (byte_at d f.hdr) position n)
unfolding read_clipped
read_clipped_lem d f n position v fm p q =
    let h = f.hdr in
    let first = position / sector_size in
    let last = (position + n - 1) / sector_size in
    let fits : first + (1 + last - first) ≤ h.num_sectors = omega (arith, v.covered) in
    let (buf, e, l, g) = read_sectors_lem (1 + last - first) first d h v fm fits in
    rw e (
      ap (λ (bytes : List ℕ). ok (n, bytes))
        (slice-tabulate (byte_at d h) buf (position - first * sector_size) position n 0 λ k b.
          g (position - first * sector_size + k) (omega arith) ∙ ap (byte_at d h) (omega arith)))

pub clip-min :
    (size num_bytes position : ℕ)
    → position < size
    → position + num_bytes < 2 ^ 31
    → clip size num_bytes position ≡ min num_bytes (size - position)
clip-min size num_bytes position p small = ground arith

pub not-is_empty_request :
    (size num_bytes position : ℕ)
    → 0 < num_bytes
    → position < size
    → is_empty_request size num_bytes position ≡ false
not-is_empty_request size num_bytes position p q = ground arith

-- A request that is not empty, starts in the file and does not end beyond the range of an int reads
-- the bytes at its positions, up to the end of the file.
pub read_at_lem :
    (d : Disk) (f : OpenFile) (num_bytes position : ℕ)
    → IsFile f.hdr
    → IsFormatted d
    → 0 < num_bytes
    → position < f.hdr.num_bytes
    → position + num_bytes < 2 ^ 31
    → read_at d f num_bytes position
      ≡ ok (
        min num_bytes (f.hdr.num_bytes - position),
        tabulate (byte_at d f.hdr) position (min num_bytes (f.hdr.num_bytes - position)),
      )
unfolding read_at file_length
read_at_lem d f num_bytes position v fm p q small =
    rw
      (
        not-is_empty_request f.hdr.num_bytes num_bytes position p q,
        clip-min f.hdr.num_bytes num_bytes position q small,
      )
      (read_clipped_lem d f (min num_bytes (f.hdr.num_bytes - position)) position v fm (omega arith)
        (omega arith))
