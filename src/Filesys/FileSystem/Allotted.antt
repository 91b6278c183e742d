-- ===== src/Filesys/FileSystem/Allotted.antt =====
-- The parts of formatting a disk: the headers that are allocated, on disk and opened.
use nach_os.Base.{
  ◌∷◌, [], ℕ, ◌+◌, ◌*◌, ◌≤◌, ◌<◌, ◌^◌, ◌≡◌, ap, ◌∙◌, sym, subst, Bool, true, false, ok, length,
  contains, All-slice, contains-slice, Distinct-slice, arith, length-slice,
}
use nach_os.Bitmap.{Bitmap, div_round_up}
use nach_os.Bitmap
use nach_os.Bitmap.View.{is_marked, Updated}
use nach_os.Bitmap.View
use nach_os.Bitmap.Laws.{mark_lem}
use nach_os.Bitmap.Search.{new_lem, clear_count-empty}
use nach_os.Filesys.Disk.{Disk, num_sectors, sector_size, update}
use nach_os.Filesys.FileHeader.{FileHeader, num_direct, sectors_of, to_bytes}
use nach_os.Filesys.FileHeader
use nach_os.Filesys.FileHeader.Allocation.{Taken, clears, clears-mark, allocate_ok}
use nach_os.Filesys.OpenFile.{OpenFile}
use nach_os.Filesys.OpenFile
use nach_os.Filesys.OpenFile.View.{sector_at, IsFile}
use nach_os.Filesys.FileSystem.{Memory, FileSystem, free_map_sector, directory_sector, attach}
use nach_os.Filesys.FileSystem.Representation.{IsMemory, Reserved}

-- A header whose sectors were taken describes a file.
Taken-IsFile :
    (h : FileHeader) {b b' : Bitmap}
    → b.num_bits ≡ num_sectors
    → h.num_bytes ≤ h.num_sectors * sector_size
    → h.num_sectors ≤ length h.data_sectors
    → h.num_sectors ≤ num_direct
    → Taken b (sectors_of h) b'
    → IsFile h
Taken-IsFile h {b} count covered stored direct t = record {
  covered = covered;
  stored = stored;
  direct = direct;
  on_disk = λ i l.
      let p =
        All-slice (λ k. (k < b.num_bits) × (is_marked b k ≡ false)) h.data_sectors 0 h.num_sectors i
          0 t.fresh l in
      let e : 0 + i ≡ i = omega arith in
      subst (λ n. sector_at h i < n) count (subst (λ n. sector_at h n < b.num_bits) e p.0);
  distinct = λ i j p q e.
      let a : 0 + i ≡ i = omega arith in
      let c : 0 + j ≡ j = omega arith in
      Distinct-slice h.data_sectors 0 h.num_sectors i j t.distinct p q
        (ap (sector_at h) a ∙ e ∙ ap (sector_at h) (sym c));
}

pub Taken-Reserved : (h : FileHeader) {b b' : Bitmap} → Taken b (sectors_of h) b' → Reserved b' h
Taken-Reserved h {b} {b'} t i l =
    let e : 0 + i ≡ i = omega arith in
    let c : contains (sectors_of h) (sector_at h i) ≡ true =
      subst (λ n. contains (sectors_of h) (sector_at h n) ≡ true) e
        (contains-slice h.data_sectors 0 h.num_sectors i l) in
    ground (arith, t.bits (sector_at h i))

pub Taken-fresh :
    (h : FileHeader) {b b' : Bitmap}
    → Taken b (sectors_of h) b'
    → (i : ℕ) → i < h.num_sectors
    → is_marked b (sector_at h i) ≡ false
Taken-fresh h {b} t i l =
    let e : 0 + i ≡ i = omega arith in
    subst (λ n. is_marked b (sector_at h n) ≡ false) e
      (All-slice (λ k. (k < b.num_bits) × (is_marked b k ≡ false)) h.data_sectors 0 h.num_sectors i
        0 t.fresh l).1

-- The bitmap with the two header sectors marked.
pub record Prepared (b0 b1 b2 : Bitmap) : Type 0 where
  pub made : Bitmap.new num_sectors ≡ ok b0
  pub first : Bitmap.mark b0 free_map_sector ≡ ok b1
  pub second : Bitmap.mark b1 directory_sector ≡ ok b2
  pub valid : View.IsValid b2
  pub num_bits : b2.num_bits ≡ num_sectors
  pub clear : clears b2 ≡ 1022
  pub marks : (j : ℕ) → is_marked b2 j ≡ contains (free_map_sector ∷ directory_sector ∷ []) j

pub prepare : (b0 : Bitmap) × (b1 : Bitmap) × (b2 : Bitmap) × Prepared b0 b1 b2
prepare =
    let (b0, e0, v0, n0, clear0) = new_lem num_sectors (omega arith) in
    let in0 : free_map_sector < b0.num_bits = omega (arith, n0) in
    let (b1, e1, u1) = mark_lem v0 free_map_sector in0 in
    let in1 : directory_sector < b1.num_bits = omega (arith, n0, u1.num_bits) in
    let (b2, e2, u2) = mark_lem u1.valid directory_sector in1 in
    let free1 : is_marked b1 directory_sector ≡ false =
      u1.bits directory_sector ∙ clear0 directory_sector in
    let c0 : clears b0 ≡ num_sectors = clear_count-empty (is_marked b0) b0.num_bits 0 clear0 ∙ n0 in
    (
      b0,
      b1,
      b2,
      record {
        made = e0;
        first = e1;
        second = e2;
        valid = u2.valid;
        num_bits = u2.num_bits ∙ u1.num_bits ∙ n0;
        marks = λ j. ground (arith, u2.bits j, u1.bits j, clear0 j);
        clear =
            omega
              (arith, c0, clears-mark in0 (clear0 free_map_sector) u1, clears-mark in1 free1 u2);
      },
    )

-- The disk with the two headers on it, and the files that are opened.
unfoldable pub headers_on_disk : Disk → FileHeader → FileHeader → Disk
headers_on_disk disk map_hdr dir_hdr =
    update (update disk free_map_sector (to_bytes map_hdr)) directory_sector (to_bytes dir_hdr)

unfoldable pub opened : Disk → FileHeader → FileHeader → FileSystem
opened disk map_hdr dir_hdr = record {
  disk = disk;
  free_map_file = record { hdr = map_hdr; seek_position = 0 };
  directory_file = record { hdr = dir_hdr; seek_position = 0 };
}

pub attach_lem :
    (disk : Disk) (map_hdr dir_hdr : FileHeader)
    → FileHeader.Stored.IsStorable map_hdr
    → FileHeader.Stored.IsStorable dir_hdr
    → attach (headers_on_disk disk map_hdr dir_hdr)
      ≡ ok (opened (headers_on_disk disk map_hdr dir_hdr) map_hdr dir_hdr)
unfolding attach OpenFile.new headers_on_disk opened
attach_lem disk map_hdr dir_hdr v w =
    let d = headers_on_disk disk map_hdr dir_hdr in
    rw (
      FileHeader.Stored.fetch_from_lem d free_map_sector (omega arith),
      FileHeader.Stored.fetch_from_lem d directory_sector (omega arith),
      FileHeader.Stored.of_bytes-to_bytes map_hdr v,
      FileHeader.Stored.of_bytes-to_bytes dir_hdr w,
    )

-- The headers are read back from a disk that has them.
pub attach_kept :
    (disk disk' : Disk) (map_hdr dir_hdr : FileHeader)
    → FileHeader.Stored.IsStorable map_hdr
    → FileHeader.Stored.IsStorable dir_hdr
    → disk' free_map_sector ≡ headers_on_disk disk map_hdr dir_hdr free_map_sector
    → disk' directory_sector ≡ headers_on_disk disk map_hdr dir_hdr directory_sector
    → attach disk' ≡ ok (opened disk' map_hdr dir_hdr)
unfolding attach OpenFile.new headers_on_disk opened
attach_kept disk disk' map_hdr dir_hdr v w first second = rw (
  FileHeader.Stored.fetch_from_lem disk' free_map_sector (omega arith),
  FileHeader.Stored.fetch_from_lem disk' directory_sector (omega arith),
  first,
  second,
  FileHeader.Stored.of_bytes-to_bytes map_hdr v,
  FileHeader.Stored.of_bytes-to_bytes dir_hdr w,
)

-- A header that Allocate makes of memory, and the file that it describes.
pub record Allotted (m : Memory) (b : Bitmap) (size : ℕ) (h : FileHeader) (b' : Bitmap)
    : Type 0 where
  pub made : FileHeader.allocate m.header b size ≡ ok (true, h, b')
  pub file : IsFile h
  pub num_bytes : h.num_bytes ≡ size
  pub storable : FileHeader.Stored.IsStorable h
  pub taken : Taken b (sectors_of h) b'
  pub count : length (sectors_of h) ≡ div_round_up size sector_size

pub allot :
    (m : Memory) {b : Bitmap} (size : ℕ)
    → IsMemory m
    → View.IsValid b
    → b.num_bits ≡ num_sectors
    → div_round_up size sector_size ≤ clears b
    → div_round_up size sector_size ≤ num_direct
    → size < 2 ^ 32
    → (h : FileHeader) × (b' : Bitmap) × Allotted m b size h b'
allot m {b} size im v n room direct small =
    let (h, b', e, bytes, sectors, l, words, t) =
      allocate_ok m.header size v room (omega (arith, im.sectors)) in
    (
      h,
      b',
      record {
        made = e;
        file =
            Taken-IsFile h n (ground (arith, bytes, sectors))
              (omega (arith, sectors, l, im.sectors)) (omega (arith, sectors)) t;
        num_bytes = bytes;
        storable = record {
          num_bytes = omega (arith, bytes);
          num_sectors = omega (arith, sectors);
          data_sectors = words (2 ^ 32) (omega (arith, n)) im.words;
          sized = l ∙ im.sectors;
        };
        taken = t;
        count = length-slice h.data_sectors 0 h.num_sectors 0 ∙ sectors;
      },
    )

pub apart_by : (f : ℕ → Bool) {i j : ℕ} → f i ≡ true → f j ≡ false → i ≡ j → ⊥
apart_by f p q e = let same : ◌≡◌ {A = Bool} true false = sym p ∙ ap f e ∙ q in cc
