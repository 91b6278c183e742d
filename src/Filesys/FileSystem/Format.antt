-- ===== src/Filesys/FileSystem/Format.antt =====
-- Formatting the disk: the file system then represents an empty directory.
use nach_os.Base.{
  ℕ, contains, ◌||◌, ◌∷◌, [], true, if◌then◌else◌, Bool, ◌*◌, ◌≡◌, ap, ◌∙◌, sym, List, none, ok,
  arith,
}
use nach_os.Bitmap.{Bitmap, div_round_up}
use nach_os.Bitmap.View.{is_marked, Updated}
use nach_os.Bitmap.View
use nach_os.Filesys.Disk.{Disk, num_sectors, update}
use nach_os.Filesys.FileHeader.{FileHeader, num_direct, sectors_of, to_bytes}
use nach_os.Filesys.FileHeader
use nach_os.Filesys.OpenFile.View.{sector_at, IsFormatted}
use nach_os.Filesys.Directory.{Directory, DirectoryEntry}
use nach_os.Filesys.Directory
use nach_os.Filesys.Directory.Stored.{IsStorable, HoldsTable}
use nach_os.Filesys.Directory.Stored
use nach_os.Filesys.PersistentBitmap
use nach_os.Filesys.FileSystem.{
  Memory, FileSystem, free_map_file_size, directory_file_size, free_map_sector, directory_sector,
  format, attach,
}
use nach_os.Filesys.FileSystem.Representation.{
  IsMemory, Apart, Reserved, Represents, tabulate-byte_at,
}
use nach_os.Filesys.FileSystem.Allotted.{
  Taken-Reserved, Taken-fresh, Prepared, prepare, headers_on_disk, opened, attach_lem, attach_kept,
  Allotted, allot, apart_by,
}

-- Everything that the constructor writes.
format_files :
    (m : Memory) (disk : Disk) {b : Bitmap} {b' : Bitmap} {b'' : Bitmap} (h k : FileHeader)
    → IsMemory m
    → IsFormatted disk
    → View.IsValid b
    → b.num_bits ≡ num_sectors
    → Allotted m b free_map_file_size h b'
    → Allotted m b' directory_file_size k b''
    → let disk2 = headers_on_disk disk h k in
      let fs = opened disk2 h k in
      (disk3 : Disk) × (disk4 : Disk) × (PersistentBitmap.write_back m.buffer disk2 fs.free_map_file
          b''
        ≡ ok disk3)
      × (Directory.write_back m.buffer disk3 fs.directory_file (Directory.new m.table) ≡ ok disk4)
      × Represents (record fs { disk = disk4 }) b'' (Directory.new m.table)
      × ((s : ℕ) → is_marked b s ≡ true → disk4 s ≡ disk2 s)
unfolding headers_on_disk opened
format_files m disk {b} {b'} {b''} h k im fm v n a c =
    let disk2 = headers_on_disk disk h k in
    let fs = opened disk2 h k in
    let empty = Directory.new m.table in
    let count = Stored.length-new m.table ∙ im.entries in
    let bits : b''.num_bits ≡ num_sectors = c.taken.num_bits ∙ a.taken.num_bits ∙ n in
    let words : b''.num_words ≡ 32 = c.taken.valid.sized ∙ ap (λ t. div_round_up t 32) bits in
    let fm2 : IsFormatted disk2 = λ s. ground (
      arith,
      fm s,
      FileHeader.Stored.length-to_bytes h a.storable,
      FileHeader.Stored.length-to_bytes k c.storable,
    ) in
    let (disk3, e3, fm3, held3, others3) =
      PersistentBitmap.write_back_lem m.buffer disk2 fs.free_map_file b'' a.file fm2 c.taken.valid
        (omega (arith, words)) (omega (arith, words, a.num_bytes)) in
    let valid = (Stored.new_directory_lem m.table im.names).0 in
    let (disk4, e4, fm4, held4, others4) =
      Stored.write_back_lem m.buffer disk3 fs.directory_file empty c.file fm3 valid.sized
        (omega (arith, count)) (omega (arith, count, c.num_bytes)) in
    let reserved : Reserved b' h = Taken-Reserved h a.taken in
    let apart : Apart h k =
      λ i j p q e. apart_by (is_marked b') (reserved i p) (Taken-fresh k c.taken j q) e in
    (
      disk3,
      disk4,
      e3,
      e4,
      record {
        formatted = fm4;
        map_file = a.file;
        dir_file = c.file;
        map_size = a.num_bytes;
        dir_size = c.num_bytes;
        apart = apart;
        map_reserved = λ i l. ground (arith, c.taken.bits (sector_at h i), reserved i l);
        dir_reserved = Taken-Reserved k c.taken;
        bits_valid = c.taken.valid;
        bits_count = bits;
        dir_valid = valid;
        dir_stored = Stored.new-IsStorable m.table im.names;
        dir_count = count;
        map_held =
            tabulate-byte_at disk3 disk4 h 0 (b''.num_words * 4) a.file
              (omega (arith, a.num_bytes, words))
              (λ j l. others4 (sector_at h j) (λ i l' e. apart j i l l' (sym e)))
            ∙ held3;
        dir_held = held4;
      },
      λ s used.
          others4 s (λ i l e.
            let used' : is_marked b' s ≡ true = ground (arith, a.taken.bits s, used) in
            apart_by (is_marked b') used' (Taken-fresh k c.taken i l) (sym e))
          ∙ others3 s λ i l e. apart_by (is_marked b) used (Taken-fresh h a.taken i l) (sym e),
    )

-- The run of the constructor, from its parts.
format_runs :
    (m : Memory) (disk disk3 disk4 : Disk) {b0 b1 b2 b3 b4 : Bitmap} {h k : FileHeader}
    → Prepared b0 b1 b2
    → Allotted m b2 free_map_file_size h b3
    → Allotted m b3 directory_file_size k b4
    → PersistentBitmap.write_back m.buffer
        (headers_on_disk disk h k)
        (opened (headers_on_disk disk h k) h k).free_map_file
        b4
      ≡ ok disk3
    → Directory.write_back m.buffer disk3
        (opened (headers_on_disk disk h k) h k).directory_file
        (Directory.new m.table)
      ≡ ok disk4
    → format m disk ≡ ok (record (opened (headers_on_disk disk h k) h k) { disk = disk4 })
unfolding format headers_on_disk opened
format_runs m disk disk3 disk4 {h = h} {k = k} p a c e3 e4 = rw (
  p.made,
  p.first,
  p.second,
  a.made,
  c.made,
  FileHeader.Stored.write_back_lem disk h free_map_sector (omega arith),
  FileHeader.Stored.write_back_lem (update disk free_map_sector (to_bytes h)) k directory_sector
      (omega arith),
  attach_lem disk h k a.storable c.storable,
  e3,
  e4,
)

marked :
    (p q r s h k : Bool)
    → p ≡ s
    → q ≡ (if h then true else p)
    → r ≡ (if k then true else q)
    → r ≡ (s || h || k)
marked p q r s h k e1 e2 e3 = ground arith

-- The constructor that formats a disk succeeds, whatever the disk and the memory held, and leaves a
-- file system that represents a directory with no name in it. Exactly the two header sectors and the
-- sectors of the two files are marked as used, and the constructor that does not format, on the disk
-- that is left, gives the same file system.
pub format_lem :
    (m : Memory) (disk : Disk)
    → IsMemory m
    → IsFormatted disk
    → (fs : FileSystem) × (b : Bitmap) × (d : Directory) × (format m disk ≡ ok fs)
      × Represents fs b d
      × ((name : List ℕ) → Directory.find d name ≡ none)
      × ((j : ℕ)
          → is_marked b j ≡ (
              contains (free_map_sector ∷ directory_sector ∷ []) j
              || contains (sectors_of fs.free_map_file.hdr) j
              || contains (sectors_of fs.directory_file.hdr) j))
      × (attach fs.disk ≡ ok fs)
unfolding opened
format_lem m disk im fm =
    let (b0, b1, b2, p) = prepare in
    let (h, b3, a) =
      allot m free_map_file_size im p.valid p.num_bits (omega (arith, p.clear)) (omega arith)
        (omega arith) in
    let (k, b4, c) =
      allot m directory_file_size im a.taken.valid (a.taken.num_bits ∙ p.num_bits)
        (omega (arith, p.clear, a.taken.count, a.count)) (omega arith) (omega arith) in
    let (disk3, disk4, e3, e4, r, kept) = format_files m disk h k im fm p.valid p.num_bits a c in
    (
      record (opened (headers_on_disk disk h k) h k) { disk = disk4 },
      b4,
      Directory.new m.table,
      format_runs m disk disk3 disk4 p a c e3 e4,
      r,
      (Stored.new_directory_lem m.table im.names).1,
      λ j. marked _ _ _ _ _ _ (p.marks j) (a.taken.bits j) (c.taken.bits j),
      attach_kept disk disk4 h k a.storable c.storable
          (kept free_map_sector (p.marks free_map_sector))
          (kept directory_sector (p.marks directory_sector)),
    )
