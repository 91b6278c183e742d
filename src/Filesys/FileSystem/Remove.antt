-- ===== src/Filesys/FileSystem/Remove.antt =====
-- Remove against the represented bitmap and directory, and Open.
use nach_os.Base.{
  ℕ, ◌≤◌, ◌<◌, ◌≡◌, ap, ◌∙◌, sym, true, false, List, ◌∷◌, Option, none, some, ok, length, arith,
  if◌then◌else◌, inl, inr, All, Distinct, contains, ◌⊎◌, Option-cases, ◌*◌,
}
use nach_os.Bitmap.{Bitmap, div_round_up}
use nach_os.Bitmap.View.{Updated}
use nach_os.Bitmap.Laws.{clear_lem}
use nach_os.Filesys.Disk.{Disk, num_sectors}
use nach_os.Filesys.FileHeader.{FileHeader, sectors_of}
use nach_os.Filesys.FileHeader
use nach_os.Filesys.FileHeader.Allocation.{Released, Held, deallocate_lem}
use nach_os.Filesys.OpenFile.View.{sector_at}
use nach_os.Filesys.OpenFile
use nach_os.Filesys.Directory.{Directory}
use nach_os.Filesys.Directory
use nach_os.Filesys.Directory.Lookup.{same}
use nach_os.Filesys.Directory.Remove.{Dropped}
use nach_os.Filesys.Directory.Remove
use nach_os.Filesys.Directory.Stored
use nach_os.Filesys.PersistentBitmap
use nach_os.Filesys.FileSystem.{
  Memory, FileSystem, remove, remove_found, open_file, open_found, num_dir_entries,
}
use nach_os.Filesys.FileSystem.Representation.{
  IsMemory, Reserved, Represents, tabulate-byte_at, fetch_free_map_lem, fetch_directory_lem,
}

-- The sectors of a file are none of the sectors in a list.
abbrev pub Avoids : FileHeader → List ℕ → Type 0
Avoids h xs = (i : ℕ) → i < h.num_sectors → contains xs (sector_at h i) ≡ false

-- The file whose header is in a sector: its sectors are marked, distinct and its own.
pub record HasFile (fs : FileSystem) (b : Bitmap) (sector : ℕ) (h : FileHeader) : Type 0 where
  pub on_disk : sector < num_sectors
  pub fetched : FileHeader.fetch_from fs.disk sector ≡ ok h
  pub stored : h.num_sectors ≤ length h.data_sectors
  pub held : All (Held b) (sector ∷ sectors_of h)
  pub distinct : Distinct (sector ∷ sectors_of h)
  pub not_map : Avoids fs.free_map_file.hdr (sector ∷ sectors_of h)
  pub not_dir : Avoids fs.directory_file.hdr (sector ∷ sectors_of h)

-- What a successful Remove of a file of the sectors `xs` makes of the file system.
pub record Removed (fs fs' : FileSystem) (b : Bitmap) (d : Directory) (name xs : List ℕ)
    : Type 0 where
  pub bitmap : Bitmap
  pub directory : Directory
  pub represents : Represents fs' bitmap directory
  pub names :
      (n : List ℕ) → Directory.find directory n ≡ (if same name n then none else Directory.find d n)
  pub released : Released b xs bitmap

-- Clearing one more sector.
Released-more :
    {b b' b'' : Bitmap} {xs : List ℕ} {k : ℕ}
    → Released b xs b'
    → Updated b' k false b''
    → Released b (k ∷ xs) b''
Released-more r u = record {
  valid = u.valid;
  num_bits = u.num_bits ∙ r.num_bits;
  bits = λ j. ground (arith, u.bits j, r.bits j);
}

-- A file that avoids the released sectors is still reserved.
Reserved-Released :
    {b b' : Bitmap} {xs : List ℕ} (h : FileHeader)
    → Released b xs b'
    → Avoids h xs
    → Reserved b h
    → Reserved b' h
Reserved-Released h r avoids reserved i l =
    ground (arith, r.bits (sector_at h i), avoids i l, reserved i l)

-- The two writes of Remove, with the directory and the bitmap changed.
module _ (m : Memory) {fs : FileSystem} {b b' : Bitmap} {d d' : Directory} {xs : List ℕ}
    (r : Represents fs b d) (released : Released b xs b') (not_map : Avoids fs.free_map_file.hdr xs)
    (not_dir : Avoids fs.directory_file.hdr xs) {name : List ℕ} (dropped : Dropped d name d') where
  flush_removed :
      (disk1 : Disk) × (disk2 : Disk) × (PersistentBitmap.write_back m.buffer fs.disk
          fs.free_map_file b'
        ≡ ok disk1)
      × (Directory.write_back m.buffer disk1 fs.directory_file d' ≡ ok disk2)
      × Represents (record fs { disk = disk2 }) b' d'
  flush_removed =
      let map_hdr = fs.free_map_file.hdr in
      let dir_hdr = fs.directory_file.hdr in
      let bits : b'.num_bits ≡ num_sectors = released.num_bits ∙ r.bits_count in
      let words : b'.num_words ≡ 32 = released.valid.sized ∙ ap (λ n. div_round_up n 32) bits in
      let count : length d'.table ≡ num_dir_entries = dropped.count ∙ r.dir_count in
      let (disk1, e1, fm1, held1, others1) =
        PersistentBitmap.write_back_lem m.buffer fs.disk fs.free_map_file b' r.map_file r.formatted
          released.valid (omega (arith, words)) (omega (arith, r.map_size, words)) in
      let (disk2, e2, fm2, held2, others2) =
        Stored.write_back_lem m.buffer disk1 fs.directory_file d' r.dir_file fm1 dropped.valid.sized
          (omega (arith, count)) (omega (arith, r.dir_size, count)) in
      (
        disk1,
        disk2,
        e1,
        e2,
        record {
          formatted = fm2;
          map_file = r.map_file;
          dir_file = r.dir_file;
          map_size = r.map_size;
          dir_size = r.dir_size;
          apart = r.apart;
          map_reserved = Reserved-Released map_hdr released not_map r.map_reserved;
          dir_reserved = Reserved-Released dir_hdr released not_dir r.dir_reserved;
          bits_valid = released.valid;
          bits_count = bits;
          dir_valid = dropped.valid;
          dir_stored = dropped.storable r.dir_stored;
          dir_count = count;
          map_held =
              tabulate-byte_at disk1 disk2 map_hdr 0 (b'.num_words * 4) r.map_file
                (omega (arith, r.map_size, words))
                (λ j l. others2 (sector_at map_hdr j) (λ i l' e. r.apart j i l l' (sym e)))
              ∙ held1;
          dir_held = held2;
        },
      )

module _ (m : Memory) {fs : FileSystem} {b : Bitmap} {d : Directory} (name : List ℕ)
    (r : Represents fs b d) (im : IsMemory m) where
  -- Remove of a name that is not there returns FALSE and changes nothing.
  pub remove-absent : Directory.find d name ≡ none → remove m fs name ≡ ok (false, fs)
  unfolding remove remove_found
  remove-absent absent = rw (fetch_directory_lem r m im, absent)

  -- Remove of a file that is there returns TRUE: the name is taken out of the directory, no other
  -- name changes, and exactly the header's sector and the data sectors are released.
  pub remove-Removed :
      {sector : ℕ} {h : FileHeader}
      → Directory.find d name ≡ some sector
      → HasFile fs b sector h
      → (fs' : FileSystem) × (remove m fs name ≡ ok (true, fs'))
        × Removed fs fs' b d name (sector ∷ sectors_of h)
  unfolding remove remove_found
  remove-Removed {sector} {h} there f = elim (Remove.remove_lem d name r.dir_valid) [
    | inl (_, absent) ↦ absurd (some≢none (sym there ∙ absent))
    | inr (d', e, dropped) ↦
        let (b1, e1, r1) = deallocate_lem h r.bits_valid f.stored f.held.1 f.distinct.1 in
        let (b2, e2, u) = clear_lem r1.valid sector (omega (arith, r1.num_bits, f.held.0.0)) in
        let released = Released-more r1 u in
        let (disk1, disk2, e3, e4, rep) = flush_removed m r released f.not_map f.not_dir dropped in
        (
          record fs { disk = disk2 },
          rw (
            fetch_directory_lem r m im,
            there,
            f.fetched,
            fetch_free_map_lem r,
            e1,
            e2,
            e,
            e3,
            e4,
          ),
          record {
            bitmap = b2;
            directory = d';
            represents = rep;
            names = dropped.names;
            released = released;
          },
        )
  ]
    where
      some≢none : {k : ℕ} → ◌≡◌ {A = Option ℕ} (some k) none → ⊥
      some≢none e = cc

  -- Open finds exactly the names of the directory, and reads the header that the name leads to.
  pub open_file_lem :
      ((Directory.find d name ≡ none) × (open_file m fs name ≡ ok none))
      ⊎ ((k : ℕ) × (Directory.find d name ≡ some k)
          × ((h : FileHeader)
              → FileHeader.fetch_from fs.disk k ≡ ok h
              → open_file m fs name ≡ ok (some (record { hdr = h; seek_position = 0 }))))
  unfolding open_file open_found OpenFile.new
  open_file_lem = elim (Option-cases (Directory.find d name)) [
    | inl e ↦ inl (e, rw (fetch_directory_lem r m im, e))
    | inr (k, e) ↦ inr (k, e, λ h fetched. rw (fetch_directory_lem r m im, e, fetched))
  ]
