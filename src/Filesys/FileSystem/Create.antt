-- ===== src/Filesys/FileSystem/Create.antt =====
-- Create against the represented bitmap and directory.
use nach_os.Base.{
  ℕ, suc, ◌*◌, ◌≤◌, ◌<◌, ◌^◌, ◌≡◌, ◌≢◌, refl, ap, ◌∙◌, sym, subst, Bool, true, false, List, ◌∷◌,
  none, some, Result, ok, length, arith, if◌then◌else◌, ◌⊎◌, inl, inr, Option-cases, ==_refl, ne→==,
}
use native.Mathlib.Decide.{dec_le}
use nach_os.Bitmap.{Bitmap, div_round_up}
use nach_os.Bitmap.View.{is_marked, Updated}
use nach_os.Bitmap.View
use nach_os.Bitmap.Search.{find_and_set-Found, clear_count-full}
use nach_os.Filesys.Disk.{num_sectors, sector_size, update}
use nach_os.Filesys.FileHeader.{FileHeader, num_direct, sectors_of, to_bytes, fetch_from}
use nach_os.Filesys.FileHeader
use nach_os.Filesys.FileHeader.Allocation.{
  Taken, Taken-cons, clears, clears-mark, allocate_ok, allocate_no_space,
}
use nach_os.Filesys.OpenFile.View.{sector_at, IsFormatted}
use nach_os.Filesys.Directory.{Directory, DirectoryEntry}
use nach_os.Filesys.Directory
use nach_os.Filesys.Directory.Lookup.{same}
use nach_os.Filesys.Directory.Lookup
use nach_os.Filesys.Directory.Add.{add_lem, Added, IsFull}
use nach_os.Filesys.Directory.Stored.{IsStorable, HoldsTable}
use nach_os.Filesys.Directory.Stored
use nach_os.Filesys.PersistentBitmap.{HoldsBits}
use nach_os.Filesys.PersistentBitmap
use nach_os.Filesys.FileSystem.{
  Memory, FileSystem, num_dir_entries, flush_created, create_at, create,
}
use nach_os.Filesys.FileSystem.Representation.{
  IsMemory, Reserved, Represents, tabulate-byte_at, fetch_free_map_lem, fetch_directory_lem,
}

-- Marking more sectors keeps the reserved ones.
Reserved-more :
    (b b' : Bitmap) (h : FileHeader)
    → ((j : ℕ) → is_marked b j ≡ true → is_marked b' j ≡ true)
    → Reserved b h
    → Reserved b' h
Reserved-more b b' h more r i l = more (sector_at h i) (r i l)

-- A clear sector is none of a reserved file's.
pub not-Reserved :
    (b : Bitmap) (h : FileHeader) (k : ℕ)
    → Reserved b h
    → is_marked b k ≡ false
    → (i : ℕ) → i < h.num_sectors
    → sector_at h i ≢ k
not-Reserved b h k r free i l e = absurd (true≢ (sym (r i l) ∙ ap (is_marked b) e ∙ free))
  where
    true≢ : ◌≡◌ {A = Bool} true false → ⊥
    true≢ e = cc

-- The three writes of Create: the file system then represents the new bitmap and directory, and the
-- header is where it was put.
flush_lem :
    (m : Memory) {fs : FileSystem} {b : Bitmap} {d : Directory} (b' : Bitmap) (d' : Directory)
    (hdr : FileHeader) (sector : ℕ)
    → Represents fs b d
    → View.IsValid b'
    → b'.num_bits ≡ num_sectors
    → ((j : ℕ) → is_marked b j ≡ true → is_marked b' j ≡ true)
    → Lookup.IsValid d'
    → IsStorable d'.table
    → length d'.table ≡ num_dir_entries
    → sector < num_sectors
    → is_marked b sector ≡ false
    → length (to_bytes hdr) ≡ sector_size
    → (fs' : FileSystem) × (flush_created m fs d' b' hdr sector ≡ ok fs')
      × Represents fs' b' d'
      × (fs'.disk sector ≡ to_bytes hdr)
      × ((s : ℕ)
          → s ≢ sector
          → ((i : ℕ) → i < fs.free_map_file.hdr.num_sectors → sector_at fs.free_map_file.hdr i ≢ s)
          → ((i : ℕ)
              → i < fs.directory_file.hdr.num_sectors
              → sector_at fs.directory_file.hdr i ≢ s)
          → fs'.disk s ≡ fs.disk s)
      × (fs'.free_map_file ≡ fs.free_map_file)
      × (fs'.directory_file ≡ fs.directory_file)
unfolding flush_created
flush_lem m {fs} {b} {d} b' d' hdr sector r valid count more dvalid dstored dcount on_disk free
      sized =
    let map_hdr = fs.free_map_file.hdr in
    let dir_hdr = fs.directory_file.hdr in
    let disk1 = update fs.disk sector (to_bytes hdr) in
    let fm1 : IsFormatted disk1 = λ t. ground (arith, r.formatted t) in
    let (disk2, e2, fm2, held2, others2) =
      Stored.write_back_lem m.buffer disk1 fs.directory_file d' r.dir_file fm1 dvalid.sized
        (omega (arith, dcount)) (omega (arith, r.dir_size, dcount)) in
    let words : b'.num_words ≡ 32 = valid.sized ∙ ap (λ n. div_round_up n 32) count in
    let (disk3, e3, fm3, held3, others3) =
      PersistentBitmap.write_back_lem m.buffer disk2 fs.free_map_file b' r.map_file fm2 valid
        (omega (arith, words)) (omega (arith, r.map_size, words)) in
    (
      record fs { disk = disk3 },
      rw (FileHeader.Stored.write_back_lem fs.disk hdr sector on_disk, e2, e3),
      record {
        formatted = fm3;
        map_file = r.map_file;
        dir_file = r.dir_file;
        map_size = r.map_size;
        dir_size = r.dir_size;
        apart = r.apart;
        map_reserved = Reserved-more b b' map_hdr more r.map_reserved;
        dir_reserved = Reserved-more b b' dir_hdr more r.dir_reserved;
        bits_valid = valid;
        bits_count = count;
        dir_valid = dvalid;
        dir_stored = dstored;
        dir_count = dcount;
        map_held = held3;
        dir_held =
            tabulate-byte_at disk2 disk3 dir_hdr 0 (length d'.table * 20) r.dir_file
              (omega (arith, r.dir_size, dcount))
              (λ j l. others3 (sector_at dir_hdr j) (λ i l' e. r.apart i j l' l e))
            ∙ held2;
      },
      others3 sector (not-Reserved b map_hdr sector r.map_reserved free)
          ∙ others2 sector (not-Reserved b dir_hdr sector r.dir_reserved free)
          ∙ rw (==_refl sector),
      λ s ne not_map not_dir.
          others3 s not_map ∙ others2 s not_dir ∙ rw (ne→== sector s (λ e. ne (sym e))),
      refl,
      refl,
    )

-- Why Create may return FALSE: the name is there, no sector is free for the header, every directory
-- entry is in use, or the sectors left are too few.
abbrev pub CannotCreate : Bitmap → Directory → List ℕ → ℕ → Type 0
CannotCreate b d name size =
    ((k : ℕ) × (Directory.find d name ≡ some k))
    ⊎ ((clears b ≡ 0) ⊎ (IsFull d.table ⊎ (clears b < suc (div_round_up size sector_size))))

-- What a successful Create makes of the file system.
pub record Created (fs fs' : FileSystem) (b : Bitmap) (d : Directory) (name : List ℕ) (size : ℕ)
    : Type 0 where
  pub bitmap : Bitmap
  pub directory : Directory
  pub header : FileHeader
  pub sector : ℕ
  pub represents : Represents fs' bitmap directory
  pub was_absent : Directory.find d name ≡ none
  pub names :
      (n : List ℕ)
      → Directory.find directory n ≡ (if same name n then some sector else Directory.find d n)
  pub header_stored : fetch_from fs'.disk sector ≡ ok header
  pub header_size : header.num_bytes ≡ size
  pub header_fits : header.num_sectors ≤ length header.data_sectors
  pub map_file : fs'.free_map_file ≡ fs.free_map_file
  pub dir_file : fs'.directory_file ≡ fs.directory_file
  pub others :
      (s : ℕ)
      → s ≢ sector
      → ((i : ℕ) → i < fs.free_map_file.hdr.num_sectors → sector_at fs.free_map_file.hdr i ≢ s)
      → ((i : ℕ) → i < fs.directory_file.hdr.num_sectors → sector_at fs.directory_file.hdr i ≢ s)
      → fs'.disk s ≡ fs.disk s
  pub taken : Taken b (sector ∷ sectors_of header) bitmap

-- Create with a header sector and a directory entry at hand: it depends on the space for the data.
module _ (m : Memory) {fs : FileSystem} {b : Bitmap} {d : Directory} (name : List ℕ) (size : ℕ)
    (r : Represents fs b d) (im : IsMemory m) (small : size < 2 ^ 32)
    (direct : div_round_up size sector_size ≤ num_direct) where
  abbrev pub Outcome : Result (Bool × FileSystem) → Type 0
  Outcome result =
      ((result ≡ ok (false, fs)) × CannotCreate b d name size)
      ⊎ ((fs' : FileSystem) × (result ≡ ok (true, fs')) × Created fs fs' b d name size)

  create_with_entry :
      (k : ℕ) (b1 : Bitmap) (d' : Directory)
      → k < b.num_bits
      → is_marked b k ≡ false
      → Updated b k true b1
      → Directory.find d name ≡ none
      → Directory.add d name k ≡ (true, d')
      → Added d name k d'
      → div_round_up size sector_size ≤ clears b1
      → Outcome (create_at m fs d b1 name size k)
  unfolding create_at fetch_from
  create_with_entry k b1 d' below free u absent added a room =
      let (hdr, b2, e, bytes, sectors, l, words, t) =
        allocate_ok m.header size u.valid room (omega (arith, im.sectors)) in
      let all : Taken b (k ∷ sectors_of hdr) b2 = Taken-cons below free u t in
      let on_disk : k < num_sectors = omega (arith, r.bits_count) in
      let storable : FileHeader.Stored.IsStorable hdr = record {
        num_bytes = omega (arith, bytes);
        num_sectors = omega (arith, sectors);
        data_sectors = words (2 ^ 32) (omega (arith, u.num_bits, r.bits_count)) im.words;
        sized = l ∙ im.sectors;
      } in
      let (fs', e', rep, at, others, same_map, same_dir) =
        flush_lem m b2 d' hdr k r all.valid (all.num_bits ∙ r.bits_count)
          (λ j h. ground (arith, all.bits j)) a.valid (a.storable (omega arith) r.dir_stored)
          (a.count ∙ r.dir_count) on_disk free (FileHeader.Stored.length-to_bytes hdr storable) in
      inr (
        fs',
        rw (added, e, e'),
        record {
          bitmap = b2;
          directory = d';
          header = hdr;
          sector = k;
          represents = rep;
          was_absent = absent;
          names = a.names;
          header_stored =
              FileHeader.Stored.fetch_from_lem fs'.disk k on_disk
              ∙ ap ok
                  (ap FileHeader.of_bytes at ∙ FileHeader.Stored.of_bytes-to_bytes hdr storable);
          header_size = bytes;
          header_fits = omega (arith, storable.sized, sectors);
          map_file = same_map;
          dir_file = same_dir;
          others = others;
          taken = all;
        },
      )

  create_with_sector :
      (k : ℕ) (b1 : Bitmap)
      → k < b.num_bits
      → is_marked b k ≡ false
      → Updated b k true b1
      → Directory.find d name ≡ none
      → Outcome (create_at m fs d b1 name size k)
  unfolding create_at
  create_with_sector k b1 below free u absent = elim (add_lem d name k r.dir_valid) [
    | inl (e, inl found) ↦ inl (rw e, inl found)
    | inl (e, inr full) ↦ inl (rw e, inr (inr (inl full)))
    | inr (d', e, _, a) ↦ elim (dec_le (div_round_up size sector_size) (clears b1)) [
      | yes room ↦ create_with_entry k b1 d' below free u absent e a room
      | no tight ↦ inl (
        rw (e, allocate_no_space m.header size u.valid (omega arith)),
        inr (inr (inr (omega (arith, clears-mark below free u)))),
      )
    ]
  ]

  -- Create of a file that a header can hold, of at most 30 sectors (NumDirect), always returns: FALSE, with the file system as it was, for one of the reasons above; or
  -- TRUE, and the file system represents the new state, in which the name leads to a header of the
  -- size asked for, and exactly the header's sector and its data sectors are newly marked.
  pub create_lem : Outcome (create m fs name size)
  unfolding create
  create_lem = elim (Option-cases (Directory.find d name)) [
    | inr (k, e) ↦ inl (rw (fetch_directory_lem r m im, e), inl (k, e))
    | inl absent ↦ elim (find_and_set-Found r.bits_valid) [
      | inl (e, full) ↦ inl (
        rw (fetch_directory_lem r m im, absent, fetch_free_map_lem r, e),
        inr (inl (clear_count-full (is_marked b) b.num_bits 0 full)),
      )
      | inr (k, b1, e, _, kn, free, _, u) ↦
          let begins : create m fs name size ≡ create_at m fs d b1 name size k =
            rw (fetch_directory_lem r m im, absent, fetch_free_map_lem r, e) in
          subst Outcome (sym begins) (create_with_sector k b1 (omega arith) free u absent)
    ]
  ]
