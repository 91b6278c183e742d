-- ===== src/Filesys/FileSystem/RoundTrip.antt =====
-- Create followed by Open or by Remove of the same name, and the files that Create keeps.
use nach_os.Base.{
  ℕ, ◌≤◌, ◌<◌, ◌^◌, ◌≡◌, ap, ◌∙◌, sym, subst, Bool, true, false, List, ◌∷◌, Option, none, some,
  Result, ok, arith, inl, inr, All-contains, All-map, contains, Bool-cases, if◌then◌else◌, refl,
}
use nach_os.Bitmap.{Bitmap, div_round_up}
use nach_os.Bitmap.View.{is_marked}
use nach_os.Filesys.Disk.{sector_size}
use nach_os.Filesys.FileHeader.{FileHeader, sectors_of, num_direct}
use nach_os.Filesys.FileHeader
use nach_os.Filesys.FileHeader.Allocation.{Taken, Held}
use nach_os.Filesys.FileHeader.RoundTrip.{Taken-Held, restored}
use nach_os.Filesys.OpenFile.View.{sector_at}
use nach_os.Filesys.OpenFile.{OpenFile}
use nach_os.Filesys.Directory.{Directory, file_name_max_len}
use nach_os.Filesys.Directory
use nach_os.Filesys.Directory.Lookup.{same, find_congr}
use nach_os.Filesys.Directory.Names.{same_name_refl}
use nach_os.Filesys.FileSystem.{Memory, FileSystem, create, remove, open_file}
use nach_os.Filesys.FileSystem.Representation.{IsMemory, Reserved, Represents}
use nach_os.Filesys.FileSystem.Create.{create_lem, Created}
use nach_os.Filesys.FileSystem.Remove.{HasFile, Avoids, remove-Removed, open_file_lem}

-- A reserved file has none of the sectors that are newly taken.
Avoids-Taken :
    {b b' : Bitmap} {xs : List ℕ} (h : FileHeader) → Taken b xs b' → Reserved b h → Avoids h xs
Avoids-Taken {b} {b'} {xs} h t reserved i l = elim (Bool-cases (contains xs (sector_at h i))) [
  | inr other ↦ other
  | inl shared ↦
      let free : is_marked b (sector_at h i) ≡ false =
        (All-contains (λ k. (k < b.num_bits) × (is_marked b k ≡ false)) xs (sector_at h i) t.fresh
          shared).1 in
      ground (arith, reserved i l, free)
]

module _ {fs fs' : FileSystem} {b : Bitmap} {d : Directory} {name : List ℕ} {size : ℕ}
    (r : Represents fs b d) (c : Created fs fs' b d name size) where
  Created-HasFile : HasFile fs' c.bitmap c.sector c.header
  Created-HasFile = record {
    on_disk = omega (arith, c.taken.fresh.0.0, r.bits_count);
    fetched = c.header_stored;
    stored = c.header_fits;
    held = Taken-Held c.taken;
    distinct = c.taken.distinct;
    not_map =
        subst (λ (f : OpenFile). Avoids f.hdr (c.sector ∷ sectors_of c.header)) (sym c.map_file)
          (Avoids-Taken fs.free_map_file.hdr c.taken r.map_reserved);
    not_dir =
        subst (λ (f : OpenFile). Avoids f.hdr (c.sector ∷ sectors_of c.header)) (sym c.dir_file)
          (Avoids-Taken fs.directory_file.hdr c.taken r.dir_reserved);
  }

  created_name : Directory.find c.directory name ≡ some c.sector
  created_name =
      c.names name
      ∙ ap (λ t. if t then some c.sector else Directory.find d name)
          (same_name_refl file_name_max_len name)

  -- A file that was there has none of the sectors that are newly taken.
  shared_none :
      (old : ℕ) (k : FileHeader)
      → HasFile fs b old k
      → (j : ℕ) → contains (old ∷ sectors_of k) j ≡ true
      → contains (c.sector ∷ sectors_of c.header) j ≡ false
  shared_none old k f j old_has = elim (Bool-cases (contains (c.sector ∷ sectors_of c.header) j)) [
    | inr other ↦ other
    | inl shared ↦
        let free =
          All-contains (λ k. (k < b.num_bits) × (is_marked b k ≡ false))
            (c.sector ∷ sectors_of c.header) j c.taken.fresh shared in
        let held = All-contains (Held b) (old ∷ sectors_of k) j f.held old_has in
        let clash : ◌≡◌ {A = Bool} true false = sym held.1 ∙ free.1 in cc
  ]

  -- Files that were there before.
  kept-HasFile :
      (sector : ℕ) (h : FileHeader) → HasFile fs b sector h → HasFile fs' c.bitmap sector h
  kept-HasFile sector h f = record {
    on_disk = f.on_disk;
    fetched =
        FileHeader.Stored.fetch_from_lem fs'.disk sector f.on_disk
        ∙ ap (λ bytes. ok (FileHeader.of_bytes bytes)) same_sector
        ∙ sym (FileHeader.Stored.fetch_from_lem fs.disk sector f.on_disk)
        ∙ f.fetched;
    stored = f.stored;
    held =
        All-map (Held b) (Held c.bitmap) (sector ∷ sectors_of h)
          (λ j p. (omega (arith, p.0, c.taken.num_bits), ground (arith, c.taken.bits j, p.1)))
          f.held;
    distinct = f.distinct;
    not_map =
        subst (λ (g : OpenFile). Avoids g.hdr (sector ∷ sectors_of h)) (sym c.map_file) f.not_map;
    not_dir =
        subst (λ (g : OpenFile). Avoids g.hdr (sector ∷ sectors_of h)) (sym c.dir_file) f.not_dir;
  }
    where
      same_sector : fs'.disk sector ≡ fs.disk sector
      same_sector =
          c.others sector
            (λ e. absurd (ground (arith, f.held.0.1, c.taken.fresh.0.1, ap (is_marked b) e)))
            (λ i l e. absurd (ground (arith, f.not_map i l, e)))
            (λ i l e. absurd (ground (arith, f.not_dir i l, e)))

-- A Create that returned TRUE.
module _ (m : Memory) {fs fs' : FileSystem} {b : Bitmap} {d : Directory} (name : List ℕ) (size : ℕ)
    (r : Represents fs b d) (im : IsMemory m) (small : size < 2 ^ 32)
    (direct : div_round_up size sector_size ≤ num_direct)
    (made : create m fs name size ≡ ok (true, fs')) where
  created : Created fs fs' b d name size
  created = elim (create_lem m name size r im small direct) [
    | inl (e, _) ↦ absurd (refused≢made (sym e ∙ made))
    | inr (fs2, e, c) ↦ subst (λ x. Created fs x b d name size) (same_result (sym e ∙ made)) c
  ]
    where
      refused≢made : ◌≡◌ {A = Result (Bool × FileSystem)} (ok (false, fs)) (ok (true, fs')) → ⊥
      refused≢made e = cc

      same_result :
          {x : FileSystem}
          → ◌≡◌ {A = Result (Bool × FileSystem)} (ok (true, x)) (ok (true, fs'))
          → x ≡ fs'
      same_result e = cc

  -- Open of a name that was created finds a file of the size asked for, at its start.
  pub open_file-create :
      (file : OpenFile) × (open_file m fs' name ≡ ok (some file))
      × (file.hdr.num_bytes ≡ size)
      × (file.seek_position ≡ 0)
  open_file-create =
      let c = created in
      elim (open_file_lem m name c.represents im) [
        | inl (absent, _) ↦ absurd (some≢none (sym (created_name r c) ∙ absent))
        | inr (k, found, opens) ↦
            let same_sector : c.sector ≡ k = some_inj (sym (created_name r c) ∙ found) in
            (
              record { hdr = c.header; seek_position = 0 },
              opens c.header
                  (ap (FileHeader.fetch_from fs'.disk) (sym same_sector) ∙ c.header_stored),
              c.header_size,
              refl,
            )
      ]
    where
      some≢none : {k : ℕ} → ◌≡◌ {A = Option ℕ} (some k) none → ⊥
      some≢none e = cc

      some_inj : {j k : ℕ} → ◌≡◌ {A = Option ℕ} (some j) (some k) → j ≡ k
      some_inj e = cc

  -- Every file that was there before Create is there after it, with the same header in the same
  -- sector, and its header sector and its sectors are marked. So is the new file, and it shares no
  -- sector, of a header or of data, with a file that was there.
  pub create-HasFile :
      (b' : Bitmap) × (d' : Directory) × Represents fs' b' d'
      × ((sector : ℕ) (h : FileHeader) → HasFile fs b sector h → HasFile fs' b' sector h)
      × ((sector : ℕ) × (h : FileHeader) × (Directory.find d' name ≡ some sector)
          × (h.num_bytes ≡ size)
          × HasFile fs' b' sector h
          × ((old : ℕ) (k : FileHeader)
              → HasFile fs b old k
              → (j : ℕ) → contains (old ∷ sectors_of k) j ≡ true
              → contains (sector ∷ sectors_of h) j ≡ false))
  create-HasFile =
      let c = created in
      (
        c.bitmap,
        c.directory,
        c.represents,
        kept-HasFile r c,
        (
          c.sector,
          c.header,
          created_name r c,
          c.header_size,
          Created-HasFile r c,
          λ old k f j old_has. shared_none r c old k f j old_has,
        ),
      )

  -- Remove of a name that was created succeeds: each sector is marked exactly when it was before
  -- Create, and each name leads where it led.
  pub remove-create :
      (fs2 : FileSystem) × (b2 : Bitmap) × (d2 : Directory) × (remove m fs' name ≡ ok (true, fs2))
      × Represents fs2 b2 d2
      × ((j : ℕ) → is_marked b2 j ≡ is_marked b j)
      × ((n : List ℕ) → Directory.find d2 n ≡ Directory.find d n)
  remove-create =
      let c = created in
      let (fs2, e, x) =
        remove-Removed m name c.represents im (created_name r c) (Created-HasFile r c) in
      (
        fs2,
        x.bitmap,
        x.directory,
        e,
        x.represents,
        restored c.taken x.released,
        λ n. elim (Bool-cases (same name n)) [
          | inr other ↦ ground (arith, x.names n, c.names n, other)
          | inl alike ↦ ground (arith, x.names n, alike, c.was_absent, find_congr d name n alike)
        ],
      )
