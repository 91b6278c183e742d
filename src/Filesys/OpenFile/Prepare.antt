-- ===== src/Filesys/OpenFile/Prepare.antt =====
-- The buffer of WriteAt once the partial sectors are read: it holds the bytes that stay.
use nach_os.Base.{
  ℕ, ◌+◌, ◌-◌, ◌*◌, ◌/◌, ◌≤◌, ◌<◌, ◌≡◌, ap, ◌∙◌, Bool, not, ◌&&◌, ◌||◌, List, ◌==◌, length, get_or,
  arith, inl, inr, Bool-cases,
}
use nach_os.Filesys.Disk.{Disk, sector_size}
use nach_os.Filesys.FileHeader.{FileHeader}
use nach_os.Filesys.OpenFile.View.{byte_at}
use nach_os.Filesys.OpenFile.Writing.{ReadInto}

-- The first and last sector of a request.
abbrev pub first_of_request : ℕ → ℕ
first_of_request position = position / sector_size

abbrev pub last_of_request : ℕ → ℕ → ℕ
last_of_request position n = (position + n - 1) / sector_size

abbrev pub first_aligned : ℕ → Bool
first_aligned position = position == first_of_request position * sector_size

abbrev pub last_needed : ℕ → ℕ → Bool
last_needed position n =
    not (position + n == (last_of_request position n + 1) * sector_size)
    && (not (first_of_request position == last_of_request position n) || first_aligned position)

-- The buffer holds every byte of its sectors that the request does not replace.
pub record Prepared (d : Disk) (h : FileHeader) (n position : ℕ) (buf : List ℕ) : Type 0 where
  pub sized :
      length buf ≡ (1 + last_of_request position n - first_of_request position) * sector_size
  pub first :
      (j : ℕ)
      → first_of_request position * sector_size + j < position
      → get_or buf j 0 ≡ byte_at d h (first_of_request position * sector_size + j)
  pub last :
      (j : ℕ)
      → position + n ≤ first_of_request position * sector_size + j
      → first_of_request position * sector_size + j < h.num_bytes
      → first_of_request position * sector_size + j < (last_of_request position n + 1) * sector_size
      → get_or buf j 0 ≡ byte_at d h (first_of_request position * sector_size + j)

-- Where the file keeps a byte that the request does not replace, the buffer holds it before the
-- request's bytes are copied in.
module _ (d : Disk) (h : FileHeader) (n position : ℕ) {buf buf1 : List ℕ} (buf2 : List ℕ)
    (some_bytes : 0 < n) (in_file : position + n ≤ h.num_bytes)
    (r1 : ReadInto
      (not (first_aligned position))
      d
      h
      0
      (first_of_request position * sector_size)
      buf
      buf1)
    (r2 : ReadInto
      (last_needed position n)
      d
      h
      ((last_of_request position n - first_of_request position) * sector_size)
      (last_of_request position n * sector_size)
      buf1
      buf2) where
  abbrev base : ℕ
  base = first_of_request position * sector_size

  keeps_first : (j : ℕ) → base + j < position → get_or buf2 j 0 ≡ byte_at d h (base + j)
  keeps_first j p = elim (Bool-cases (last_needed position n)) [
    | inl needed ↦ r2.below j (ground arith) ∙ read_first
    | inr unneeded ↦ rw (r2.unneeded unneeded) read_first
  ]
    where
      read_first : get_or buf1 j 0 ≡ byte_at d h (base + j)
      read_first =
          r1.inside (ground arith) j (omega arith) (omega arith) (omega arith)
          ∙ ap (byte_at d h) (let z : base + (j - 0) ≡ base + j = omega arith in z)

  keeps_last :
      (j : ℕ)
      → position + n ≤ base + j
      → base + j < h.num_bytes
      → base + j < (last_of_request position n + 1) * sector_size
      → get_or buf2 j 0 ≡ byte_at d h (base + j)
  keeps_last j p q r = elim (Bool-cases (last_needed position n)) [
    | inl needed ↦
        r2.inside needed j (omega arith) (omega arith) (omega arith)
        ∙ ap (byte_at d h) (omega arith)
    | inr unneeded ↦ rw (r2.unneeded unneeded) (
        r1.inside (ground arith) j (omega arith) (ground arith) (omega arith)
        ∙ ap (byte_at d h) (let z : base + (j - 0) ≡ base + j = omega arith in z))
  ]

  pub reads-Prepared :
      length buf ≡ (1 + last_of_request position n - first_of_request position) * sector_size
      → Prepared d h n position buf2
  reads-Prepared sized = record {
    sized = r2.sized ∙ r1.sized ∙ sized;
    first = keeps_first;
    last = keeps_last;
  }
