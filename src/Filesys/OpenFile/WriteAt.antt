-- ===== src/Filesys/OpenFile/WriteAt.antt =====
-- WriteAt replaces the bytes at its positions and keeps every other byte of the disk's files.
use nach_os.Base.{
  ℕ, ◌+◌, ◌-◌, ◌*◌, ◌/◌, ◌%◌, ◌≤◌, ◌<◌, ◌≡◌, ◌^◌, ◌≢◌, ap, ◌∙◌, sym, not, ◌&&◌, List, ok, ◌>>=◌,
  leb, ltb, if◌then◌else◌, length, slice, overwrite, tabulate, get_or, arith, min, length-slice,
  length-tabulate, get_or-slice, le→leb, lt→ltb, subst, tabulate-get_or, get_or-overwrite_in,
  get_or-overwrite_below, get_or-overwrite_above,
}
use native.Mathlib.Decide.{dec_lt, dec_le}
use nach_os.Filesys.Disk.{Disk, sector_size}
use nach_os.Filesys.FileHeader.{FileHeader, file_length}
use nach_os.Filesys.OpenFile.{OpenFile, write_clipped, write_at, read_at}
use nach_os.Filesys.OpenFile.View.{sector_at, byte_at, IsFile, IsFormatted}
use nach_os.Filesys.OpenFile.Reading.{read_at_lem, clip-min, not-is_empty_request}
use nach_os.Filesys.OpenFile.Prepare.{
  first_of_request, last_of_request, first_aligned, last_needed, Prepared, reads-Prepared,
}
use nach_os.Filesys.OpenFile.Writing.{Stored, write_sectors_lem, read_into_lem}

-- What WriteAt makes of the disk.
pub record Written (h : FileHeader) (from : List ℕ) (n position : ℕ) (d d' : Disk) : Type 0 where
  pub formatted : IsFormatted d'
  pub bytes :
      (p : ℕ)
      → p < h.num_bytes
      → byte_at d' h p ≡ (
          if leb position p && ltb p (position + n)
          then get_or from (p - position) 0
          else byte_at d h p)
  pub others : (s : ℕ) → ((i : ℕ) → i < h.num_sectors → sector_at h i ≢ s) → d' s ≡ d s

abbrev wanted : Disk → FileHeader → List ℕ → ℕ → ℕ → ℕ → ℕ
wanted d h from n position p =
    if leb position p && ltb p (position + n) then get_or from (p - position) 0 else byte_at d h p

-- The buffer that is written back holds the bytes of the new contents.
module _ (d : Disk) (h : FileHeader) (from : List ℕ) (n position : ℕ) (buf : List ℕ)
    (some_bytes : 0 < n) (in_file : position + n ≤ h.num_bytes)
    (pr : Prepared d h n position buf) where
  abbrev copied : List ℕ
  copied = overwrite buf (position - position / sector_size * sector_size) (slice 0 from 0 n)

  copied_bytes :
      (j p : ℕ)
      → p ≡ position / sector_size * sector_size + j
      → p < h.num_bytes
      → p < (last_of_request position n + 1) * sector_size
      → get_or copied j 0 ≡ wanted d h from n position p
  copied_bytes j p e l q = elim (dec_lt p position) [
    | yes below ↦
        get_or-overwrite_below buf (position - position / sector_size * sector_size)
          (slice 0 from 0 n) j 0 (omega arith)
        ∙ pr.first j (omega arith)
        ∙ ap (byte_at d h) (sym e)
        ∙ ground arith
    | no not_below ↦ elim (dec_le (position + n) p) [
      | yes above ↦
          get_or-overwrite_above buf (position - position / sector_size * sector_size)
            (slice 0 from 0 n) j 0 (omega (arith, length-slice from 0 n 0))
          ∙ pr.last j (omega arith) (omega arith) (omega arith)
          ∙ ap (byte_at d h) (sym e)
          ∙ ground arith
      | no inside ↦
          get_or-overwrite_in buf (position - position / sector_size * sector_size)
            (slice 0 from 0 n) j 0 (omega (arith, length-slice from 0 n 0, pr.sized)) (omega arith)
            (omega (arith, length-slice from 0 n 0))
          ∙ get_or-slice from 0 n (j - (position - position / sector_size * sector_size)) 0
              (omega arith)
          ∙ ap (λ t. get_or from t 0)
              (let z : 0 + (j - (position - position / sector_size * sector_size)) ≡ p - position =
                  omega arith in
                z)
          ∙ ground arith
    ]
  ]

  Stored-bytes :
      {d' : Disk}
      → IsFile h
      → Stored
          (1 + last_of_request position n - first_of_request position)
          (first_of_request position)
          0
          copied
          h
          d
          d'
      → Written h from n position d d'
  Stored-bytes {d'} v st = record { formatted = st.formatted; bytes = bytes; others = others }
    where
      count : ℕ
      count = 1 + last_of_request position n - first_of_request position

      others : (s : ℕ) → ((i : ℕ) → i < h.num_sectors → sector_at h i ≢ s) → d' s ≡ d s
      others s ne = st.outside s λ j l. ne (position / sector_size + j) (omega (arith, v.covered))

      touched :
          (p : ℕ)
          → p < h.num_bytes
          → position / sector_size ≤ p / sector_size
          → p / sector_size ≤ last_of_request position n
          → byte_at d' h p ≡ wanted d h from n position p
      touched p l a b =
          let j = p / sector_size - position / sector_size in
          let e : position / sector_size + j ≡ p / sector_size = omega arith in
          ap (λ t. get_or (d' (sector_at h t)) (p % sector_size) 0) (sym e)
          ∙ ap (λ (t : List ℕ). get_or t (p % sector_size) 0) (st.inside j (omega arith))
          ∙ get_or-slice copied (0 + j * sector_size) sector_size (p % sector_size) 0 (omega arith)
          ∙ copied_bytes (0 + j * sector_size + p % sector_size) p (omega arith) l (omega arith)

      untouched :
          (p : ℕ)
          → p < h.num_bytes
          → ((j : ℕ)
              → j < 1 + last_of_request position n - position / sector_size
              → position / sector_size + j ≢ p / sector_size)
          → byte_at d' h p ≡ byte_at d h p
      untouched p l ne =
          ap (λ (t : List ℕ). get_or t (p % sector_size) 0)
            (st.outside (sector_at h (p / sector_size)) λ j b e. ne j b (
              v.distinct (position / sector_size + j) (p / sector_size) (omega (arith, v.covered))
                (omega (arith, v.covered)) e))

      bytes : (p : ℕ) → p < h.num_bytes → byte_at d' h p ≡ wanted d h from n position p
      bytes p l = elim (dec_lt (p / sector_size) (position / sector_size)) [
        | yes low ↦ untouched p l (λ j b e. omega arith) ∙ ground arith
        | no first_le ↦ elim (dec_lt (last_of_request position n) (p / sector_size)) [
          | yes high ↦ untouched p l (λ j b e. omega arith) ∙ ground arith
          | no le_last ↦ touched p l (omega arith) (omega arith)
        ]
      ]

read_then_write :
    (garbage : ℕ → ℕ) (d : Disk) (f : OpenFile) (from : List ℕ) (n position : ℕ)
    → IsFile f.hdr
    → IsFormatted d
    → 0 < n
    → position + n ≤ f.hdr.num_bytes
    → n ≤ length from
    → (d' : Disk) × (write_clipped garbage d f from n position ≡ ok (n, d'))
      × Written f.hdr from n position d d'
unfolding write_clipped
read_then_write garbage d f from n position v fm p q r =
    let h = f.hdr in
    let first = first_of_request position in
    let last = last_of_request position n in
    let count = 1 + last - first in
    let fresh = tabulate garbage 0 (count * sector_size) in
    let fresh_sized = length-tabulate garbage 0 (count * sector_size) in
    let (buf1, e1, r1) =
      read_into_lem (not (first_aligned position)) d f 0 (first * sector_size) fresh v fm
        (omega arith) (omega (arith, fresh_sized)) in
    let (buf2, e2, r2) =
      read_into_lem (last_needed position n) d f ((last - first) * sector_size) (last * sector_size)
        buf1 v fm (omega arith) (omega (arith, fresh_sized, r1.sized)) in
    let pr = reads-Prepared d h n position buf2 p q r1 r2 fresh_sized in
    let (d', e3, st) =
      write_sectors_lem count first 0 (copied d h from n position buf2 p q pr) d h v fm
        (omega (arith, v.covered)) in
    (
      d',
      rw (e1, e2, le→leb n (length from) r, e3),
      Stored-bytes d h from n position buf2 p q pr v st,
    )

-- A request that is not empty, starts in the file and does not end beyond the range of an int, of a
-- buffer that holds its bytes, writes them at its positions, up to
-- the end of the file. Every other byte of the file stays, and so does every sector that is not the
-- file's, whatever the fresh buffer held.
pub write_at_lem :
    (garbage : ℕ → ℕ) (d : Disk) (f : OpenFile) (from : List ℕ) (num_bytes position : ℕ)
    → IsFile f.hdr
    → IsFormatted d
    → 0 < num_bytes
    → position < f.hdr.num_bytes
    → position + num_bytes < 2 ^ 31
    → num_bytes ≤ length from
    → (d' : Disk) × (write_at garbage d f from num_bytes position
        ≡ ok (min num_bytes (f.hdr.num_bytes - position), d'))
      × Written f.hdr from (min num_bytes (f.hdr.num_bytes - position)) position d d'
unfolding write_at file_length
write_at_lem garbage d f from num_bytes position v fm p q small r =
    rw
      (
        not-is_empty_request f.hdr.num_bytes num_bytes position p q,
        clip-min f.hdr.num_bytes num_bytes position q small,
      )
      (read_then_write garbage d f from (min num_bytes (f.hdr.num_bytes - position)) position v fm
        (omega arith) (omega arith) (omega arith))

pub Written-tabulate :
    (d d' : Disk) (h : FileHeader) (from : List ℕ) (position : ℕ)
    → position + length from ≤ h.num_bytes
    → Written h from (length from) position d d'
    → tabulate (byte_at d' h) position (length from) ≡ from
Written-tabulate d d' h from position q w = tabulate-get_or (byte_at d' h) from position 0 λ k l.
    w.bytes (position + k) (omega arith)
    ∙ rw
        (
          le→leb position (position + k) (omega arith),
          lt→ltb (position + k) (position + length from) (omega arith),
        )
        (ap (λ t. get_or from t 0) (omega arith))

-- Reading back what was written returns it.
pub read_at-write_at :
    (garbage : ℕ → ℕ) (d : Disk) (f : OpenFile) (from : List ℕ) (position : ℕ)
    → IsFile f.hdr
    → IsFormatted d
    → 0 < length from
    → position + length from ≤ f.hdr.num_bytes
    → (write_at garbage d f from (length from) position >>= λ (n, d').
        read_at d' f (length from) position)
      ≡ ok (length from, from)
read_at-write_at garbage d f from position v fm p q =
    let small : position + length from < 2 ^ 31 = omega (arith, v.covered, v.direct) in
    let (d', e, w) =
      write_at_lem garbage d f from (length from) position v fm p (omega arith) small
        (omega arith) in
    let all : min (length from) (f.hdr.num_bytes - position) ≡ length from = omega arith in
    rw (e, read_at_lem d' f (length from) position v w.formatted p (omega arith) small, all)
      (ap (λ (bytes : List ℕ). ok (length from, bytes))
        (Written-tabulate d d' f.hdr from position q
          (subst (λ n. Written f.hdr from n position d d') all w)))
