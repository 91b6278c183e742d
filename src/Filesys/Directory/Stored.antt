-- ===== src/Filesys/Directory/Stored.antt =====
-- A directory in its file: the bytes of a table, and FetchFrom and WriteBack.
use nach_os.Base.{
  ℕ, suc, ◌*◌, ◌^◌, ◌<◌, ◌-◌, ◌≢◌, ◌≡◌, refl, ap, ap₂, ◌∙◌, sym, subst, Bool, true, false, not,
  List, [], ◌∷◌, ◌++◌, ok, ◌==◌, none, length, All, take, drop, take-append, drop-append,
  length-append, arith, overwrite-all, tabulate, min, get_or,
}
use nach_os.Base.Bytes.{words_bytes, bytes_words-words_bytes}
use nach_os.Filesys.Disk.{Disk}
use nach_os.Filesys.OpenFile.{OpenFile}
use nach_os.Filesys.OpenFile.View.{sector_at, byte_at, IsFile, IsFormatted}
use nach_os.Filesys.OpenFile.Reading.{read_at_lem}
use nach_os.Filesys.OpenFile.WriteAt.{Written, Written-tabulate, write_at_lem}
use nach_os.Filesys.Directory.{
  DirectoryEntry, Directory, file_name_max_len, entry_size, entry_bytes, entry_of, to_bytes,
  of_bytes, flag_byte, new, find, fetch_from, write_back,
}
use nach_os.Filesys.Directory.Lookup.{Sized, Unique, clash, lookup, find-lookup}
use nach_os.Filesys.Directory.Lookup

-- A sector number fits its int.
abbrev pub IsStorable : List DirectoryEntry → Type 0
IsStorable = All λ e. (length e.name ≡ suc file_name_max_len) × (e.sector < 2 ^ 32)

length-entry_bytes :
    (e : DirectoryEntry)
    → length e.name ≡ suc file_name_max_len
    → length (entry_bytes e) ≡ entry_size
unfolding entry_bytes words_bytes
length-entry_bytes e h = omega (arith, length-append e.name (0 ∷ 0 ∷ []))

flag_of_byte : (b : Bool) → not (flag_byte b == 0) ≡ b
unfolding flag_byte
flag_of_byte true = refl
flag_of_byte false = refl

entry_of-entry_bytes :
    (e : DirectoryEntry)
    → length e.name ≡ suc file_name_max_len
    → e.sector < 2 ^ 32
    → entry_of (entry_bytes e) ≡ e
unfolding entry_of entry_bytes words_bytes flag_byte
entry_of-entry_bytes e h s = λ i. record {
  in_use = flag_of_byte e.in_use i;
  sector = get_or (bytes_words-words_bytes (e.sector ∷ []) (s, tt) i) 0 0;
  name = name_back i;
}
  where
    name_back : take (suc file_name_max_len) (e.name ++ 0 ∷ 0 ∷ []) ≡ e.name
    name_back = ap (λ n. take n (e.name ++ 0 ∷ 0 ∷ [])) (sym h) ∙ take-append e.name (0 ∷ 0 ∷ [])

pub length-to_bytes :
    (table : List DirectoryEntry)
    → Sized table
    → length (to_bytes table) ≡ length table * entry_size
unfolding to_bytes
length-to_bytes [] h = refl
length-to_bytes (e ∷ table) h = omega (
  arith,
  length-append (entry_bytes e) (to_bytes table),
  length-entry_bytes e h.0,
  length-to_bytes table h.1,
)

pub of_bytes-to_bytes :
    (table : List DirectoryEntry)
    → IsStorable table
    → of_bytes (length table) (to_bytes table) ≡ table
unfolding of_bytes to_bytes
of_bytes-to_bytes [] h = refl
of_bytes-to_bytes (e ∷ table) h =
    let l = length-entry_bytes e h.0.0 in
    ap₂ ◌∷◌
      (ap entry_of (
          ap (λ n. take n (entry_bytes e ++ to_bytes table)) (sym l)
          ∙ take-append (entry_bytes e) (to_bytes table))
        ∙ entry_of-entry_bytes e h.0.0 h.0.1)
      (ap (of_bytes (length table)) (
          ap (λ n. drop n (entry_bytes e ++ to_bytes table)) (sym l)
          ∙ drop-append (entry_bytes e) (to_bytes table))
        ∙ of_bytes-to_bytes table h.1)

pub Sized-of : (table : List DirectoryEntry) → IsStorable table → Sized table
Sized-of [] h = tt
Sized-of (e ∷ table) h = (h.0.0, Sized-of table h.1)

-- The entries of a file that holds the bytes of a table.
abbrev pub HoldsTable : Disk → OpenFile → List DirectoryEntry → Type 0
HoldsTable disk file table =
    tabulate (byte_at disk file.hdr) 0 (length table * entry_size) ≡ to_bytes table

-- FetchFrom, of a file that holds a table, gives that table, whatever the memory held.
pub fetch_from_lem :
    (disk : Disk) (file : OpenFile) (table : List DirectoryEntry) (d : Directory)
    → IsFile file.hdr
    → IsFormatted disk
    → IsStorable table
    → Sized d.table
    → length d.table ≡ length table
    → 0 < length table
    → file.hdr.num_bytes ≡ length table * entry_size
    → HoldsTable disk file table
    → fetch_from disk file d ≡ ok (record { table = table })
unfolding fetch_from
fetch_from_lem disk file table d v fm st sized l some_entries size holds =
    let whole : min (length table * entry_size) (file.hdr.num_bytes - 0)
        ≡ length table * entry_size =
      omega arith in
    rw (
      l,
      read_at_lem disk file (length table * entry_size) 0 v fm (omega arith) (omega arith)
          (omega (arith, v.covered, v.direct)),
      whole,
      holds,
      overwrite-all (to_bytes d.table) (to_bytes table) 0 (
          omega
            (arith, length-to_bytes d.table sized, length-to_bytes table (Sized-of table st), l)),
      of_bytes-to_bytes table st,
    )

-- WriteBack leaves the file holding the table, and every sector that is not the file's as it was.
pub write_back_lem :
    (garbage : ℕ → ℕ) (disk : Disk) (file : OpenFile) (d : Directory)
    → IsFile file.hdr
    → IsFormatted disk
    → Sized d.table
    → 0 < length d.table
    → file.hdr.num_bytes ≡ length d.table * entry_size
    → (disk' : Disk) × (write_back garbage disk file d ≡ ok disk')
      × IsFormatted disk'
      × HoldsTable disk' file d.table
      × ((s : ℕ)
          → ((i : ℕ) → i < file.hdr.num_sectors → sector_at file.hdr i ≢ s)
          → disk' s ≡ disk s)
unfolding write_back
write_back_lem garbage disk file d v fm sized some_entries size =
    let n = length d.table * entry_size in
    let l = length-to_bytes d.table sized in
    let whole : min n (file.hdr.num_bytes - 0) ≡ n = omega arith in
    let (disk', e, w) =
      write_at_lem garbage disk file (to_bytes d.table) n 0 v fm (omega arith) (omega arith)
        (omega (arith, v.covered, v.direct)) (omega (arith, l)) in
    let w' = subst (λ k. Written file.hdr (to_bytes d.table) k 0 disk disk') (whole ∙ sym l) w in
    (
      disk',
      rw e,
      w.formatted,
      ap (tabulate (byte_at disk' file.hdr) 0) (sym l)
          ∙ Written-tabulate disk disk' file.hdr (to_bytes d.table) 0 (omega (arith, l)) w',
      w.others,
    )

pub length-new : (memory : List DirectoryEntry) → length (new memory).table ≡ length memory
unfolding new
length-new [] = refl
length-new (e ∷ memory) = ap suc (length-new memory)

pub new-Sized : (memory : List DirectoryEntry) → Sized memory → Sized (new memory).table
unfolding new
new-Sized [] h = tt
new-Sized (e ∷ memory) h = (h.0, new-Sized memory h.1)

pub new-IsStorable :
    (memory : List DirectoryEntry) → IsStorable memory → IsStorable (new memory).table
unfolding new
new-IsStorable [] h = tt
new-IsStorable (e ∷ memory) h = (h.0, new-IsStorable memory h.1)

new-no_clash :
    (e : DirectoryEntry) (memory : List DirectoryEntry)
    → e.in_use ≡ false
    → All (λ f. clash e f ≡ false) (new memory).table
unfolding new
new-no_clash e [] h = tt
new-no_clash e (f ∷ memory) h = (ground arith, new-no_clash e memory h)

new-Unique : (memory : List DirectoryEntry) → Unique (new memory).table
unfolding new
new-Unique [] = tt
new-Unique (e ∷ memory) =
    (new-no_clash (record e { in_use = false }) memory refl, new-Unique memory)

lookup-new : (m : List ℕ) (memory : List DirectoryEntry) → lookup m (new memory).table ≡ none
unfolding new lookup
lookup-new m [] = refl
lookup-new m (e ∷ memory) = lookup-new m memory

-- A new directory is well formed and holds no name, whatever the memory held.
pub new_directory_lem :
    (memory : List DirectoryEntry)
    → IsStorable memory
    → Lookup.IsValid (new memory) × ((m : List ℕ) → find (new memory) m ≡ none)
new_directory_lem memory h = (
  record { unique = new-Unique memory; sized = new-Sized memory (Sized-of memory h) },
  λ m. find-lookup (new memory) m ∙ lookup-new m memory,
)
