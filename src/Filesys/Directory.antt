-- ===== src/Filesys/Directory.antt =====
-- filesys/directory.h and directory.cc: a table of names and header sectors. `table_size` is the
-- length of the table, and a loop over the table is a recursion on it. A C string is the list of
-- its characters, with no terminator; a `name` field is the array's ten bytes.
pub mod Names
pub mod Lookup
pub mod Add
pub mod Remove
pub mod Stored
mod Tests
use nach_os.Base.{
  ℕ, zero, suc, Bool, true, false, not, List, [], ◌∷◌, ◌++◌, map, Option, none, some, Result, ok,
  abort, fault, ◌>>=◌, ◌==◌, ◌&&◌, if◌then◌else◌, get_elem?, length, ◌+◌, ◌*◌, take, drop, get_or,
  overwrite,
}
use mathlib.Core.Option
use nach_os.Base.Bytes.{words_bytes, bytes_words}
use nach_os.Filesys.Disk.{Disk}
use nach_os.Filesys.OpenFile.{OpenFile}
use nach_os.Filesys.OpenFile

-- FileNameMaxLen
abbrev pub file_name_max_len : ℕ
file_name_max_len = 9

pub record DirectoryEntry : Type 0 where
  pub in_use : Bool
  pub sector : ℕ
  pub name : List ℕ

pub record Directory : Type 0 where
  pub table : List DirectoryEntry

-- `!strncmp(s, t, n)`, of the C library: the end of a list is the terminator.
unfoldable pub same_name : ℕ → List ℕ → List ℕ → Bool
same_name zero s t = true
same_name (suc n) [] [] = true
same_name (suc n) [] (y ∷ t) = y == 0
same_name (suc n) (x ∷ s) [] = x == 0
same_name (suc n) (x ∷ s) (y ∷ t) =
    let rest = same_name n s t in if x == y then (if x == 0 then true else rest) else false

-- `strncpy(target, s, n)`, of the C library: exactly `n` bytes are written, filled up with zeros.
pub strncpy : ℕ → List ℕ → List ℕ → List ℕ
strncpy zero s target = target
strncpy (suc n) s [] = []
strncpy (suc n) [] (b ∷ target) = 0 ∷ strncpy n [] target
strncpy (suc n) (x ∷ s) (b ∷ target) = x ∷ strncpy n (if x == 0 then [] else s) target

abbrev retire : DirectoryEntry → DirectoryEntry
retire e = record e { in_use = false }

-- The constructor: the entries are what the allocation holds, marked as not in use.
pub new : List DirectoryEntry → Directory
new memory = record { table = map retire memory }

abbrev pub is_entry_of : List ℕ → DirectoryEntry → Bool
is_entry_of name e = e.in_use && same_name file_name_max_len e.name name

pub find_index_from : ℕ → List ℕ → List DirectoryEntry → Option ℕ
find_index_from i name [] = none
find_index_from i name (e ∷ table) =
    let rest = find_index_from (suc i) name table in if is_entry_of name e then some i else rest

-- FindIndex; `none` is its -1.
pub find_index : Directory → List ℕ → Option ℕ
find_index d name = find_index_from 0 name d.table

pub find : Directory → List ℕ → Option ℕ
find d name = Option.bind (find_index d name) λ i. Option.map (λ e. e.sector) (get_elem? d.table i)

-- The loop of Add: the first entry that is not in use is filled.
pub fill_free : List ℕ → ℕ → List DirectoryEntry → Option (List DirectoryEntry)
fill_free name new_sector [] = none
fill_free name new_sector (e ∷ table) =
    let rest = Option.map (◌∷◌ e) (fill_free name new_sector table) in
    let filled = record e {
      in_use = true;
      sector = new_sector;
      name = strncpy file_name_max_len name e.name;
    } in
    if e.in_use then rest else some (filled ∷ table)

pub add : Directory → List ℕ → ℕ → Bool × Directory
add d name new_sector = elim (find_index d name) [
  | some i ↦ (false, d)
  | none ↦ elim (fill_free name new_sector d.table) [
    | none ↦ (false, d)
    | some table ↦ (true, record { table = table })
  ]
]

-- `table[i].inUse = FALSE`
pub release : ℕ → List DirectoryEntry → List DirectoryEntry
release i [] = []
release zero (e ∷ table) = record e { in_use = false } ∷ table
release (suc i) (e ∷ table) = e ∷ release i table

pub remove : Directory → List ℕ → Bool × Directory
remove d name = elim (find_index d name) [
  | none ↦ (false, d)
  | some i ↦ (true, record { table = release i d.table })
]

-- `printf("%s")` of an array: its bytes up to a zero; with none it reads past the end.
pub c_string : List ℕ → Result (List ℕ)
c_string [] = fault
c_string (x ∷ s) = let rest = c_string s >>= λ t. ok (x ∷ t) in if x == 0 then ok [] else rest

-- List: what is printed, a name for each entry in use.
pub list_from : List DirectoryEntry → Result (List (List ℕ))
list_from [] = ok []
list_from (e ∷ table) =
    let rest = list_from table in
    let printed = c_string e.name >>= λ s. rest >>= λ names. ok (s ∷ names) in
    if e.in_use then printed else rest

pub list : Directory → Result (List (List ℕ))
list d = list_from d.table

-- A DirectoryEntry as the compiler lays it out: a bool, three bytes of padding, an int, the ten
-- characters, and two bytes of padding. Padding is taken to be zero.
abbrev pub entry_size : ℕ
entry_size = 20

unfoldable pub flag_byte : Bool → ℕ
flag_byte true = 1
flag_byte false = 0

unfoldable pub entry_bytes : DirectoryEntry → List ℕ
unfolding flag_byte
entry_bytes e =
    flag_byte e.in_use ∷ 0 ∷ 0 ∷ 0 ∷ (words_bytes (e.sector ∷ []) ++ e.name ++ 0 ∷ 0 ∷ [])

pub entry_of : List ℕ → DirectoryEntry
entry_of bytes = record {
  in_use = not (get_or bytes 0 0 == 0);
  sector = get_or (bytes_words (take 4 (drop 4 bytes))) 0 0;
  name = take (suc file_name_max_len) (drop 8 bytes);
}

unfoldable pub to_bytes : List DirectoryEntry → List ℕ
unfolding entry_bytes
to_bytes [] = []
to_bytes (e ∷ table) = entry_bytes e ++ to_bytes table

-- The table of `n` entries that the bytes are.
pub of_bytes : ℕ → List ℕ → List DirectoryEntry
unfolding entry_of
of_bytes zero bytes = []
of_bytes (suc n) bytes = entry_of (take entry_size bytes) ∷ of_bytes n (drop entry_size bytes)

-- FetchFrom: what is read replaces that much of the table.
pub fetch_from : Disk → OpenFile → Directory → Result Directory
fetch_from disk file d = do
  (_, bytes) ← OpenFile.read_at disk file (length d.table * entry_size) 0
  ok (record { table = of_bytes (length d.table) (overwrite (to_bytes d.table) 0 bytes) })

pub write_back : (ℕ → ℕ) → Disk → OpenFile → Directory → Result Disk
write_back garbage disk file d = do
  (_, disk') ←
      OpenFile.write_at garbage disk file (to_bytes d.table) (length d.table * entry_size) 0
  ok disk'
