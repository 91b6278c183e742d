-- ===== src/Filesys/Directory/Lookup.antt =====
-- A directory as a map from names to header sectors, and each operation against it.
use nach_os.Base.{
  sym, ℕ, suc, ◌+◌, ◌≡◌, refl, ap, ◌∙◌, Bool, true, false, ◌&&◌, List, [], ◌∷◌, Option, none, some,
  if◌then◌else◌, get_elem?, length, All, arith, ◌⊎◌, inl, inr, Bool-cases,
}
use mathlib.Core.Option
use native.Mathlib.Nat.{zero-add}
use nach_os.Filesys.Directory.{
  DirectoryEntry, Directory, file_name_max_len, same_name, is_entry_of, find_index_from, find_index,
  find,
}
use nach_os.Filesys.Directory.Names.{same_name_comm, same_name_congr}

abbrev pub same : List ℕ → List ℕ → Bool
same = same_name file_name_max_len

-- The map: the sector of the first entry in use that has the name.
unfoldable pub lookup : List ℕ → List DirectoryEntry → Option ℕ
lookup m [] = none
lookup m (e ∷ table) = if is_entry_of m e then some e.sector else lookup m table

-- Two entries in use with one name.
abbrev pub clash : DirectoryEntry → DirectoryEntry → Bool
clash e f = e.in_use && (f.in_use && same e.name f.name)

abbrev pub Unique : List DirectoryEntry → Type 0
Unique [] = Unit {0}
Unique (e ∷ table) = All (λ f. clash e f ≡ false) table × Unique table

abbrev pub Sized : List DirectoryEntry → Type 0
Sized = All (λ e. length e.name ≡ suc file_name_max_len)

pub record IsValid (d : Directory) : Type 0 where
  pub unique : Unique d.table
  pub sized : Sized d.table

-- Find reads the map.
pub find_from-lookup :
    (i : ℕ) (m : List ℕ) (table : List DirectoryEntry)
    → ((find_index_from i m table ≡ none) × (lookup m table ≡ none))
      ⊎ ((k : ℕ) × (e : DirectoryEntry) × (find_index_from i m table ≡ some (i + k))
          × (get_elem? table k ≡ some e)
          × (lookup m table ≡ some e.sector))
unfolding find_index_from lookup
find_from-lookup i m [] = inl (refl, refl)
find_from-lookup i m (e ∷ table) = elim (Bool-cases (is_entry_of m e)) [
  | inl hit ↦ inr (0, e, rw hit (ap some (omega arith)), refl, rw hit)
  | inr miss ↦ elim (find_from-lookup (suc i) m table) [
    | inl (a, b) ↦ inl (rw miss a, rw miss b)
    | inr (k, f, a, b, c) ↦ inr (suc k, f, rw miss (a ∙ ap some (omega arith)), b, rw miss c)
  ]
]

pub find-lookup : (d : Directory) (m : List ℕ) → find d m ≡ lookup m d.table
unfolding find find_index Option.bind
find-lookup d m = elim (find_from-lookup 0 m d.table) [
  | inl (a, b) ↦ rw (a, b)
  | inr (k, e, a, b, c) ↦ rw (a, c, zero-add k, b)
]

-- An entry that clashes with none further down is the only one of its name.
pub lookup-none :
    (e : DirectoryEntry) (m : List ℕ) (table : List DirectoryEntry)
    → All (λ f. clash e f ≡ false) table
    → e.in_use ≡ true
    → same e.name m ≡ true
    → lookup m table ≡ none
unfolding lookup
lookup-none e m [] h u s = refl
lookup-none e m (f ∷ table) h u s = ground (
  arith,
  h.0,
  lookup-none e m table h.1 u s,
  same_name_congr file_name_max_len e.name m f.name s,
  same_name_comm file_name_max_len f.name m,
)

-- Names that compare equal lead to the same sector.
lookup_congr :
    (m n : List ℕ) (table : List DirectoryEntry) → same m n ≡ true → lookup m table ≡ lookup n table
unfolding lookup
lookup_congr m n [] h = refl
lookup_congr m n (e ∷ table) h = ground (
  arith,
  same_name_comm file_name_max_len e.name m,
  same_name_comm file_name_max_len e.name n,
  same_name_congr file_name_max_len m n e.name h,
  lookup_congr m n table h,
)

pub find_congr : (d : Directory) (m n : List ℕ) → same m n ≡ true → find d m ≡ find d n
find_congr d m n h = find-lookup d m ∙ lookup_congr m n d.table h ∙ sym (find-lookup d n)
