-- ===== src/Filesys/Directory/Remove.antt =====
-- Remove against the map.
use nach_os.Base.{
  length, ℕ, suc, ◌+◌, ◌≡◌, refl, ap, ◌∙◌, true, false, List, [], ◌∷◌, none, some, if◌then◌else◌,
  All, arith, ◌⊎◌, inl, inr, Bool-cases,
}
use native.Mathlib.Nat.{zero-add}
use nach_os.Filesys.Directory.{
  DirectoryEntry, Directory, file_name_max_len, is_entry_of, find_index_from, find_index, find,
  release, remove,
}
use nach_os.Filesys.Directory.Names.{same_name_comm, same_name_congr}
use nach_os.Filesys.Directory.Stored.{IsStorable}
use nach_os.Filesys.Directory.Lookup.{
  same, lookup, clash, Unique, Sized, IsValid, find-lookup, lookup-none,
}

-- `table'` is `table` with the first entry of the name `m` no longer in use.
data Removed (m : List ℕ) : List DirectoryEntry → List DirectoryEntry → Type 0 where
  here :
      {e : DirectoryEntry} {table : List DirectoryEntry}
      → is_entry_of m e ≡ true
      → Removed m (e ∷ table) (record e { in_use = false } ∷ table)
  there :
      {e : DirectoryEntry} {table table' : List DirectoryEntry}
      → is_entry_of m e ≡ false
      → Removed m table table'
      → Removed m (e ∷ table) (e ∷ table')

release-Removed :
    (i : ℕ) (m : List ℕ) (table : List DirectoryEntry)
    → ((find_index_from i m table ≡ none) × (lookup m table ≡ none))
      ⊎ ((k : ℕ) × (find_index_from i m table ≡ some (i + k)) × Removed m table (release k table))
unfolding find_index_from lookup release
release-Removed i m [] = inl (refl, refl)
release-Removed i m (e ∷ table) = elim (Bool-cases (is_entry_of m e)) [
  | inl hit ↦ inr (0, rw hit (ap some (omega arith)), here hit)
  | inr miss ↦ elim (release-Removed (suc i) m table) [
    | inl (a, b) ↦ inl (rw miss a, rw miss b)
    | inr (k, a, r) ↦ inr (suc k, rw miss (a ∙ ap some (omega arith)), there miss r)
  ]
]

All-Removed :
    {m : List ℕ} {table table' : List DirectoryEntry} (e : DirectoryEntry)
    → Removed m table table'
    → All (λ f. clash e f ≡ false) table
    → All (λ f. clash e f ≡ false) table'
All-Removed e (here hit) h = (ground arith, h.1)
All-Removed e (there miss r) h = (h.0, All-Removed e r h.1)

All-clash-free :
    (e : DirectoryEntry) (table : List DirectoryEntry)
    → All (λ f. clash (record e { in_use = false }) f ≡ false) table
All-clash-free e [] = tt
All-clash-free e (f ∷ table) = (refl, All-clash-free e table)

Removed-Unique :
    {m : List ℕ} {table table' : List DirectoryEntry}
    → Removed m table table'
    → Unique table
    → Unique table'
Removed-Unique (here {e = e} {table = table} hit) u = (All-clash-free e table, u.1)
Removed-Unique (there {e = e} miss r) u = (All-Removed e r u.0, Removed-Unique r u.1)

Removed-Sized :
    {m : List ℕ} {table table' : List DirectoryEntry}
    → Removed m table table'
    → Sized table
    → Sized table'
Removed-Sized (here hit) s = s
Removed-Sized (there miss r) s = (s.0, Removed-Sized r s.1)

lookup-Removed :
    {m : List ℕ} {table table' : List DirectoryEntry} (n : List ℕ)
    → Removed m table table'
    → Unique table
    → lookup n table' ≡ (if same m n then none else lookup n table)
unfolding lookup
lookup-Removed {m} n (here {e = e} {table = table} hit) u =
    ground (arith, lookup-none e n table u.0, same_name_congr file_name_max_len e.name m n)
lookup-Removed {m} n (there {e = e} miss r) u = ground (
  arith,
  lookup-Removed n r u.1,
  same_name_congr file_name_max_len m n e.name,
  same_name_comm file_name_max_len e.name m,
  same_name_comm file_name_max_len e.name n,
)

length-Removed :
    {m : List ℕ} {table table' : List DirectoryEntry}
    → Removed m table table'
    → length table' ≡ length table
length-Removed (here hit) = refl
length-Removed (there miss r) = ap suc (length-Removed r)

Removed-IsStorable :
    {m : List ℕ} {table table' : List DirectoryEntry}
    → Removed m table table'
    → IsStorable table
    → IsStorable table'
Removed-IsStorable (here hit) h = h
Removed-IsStorable (there miss r) h = (h.0, Removed-IsStorable r h.1)

-- What a successful Remove does.
pub record Dropped (d : Directory) (m : List ℕ) (d' : Directory) : Type 0 where
  pub valid : IsValid d'
  pub count : length d'.table ≡ length d.table
  pub storable : IsStorable d.table → IsStorable d'.table
  pub names : (n : List ℕ) → find d' n ≡ (if same m n then none else find d n)

-- Remove of a well-formed directory fails, changing nothing, when the name is not there; else the
-- table stays well formed, the name is taken out of the map, and no other name changes.
pub remove_lem :
    (d : Directory) (m : List ℕ)
    → IsValid d
    → ((remove d m ≡ (false, d)) × (find d m ≡ none))
      ⊎ ((d' : Directory) × (remove d m ≡ (true, d')) × Dropped d m d')
unfolding remove find_index
remove_lem d m v = elim (release-Removed 0 m d.table) [
  | inl (a, b) ↦ inl (rw (a, remove), find-lookup d m ∙ b)
  | inr (k, a, r) ↦
      let d' : Directory = record { table = release k d.table } in
      inr (
        d',
        rw (a, remove) (rw (zero-add k)),
        record {
          valid = record { unique = Removed-Unique r v.unique; sized = Removed-Sized r v.sized };
          count = length-Removed r;
          storable = Removed-IsStorable r;
          names = λ n. rw (find-lookup d' n, find-lookup d n) (lookup-Removed n r v.unique);
        },
      )
]
