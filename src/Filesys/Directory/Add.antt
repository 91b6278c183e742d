-- ===== src/Filesys/Directory/Add.antt =====
-- Add against the map.
use Prim.Native.Nat.{◌<◌, ◌^◌}
use nach_os.Base.{
  ℕ, zero, suc, ◌≡◌, refl, ap, ◌∙◌, true, false, List, [], ◌∷◌, none, some, if◌then◌else◌, All,
  length, arith, ◌⊎◌, inl, inr, Bool-cases, ◌==◌,
}
use nach_os.Filesys.Directory.{
  DirectoryEntry, Directory, file_name_max_len, strncpy, find_index, find, fill_free, add,
}
use nach_os.Filesys.Directory.Names.{same_name_comm, same_name_congr, same_name-strncpy}
use nach_os.Filesys.Directory.Stored.{IsStorable}
use nach_os.Filesys.Directory.Lookup.{
  same, lookup, clash, Unique, Sized, IsValid, find-lookup, find_from-lookup,
}

abbrev filled : DirectoryEntry → List ℕ → ℕ → DirectoryEntry
filled e m s = record e { in_use = true; sector = s; name = strncpy file_name_max_len m e.name }

-- `table'` is `table` with the first free entry given to the name `m`.
data Filled (m : List ℕ) (s : ℕ) : List DirectoryEntry → List DirectoryEntry → Type 0 where
  here :
      {e : DirectoryEntry} {table : List DirectoryEntry}
      → e.in_use ≡ false
      → Filled m s (e ∷ table) (filled e m s ∷ table)
  there :
      {e : DirectoryEntry} {table table' : List DirectoryEntry}
      → e.in_use ≡ true
      → Filled m s table table'
      → Filled m s (e ∷ table) (e ∷ table')

abbrev pub IsFull : List DirectoryEntry → Type 0
IsFull = All (λ e. e.in_use ≡ true)

fill_free-Filled :
    (m : List ℕ) (s : ℕ) (table : List DirectoryEntry)
    → ((fill_free m s table ≡ none) × IsFull table)
      ⊎ ((table' : List DirectoryEntry) × (fill_free m s table ≡ some table')
          × Filled m s table table')
unfolding fill_free
fill_free-Filled m s [] = inl (refl, tt)
fill_free-Filled m s (e ∷ table) = elim (Bool-cases e.in_use) [
  | inr free ↦ inr (filled e m s ∷ table, rw free, here free)
  | inl used ↦ elim (fill_free-Filled m s table) [
    | inl (a, f) ↦ inl (rw (used, a), (used, f))
    | inr (table', a, f) ↦ inr (e ∷ table', rw (used, a), there used f)
  ]
]

length-strncpy : (n : ℕ) (m target : List ℕ) → length (strncpy n m target) ≡ length target
unfolding strncpy
length-strncpy zero m target = refl
length-strncpy (suc n) m [] = refl
length-strncpy (suc n) [] (b ∷ target) = ap suc (length-strncpy n [] target)
length-strncpy (suc n) (x ∷ m) (b ∷ target) =
    ap suc (length-strncpy n (if x == 0 then [] else m) target)

Filled-Sized :
    {m : List ℕ} {s : ℕ} {table table' : List DirectoryEntry}
    → Filled m s table table'
    → Sized table
    → Sized table'
Filled-Sized {m} (here {e = e} free) h = (length-strncpy file_name_max_len m e.name ∙ h.0, h.1)
Filled-Sized (there used f) h = (h.0, Filled-Sized f h.1)

-- the new entry's name compares as `m`
same-filled :
    (e : DirectoryEntry) (m : List ℕ) (s : ℕ) (n : List ℕ)
    → length e.name ≡ suc file_name_max_len
    → same (filled e m s).name n ≡ same m n
same-filled e m s n h = same_name-strncpy file_name_max_len m e.name n (omega arith)

-- With no entry of the name `m`, no entry clashes with the new one.
clash-filled :
    (e : DirectoryEntry) (m : List ℕ) (s : ℕ) (table : List DirectoryEntry)
    → length e.name ≡ suc file_name_max_len
    → lookup m table ≡ none
    → All (λ f. clash (filled e m s) f ≡ false) table
unfolding lookup
clash-filled e m s [] h l = tt
clash-filled e m s (f ∷ table) h l = (
  ground (arith, same-filled e m s f.name h, same_name_comm file_name_max_len m f.name),
  clash-filled e m s table h (ground arith),
)

clash-Filled :
    {m : List ℕ} {s : ℕ} {table table' : List DirectoryEntry} (e : DirectoryEntry)
    → Filled m s table table'
    → Sized table
    → same m e.name ≡ false
    → All (λ f. clash e f ≡ false) table
    → All (λ f. clash e f ≡ false) table'
clash-Filled {m} {s} e (here {e = f} free) h d a = (
  ground (
    arith,
    same-filled f m s e.name h.0,
    same_name_comm file_name_max_len e.name (filled f m s).name,
  ),
  a.1,
)
clash-Filled e (there used f) h d a = (a.0, clash-Filled e f h.1 d a.1)

Filled-Unique :
    {m : List ℕ} {s : ℕ} {table table' : List DirectoryEntry}
    → Filled m s table table'
    → Sized table
    → lookup m table ≡ none
    → Unique table
    → Unique table'
unfolding lookup
Filled-Unique {m} {s} (here {e = e} {table = table} free) h l u =
    (clash-filled e m s table h.0 (ground arith), u.1)
Filled-Unique {m} (there {e = e} used f) h l u = (
  clash-Filled e f h.1 (ground (arith, same_name_comm file_name_max_len m e.name)) u.0,
  Filled-Unique f h.1 (ground arith) u.1,
)

lookup-Filled :
    {m : List ℕ} {s : ℕ} {table table' : List DirectoryEntry} (n : List ℕ)
    → Filled m s table table'
    → Sized table
    → lookup m table ≡ none
    → lookup n table' ≡ (if same m n then some s else lookup n table)
unfolding lookup
lookup-Filled {m} {s} n (here {e = e} free) h l = ground (arith, same-filled e m s n h.0)
lookup-Filled {m} n (there {e = e} used f) h l = ground (
  arith,
  lookup-Filled n f h.1,
  same_name_congr file_name_max_len m n e.name,
  same_name_comm file_name_max_len e.name m,
  same_name_comm file_name_max_len e.name n,
)

length-Filled :
    {m : List ℕ} {s : ℕ} {table table' : List DirectoryEntry}
    → Filled m s table table'
    → length table' ≡ length table
length-Filled (here free) = refl
length-Filled (there used f) = ap suc (length-Filled f)

Filled-IsStorable :
    {m : List ℕ} {s : ℕ} {table table' : List DirectoryEntry}
    → Filled m s table table'
    → s < 2 ^ 32
    → IsStorable table
    → IsStorable table'
Filled-IsStorable {m} (here {e = e} free) l h =
    ((length-strncpy file_name_max_len m e.name ∙ h.0.0, l), h.1)
Filled-IsStorable (there used f) l h = (h.0, Filled-IsStorable f l h.1)

-- What a successful Add does.
pub record Added (d : Directory) (m : List ℕ) (s : ℕ) (d' : Directory) : Type 0 where
  pub valid : IsValid d'
  pub count : length d'.table ≡ length d.table
  pub storable : s < 2 ^ 32 → IsStorable d.table → IsStorable d'.table
  pub names : (n : List ℕ) → find d' n ≡ (if same m n then some s else find d n)

-- Add fails, changing nothing, when the name is there or every entry is in use; else the name was
-- not there, the table stays well formed, the name is mapped to the sector, and no other name
-- changes.
pub add_lem :
    (d : Directory) (m : List ℕ) (s : ℕ)
    → IsValid d
    → ((add d m s ≡ (false, d)) × (((k : ℕ) × (find d m ≡ some k)) ⊎ IsFull d.table))
      ⊎ ((d' : Directory) × (add d m s ≡ (true, d')) × (find d m ≡ none) × Added d m s d')
unfolding add find_index
add_lem d m s v = elim (find_from-lookup 0 m d.table) [
  | inr (k, e, a, b, c) ↦ inl (rw (a, add), inl (e.sector, find-lookup d m ∙ c))
  | inl (a, b) ↦ elim (fill_free-Filled m s d.table) [
    | inl (c, full) ↦ inl (rw (a, add, c), inr full)
    | inr (table', c, f) ↦
        let d' : Directory = record { table = table' } in
        inr (
          d',
          rw (a, add, c),
          find-lookup d m ∙ b,
          record {
            valid = record {
              unique = Filled-Unique f v.sized b v.unique;
              sized = Filled-Sized f v.sized;
            };
            count = length-Filled f;
            storable = Filled-IsStorable f;
            names = λ n. rw (find-lookup d' n, find-lookup d n) (lookup-Filled n f v.sized b);
          },
        )
  ]
]
