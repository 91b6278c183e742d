-- ===== src/Filesys/Directory/Tests.antt =====
-- Runs of Directory, and its theorems at a directory of three entries.
use nach_os.Base.{
  ℕ, zero, suc, ◌<◌, ◌≡◌, refl, true, false, List, [], ◌∷◌, ◌++◌, none, some, ok, fault, arith,
  replicate, ◌⊎◌, get_or,
}
use mathlib.Core.Option
use nach_os.Base.Bytes.{words_bytes}
use nach_os.Filesys.Disk.{Disk}
use nach_os.Filesys.OpenFile.{OpenFile}
use nach_os.Filesys.OpenFile.View.{IsFile, IsFormatted}
use nach_os.Filesys.Directory.{
  DirectoryEntry, Directory, same_name, strncpy, find_index_from, find_index, find, fill_free, add,
  remove, c_string, list_from, list, fetch_from, to_bytes, new,
}
use nach_os.Filesys.Directory.Lookup.{IsValid, same}
use nach_os.Filesys.Directory.Add.{add_lem, Added, IsFull}
use nach_os.Filesys.Directory.Remove.{remove_lem, Dropped}
use nach_os.Filesys.Directory.Stored.{fetch_from_lem, new_directory_lem}

abbrev unused : DirectoryEntry
unused = record { in_use = false; sector = 0; name = replicate 10 0 }

-- "cat", in the second entry.
abbrev cat : DirectoryEntry
cat = record { in_use = true; sector = 5; name = 99 ∷ 97 ∷ 116 ∷ replicate 7 0 }

abbrev small : Directory
small = record { table = unused ∷ cat ∷ unused ∷ [] }

abbrev cat_name : List ℕ
cat_name = 99 ∷ 97 ∷ 116 ∷ []

small-IsValid : IsValid small
unfolding same_name
small-IsValid = record {
  unique = ((refl, (refl, tt)), ((refl, tt), (tt, tt)));
  sized = (refl, (refl, (refl, tt)));
}

finds_cat : (find small cat_name ≡ some 5) × (find small (97 ∷ []) ≡ none)
unfolding find find_index find_index_from same_name Option.bind
finds_cat = (refl, refl)

-- A name of nine characters, and one that agrees with it on those nine, are the same name.
nine_characters : same (replicate 9 97) (replicate 12 97) ≡ true
unfolding same_name
nine_characters = refl

-- Printing an entry whose ten bytes hold no zero reads past the array: strncpy writes nine bytes,
-- and the tenth is what the memory held.
unterminated :
    list
      (add (record { table = record unused { name = replicate 10 7 } ∷ [] }) (replicate 9 97) 3).1
    ≡ fault
unfolding list list_from c_string add find_index find_index_from fill_free strncpy
unterminated = refl

add_lem_example :
    ((add small (97 ∷ []) 9 ≡ (false, small))
      × (((k : ℕ) × (find small (97 ∷ []) ≡ some k)) ⊎ IsFull small.table))
    ⊎ ((d : Directory) × (add small (97 ∷ []) 9 ≡ (true, d))
        × (find small (97 ∷ []) ≡ none)
        × Added small (97 ∷ []) 9 d)
add_lem_example = add_lem small (97 ∷ []) 9 small-IsValid

remove_lem_example :
    ((remove small cat_name ≡ (false, small)) × (find small cat_name ≡ none))
    ⊎ ((d : Directory) × (remove small cat_name ≡ (true, d)) × Dropped small cat_name d)
remove_lem_example = remove_lem small cat_name small-IsValid

-- A disk whose every sector starts with the three entries, and a file of them in sector 9.
abbrev directory_disk : Disk
directory_disk s = to_bytes small.table ++ replicate 68 0

directory_disk-IsFormatted : IsFormatted directory_disk
unfolding to_bytes words_bytes
directory_disk-IsFormatted s = refl

abbrev directory_file : OpenFile
directory_file = record {
  hdr = record { num_bytes = 60; num_sectors = 1; data_sectors = 9 ∷ replicate 29 0 };
  seek_position = 0;
}

directory_file-IsFile : IsFile directory_file.hdr
directory_file-IsFile = record {
  covered = omega arith;
  stored = omega arith;
  direct = omega arith;
  on_disk = first_on_disk;
  distinct = λ i j p q e. omega arith;
}
  where
    first_on_disk : (i : ℕ) → i < 1 → get_or (9 ∷ replicate 29 0) i 0 < 1024
    first_on_disk zero l = omega arith
    first_on_disk (suc i) l = absurd (omega arith)

fetch_from_lem_example : fetch_from directory_disk directory_file (new small.table) ≡ ok small
unfolding to_bytes words_bytes new
fetch_from_lem_example =
    fetch_from_lem directory_disk directory_file small.table (new small.table) directory_file-IsFile
      directory_disk-IsFormatted
      ((refl, omega arith), ((refl, omega arith), ((refl, omega arith), tt)))
      (refl, (refl, (refl, tt))) refl (omega arith) refl refl

new_directory_lem_example :
    IsValid (new small.table) × ((m : List ℕ) → find (new small.table) m ≡ none)
new_directory_lem_example =
    new_directory_lem small.table
      ((refl, omega arith), ((refl, omega arith), ((refl, omega arith), tt)))
