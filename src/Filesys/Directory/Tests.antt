-- ===== src/Filesys/Directory/Tests.antt =====
-- Runs of the directory on small tables, and its theorems at a table of three entries.
use op_prac.Base.{ℕ, ◌≡◌, refl, ◌⊎◌, true, false, none, some, List, [], ◌∷◌, ok, if◌then◌else◌}
use op_prac.Base.Int.{pos, minus_one}
use op_prac.Filesys.Directory.{
  fill_first, DirectoryEntry, Directory, find, add, remove, find_index, find_index_from, strncmp_eq,
}
use op_prac.Filesys.Directory.Lookup.{key, same_names, lookup}
use op_prac.Filesys.Directory.Entries.{entry, find-add, Adds, add-Adds}
use op_prac.Filesys.Directory.Removal.{Unique, remove-entry}

abbrev file : List ℕ → ℕ → DirectoryEntry
file name sector = record { in_use = true; is_dir = false; sector = pos sector; name = name }

abbrev unused : DirectoryEntry
unused = record { in_use = false; is_dir = true; sector = pos 9; name = 98 ∷ [] }

-- The files a and ab; the second entry is free.
abbrev root : Directory
root = record { table = file (97 ∷ []) 5 ∷ unused ∷ file (97 ∷ 98 ∷ []) 6 ∷ [] }

root-Unique : Unique root.table
unfolding lookup strncmp_eq
root-Unique = ((λ _. refl), ((λ p. absurd (cc)), ((λ _. refl), tt)))

find_ab : find (97 ∷ 98 ∷ []) root ≡ ok (pos 6)
unfolding find find_index find_index_from strncmp_eq
find_ab = refl

find_free : find (98 ∷ []) root ≡ ok minus_one
unfolding find find_index find_index_from strncmp_eq
find_free = refl

add_twice : (add (97 ∷ []) (pos 7) false root).0 ≡ false
unfolding add find_index find_index_from strncmp_eq
add_twice = refl

-- With the file c in the second entry.
abbrev grown : Directory
grown = record { table = file (97 ∷ []) 5 ∷ file (99 ∷ []) 7 ∷ file (97 ∷ 98 ∷ []) 6 ∷ [] }

add_c : add (99 ∷ []) (pos 7) false root ≡ (true, grown)
unfolding add find_index find_index_from strncmp_eq fill_first
add_c = refl

find-add_example :
    (find (99 ∷ []) root ≡ ok minus_one)
    × ((other : List ℕ)
        → find other grown
          ≡ (if same_names (key (99 ∷ [])) (key other) then ok (pos 7) else find other root))
find-add_example = find-add (99 ∷ []) (pos 7) false root grown add_c

add-Adds_example : Adds (99 ∷ []) (pos 7) true root
add-Adds_example = add-Adds (99 ∷ []) (pos 7) true root

remove-entry_example :
    ((entry root (97 ∷ []) ≡ none) × (remove (97 ∷ []) root ≡ ok (false, root)))
    ⊎ ((e : DirectoryEntry) × (d' : Directory) × (entry root (97 ∷ []) ≡ some e)
        × (remove (97 ∷ []) root ≡ ok (true, d'))
        × ((o : List ℕ)
            → entry d' o ≡ (if same_names (key (97 ∷ [])) (key o) then none else entry root o)))
remove-entry_example = remove-entry (97 ∷ []) root root-Unique
