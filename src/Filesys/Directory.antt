-- ===== src/Filesys/Directory.antt =====
-- code/filesys/directory.h and directory.cc: a table of names and the sectors of their headers.
-- A name is the list of its characters; the table keeps the first 39 of them, which are all that
-- `strncmp` compares. Output is left out: `Find` of a missing name also prints the listing.
mod Lookup
pub mod Entries
pub mod Removal
mod Tests
use op_prac.Base.{
  ℕ, zero, suc, ◌+◌, ◌-◌, ◌*◌, ◌/◌, ◌%◌, ◌^◌, ◌≤◌, ◌<◌, ◌≡◌, refl, sym, ap, subst, ◌∙◌, ◌≢◌, ◌↔◌,
  ◌⊎◌, inl, inr, Bool, true, false, not, ◌&&◌, ◌||◌, Option, none, some, List, [], ◌∷◌, ◌++◌, map,
  arith, dec_lt, dec_le, ℕ_discrete, Error, assert_failed, bad_access, arithmetic_fault,
  out_of_fuel, Result, ok, err, ◌>>=◌, ◌>>◌, assert, or_fault, Result-cases, ltb, leb, ◌==◌,
  if◌then◌else◌, ltb→lt, lt→ltb, le→ltb, leb→le, ==_iff, tests, Bool-cases, Option-cases, length,
  get_elem?, set, get_or, take, drop, replicate, All, length-append, length-set, length-replicate,
  get_or-set_self, get_or-set_ne, get_elem?-eq-get_or, get_elem?-none, get_elem?-set_self,
  get_elem?-set_ne, get_elem?-append, get_elem?-some, All-set, All-get_or, bit_and, bit_or, bit_xor,
}
use op_prac.Base.Int.{ℤ, pos, minus_one}

abbrev pub file_name_max_len : ℕ
file_name_max_len = 39

pub record DirectoryEntry : Type 0 where
  pub in_use : Bool
  pub is_dir : Bool
  pub sector : ℤ
  pub name : List ℕ

-- The table has `tableSize` entries.
pub record Directory : Type 0 where
  pub table : List DirectoryEntry

-- `!strncmp(a, b, n)`
pub strncmp_eq : ℕ → List ℕ → List ℕ → Bool
strncmp_eq zero a b = true
strncmp_eq (suc n) [] [] = true
strncmp_eq (suc n) [] (y ∷ b) = false
strncmp_eq (suc n) (x ∷ a) [] = false
strncmp_eq (suc n) (x ∷ a) (y ∷ b) = (x == y) && strncmp_eq n a b

abbrev pub is_entry_for : List ℕ → DirectoryEntry → Bool
is_entry_for name e = e.in_use && strncmp_eq file_name_max_len e.name name

-- The constructor. `new` leaves the entries as they are found in memory.
pub new_directory : List DirectoryEntry → Directory
new_directory memory = record {
  table = map {A = DirectoryEntry} (λ e. record e { in_use = false }) memory;
}

-- The index of the first entry for the name, counted from `i`; `none` is the -1 of the source.
pub find_index_from : List ℕ → ℕ → List DirectoryEntry → Option ℕ
find_index_from name i [] = none
find_index_from name i (e ∷ es) =
    let rest = find_index_from name (i + 1) es in if is_entry_for name e then some i else rest

pub find_index : List ℕ → Directory → Option ℕ
find_index name d = find_index_from name 0 d.table

-- What `Find` does with the index.
abbrev pub sector_of_index : Directory → Option ℕ → Result ℤ
sector_of_index d none = ok minus_one
sector_of_index d (some i) = do e ← or_fault (get_elem? d.table i); ok e.sector

pub find : List ℕ → Directory → Result ℤ
find name d = sector_of_index d (find_index name d)

abbrev pub put_behind : DirectoryEntry → Option (List DirectoryEntry) → Option (List DirectoryEntry)
put_behind e none = none
put_behind e (some es) = some (e ∷ es)

-- The loop of `Add`: the first entry that is not in use is filled.
pub fill_first : DirectoryEntry → List DirectoryEntry → Option (List DirectoryEntry)
fill_first new [] = none
fill_first new (e ∷ es) =
    let rest = fill_first new es in if e.in_use then put_behind e rest else some (new ∷ es)

abbrev pub filled : Directory → Option (List DirectoryEntry) → Bool × Directory
filled d none = (false, d)
filled d (some table) = (true, record { table = table })

-- What `Add` does behind its test, by the index of the name.
abbrev pub add_unless : DirectoryEntry → Directory → Option ℕ → Bool × Directory
add_unless new d (some _) = (false, d)
add_unless new d none = filled d (fill_first new d.table)

pub add : List ℕ → ℤ → Bool → Directory → Bool × Directory
add name new_sector is_dir d =
    add_unless
      (record {
        in_use = true;
        is_dir = is_dir;
        sector = new_sector;
        name = take file_name_max_len name;
      })
      d (find_index name d)

abbrev pub remove_at : Directory → Option ℕ → Result (Bool × Directory)
remove_at d none = ok (false, d)
remove_at d (some i) = do
  e ← or_fault (get_elem? d.table i)
  ok (true, record { table = set d.table i (record e { in_use = false }) })

pub remove : List ℕ → Directory → Result (Bool × Directory)
remove name d = remove_at d (find_index name d)

abbrev pub is_dir_at : Directory → Option ℕ → Result Bool
is_dir_at d none = ok false
is_dir_at d (some i) = do e ← or_fault (get_elem? d.table i); ok (e.is_dir && e.in_use)

pub is_dir : List ℕ → Directory → Result Bool
is_dir name d = is_dir_at d (find_index name d)

pub is_empty : Directory → Bool
is_empty d = go d.table
  where
    go : List DirectoryEntry → Bool
    go [] = true
    go (e ∷ es) = if e.in_use then false else go es
