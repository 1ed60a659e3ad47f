-- ===== src/Filesys/Directory/Entries.antt =====
-- The directory as a map from names to entries: what `Find` and `Add` make of it.
use op_prac.Base.{
  ℕ, ◌+◌, ◌≡◌, refl, sym, ap, subst, ◌∙◌, inl, inr, Bool, true, false, Option, none, some, List,
  arith, ok, if◌then◌else◌, Bool-cases, All,
}
use op_prac.Base.Int.{ℤ, minus_one}
use op_prac.Filesys.Directory.{DirectoryEntry, Directory, find_index, find, add}
use op_prac.Filesys.Directory.Lookup.{
  key, same_names, same_names-eq, lookup, lookup-key, find_index-lookup, fill_first-lookup,
  new_entry, is_entry_for-new_entry,
}

-- The entry that a directory has for a name.
unfoldable pub entry : Directory → List ℕ → Option DirectoryEntry
entry d name = lookup d.table name

-- What `Find` returns where the directory has this entry, or none.
abbrev pub sector_of : Option DirectoryEntry → ℤ
sector_of none = minus_one
sector_of (some e) = e.sector

-- `Find` always ends, with the sector of the entry for the name, or -1 where there is none.
pub find-entry : (name : List ℕ) (d : Directory) → find name d ≡ ok (sector_of (entry d name))
unfolding find find_index entry
find-entry name d = elim (find_index-lookup name 0 d.table) [
  | inl (p, q) ↦ rw (p, q) refl
  | inr (j, e, p, at, q, h) ↦
      let p' = p ∙ ap some (let z : 0 + j ≡ j = omega arith in z) in rw (p', at, q) refl
]

-- What `Add` comes to.
pub data Adds (name : List ℕ) (new_sector : ℤ) (is_dir : Bool) (d : Directory) : Type 0 where
  added :
      (d' : Directory)
      → entry d name ≡ none
      → add name new_sector is_dir d ≡ (true, d')
      → ((other : List ℕ)
          → entry d' other ≡ (
              if same_names (key name) (key other)
              then some (new_entry name new_sector is_dir)
              else entry d other))
      → Adds name new_sector is_dir d
  present :
      (e : DirectoryEntry)
      → entry d name ≡ some e
      → add name new_sector is_dir d ≡ (false, d)
      → Adds name new_sector is_dir d
  full :
      All (λ e. e.in_use ≡ true) d.table
      → add name new_sector is_dir d ≡ (false, d)
      → Adds name new_sector is_dir d

-- `Add` refuses a name that is there and a table that is full, and then changes nothing; otherwise
-- the directory has the new entry for the names that agree with its own in 39 characters, and for
-- every other name what it had.
pub add-Adds :
    (name : List ℕ) (new_sector : ℤ) (is_dir : Bool) (d : Directory) → Adds name new_sector is_dir d
unfolding add find_index entry
add-Adds name new_sector is_dir d =
    let new = new_entry name new_sector is_dir in
    elim (find_index-lookup name 0 d.table) [
      | inr (j, e, p, at, q, h) ↦ present e q (rw p refl)
      | inl (p, missing) ↦ elim (fill_first-lookup new d.table) [
        | inl (full_table, used) ↦ full used (rw (p, full_table) refl)
        | inr (es', filled, at) ↦
            added (record { table = es' }) missing (rw (p, filled) refl)
              (λ other.
                let same = is_entry_for-new_entry name other new_sector is_dir in
                at other (λ h.
                  lookup-key d.table other name
                    (sym (same_names-eq (key name) (key other) (sym same ∙ h)))
                  ∙ missing)
                ∙ ap (λ c. if c then some new else lookup d.table other) same)
      ]
    ]

-- Where `Add` returns TRUE, `Find` gave -1 for the name before; afterwards `Find` gives the new sector
-- for it and for every name that agrees with it in 39 characters, and for any other name what it gave
-- before.
pub find-add :
    (name : List ℕ) (new_sector : ℤ) (is_dir : Bool) (d d' : Directory)
    → add name new_sector is_dir d ≡ (true, d')
    → (find name d ≡ ok minus_one)
      × ((other : List ℕ)
          → find other d'
            ≡ (if same_names (key name) (key other) then ok new_sector else find other d))
find-add name new_sector is_dir d d' added_to = go (add-Adds name new_sector is_dir d)
  where
    go :
        Adds name new_sector is_dir d
        → (find name d ≡ ok minus_one)
          × ((other : List ℕ)
              → find other d'
                ≡ (if same_names (key name) (key other) then ok new_sector else find other d))
    go (present e q same) = absurd (cc)
    go (full used same) = absurd (cc)
    go (added d'' missing returns reads) =
        let e : d'' ≡ d' = ap (λ r. r.1) (sym returns ∙ added_to) in
        (
          find-entry name d ∙ ap (λ x. ok (sector_of x)) missing,
          (λ other.
              subst
                (λ x.
                  find other x
                  ≡ (if same_names (key name) (key other) then ok new_sector else find other d))
                e
                (find-entry other d''
                  ∙ ap (λ x. ok (sector_of x)) (reads other)
                  ∙ elim (Bool-cases (same_names (key name) (key other))) [
                    | inl agree ↦ rw agree refl
                    | inr apart ↦ rw apart (sym (find-entry other d))
                  ])),
        )
