-- ===== src/Filesys/Directory/Removal.antt =====
-- `Remove` on a directory in which no two entries go by one name.
use op_prac.Base.{
  ℕ, suc, ◌+◌, ◌≡◌, refl, sym, ap, ◌∙◌, ◌⊎◌, inl, inr, true, false, none, some, List, [], ◌∷◌,
  arith, ok, if◌then◌else◌, Bool-cases, get_elem?, set,
}
use op_prac.Filesys.Directory.{
  DirectoryEntry, Directory, find_index, find_index_from, remove, is_entry_for,
}
use op_prac.Filesys.Directory.Lookup.{
  key, same_names, same_names-eq, strncmp_lem, lookup, lookup-key, lookup_hit, lookup_skip,
  is_entry_for-key,
}
use op_prac.Filesys.Directory.Entries.{entry}

-- No later entry goes by the name of an entry in use.
abbrev pub Unique : List DirectoryEntry → Type 0
Unique [] = Unit
Unique (e ∷ es) = (e.in_use ≡ true → lookup es e.name ≡ none) × Unique es

abbrev unset : DirectoryEntry → DirectoryEntry
unset e = record e { in_use = false }

-- `es'` is `es` without what it has for `name`.
abbrev Without : List ℕ → List DirectoryEntry → List DirectoryEntry → Type 0
Without name es es' =
    (o : List ℕ) → lookup es' o ≡ (if same_names (key name) (key o) then none else lookup es o)

keys_agree :
    (name : List ℕ) (e : DirectoryEntry) → is_entry_for name e ≡ true → key e.name ≡ key name
keys_agree name e h =
    same_names-eq (key e.name) (key name) (sym (strncmp_lem 39 e.name name) ∙ ground (arith, h))

unset-Without :
    (name : List ℕ) (e : DirectoryEntry) (es : List DirectoryEntry)
    → Unique (e ∷ es)
    → is_entry_for name e ≡ true
    → Without name (e ∷ es) (unset e ∷ es)
unset-Without name e es u h o =
    lookup_skip o (unset e) es refl ∙ (elim (Bool-cases (same_names (key name) (key o))) [
      | inl same ↦ rw same (
          lookup-key es o e.name (sym (keys_agree name e h ∙ same_names-eq (key name) (key o) same))
          ∙ u.0 (ground (arith, h)))
      | inr differ ↦
          let distinct =
            strncmp_lem 39 e.name o
            ∙ ap (λ k. same_names k (key o)) (keys_agree name e h)
            ∙ differ in
          rw differ (sym (lookup_skip o e es (ground (arith, distinct))))
    ])

behind-Without :
    (name : List ℕ) (e : DirectoryEntry) (es es' : List DirectoryEntry)
    → is_entry_for name e ≡ false
    → Without name es es'
    → Without name (e ∷ es) (e ∷ es')
behind-Without name e es es' h w o = elim (Bool-cases (is_entry_for o e)) [
  | inr other ↦
      lookup_skip o e es' other
      ∙ w o
      ∙ ap (λ rest. if same_names (key name) (key o) then none else rest)
          (sym (lookup_skip o e es other))
  | inl here ↦ lookup_hit o e es' here ∙ (elim (Bool-cases (same_names (key name) (key o))) [
    | inl same ↦
        let clash = is_entry_for-key name o e (same_names-eq (key name) (key o) same) in absurd (cc)
    | inr differ ↦ rw differ (sym (lookup_hit o e es here))
  ])
]

find_index-Without :
    (name : List ℕ) (i : ℕ) (es : List DirectoryEntry)
    → Unique es
    → ((find_index_from name i es ≡ none) × (lookup es name ≡ none))
      ⊎ ((j : ℕ) × (e : DirectoryEntry) × (find_index_from name i es ≡ some (i + j))
          × (get_elem? es j ≡ some e)
          × (lookup es name ≡ some e)
          × Without name es (set es j (unset e)))
unfolding find_index_from lookup
find_index-Without name i [] u = inl (refl, refl)
find_index-Without name i (e ∷ es) u = elim (Bool-cases (is_entry_for name e)) [
  | inl here ↦ inr (
    0,
    e,
    rw here (ap some (omega arith)),
    refl,
    lookup_hit name e es here,
    unset-Without name e es u here,
  )
  | inr other ↦ elim (find_index-Without name (i + 1) es u.1) [
    | inl (p, q) ↦ inl (rw other p, lookup_skip name e es other ∙ q)
    | inr (j, d, p, q, r, w) ↦ inr (
      suc j,
      d,
      rw other (p ∙ ap some (omega arith)),
      q,
      lookup_skip name e es other ∙ r,
      behind-Without name e es (set es j (unset d)) other w,
    )
  ]
]

-- In a directory where no two entries go by one name, `Remove` reports FALSE and changes nothing for
-- a name that is not there; otherwise it reports TRUE, and the directory has nothing for the names
-- that agree with this one in 39 characters, and for every other name what it had.
pub remove-entry :
    (name : List ℕ) (d : Directory)
    → Unique d.table
    → ((entry d name ≡ none) × (remove name d ≡ ok (false, d)))
      ⊎ ((e : DirectoryEntry) × (d' : Directory) × (entry d name ≡ some e)
          × (remove name d ≡ ok (true, d'))
          × ((o : List ℕ)
              → entry d' o ≡ (if same_names (key name) (key o) then none else entry d o)))
unfolding remove find_index entry
remove-entry name d u = elim (find_index-Without name 0 d.table u) [
  | inl (p, q) ↦ inl (q, rw p refl)
  | inr (j, e, p, at, q, w) ↦
      let p' = p ∙ ap some (let z : 0 + j ≡ j = omega arith in z) in
      inr (e, record { table = set d.table j (unset e) }, q, rw (p', at) refl, w)
]
