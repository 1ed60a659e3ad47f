-- ===== src/Filesys/Directory/Lookup.antt =====
-- Names as keys: 39 characters, and the entry that a table has for them.
use op_prac.Base.{
  ℕ, zero, suc, ◌+◌, ◌≡◌, refl, sym, ap, ◌∙◌, ◌⊎◌, inl, inr, Bool, true, false, ◌&&◌, Option, none,
  some, List, [], ◌∷◌, arith, ◌==◌, if◌then◌else◌, Bool-cases, get_elem?, take, All,
}
use op_prac.Base.Int.{ℤ}
use op_prac.Filesys.Directory.{
  DirectoryEntry, strncmp_eq, is_entry_for, find_index_from, fill_first, put_behind,
  file_name_max_len,
}

-- What counts of a name.
abbrev pub key : List ℕ → List ℕ
key name = take file_name_max_len name

pub same_names : List ℕ → List ℕ → Bool
same_names [] [] = true
same_names [] (y ∷ b) = false
same_names (x ∷ a) [] = false
same_names (x ∷ a) (y ∷ b) = (x == y) && same_names a b

pub same_names-eq : (a b : List ℕ) → same_names a b ≡ true → a ≡ b
unfolding same_names
same_names-eq [] [] e = refl
same_names-eq [] (y ∷ b) e = absurd (cc)
same_names-eq (x ∷ a) [] e = absurd (cc)
same_names-eq (x ∷ a) (y ∷ b) e =
    let head : x ≡ y = ground arith in
    let tail : same_names a b ≡ true = ground arith in rw (head, same_names-eq a b tail) refl

pub same_names_refl : (a : List ℕ) → same_names a a ≡ true
unfolding same_names
same_names_refl [] = refl
same_names_refl (x ∷ a) = ground (arith, same_names_refl a)

take-take : (n : ℕ) (a : List ℕ) → take n (take n a) ≡ take n a
take-take zero a = refl
take-take (suc n) [] = refl
take-take (suc n) (x ∷ a) = ap (◌∷◌ x) (take-take n a)

pub strncmp_lem : (n : ℕ) (a b : List ℕ) → strncmp_eq n a b ≡ same_names (take n a) (take n b)
unfolding strncmp_eq same_names
strncmp_lem zero a b = refl
strncmp_lem (suc n) [] [] = refl
strncmp_lem (suc n) [] (y ∷ b) = refl
strncmp_lem (suc n) (x ∷ a) [] = refl
strncmp_lem (suc n) (x ∷ a) (y ∷ b) = ap (λ c. (x == y) && c) (strncmp_lem n a b)

-- The first entry for a name.
unfoldable pub lookup : List DirectoryEntry → List ℕ → Option DirectoryEntry
lookup [] name = none
lookup (e ∷ es) name = if is_entry_for name e then some e else lookup es name

pub find_index-lookup :
    (name : List ℕ) (i : ℕ) (es : List DirectoryEntry)
    → ((find_index_from name i es ≡ none) × (lookup es name ≡ none))
      ⊎ ((j : ℕ) × (e : DirectoryEntry) × (find_index_from name i es ≡ some (i + j))
          × (get_elem? es j ≡ some e)
          × (lookup es name ≡ some e)
          × (is_entry_for name e ≡ true))
unfolding find_index_from lookup
find_index-lookup name i [] = inl (refl, refl)
find_index-lookup name i (e ∷ es) = elim (Bool-cases (is_entry_for name e)) [
  | inl here ↦ inr (0, e, rw here (ap some (omega arith)), refl, rw here refl, here)
  | inr other ↦ elim (find_index-lookup name (i + 1) es) [
    | inl (p, q) ↦ inl (rw other p, rw other q)
    | inr (j, d, p, q, r, s) ↦
        inr (suc j, d, rw other (p ∙ ap some (omega arith)), q, rw other r, s)
  ]
]

pub is_entry_for-key :
    (a b : List ℕ) (e : DirectoryEntry) → key a ≡ key b → is_entry_for a e ≡ is_entry_for b e
is_entry_for-key a b e same =
    ap (λ c. e.in_use && c)
      (strncmp_lem 39 e.name a
        ∙ ap (same_names (take 39 e.name)) same
        ∙ sym (strncmp_lem 39 e.name b))

-- A name is looked up by its first 39 characters.
pub lookup-key :
    (es : List DirectoryEntry) (a b : List ℕ) → key a ≡ key b → lookup es a ≡ lookup es b
unfolding lookup
lookup-key [] a b same = refl
lookup-key (e ∷ es) a b same =
    rw (is_entry_for-key a b e same)
      (ap (λ rest. if is_entry_for b e then some e else rest) (lookup-key es a b same))

abbrev pub new_entry : List ℕ → ℤ → Bool → DirectoryEntry
new_entry name new_sector is_dir = record {
  in_use = true;
  is_dir = is_dir;
  sector = new_sector;
  name = take file_name_max_len name;
}

-- A new entry is the one for the names that agree with its own in 39 characters.
pub is_entry_for-new_entry :
    (name other : List ℕ) (new_sector : ℤ) (is_dir : Bool)
    → is_entry_for other (new_entry name new_sector is_dir) ≡ same_names (key name) (key other)
is_entry_for-new_entry name other new_sector is_dir =
    strncmp_lem 39 (take 39 name) other ∙ ap (λ a. same_names a (key other)) (take-take 39 name)

fill_used :
    (new e : DirectoryEntry) (es : List DirectoryEntry)
    → e.in_use ≡ true
    → fill_first new (e ∷ es) ≡ put_behind e (fill_first new es)
unfolding fill_first
fill_used new e es used =
    ap (λ c. if c then put_behind e (fill_first new es) else some (new ∷ es)) used

fill_free :
    (new e : DirectoryEntry) (es : List DirectoryEntry)
    → e.in_use ≡ false
    → fill_first new (e ∷ es) ≡ some (new ∷ es)
unfolding fill_first
fill_free new e es free =
    ap (λ c. if c then put_behind e (fill_first new es) else some (new ∷ es)) free

pub lookup_hit :
    (o : List ℕ) (e : DirectoryEntry) (es : List DirectoryEntry)
    → is_entry_for o e ≡ true
    → lookup (e ∷ es) o ≡ some e
unfolding lookup
lookup_hit o e es h = ap (λ c. if c then some e else lookup es o) h

pub lookup_skip :
    (o : List ℕ) (e : DirectoryEntry) (es : List DirectoryEntry)
    → is_entry_for o e ≡ false
    → lookup (e ∷ es) o ≡ lookup es o
unfolding lookup
lookup_skip o e es h = ap (λ c. if c then some e else lookup es o) h

-- `es'` has the entry `new` besides those of `es`.
abbrev pub Extends : DirectoryEntry → List DirectoryEntry → List DirectoryEntry → Type 0
Extends new es es' =
    (o : List ℕ)
    → (is_entry_for o new ≡ true → lookup es o ≡ none)
    → lookup es' o ≡ (if is_entry_for o new then some new else lookup es o)

Extends-behind :
    (new e : DirectoryEntry) (es es' : List DirectoryEntry)
    → Extends new es es'
    → Extends new (e ∷ es) (e ∷ es')
Extends-behind new e es es' at o h = elim (Bool-cases (is_entry_for o e)) [
  | inr other ↦
      let skipped = lookup_skip o e es other in
      lookup_skip o e es' other
      ∙ at o (λ p. sym skipped ∙ h p)
      ∙ ap (λ rest. if is_entry_for o new then some new else rest) (sym skipped)
  | inl here ↦
      let found = lookup_hit o e es here in
      lookup_hit o e es' here ∙ (elim (Bool-cases (is_entry_for o new)) [
        | inl clash ↦ let missing = h clash in absurd (cc)
        | inr fine ↦ rw fine (sym found)
      ])
]

Extends-free :
    (new e : DirectoryEntry) (es : List DirectoryEntry)
    → e.in_use ≡ false
    → Extends new (e ∷ es) (new ∷ es)
unfolding lookup
Extends-free new e es free o h =
    ap (λ rest. if is_entry_for o new then some new else rest)
      (sym (lookup_skip o e es (ground (arith, free))))

-- The loop of `Add` fails only on a table that is full, and otherwise adds the entry and no other.
pub fill_first-lookup :
    (new : DirectoryEntry) (es : List DirectoryEntry)
    → ((fill_first new es ≡ none) × All (λ e. e.in_use ≡ true) es)
      ⊎ ((es' : List DirectoryEntry) × (fill_first new es ≡ some es') × Extends new es es')
unfolding fill_first
fill_first-lookup new [] = inl (refl, tt)
fill_first-lookup new (e ∷ es) = elim (Bool-cases e.in_use) [
  | inr free ↦ inr (new ∷ es, fill_free new e es free, Extends-free new e es free)
  | inl used ↦ elim (fill_first-lookup new es) [
    | inl (p, full) ↦ inl (fill_used new e es used ∙ ap (put_behind e) p, (used, full))
    | inr (es', p, at) ↦
        inr (e ∷ es', fill_used new e es used ∙ ap (put_behind e) p, Extends-behind new e es es' at)
  ]
]
