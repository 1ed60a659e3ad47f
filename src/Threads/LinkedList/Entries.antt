-- ===== src/Threads/LinkedList/Entries.antt =====
-- The list as a sequence of entries, key and item: what each operation does to it, with nothing of
-- the memory left in the statements.
use op_prac.Base.{
  ◌≡◌, refl, ap, subst, ◌∙◌, inl, inr, true, false, none, some, List, [], ◌∷◌, ◌++◌, arith, ok,
  if◌then◌else◌, Bool-cases, All,
}
use op_prac.Base.Int.{ℤ, pos, ltb_ℤ, ◌≤ℤ◌}
use op_prac.Threads.LinkedList.{
  LinkedList, new_list, append, prepend, sorted_insert, sorted_remove, remove, mapcar, is_empty,
}
use op_prac.Threads.LinkedList.Chain.{Node, entry, entries, entries-snoc, Holds}
use op_prac.Threads.LinkedList.Queue.{
  append-Holds, prepend-Holds, sorted_remove_empty, sorted_remove-Holds, mapcar-Holds, fold_values,
  Holds-empty, Holds-nonempty,
}
use op_prac.Threads.LinkedList.Sorted.{place, sorted_insert-Holds}

module _ {ℓ} {A : Type ℓ} where
  -- The list stands for the sequence `xs`.
  abbrev pub Represents : LinkedList A → List (ℤ × A) → Type ℓ
  Represents l xs = (ns : List (Node A)) × Holds l ns × (entries ns ≡ xs)

  -- A new entry goes before the first one with a greater key.
  unfoldable pub insert_entry : ℤ × A → List (ℤ × A) → List (ℤ × A)
  insert_entry e [] = e ∷ []
  insert_entry e (d ∷ xs) = if ltb_ℤ e.0 d.0 then e ∷ d ∷ xs else d ∷ insert_entry e xs

  entries-place :
      (m : Node A) (ns : List (Node A)) → entries (place m ns) ≡ insert_entry (entry m) (entries ns)
  unfolding insert_entry
  entries-place m [] = refl
  entries-place m (n ∷ ns) = ground (arith, entries-place m ns)

  pub new_list-Represents : Represents new_list []
  unfolding new_list
  new_list-Represents = (
    [],
    record {
      chain = tt;
      distinct = tt;
      below = tt;
      from_first = refl;
      to_last = refl;
      counted = refl;
    },
    refl,
  )

  -- `Append` succeeds and adds one entry at the end.
  pub append-Represents :
      (x : A) (l : LinkedList A) (xs : List (ℤ × A))
      → Represents l xs
      → (l' : LinkedList A) × (append x l ≡ ok l') × Represents l' (xs ++ (pos 0, x) ∷ [])
  append-Represents x l xs (ns, h, e) =
      let (l', done, h') = append-Holds x l ns h in
      (l', done, (_, h', entries-snoc ns _ ∙ ap (λ ys. ys ++ (pos 0, x) ∷ []) e))

  -- `Prepend` succeeds and adds one entry at the front.
  pub prepend-Represents :
      (x : A) (l : LinkedList A) (xs : List (ℤ × A))
      → Represents l xs
      → (l' : LinkedList A) × (prepend x l ≡ ok l') × Represents l' ((pos 0, x) ∷ xs)
  prepend-Represents x l xs (ns, h, e) =
      let (l', done, h') = prepend-Holds x l ns h in (l', done, (_, h', ap (◌∷◌ (pos 0, x)) e))

  -- `SortedInsert` ends without a fault and inserts one entry.
  pub sorted_insert-Represents :
      (x : A) (key : ℤ) (l : LinkedList A) (xs : List (ℤ × A))
      → Represents l xs
      → (l' : LinkedList A) × (sorted_insert x key l ≡ ok l')
        × Represents l' (insert_entry (key, x) xs)
  sorted_insert-Represents x key l xs (ns, h, e) =
      let (l', done, h') = sorted_insert-Holds x key l ns h in
      (l', done, (_, h', entries-place _ ns ∙ ap (insert_entry (key, x)) e))

  -- What `Remove` comes to on a list that stands for `xs`.
  abbrev pub Removes : LinkedList A → List (ℤ × A) → Type ℓ
  Removes l [] = (remove l ≡ ok (none, l)) × (is_empty l ≡ true)
  Removes l ((key, x) ∷ xs) =
      (l' : LinkedList A) × (remove l ≡ ok (some x, l'))
      × (sorted_remove l ≡ ok (some (x, key), l'))
      × Represents l' xs
      × (is_empty l ≡ false)

  Removes-entries : (l : LinkedList A) (ns : List (Node A)) → Holds l ns → Removes l (entries ns)
  unfolding remove
  Removes-entries l [] h = (rw (sorted_remove_empty l h) refl, Holds-empty l h)
  Removes-entries l (n ∷ ns) h =
      let (l', done, h') = sorted_remove-Holds l n ns h in
      (l', rw done refl, done, (ns, h', refl), Holds-nonempty l n ns h)

  -- `Remove` and `SortedRemove` take the first entry, or report NULL on an empty list and leave it.
  pub remove-Removes : (l : LinkedList A) (xs : List (ℤ × A)) → Represents l xs → Removes l xs
  remove-Removes l xs (ns, h, e) = subst (Removes l) e (Removes-entries l ns h)

  -- Keys do not fall along the sequence.
  abbrev pub IsSorted : List (ℤ × A) → Type ℓ
  IsSorted [] = Unit
  IsSorted (e ∷ xs) = All (λ d. e.0 ≤ℤ d.0) xs × IsSorted xs

  -- `xs` falls into the entries that `key` comes after, and those that it comes before.
  pub record Split (key : ℤ) (e : ℤ × A) (xs ys : List (ℤ × A)) : Type ℓ where
    pub before : List (ℤ × A)
    pub after : List (ℤ × A)
    pub whole : xs ≡ before ++ after
    pub inserted : ys ≡ before ++ e ∷ after
    pub not_greater : All (λ d. d.0 ≤ℤ key) before
    pub greater : All (λ d. ltb_ℤ key d.0 ≡ true) after

  abbrev pub fold_items {κ} : {S : Type κ} → (A → S → S) → List (ℤ × A) → S → S
  fold_items func [] s = s
  fold_items func (e ∷ xs) s = fold_items func xs (func e.1 s)

  fold_entries {κ} :
      {S : Type κ} (func : A → S → S) (ns : List (Node A)) (s : S)
      → fold_values func ns s ≡ fold_items func (entries ns) s
  fold_entries func [] s = refl
  fold_entries func (n ∷ ns) s = fold_entries func ns (func n.value s)

  All-greater :
      (key : ℤ) (d : ℤ × A) (xs : List (ℤ × A))
      → ltb_ℤ key d.0 ≡ true
      → All (λ c. d.0 ≤ℤ c.0) xs
      → All (λ c. ltb_ℤ key c.0 ≡ true) xs
  All-greater key d [] lt h = tt
  All-greater key d (c ∷ xs) lt h = (ground (arith, h.0), All-greater key d xs lt h.1)

  insert_entry-Split :
      (e : ℤ × A) (xs : List (ℤ × A)) → IsSorted xs → Split e.0 e xs (insert_entry e xs)
  unfolding insert_entry
  insert_entry-Split e [] h = record {
    before = [];
    after = [];
    whole = refl;
    inserted = refl;
    not_greater = tt;
    greater = tt;
  }
  insert_entry-Split e (d ∷ xs) h = elim (Bool-cases (ltb_ℤ e.0 d.0)) [
    | inl lt ↦ (record {
      before = [];
      after = d ∷ xs;
      whole = refl;
      inserted = rw lt refl;
      not_greater = tt;
      greater = (lt, All-greater e.0 d xs lt h.0);
    })
    | inr ge ↦
        let s = insert_entry-Split e xs h.1 in
        record {
          before = d ∷ s.before;
          after = s.after;
          whole = ap (◌∷◌ d) s.whole;
          inserted = rw ge (ap (◌∷◌ d) s.inserted);
          not_greater = (ground arith, s.not_greater);
          greater = s.greater;
        }
  ]

  All-insert_entry :
      (d e : ℤ × A) (xs : List (ℤ × A))
      → d.0 ≤ℤ e.0
      → All (λ c. d.0 ≤ℤ c.0) xs
      → All (λ c. d.0 ≤ℤ c.0) (insert_entry e xs)
  unfolding insert_entry
  All-insert_entry d e [] le h = (le, tt)
  All-insert_entry d e (c ∷ xs) le h = ground (arith, All-insert_entry d e xs le h.1)

  pub insert_entry-IsSorted :
      (e : ℤ × A) (xs : List (ℤ × A)) → IsSorted xs → IsSorted (insert_entry e xs)
  unfolding insert_entry
  insert_entry-IsSorted e [] h = (tt, tt)
  insert_entry-IsSorted e (d ∷ xs) h = elim (Bool-cases (ltb_ℤ e.0 d.0)) [
    | inl lt ↦ rw lt ((ground arith, below_all e d xs (ground arith) h.0), h)
    | inr ge ↦ rw ge (All-insert_entry d e xs (ground arith) h.0, insert_entry-IsSorted e xs h.1)
  ]
    where
      below_all :
          (e d : ℤ × A) (xs : List (ℤ × A))
          → e.0 ≤ℤ d.0
          → All (λ c. d.0 ≤ℤ c.0) xs
          → All (λ c. e.0 ≤ℤ c.0) xs
      below_all e d [] le h = tt
      below_all e d (c ∷ xs) le h = (omega (arith, h.0), below_all e d xs le h.1)

  -- On a list in order of keys, `SortedInsert` keeps the order: the new entry comes after every
  -- entry whose key is not greater, those of the same key included, and before all others.
  pub sorted_insert-Split :
      (x : A) (key : ℤ) (l : LinkedList A) (xs : List (ℤ × A))
      → Represents l xs
      → IsSorted xs
      → (l' : LinkedList A) × (ys : List (ℤ × A)) × (sorted_insert x key l ≡ ok l')
        × Represents l' ys
        × IsSorted ys
        × Split key (key, x) xs ys
  sorted_insert-Split x key l xs r s =
      let (l', done, r') = sorted_insert-Represents x key l xs r in
      (
        l',
        insert_entry (key, x) xs,
        done,
        r',
        insert_entry-IsSorted (key, x) xs s,
        insert_entry-Split (key, x) xs s,
      )

  -- `Mapcar` visits the items of the sequence once each, from first to last.
  pub mapcar-Represents {κ} :
      {S : Type κ} (func : A → S → S) (l : LinkedList A) (xs : List (ℤ × A)) (s : S)
      → Represents l xs
      → mapcar func l s ≡ ok (fold_items func xs s)
  mapcar-Represents func l xs s (ns, h, e) =
      mapcar-Holds func l ns s h
      ∙ ap ok (fold_entries func ns s)
      ∙ ap (λ ys. ok (fold_items func ys s)) e
