-- ===== src/Threads/LinkedList/Tests.antt =====
-- Runs of the linked list on small inputs, and its theorems at a list of two elements.
use op_prac.Base.{
  ℕ, ◌≡◌, refl, Bool, none, some, List, [], ◌∷◌, arith, Result, ok, ◌>>=◌, ◌==◌, if◌then◌else◌,
}
use op_prac.Base.Int.{ℤ, pos}
use op_prac.Threads.LinkedList.{
  LinkedList, sorted_insert, insert_after, mapcar, mapcar_from, deref, set_next, is_empty,
}
use op_prac.Threads.LinkedList.Removal.{RemovesItem, remove_item-RemovesItem}
use op_prac.Threads.LinkedList.Entries.{
  Represents, insert_entry, Removes, IsSorted, Split, sorted_insert-Represents, remove-Removes,
  sorted_insert-Split,
}

abbrev two_items : LinkedList ℕ
two_items = record {
  cells = λ a.
      if a == 0
      then some (record { next = some 1; key = pos 2; item = 70 })
      else if a == 1
      then some (record { next = none; key = pos 5; item = 80 })
      else none;
  next_free = 2;
  first = some 0;
  last = some 1;
  num_in_list = 2;
}

abbrev two_entries : List (ℤ × ℕ)
two_entries = (pos 2, 70) ∷ (pos 5, 80) ∷ []

two_items-Represents : Represents two_items two_entries
two_items-Represents = (
  record { addr = 0; sort_key = pos 2; value = 70 }
      ∷ record { addr = 1; sort_key = pos 5; value = 80 }
      ∷ [],
  record {
    chain = (refl, (refl, tt));
    distinct = ((λ p. absurd (omega arith), tt), (tt, tt));
    below = omega arith;
    from_first = refl;
    to_last = refl;
    counted = refl;
  },
  refl,
)

two_entries-IsSorted : IsSorted two_entries
two_entries-IsSorted = ((omega arith, tt), (tt, tt))

-- Collects the items, the last one first.
abbrev collect : ℕ → List ℕ → List ℕ
collect x xs = x ∷ xs

abbrev items_after : Result (LinkedList ℕ) → Result (List ℕ)
items_after r = r >>= λ l. mapcar collect l []

-- An entry of the same key goes behind the one that is there.
same_key_last : items_after (sorted_insert 75 (pos 2) two_items) ≡ ok (80 ∷ 75 ∷ 70 ∷ [])
unfolding sorted_insert mapcar insert_after mapcar_from deref set_next is_empty
same_key_last = refl

remove-Removes_example : Removes two_items two_entries
remove-Removes_example = remove-Removes two_items two_entries two_items-Represents

sorted_insert-Represents_example :
    (l' : LinkedList ℕ) × (sorted_insert 75 (pos 2) two_items ≡ ok l')
    × Represents l' (insert_entry (pos 2, 75) two_entries)
sorted_insert-Represents_example =
    sorted_insert-Represents 75 (pos 2) two_items two_entries two_items-Represents

sorted_insert-Split_example :
    (l' : LinkedList ℕ) × (ys : List (ℤ × ℕ)) × (sorted_insert 75 (pos 2) two_items ≡ ok l')
    × Represents l' ys
    × IsSorted ys
    × Split (pos 2) (pos 2, 75) two_entries ys
sorted_insert-Split_example =
    sorted_insert-Split 75 (pos 2) two_items two_entries two_items-Represents two_entries-IsSorted

abbrev same_number : ℕ → ℕ → Bool
same_number a b = a == b

remove_item-RemovesItem_example : RemovesItem same_number 80 two_items two_entries
remove_item-RemovesItem_example =
    remove_item-RemovesItem same_number 80 two_items two_entries two_items-Represents
