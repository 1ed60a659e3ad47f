-- ===== src/Threads/LinkedList.antt =====
-- code/threads/list.h and list.cc: the singly linked list, with its elements in memory.
-- The elements of a list are reachable from that list alone, so its part of the heap belongs to
-- its state: `cells` gives the element at an address, and `next_free` is an address above all that
-- were handed out. `void *` items are of any type `A`; a NULL result is `none`.
pub mod Chain
pub mod Entries
pub mod Queue
pub mod Sorted
pub mod Removal
mod Tests
use op_prac.Base.{
  ℕ, zero, suc, ◌+◌, ◌-◌, Bool, true, false, Option, none, some, Result, ok, err, assert_failed,
  bad_access, out_of_fuel, ◌>>=◌, ◌>>◌, assert, or_fault, ◌==◌, if◌then◌else◌,
}
use op_prac.Base.Int.{ℤ, pos, ltb_ℤ}

pub record ListElement {ℓ} (A : Type ℓ) : Type ℓ where
  pub next : Option ℕ
  pub key : ℤ
  pub item : A

pub record LinkedList {ℓ} (A : Type ℓ) : Type ℓ where
  pub cells : ℕ → Option (ListElement A)
  pub next_free : ℕ
  pub first : Option ℕ
  pub last : Option ℕ
  pub num_in_list : ℕ

-- Two pointers are the same.
abbrev ptr_eq : Option ℕ → Option ℕ → Bool
ptr_eq none none = true
ptr_eq none (some b) = false
ptr_eq (some a) none = false
ptr_eq (some a) (some b) = a == b

module _ {ℓ} {A : Type ℓ} where
  abbrev pub update :
      (ℕ → Option (ListElement A)) → ℕ → Option (ListElement A) → ℕ → Option (ListElement A)
  update cells a v b = if a == b then v else cells b

  -- The constructor.
  pub new_list : LinkedList A
  new_list = record { cells = λ _. none; next_free = 0; first = none; last = none; num_in_list = 0 }

  -- `*ptr`
  pub deref : LinkedList A → Option ℕ → Result (ListElement A)
  deref l none = err bad_access
  deref l (some a) = or_fault (l.cells a)

  -- `ptr->next = target`
  pub set_next : Option ℕ → Option ℕ → LinkedList A → Result (LinkedList A)
  set_next none target l = err bad_access
  set_next (some a) target l = do
    element ← or_fault (l.cells a)
    ok (record l { cells = update l.cells a (some (record element { next = target })) })

  -- `new ListElement(item, sortKey)`, at the address `next_free`.
  abbrev new_element : A → ℤ → LinkedList A → LinkedList A
  new_element item key l = record l {
    cells = update l.cells l.next_free (some (record { next = none; key = key; item = item }));
    next_free = l.next_free + 1;
  }

  pub is_empty : LinkedList A → Bool
  is_empty l = elim l.first [ none ↦ true | some _ ↦ false ]

  -- `element` becomes the first and only one.
  abbrev only_element : ℕ → LinkedList A → LinkedList A
  only_element element l = record l {
    first = some element;
    last = some element;
    num_in_list = l.num_in_list + 1;
  }

  -- `last->next = element; last = element; numInList++`
  abbrev put_last : ℕ → LinkedList A → Result (LinkedList A)
  put_last element l = do
    l' ← set_next l.last (some element) l
    ok (record l' { last = some element; num_in_list = l'.num_in_list + 1 })

  -- `element->next = first; first = element; numInList++`
  abbrev put_first : ℕ → LinkedList A → Result (LinkedList A)
  put_first element l = do
    l' ← set_next (some element) l.first l
    ok (record l' { first = some element; num_in_list = l'.num_in_list + 1 })

  pub append : A → LinkedList A → Result (LinkedList A)
  append item l =
      let l' = new_element item (pos 0) l in
      if is_empty l then ok (only_element l.next_free l') else put_last l.next_free l'

  pub prepend : A → LinkedList A → Result (LinkedList A)
  prepend item l =
      let l' = new_element item (pos 0) l in
      if is_empty l then ok (only_element l.next_free l') else put_first l.next_free l'

  -- The loop of `SortedInsert`, with `ptr` at an element.
  insert_after : ℕ → ℤ → ℕ → Option ℕ → LinkedList A → Result (LinkedList A)
  insert_after zero key element ptr l = err out_of_fuel
  insert_after (suc fuel) key element ptr l = do
    here ← deref l ptr
    elim here.next [
      | none ↦ put_last element l
      | some after ↦ (do
        there ← deref l (some after)
        let rest = insert_after fuel key element (some after) l
        if ltb_ℤ key there.key
            then (do
              l' ← set_next (some element) (some after) l
              l'' ← set_next ptr (some element) l'
              ok (record l'' { num_in_list = l''.num_in_list + 1 }))
            else rest)
    ]

  pub sorted_insert : A → ℤ → LinkedList A → Result (LinkedList A)
  sorted_insert item key l =
      let l' = new_element item key l in
      if is_empty l then ok (only_element l.next_free l') else (do
        front ← deref l' l'.first
        let later = insert_after l.num_in_list key l.next_free l'.first l'
        if ltb_ℤ key front.key then put_first l.next_free l' else later)

  -- `delete` of a pointer.
  abbrev free_cell : Option ℕ → (ℕ → Option (ListElement A)) → ℕ → Option (ListElement A)
  free_cell none cells = cells
  free_cell (some a) cells = update cells a none

  -- `delete element; numInList--`
  abbrev delete_element : Option ℕ → LinkedList A → LinkedList A
  delete_element element l = record l {
    cells = free_cell element l.cells;
    num_in_list = l.num_in_list - 1;
  }

  -- The item and, through the pointer argument, its key.
  pub sorted_remove : LinkedList A → Result (Option (A × ℤ) × LinkedList A)
  sorted_remove l = if is_empty l then ok (none, l) else (do
    element ← deref l l.first
    let l' =
        if ptr_eq l.first l.last
        then record l { first = none; last = none }
        else record l { first = element.next }
    ok (some (element.item, element.key), delete_element l.first l'))

  pub remove : LinkedList A → Result (Option A × LinkedList A)
  unfolding sorted_remove
  remove l = do
    (taken, l') ← sorted_remove l
    ok (elim taken [ none ↦ none | some (item, _) ↦ some item ], l')

  -- What `Remove(item)` does with the element at `ptr`, which holds the item: it is linked past.
  abbrev unlink : Option ℕ → Option ℕ → Option ℕ → LinkedList A → Result (LinkedList A)
  unlink prev ptr next l = do
    l' ← set_next prev next l
    let l'' : LinkedList A = elim next [ none ↦ record l' { last = prev } | some _ ↦ l' ]
    ok (delete_element ptr l'')

  -- Its loop, with `ptr` behind the element at `prev`. `same` compares two item pointers.
  remove_from : ℕ → (A → A → Bool) → A → Option ℕ → Option ℕ → LinkedList A → Result (LinkedList A)
  remove_from fuel same item prev none l = err assert_failed
  remove_from zero same item prev (some a) l = err out_of_fuel
  remove_from (suc fuel) same item prev (some a) l = do
    element ← deref l (some a)
    let rest = remove_from fuel same item (some a) element.next l
    if same item element.item then unlink prev (some a) element.next l else rest

  -- `ASSERT(item == removed)`
  abbrev checked : (A → A → Bool) → A → Option A × LinkedList A → Result (LinkedList A)
  checked same item (none, l) = err assert_failed
  checked same item (some removed, l) = assert (same item removed) >> ok l

  pub remove_item : (A → A → Bool) → A → LinkedList A → Result (LinkedList A)
  unfolding remove_from
  remove_item same item l = do
    front ← deref l l.first
    let rest = remove_from l.num_in_list same item l.first front.next l
    if same item front.item then remove l >>= checked same item else rest

  -- `Mapcar`, for a function that works on a state `S`: the loop from the element at `ptr` on.
  mapcar_from {κ} : {S : Type κ} → ℕ → (A → S → S) → Option ℕ → LinkedList A → S → Result S
  mapcar_from zero func ptr l s = elim ptr [ none ↦ ok s | some _ ↦ err out_of_fuel ]
  mapcar_from (suc fuel) func ptr l s = elim ptr [
    | none ↦ ok s
    | some a ↦ (do
      element ← deref l (some a)
      mapcar_from fuel func element.next l (func element.item s))
  ]

  pub mapcar {κ} : {S : Type κ} → (A → S → S) → LinkedList A → S → Result S
  unfolding mapcar_from
  mapcar func l s = mapcar_from l.num_in_list func l.first l s
