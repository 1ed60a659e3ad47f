-- ===== src/Threads/LinkedList/Removal.antt =====
-- `Remove(item)` against removal from a sequence of nodes.
use op_prac.Base.{
  ℕ, zero, suc, ◌-◌, ◌≤◌, ◌≡◌, refl, sym, ap, subst, ◌∙◌, inl, inr, Bool, true, false, Option, none,
  some, List, [], ◌∷◌, arith, assert_failed, bad_access, ok, err, if◌then◌else◌, Bool-cases, length,
}
use op_prac.Base.Int.{ℤ}
use op_prac.Threads.LinkedList.{
  LinkedList, update, remove_from, remove_item, remove, sorted_remove, deref, delete_element,
}
use op_prac.Threads.LinkedList.Chain.{
  Node, start, element_of, Chain, Avoids, Distinct, Below, last_addr, entry, entries, Holds,
  update_self, update_ne, Chain-update,
}
use op_prac.Threads.LinkedList.Queue.{deref_lem, set_next_lem, sorted_remove-Holds}
use op_prac.Threads.LinkedList.Entries.{Represents}

module _ {ℓ} {A : Type ℓ} (same : A → A → Bool) (item : A) where
  -- The nodes without the first one that holds the item.
  abbrev without : List (Node A) → List (Node A)
  without [] = []
  without (n ∷ ns) = if same item n.value then ns else n ∷ without ns

  abbrev holds_item : List (Node A) → Bool
  holds_item [] = false
  holds_item (n ∷ ns) = if same item n.value then true else holds_item ns

  record Removed (l l' : LinkedList A) (p : Node A) (ns : List (Node A)) : Type ℓ where
    chain : Chain l'.cells (p ∷ without ns) none
    to_last : l'.last ≡ some (last_addr p (without ns))
    others : (a : ℕ) → Avoids a (p ∷ ns) → l'.cells a ≡ l.cells a
    same_first : l'.first ≡ l.first
    same_free : l'.next_free ≡ l.next_free
    counted : l'.num_in_list ≡ l.num_in_list - 1

  remove_from_missing :
      (fuel : ℕ) (l : LinkedList A) (prev : Option ℕ) (ns : List (Node A))
      → length ns ≤ fuel
      → Chain l.cells ns none
      → holds_item ns ≡ false
      → remove_from fuel same item prev (start ns none) l ≡ err assert_failed
  unfolding remove_from
  remove_from_missing fuel l prev [] f c h = refl
  remove_from_missing zero l prev (n ∷ ns) f c h = absurd (omega arith)
  remove_from_missing (suc fuel) l prev (n ∷ ns) f c h = elim (Bool-cases (same item n.value)) [
    | inl found ↦ absurd (ground (arith, found))
    | inr other ↦
        rw (deref_lem l {ptr = some n.addr} n.addr refl c.0, other)
          (remove_from_missing fuel l (some n.addr) ns (omega arith) c.1 (ground (arith, other)))
  ]

  remove_from_lem :
      (fuel : ℕ) (l : LinkedList A) (p : Node A) (ns : List (Node A)) (prev : Option ℕ)
      → length ns ≤ fuel
      → prev ≡ some p.addr
      → Chain l.cells (p ∷ ns) none
      → Distinct (p ∷ ns)
      → l.last ≡ some (last_addr p ns)
      → holds_item ns ≡ true
      → (l' : LinkedList A) × (remove_from fuel same item prev (start ns none) l ≡ ok l')
        × Removed l l' p ns
  unfolding remove_from
  remove_from_lem fuel l p [] prev f e c d to_last h = absurd (cc)
  remove_from_lem zero l p (n ∷ ns) prev f e c d to_last h = absurd (omega arith)
  remove_from_lem (suc fuel) l p (n ∷ []) prev f e c d to_last h =
      elim (Bool-cases (same item n.value)) [
        | inl found ↦
            let cells₁ = update l.cells p.addr (some (element_of p none)) in
            (
              delete_element (some n.addr) (record l { cells = cells₁; last = prev }),
              rw
                  (
                    deref_lem l {ptr = some n.addr} n.addr refl c.1.0,
                    found,
                    set_next_lem l p.addr none e c.0,
                  )
                  refl,
              (record {
                chain = rw found (
                    (update_ne cells₁ n.addr p.addr none d.0.0 ∙ update_self l.cells p.addr _, tt));
                to_last = rw found e;
                others = λ a away.
                    update_ne cells₁ n.addr a none away.1.0 ∙ update_ne l.cells p.addr a _ away.0;
                same_first = refl;
                same_free = refl;
                counted = refl;
              }),
            )
        | inr other ↦ absurd (ground (arith, other))
      ]
  remove_from_lem (suc fuel) l p (n ∷ m ∷ ns) prev f e c d to_last h =
      elim (Bool-cases (same item n.value)) [
        | inl found ↦
            let cells₁ = update l.cells p.addr (some (element_of p (some m.addr))) in
            (
              delete_element (some n.addr) (record l { cells = cells₁ }),
              rw
                  (
                    deref_lem l {ptr = some n.addr} n.addr refl c.1.0,
                    found,
                    set_next_lem l p.addr (some m.addr) e c.0,
                  )
                  refl,
              (record {
                chain = rw found (
                    (
                      update_ne cells₁ n.addr p.addr none d.0.0 ∙ update_self l.cells p.addr _,
                      Chain-update cells₁ n.addr none (m ∷ ns) none d.1.0
                          (Chain-update l.cells p.addr _ (m ∷ ns) none d.0.1 c.1.1),
                    ));
                to_last = rw found to_last;
                others = λ a away.
                    update_ne cells₁ n.addr a none away.1.0 ∙ update_ne l.cells p.addr a _ away.0;
                same_first = refl;
                same_free = refl;
                counted = refl;
              }),
            )
        | inr other ↦
            let (l', done, w) =
              remove_from_lem fuel l n (m ∷ ns) (some n.addr) (omega arith) refl c.1 d.1 to_last
                (ground (arith, other)) in
            (
              l',
              rw (deref_lem l {ptr = some n.addr} n.addr refl c.1.0, other) done,
              (record {
                chain = rw other ((w.others p.addr d.0 ∙ c.0, w.chain));
                to_last = rw other w.to_last;
                others = λ a away. w.others a away.1;
                same_first = w.same_first;
                same_free = w.same_free;
                counted = w.counted;
              }),
            )
      ]

  Avoids-without : (a : ℕ) (ns : List (Node A)) → Avoids a ns → Avoids a (without ns)
  Avoids-without a [] h = tt
  Avoids-without a (n ∷ ns) h = elim (Bool-cases (same item n.value)) [
    | inl found ↦ rw found h.1
    | inr other ↦ rw other (h.0, Avoids-without a ns h.1)
  ]

  Distinct-without : (ns : List (Node A)) → Distinct ns → Distinct (without ns)
  Distinct-without [] h = tt
  Distinct-without (n ∷ ns) h = elim (Bool-cases (same item n.value)) [
    | inl found ↦ rw found h.1
    | inr other ↦ rw other (Avoids-without n.addr ns h.0, Distinct-without ns h.1)
  ]

  Below-without : (bound : ℕ) (ns : List (Node A)) → Below bound ns → Below bound (without ns)
  Below-without bound [] h = tt
  Below-without bound (n ∷ ns) h = elim (Bool-cases (same item n.value)) [
    | inl found ↦ rw found h.1
    | inr other ↦ rw other (h.0, Below-without bound ns h.1)
  ]

  length-without :
      (ns : List (Node A)) → holds_item ns ≡ true → suc (length (without ns)) ≡ length ns
  length-without [] h = absurd (cc)
  length-without (n ∷ ns) h = elim (Bool-cases (same item n.value)) [
    | inl found ↦ rw found refl
    | inr other ↦ rw other (ap suc (length-without ns (ground (arith, other))))
  ]

  remove_first :
      (l l' : LinkedList A) (x : A) (key : ℤ)
      → sorted_remove l ≡ ok (some (x, key), l')
      → remove l ≡ ok (some x, l')
  unfolding remove
  remove_first l l' x key e = rw e refl

  remove_item-Holds :
      (l : LinkedList A) (ns : List (Node A))
      → Holds l ns
      → holds_item ns ≡ true
      → (l' : LinkedList A) × (remove_item same item l ≡ ok l') × Holds l' (without ns)
  unfolding remove_item
  remove_item-Holds l [] h e = absurd (cc)
  remove_item-Holds l (n ∷ ns) h e = elim (Bool-cases (same item n.value)) [
    | inl found ↦
        let (l', done, h') = sorted_remove-Holds l n ns h in
        let taken = remove_first l l' n.value n.sort_key done in
        (l', rw (deref_lem l n.addr h.from_first h.chain.0, found, taken, found) refl, rw found h')
    | inr other ↦
        let (l', done, w) =
          remove_from_lem l.num_in_list l n ns l.first (omega (arith, h.counted)) h.from_first
            h.chain h.distinct h.to_last (ground (arith, other)) in
        (
          l',
          rw (deref_lem l n.addr h.from_first h.chain.0, other) done,
          rw other (record {
            chain = w.chain;
            distinct = (Avoids-without n.addr ns h.distinct.0, Distinct-without ns h.distinct.1);
            below =
                subst (λ bound. Below bound (n ∷ without ns)) (sym w.same_free)
                  (h.below.0, Below-without l.next_free ns h.below.1);
            from_first = w.same_first ∙ h.from_first;
            to_last = w.to_last;
            counted =
                omega (arith, w.counted, h.counted, length-without ns (ground (arith, other)));
          }),
        )
  ]

  remove_item_missing :
      (l : LinkedList A) (n : Node A) (ns : List (Node A))
      → Holds l (n ∷ ns)
      → holds_item (n ∷ ns) ≡ false
      → remove_item same item l ≡ err assert_failed
  unfolding remove_item
  remove_item_missing l n ns h e = elim (Bool-cases (same item n.value)) [
    | inl found ↦ absurd (ground (arith, found))
    | inr other ↦
        rw (deref_lem l n.addr h.from_first h.chain.0, other)
          (remove_from_missing l.num_in_list l l.first ns (omega (arith, h.counted)) h.chain.1
            (ground (arith, other)))
  ]

  remove_item_empty : (l : LinkedList A) → Holds l [] → remove_item same item l ≡ err bad_access
  unfolding remove_item deref
  remove_item_empty l h = rw (h.from_first, deref) refl

  -- The entries without the first one that holds the item.
  abbrev pub without_item : List (ℤ × A) → List (ℤ × A)
  without_item [] = []
  without_item (e ∷ xs) = if same item e.1 then xs else e ∷ without_item xs

  abbrev pub has_item : List (ℤ × A) → Bool
  has_item [] = false
  has_item (e ∷ xs) = if same item e.1 then true else has_item xs

  entries-without : (ns : List (Node A)) → entries (without ns) ≡ without_item (entries ns)
  entries-without [] = refl
  entries-without (n ∷ ns) = elim (Bool-cases (same item n.value)) [
    | inl found ↦ rw found refl
    | inr other ↦ rw other (ap (◌∷◌ (entry n)) (entries-without ns))
  ]

  has_item-entries : (ns : List (Node A)) → holds_item ns ≡ has_item (entries ns)
  has_item-entries [] = refl
  has_item-entries (n ∷ ns) =
      ap (λ rest. if same item n.value then true else rest) (has_item-entries ns)

  -- What `Remove(item)` comes to on a list that stands for `xs`.
  abbrev pub RemovesItem : LinkedList A → List (ℤ × A) → Type ℓ
  RemovesItem l xs =
      if has_item xs
      then ((l' : LinkedList A) × (remove_item same item l ≡ ok l')
          × Represents l' (without_item xs))
      else (remove_item same item l ≡ err (elim xs [ [] ↦ bad_access | _ ∷ _ ↦ assert_failed ]))

  RemovesItem-entries :
      (l : LinkedList A) (ns : List (Node A)) → Holds l ns → RemovesItem l (entries ns)
  RemovesItem-entries l [] h = remove_item_empty l h
  RemovesItem-entries l (n ∷ ns) h = elim (Bool-cases (has_item (entries (n ∷ ns)))) [
    | inl found ↦
        let (l', done, h') = remove_item-Holds l (n ∷ ns) h (has_item-entries (n ∷ ns) ∙ found) in
        rw found (l', done, (without (n ∷ ns), h', entries-without (n ∷ ns)))
    | inr missing ↦ rw missing (remove_item_missing l n ns h (has_item-entries (n ∷ ns) ∙ missing))
  ]

  -- `Remove(item)` takes out the first entry that holds the item. Where no entry does, it ends the
  -- program: at an ASSERT, or through a null pointer if the list is empty.
  pub remove_item-RemovesItem :
      (l : LinkedList A) (xs : List (ℤ × A)) → Represents l xs → RemovesItem l xs
  remove_item-RemovesItem l xs (ns, h, e) = subst (RemovesItem l) e (RemovesItem-entries l ns h)
