-- ===== src/Threads/LinkedList/Queue.antt =====
-- `Append`, `Prepend`, `Remove` and `Mapcar` against the sequence of entries.
use mathlib.Core.Path.{subst}
use op_prac.Base.{
  ℕ, zero, suc, ◌+◌, ◌≤◌, ◌≡◌, refl, sym, ap, ◌∙◌, true, false, Option, none, some, List, [], ◌∷◌,
  ◌++◌, arith, ok, length, length-append,
}
use op_prac.Base.Int.{ℤ, pos}
use op_prac.Threads.LinkedList.{
  ListElement, LinkedList, update, put_last, put_first, append, prepend, sorted_remove, is_empty,
  mapcar, mapcar_from, set_next, deref, new_element, ptr_eq, free_cell, only_element,
  delete_element,
}
use op_prac.Threads.LinkedList.Chain.{
  Node, start, element_of, Chain, Avoids, Distinct, last_addr, last_addr-ne, Holds, update_self,
  update_ne, Avoids-Below, Below-suc, Chain-update, relink_last, Chain-snoc, Distinct-snoc,
  Below-snoc, last_of-snoc,
}

module _ {ℓ} {A : Type ℓ} where
  -- The node that `new ListElement` makes.
  abbrev pub fresh_node : LinkedList A → ℤ → A → Node A
  fresh_node l key x = record { addr = l.next_free; sort_key = key; value = x }

  pub Holds-empty : (l : LinkedList A) → Holds l [] → is_empty l ≡ true
  unfolding is_empty
  Holds-empty l h = rw h.from_first refl

  pub Holds-nonempty :
      (l : LinkedList A) (n : Node A) (ns : List (Node A)) → Holds l (n ∷ ns) → is_empty l ≡ false
  unfolding is_empty
  Holds-nonempty l n ns h = rw h.from_first refl

  pub deref_lem :
      (l : LinkedList A) {ptr : Option ℕ} (a : ℕ) {element : ListElement A}
      → ptr ≡ some a
      → l.cells a ≡ some element
      → deref l ptr ≡ ok element
  unfolding deref
  deref_lem l a p e = rw (p, deref) (rw e refl)

  pub set_next_lem :
      (l : LinkedList A) {ptr : Option ℕ} (a : ℕ) (target : Option ℕ) {element : ListElement A}
      → ptr ≡ some a
      → l.cells a ≡ some element
      → set_next ptr target l
        ≡ ok (record l { cells = update l.cells a (some (record element { next = target })) })
  unfolding set_next
  set_next_lem l a target p e = rw (p, set_next) (rw e refl)

  pub put_last_lem :
      (l : LinkedList A) (n : Node A) (ns : List (Node A)) (m : Node A)
      → Chain l.cells (n ∷ ns) none
      → Distinct (n ∷ ns)
      → l.last ≡ some (last_addr n ns)
      → l.cells m.addr ≡ some (element_of m none)
      → Avoids m.addr (n ∷ ns)
      → (cells : ℕ → Option (ListElement A)) × (put_last m.addr l
          ≡ ok (record l { cells = cells; last = some m.addr; num_in_list = l.num_in_list + 1 }))
        × Chain cells (n ∷ ns ++ m ∷ []) none
  put_last_lem l n ns m c d to_last new h =
      let (element, e, c') = relink_last l.cells n ns none (some m.addr) d c in
      (
        update l.cells (last_addr n ns) (some (record element { next = some m.addr })),
        rw (set_next_lem l (last_addr n ns) (some m.addr) to_last e) refl,
        Chain-snoc _ (n ∷ ns) m none c'
            (update_ne l.cells (last_addr n ns) m.addr _ (last_addr-ne n ns m.addr h) ∙ new, tt),
      )

  -- Facts about the memory after `new ListElement`.
  module _ (x : A) (key : ℤ) (l : LinkedList A) (ns : List (Node A)) (h : Holds l ns) where
    pub fresh-Avoids : Avoids l.next_free ns
    fresh-Avoids = Avoids-Below l.next_free ns h.below

    pub fresh-Chain : Chain (new_element x key l).cells ns none
    fresh-Chain = Chain-update l.cells l.next_free _ ns none fresh-Avoids h.chain

    pub fresh_element :
        (new_element x key l).cells l.next_free ≡ some (element_of (fresh_node l key x) none)
    fresh_element = update_self l.cells l.next_free _

  pub only_Holds :
      (x : A) (key : ℤ) (l : LinkedList A)
      → Holds l []
      → Holds (only_element l.next_free (new_element x key l)) (fresh_node l key x ∷ [])
  only_Holds x key l h = record {
    chain = (fresh_element x key l [] h, tt);
    distinct = (tt, tt);
    below = (omega arith, tt);
    from_first = refl;
    to_last = refl;
    counted = omega (arith, h.counted);
  }

  -- `Append` puts the item at the end, with the key 0.
  pub append-Holds :
      (x : A) (l : LinkedList A) (ns : List (Node A))
      → Holds l ns
      → (l' : LinkedList A) × (append x l ≡ ok l') × Holds l' (ns ++ fresh_node l (pos 0) x ∷ [])
  unfolding append
  append-Holds x l [] h = (
    only_element l.next_free (new_element x (pos 0) l),
    rw (Holds-empty l h) refl,
    only_Holds x (pos 0) l h,
  )
  append-Holds x l (n ∷ ns) h =
      let m = fresh_node l (pos 0) x in
      let (cells, e, c) =
        put_last_lem (new_element x (pos 0) l) n ns m (fresh-Chain x (pos 0) l (n ∷ ns) h)
          h.distinct h.to_last (fresh_element x (pos 0) l (n ∷ ns) h)
          (fresh-Avoids x (pos 0) l (n ∷ ns) h) in
      (
        record (new_element x (pos 0) l) {
          cells = cells;
          last = some m.addr;
          num_in_list = l.num_in_list + 1;
        },
        rw (Holds-nonempty l n ns h) e,
        record {
          chain = c;
          distinct = Distinct-snoc (n ∷ ns) m h.distinct (fresh-Avoids x (pos 0) l (n ∷ ns) h);
          below =
              Below-snoc (l.next_free + 1) (n ∷ ns) m (Below-suc l.next_free (n ∷ ns) h.below)
                (omega arith);
          from_first = h.from_first;
          to_last = sym (last_of-snoc (n ∷ ns) m);
          counted = omega (arith, h.counted, length-append {ℓ} (n ∷ ns) (m ∷ []));
        },
      )

  pub put_first-Holds :
      (x : A) (key : ℤ) (l : LinkedList A) (n : Node A) (ns : List (Node A))
      → Holds l (n ∷ ns)
      → (l' : LinkedList A) × (put_first l.next_free (new_element x key l) ≡ ok l')
        × Holds l' (fresh_node l key x ∷ n ∷ ns)
  put_first-Holds x key l n ns h =
      let m = fresh_node l key x in
      let made = new_element x key l in
      let cells = update made.cells m.addr (some (element_of m l.first)) in
      (
        record made { cells = cells; first = some m.addr; num_in_list = l.num_in_list + 1 },
        rw (set_next_lem made m.addr l.first refl (fresh_element x key l (n ∷ ns) h)) refl,
        record {
          chain = (
            update_self made.cells m.addr _ ∙ ap (λ p. some (element_of m p)) h.from_first,
            Chain-update made.cells m.addr _ (n ∷ ns) none (fresh-Avoids x key l (n ∷ ns) h)
                (fresh-Chain x key l (n ∷ ns) h),
          );
          distinct = (fresh-Avoids x key l (n ∷ ns) h, h.distinct);
          below = (omega arith, Below-suc l.next_free (n ∷ ns) h.below);
          from_first = refl;
          to_last = h.to_last;
          counted = omega (arith, h.counted);
        },
      )

  -- `Prepend` puts the item at the front, with the key 0.
  pub prepend-Holds :
      (x : A) (l : LinkedList A) (ns : List (Node A))
      → Holds l ns
      → (l' : LinkedList A) × (prepend x l ≡ ok l') × Holds l' (fresh_node l (pos 0) x ∷ ns)
  unfolding prepend
  prepend-Holds x l [] h = (
    only_element l.next_free (new_element x (pos 0) l),
    rw (Holds-empty l h) refl,
    only_Holds x (pos 0) l h,
  )
  prepend-Holds x l (n ∷ ns) h =
      let (l', e, h') = put_first-Holds x (pos 0) l n ns h in
      (l', rw (Holds-nonempty l n ns h) e, h')

  pub sorted_remove_empty : (l : LinkedList A) → Holds l [] → sorted_remove l ≡ ok (none, l)
  unfolding sorted_remove
  sorted_remove_empty l h = rw (Holds-empty l h) refl

  only_one : (l : LinkedList A) (n : Node A) → Holds l (n ∷ []) → ptr_eq l.first l.last ≡ true
  only_one l n h = rw (h.from_first, h.to_last) (ground arith)

  several :
      (l : LinkedList A) (n m : Node A) (ns : List (Node A))
      → Holds l (n ∷ m ∷ ns)
      → ptr_eq l.first l.last ≡ false
  several l n m ns h =
      rw (h.from_first, h.to_last) (let ne = last_addr-ne m ns n.addr h.distinct.0 in ground arith)

  -- `SortedRemove` takes the first entry, key and item, and frees its element.
  pub sorted_remove-Holds :
      (l : LinkedList A) (n : Node A) (ns : List (Node A))
      → Holds l (n ∷ ns)
      → (l' : LinkedList A) × (sorted_remove l ≡ ok (some (n.value, n.sort_key), l')) × Holds l' ns
  unfolding sorted_remove
  sorted_remove-Holds l n [] h = (
    delete_element l.first (record l { first = none; last = none }),
    rw (Holds-nonempty l n [] h, deref_lem l n.addr h.from_first h.chain.0, only_one l n h) refl,
    record {
      chain = tt;
      distinct = tt;
      below = tt;
      from_first = refl;
      to_last = refl;
      counted = omega (arith, h.counted);
    },
  )
  sorted_remove-Holds l n (m ∷ ns) h = (
    delete_element l.first (record l { first = some m.addr }),
    rw
        (
          Holds-nonempty l n (m ∷ ns) h,
          deref_lem l n.addr h.from_first h.chain.0,
          several l n m ns h,
        )
        refl,
    record {
      chain =
          subst (λ p. Chain (free_cell p l.cells) (m ∷ ns) none) (sym h.from_first)
            (Chain-update l.cells n.addr none (m ∷ ns) none h.distinct.0 h.chain.1);
      distinct = h.distinct.1;
      below = h.below.1;
      from_first = refl;
      to_last = h.to_last;
      counted = omega (arith, h.counted);
    },
  )

  abbrev pub fold_values {κ} : {S : Type κ} → (A → S → S) → List (Node A) → S → S
  fold_values func [] s = s
  fold_values func (n ∷ ns) s = fold_values func ns (func n.value s)

  mapcar_from_lem {κ} :
      {S : Type κ} (fuel : ℕ) (func : A → S → S) (l : LinkedList A) (ns : List (Node A)) (s : S)
      → length ns ≤ fuel
      → Chain l.cells ns none
      → mapcar_from fuel func (start ns none) l s ≡ ok (fold_values func ns s)
  unfolding mapcar_from
  mapcar_from_lem zero func l [] s h c = refl
  mapcar_from_lem zero func l (n ∷ ns) s h c = absurd (omega arith)
  mapcar_from_lem (suc fuel) func l [] s h c = refl
  mapcar_from_lem (suc fuel) func l (n ∷ ns) s h c =
      rw (deref_lem l n.addr refl c.0)
        (mapcar_from_lem fuel func l ns (func n.value s) (omega arith) c.1)

  -- `Mapcar` ends, and applies the function to every item from first to last.
  pub mapcar-Holds {κ} :
      {S : Type κ} (func : A → S → S) (l : LinkedList A) (ns : List (Node A)) (s : S)
      → Holds l ns
      → mapcar func l s ≡ ok (fold_values func ns s)
  unfolding mapcar
  mapcar-Holds func l ns s h =
      ap (λ ptr. mapcar_from l.num_in_list func ptr l s) h.from_first
      ∙ mapcar_from_lem l.num_in_list func l ns s (omega (arith, h.counted)) h.chain
