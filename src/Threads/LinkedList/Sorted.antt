-- ===== src/Threads/LinkedList/Sorted.antt =====
-- `SortedInsert` against insertion into a sequence of nodes.
use op_prac.Base.{
  ℕ, zero, suc, ◌+◌, ◌<◌, ◌≡◌, refl, sym, subst, ◌∙◌, ◌≢◌, inl, inr, Option, none, some, List, [],
  ◌∷◌, arith, ok, if◌then◌else◌, Bool-cases, length,
}
use op_prac.Base.Int.{ℤ, ltb_ℤ}
use op_prac.Threads.LinkedList.{
  LinkedList, update, insert_after, sorted_insert, new_element, only_element,
}
use op_prac.Threads.LinkedList.Chain.{
  Node, element_of, Chain, Avoids, Distinct, Below, last_addr, Holds, update_self, update_ne,
  Below-suc, Chain-update,
}
use op_prac.Threads.LinkedList.Queue.{
  fresh_node, fresh-Avoids, fresh-Chain, fresh_element, put_first-Holds, only_Holds, Holds-empty,
  Holds-nonempty, deref_lem, set_next_lem,
}

module _ {ℓ} {A : Type ℓ} where
  -- The node goes before the first one with a greater key.
  abbrev pub place : Node A → List (Node A) → List (Node A)
  place m [] = m ∷ []
  place m (n ∷ ns) = if ltb_ℤ m.sort_key n.sort_key then m ∷ n ∷ ns else n ∷ place m ns

  -- `l'` is `l` with the node `m` linked in among the nodes that `n` begins; only the links of
  -- those nodes and of `m` have changed.
  record Linked (l l' : LinkedList A) (n : Node A) (ns : List (Node A)) (m : Node A) : Type ℓ where
    chain : Chain l'.cells (n ∷ place m ns) none
    to_last : l'.last ≡ some (last_addr n (place m ns))
    others : (a : ℕ) → Avoids a (n ∷ ns) → a ≢ m.addr → l'.cells a ≡ l.cells a
    same_first : l'.first ≡ l.first
    same_free : l'.next_free ≡ l.next_free
    counted : l'.num_in_list ≡ l.num_in_list + 1

  insert_after_lem :
      (fuel : ℕ) (l : LinkedList A) (n : Node A) (ns : List (Node A)) (m : Node A) (ptr : Option ℕ)
      → length ns < fuel
      → ptr ≡ some n.addr
      → Chain l.cells (n ∷ ns) none
      → Distinct (n ∷ ns)
      → l.last ≡ some (last_addr n ns)
      → l.cells m.addr ≡ some (element_of m none)
      → Avoids m.addr (n ∷ ns)
      → (l' : LinkedList A) × (insert_after fuel m.sort_key m.addr ptr l ≡ ok l')
        × Linked l l' n ns m
  unfolding insert_after
  insert_after_lem zero l n ns m ptr lt p c d to_last new h = absurd (omega arith)
  insert_after_lem (suc fuel) l n [] m ptr lt p c d to_last new h =
      let cells' = update l.cells n.addr (some (element_of n (some m.addr))) in
      (
        record l { cells = cells'; last = some m.addr; num_in_list = l.num_in_list + 1 },
        rw (deref_lem l n.addr p c.0, set_next_lem l n.addr (some m.addr) to_last c.0) refl,
        record {
          chain = (update_self l.cells n.addr _, (update_ne l.cells n.addr m.addr _ h.0 ∙ new, tt));
          to_last = refl;
          others = λ a away _. update_ne l.cells n.addr a _ away.0;
          same_first = refl;
          same_free = refl;
          counted = refl;
        },
      )
  insert_after_lem (suc fuel) l n (k ∷ ns) m ptr lt p c d to_last new h =
      elim (Bool-cases (ltb_ℤ m.sort_key k.sort_key)) [
        | inl before ↦
            let linked = update l.cells m.addr (some (element_of m (some k.addr))) in
            let l' = record l { cells = linked } in
            let at_n : linked n.addr ≡ some (element_of n (some k.addr)) =
              update_ne l.cells m.addr n.addr _ (λ e. h.0 (sym e)) ∙ c.0 in
            (
              record l {
                cells = update linked n.addr (some (element_of n (some m.addr)));
                num_in_list = l.num_in_list + 1;
              },
              rw
                  (
                    deref_lem l n.addr p c.0,
                    deref_lem l {ptr = some k.addr} k.addr refl c.1.0,
                    before,
                    set_next_lem l {ptr = some m.addr} m.addr (some k.addr) refl new,
                    set_next_lem l' n.addr (some m.addr) p at_n,
                  )
                  refl,
              (record {
                chain = rw before (
                  update_self linked n.addr _,
                  (
                    update_ne linked n.addr m.addr _ h.0 ∙ update_self l.cells m.addr _,
                    Chain-update linked n.addr _ (k ∷ ns) none d.0
                        (Chain-update l.cells m.addr _ (k ∷ ns) none h.1 c.1),
                  ),
                );
                to_last = rw before to_last;
                others = λ a away ne.
                    update_ne linked n.addr a _ away.0
                    ∙ update_ne l.cells m.addr a _ (λ e. ne (sym e));
                same_first = refl;
                same_free = refl;
                counted = refl;
              }),
            )
        | inr after ↦
            let (l', e, w) =
              insert_after_lem fuel l k ns m (some k.addr) (omega arith) refl c.1 d.1 to_last new
                h.1 in
            (
              l',
              rw
                  (
                    deref_lem l n.addr p c.0,
                    deref_lem l {ptr = some k.addr} k.addr refl c.1.0,
                    after,
                  )
                  e,
              (record {
                chain = rw after (w.others n.addr d.0 h.0 ∙ c.0, w.chain);
                to_last = rw after w.to_last;
                others = λ a away ne. w.others a away.1 ne;
                same_first = w.same_first;
                same_free = w.same_free;
                counted = w.counted;
              }),
            )
      ]

  Avoids-place :
      (a : ℕ) (m : Node A) (ns : List (Node A)) → Avoids a ns → m.addr ≢ a → Avoids a (place m ns)
  Avoids-place a m [] h ne = (ne, tt)
  Avoids-place a m (n ∷ ns) h ne = elim (Bool-cases (ltb_ℤ m.sort_key n.sort_key)) [
    | inl before ↦ rw before (ne, h)
    | inr after ↦ rw after (h.0, Avoids-place a m ns h.1 ne)
  ]

  Distinct-place :
      (m : Node A) (ns : List (Node A)) → Distinct ns → Avoids m.addr ns → Distinct (place m ns)
  Distinct-place m [] d h = (tt, tt)
  Distinct-place m (n ∷ ns) d h = elim (Bool-cases (ltb_ℤ m.sort_key n.sort_key)) [
    | inl before ↦ rw before (h, d)
    | inr after ↦
        rw after (Avoids-place n.addr m ns d.0 (λ e. h.0 (sym e)), Distinct-place m ns d.1 h.1)
  ]

  Below-place :
      (bound : ℕ) (m : Node A) (ns : List (Node A))
      → Below bound ns
      → m.addr < bound
      → Below bound (place m ns)
  Below-place bound m [] h lt = (lt, tt)
  Below-place bound m (n ∷ ns) h lt = elim (Bool-cases (ltb_ℤ m.sort_key n.sort_key)) [
    | inl before ↦ rw before (lt, h)
    | inr after ↦ rw after (h.0, Below-place bound m ns h.1 lt)
  ]

  length-place : (m : Node A) (ns : List (Node A)) → length (place m ns) ≡ suc (length ns)
  length-place m [] = refl
  length-place m (n ∷ ns) = ground (arith, length-place m ns)

  -- `SortedInsert` ends, and puts the new node before the first one with a greater key.
  pub sorted_insert-Holds :
      (x : A) (key : ℤ) (l : LinkedList A) (ns : List (Node A))
      → Holds l ns
      → (l' : LinkedList A) × (sorted_insert x key l ≡ ok l')
        × Holds l' (place (fresh_node l key x) ns)
  unfolding sorted_insert
  sorted_insert-Holds x key l [] h = (
    only_element l.next_free (new_element x key l),
    rw (Holds-empty l h) refl,
    only_Holds x key l h,
  )
  sorted_insert-Holds x key l (n ∷ ns) h =
      let m = fresh_node l key x in
      let made = new_element x key l in
      let c = fresh-Chain x key l (n ∷ ns) h in
      elim (Bool-cases (ltb_ℤ key n.sort_key)) [
        | inl before ↦
            let (l', e, h') = put_first-Holds x key l n ns h in
            (
              l',
              rw (Holds-nonempty l n ns h, deref_lem made n.addr h.from_first c.0, before) e,
              rw before h',
            )
        | inr after ↦
            let (l', e, w) =
              insert_after_lem l.num_in_list made n ns m l.first (omega (arith, h.counted))
                h.from_first c h.distinct h.to_last (fresh_element x key l (n ∷ ns) h)
                (fresh-Avoids x key l (n ∷ ns) h) in
            (
              l',
              rw (Holds-nonempty l n ns h, deref_lem made n.addr h.from_first c.0, after) e,
              rw after (record {
                chain = w.chain;
                distinct = (
                  Avoids-place n.addr m ns h.distinct.0
                      (λ e. (fresh-Avoids x key l (n ∷ ns) h).0 (sym e)),
                  Distinct-place m ns h.distinct.1 (fresh-Avoids x key l (n ∷ ns) h).1,
                );
                below =
                    subst (λ bound. Below bound (n ∷ place m ns)) (sym w.same_free)
                      (
                        omega (arith, h.below.0),
                        Below-place (l.next_free + 1) m ns (Below-suc l.next_free ns h.below.1)
                            (omega arith),
                      );
                from_first = w.same_first ∙ h.from_first;
                to_last = w.to_last;
                counted = omega (arith, w.counted, h.counted, length-place m ns);
              }),
            )
      ]
