-- ===== src/Threads/LinkedList/Chain.antt =====
-- Chains of elements in memory: what a list stands for, and which writes leave it alone.
use op_prac.Base.{
  ℕ, ◌+◌, ◌<◌, ◌≡◌, refl, ◌≢◌, sym, ap, ◌∙◌, Option, none, some, List, [], ◌∷◌, ◌++◌, arith, length,
}
use op_prac.Base.Int.{ℤ}
use op_prac.Threads.LinkedList.{ListElement, LinkedList, update}

pub record Node {ℓ} (A : Type ℓ) : Type ℓ where
  pub addr : ℕ
  pub sort_key : ℤ
  pub value : A

module _ {ℓ} {A : Type ℓ} where
  -- The address of the first node, or what follows an empty chain.
  abbrev pub start : List (Node A) → Option ℕ → Option ℕ
  start [] end = end
  start (n ∷ ns) end = some n.addr

  abbrev pub element_of : Node A → Option ℕ → ListElement A
  element_of n next = record { next = next; key = n.sort_key; item = n.value }

  -- The nodes stand in memory, each linked to the one after it and the last one to `end`.
  abbrev pub Chain : (ℕ → Option (ListElement A)) → List (Node A) → Option ℕ → Type ℓ
  Chain cells [] end = Unit
  Chain cells (n ∷ ns) end =
      (cells n.addr ≡ some (element_of n (start ns end))) × Chain cells ns end

  -- No node stands at address `a`.
  abbrev pub Avoids : ℕ → List (Node A) → Type 0
  Avoids a [] = Unit
  Avoids a (n ∷ ns) = (n.addr ≢ a) × Avoids a ns

  abbrev pub Distinct : List (Node A) → Type 0
  Distinct [] = Unit
  Distinct (n ∷ ns) = Avoids n.addr ns × Distinct ns

  -- Every address is below `bound`.
  abbrev pub Below : ℕ → List (Node A) → Type 0
  Below bound [] = Unit
  Below bound (n ∷ ns) = (n.addr < bound) × Below bound ns

  abbrev pub last_addr : Node A → List (Node A) → ℕ
  last_addr n [] = n.addr
  last_addr n (m ∷ ns) = last_addr m ns

  abbrev pub last_of : List (Node A) → Option ℕ
  last_of [] = none
  last_of (n ∷ ns) = some (last_addr n ns)

  abbrev pub entry : Node A → ℤ × A
  entry n = (n.sort_key, n.value)

  abbrev pub entries : List (Node A) → List (ℤ × A)
  entries [] = []
  entries (n ∷ ns) = entry n ∷ entries ns

  -- The list `l` is made of the nodes `ns`.
  pub record Holds (l : LinkedList A) (ns : List (Node A)) : Type ℓ where
    pub chain : Chain l.cells ns none
    pub distinct : Distinct ns
    pub below : Below l.next_free ns
    pub from_first : l.first ≡ start ns none
    pub to_last : l.last ≡ last_of ns
    pub counted : l.num_in_list ≡ length ns

  pub update_self :
      (cells : ℕ → Option (ListElement A)) (a : ℕ) (v : Option (ListElement A))
      → update cells a v a ≡ v
  update_self cells a v = ground arith

  pub update_ne :
      (cells : ℕ → Option (ListElement A)) (a b : ℕ) (v : Option (ListElement A))
      → a ≢ b
      → update cells a v b ≡ cells b
  update_ne cells a b v h = ground arith

  pub Avoids-Below : (a : ℕ) (ns : List (Node A)) → Below a ns → Avoids a ns
  Avoids-Below a [] h = tt
  Avoids-Below a (n ∷ ns) h = ((λ e. absurd (omega arith)), Avoids-Below a ns h.1)

  pub Below-suc : (a : ℕ) (ns : List (Node A)) → Below a ns → Below (a + 1) ns
  Below-suc a [] h = tt
  Below-suc a (n ∷ ns) h = (omega arith, Below-suc a ns h.1)

  -- A write elsewhere leaves a chain as it is.
  pub Chain-update :
      (cells : ℕ → Option (ListElement A)) (a : ℕ) (v : Option (ListElement A)) (ns : List (Node A))
      (end : Option ℕ)
      → Avoids a ns
      → Chain cells ns end
      → Chain (update cells a v) ns end
  Chain-update cells a v [] end h c = tt
  Chain-update cells a v (n ∷ ns) end h c =
      (update_ne cells a n.addr v (λ e. h.0 (sym e)) ∙ c.0, Chain-update cells a v ns end h.1 c.1)

  pub last_addr-ne :
      (m : Node A) (ns : List (Node A)) (a : ℕ) → Avoids a (m ∷ ns) → last_addr m ns ≢ a
  last_addr-ne m [] a h = h.0
  last_addr-ne m (k ∷ ns) a h = last_addr-ne k ns a h.1

  -- The last element of a chain can be linked on.
  pub relink_last :
      (cells : ℕ → Option (ListElement A)) (n : Node A) (ns : List (Node A)) (end target : Option ℕ)
      → Distinct (n ∷ ns)
      → Chain cells (n ∷ ns) end
      → (element : ListElement A) × (cells (last_addr n ns) ≡ some element)
        × Chain
            (update cells (last_addr n ns) (some (record element { next = target })))
            (n ∷ ns)
            target
  relink_last cells n [] end target d c =
      (element_of n end, c.0, (update_self cells n.addr (some (element_of n target)), tt))
  relink_last cells n (m ∷ ns) end target d c =
      let (element, e, c') = relink_last cells m ns end target d.1 c.1 in
      (
        element,
        e,
        (update_ne cells (last_addr m ns) n.addr _ (last_addr-ne m ns n.addr d.0) ∙ c.0, c'),
      )

  pub Chain-snoc :
      (cells : ℕ → Option (ListElement A)) (ns : List (Node A)) (m : Node A) (end : Option ℕ)
      → Chain cells ns (some m.addr)
      → Chain cells (m ∷ []) end
      → Chain cells (ns ++ m ∷ []) end
  Chain-snoc cells [] m end c d = d
  Chain-snoc cells (n ∷ []) m end c d = (c.0, d)
  Chain-snoc cells (n ∷ k ∷ ns) m end c d = (c.0, Chain-snoc cells (k ∷ ns) m end c.1 d)

  pub Distinct-snoc :
      (ns : List (Node A)) (m : Node A) → Distinct ns → Avoids m.addr ns → Distinct (ns ++ m ∷ [])
  Distinct-snoc [] m d h = (tt, tt)
  Distinct-snoc (n ∷ ns) m d h =
      (Avoids-snoc ns n.addr d.0 (λ e. h.0 (sym e)), Distinct-snoc ns m d.1 h.1)
    where
      Avoids-snoc :
          (ns : List (Node A)) (a : ℕ) → Avoids a ns → m.addr ≢ a → Avoids a (ns ++ m ∷ [])
      Avoids-snoc [] a h e = (e, tt)
      Avoids-snoc (k ∷ ns) a h e = (h.0, Avoids-snoc ns a h.1 e)

  pub Below-snoc :
      (bound : ℕ) (ns : List (Node A)) (m : Node A)
      → Below bound ns
      → m.addr < bound
      → Below bound (ns ++ m ∷ [])
  Below-snoc bound [] m h lt = (lt, tt)
  Below-snoc bound (n ∷ ns) m h lt = (h.0, Below-snoc bound ns m h.1 lt)

  pub last_of-snoc : (ns : List (Node A)) (m : Node A) → last_of (ns ++ m ∷ []) ≡ some m.addr
  last_of-snoc [] m = refl
  last_of-snoc (n ∷ []) m = refl
  last_of-snoc (n ∷ k ∷ ns) m = last_of-snoc (k ∷ ns) m

  pub entries-snoc :
      (ns : List (Node A)) (m : Node A) → entries (ns ++ m ∷ []) ≡ entries ns ++ entry m ∷ []
  entries-snoc [] m = refl
  entries-snoc (n ∷ ns) m = ap (◌∷◌ (entry n)) (entries-snoc ns m)
