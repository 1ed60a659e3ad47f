-- ===== src/Machine/Translate/Hits.antt =====
-- `Translate` of an address whose page is in the translation buffer.
use op_prac.Base.{
  ℕ, zero, suc, ◌+◌, ◌*◌, ◌/◌, ◌%◌, ◌≤◌, ◌<◌, ◌≡◌, refl, sym, ap, subst, ◌∙◌, ◌≢◌, ◌⊎◌, inl, inr,
  Bool, true, false, not, ◌&&◌, ◌||◌, some, arith, ◌==◌, lt→leb, le→leb, Bool-cases, Gives,
  Gives-bind, Gives-map, update, update_self,
}
use op_prac.Machine.Mmu.{
  Mmu, TranslationEntry, PhysicalPageEntry, page_size, num_phys_pages, memory_size, tlb_size,
  size_of, page_entry,
}
use op_prac.Machine.Mmu.Coherence.{
  Caches, Coherent, Preserves, Agree-cast, byte_at, byte_at-cast, mark-Agree,
}
use op_prac.Machine.Mmu.Edits.{Edits, image_of, set_entry-Gives, Edits-page_entry}
use op_prac.Machine.Translate.{
  Translation, found, trapped, translate, translate_found, translate_hit, translate_frame, find_tlb,
  mark,
}

-- Slot `i` is valid and has page `v`.
abbrev pub Has : (ℕ → TranslationEntry) → ℕ → ℕ → Type 0
Has tlb v i = ((tlb i).valid ≡ true) × ((tlb i).virtual_page ≡ v)

-- The first slot for the page is found, where there is one.
pub find_tlb-Has :
    (tlb : ℕ → TranslationEntry) (v left i j : ℕ)
    → i ≤ j
    → j < i + left
    → Has tlb v j
    → (k : ℕ) × (find_tlb tlb v left i ≡ some k) × (k < i + left) × Has tlb v k
unfolding find_tlb
find_tlb-Has tlb v zero i j h k p = absurd (omega arith)
find_tlb-Has tlb v (suc left) i j h k p =
    elim (Bool-cases ((tlb i).valid && ((tlb i).virtual_page == v))) [
      | inl hit ↦ (i, rw hit, omega arith, ground arith)
      | inr other ↦
          let ne : i ≢ j = λ e. cc (sym (both e) ∙ other) in
          let (k', found', lt, has) =
            find_tlb-Has tlb v left (suc i) j (omega arith) (omega arith) p in
          (k', rw other found', omega arith, has)
    ]
  where
    both : i ≡ j → ((tlb i).valid && ((tlb i).virtual_page == v)) ≡ true
    both e = rw e (ground (arith, p))

-- A slot that is found has the page.
pub find_tlb-some :
    (tlb : ℕ → TranslationEntry) (v left i k : ℕ)
    → find_tlb tlb v left i ≡ some k
    → (k < i + left) × Has tlb v k
unfolding find_tlb
find_tlb-some tlb v zero i k e = cc
find_tlb-some tlb v (suc left) i k e =
    elim (Bool-cases ((tlb i).valid && ((tlb i).virtual_page == v))) [
      | inl hit ↦
          let same : i ≡ k = ground (arith, hit) in
          subst (λ j. (j < i + suc left) × Has tlb v j) same (omega arith, ground arith)
      | inr other ↦
          let (lt, has) = find_tlb-some tlb v left (suc i) k (rw other at e) in (omega arith, has)
    ]

-- A virtual address that `ReadMem` may be given: a word, with the size's boundary.
abbrev pub IsAligned : ℕ → ℕ → Type 0
IsAligned va size = ((size ≡ 1) ⊎ (size ≡ 2) ⊎ (size ≡ 4)) × (va % size ≡ 0)

-- A translation that succeeds: the bytes from `va` on are those from `pa` on.
pub record Finds (va size : ℕ) (m : Mmu) (pa : ℕ) (m' : Mmu) : Type 0 where
  pub coherent : Coherent m'
  pub kept : Preserves m m'
  pub bounded : pa + size ≤ memory_size
  pub offset : pa % page_size ≡ va % page_size
  pub entered : (page_entry m' (va / page_size)).valid ≡ true
  pub frame : (page_entry m' (va / page_size)).physical_page ≡ pa / page_size
  pub slot : ℕ
  pub slot_lt : slot < tlb_size
  pub has : Has m'.tlb (va / page_size) slot

-- The outcome of `Translate` is such an address.
abbrev pub FindsIt : ℕ → ℕ → Mmu → Translation × Mmu → Type 0
FindsIt va size m (found pa, m') = Finds va size m pa m'
FindsIt va size m (trapped e, m') = ⊥

-- The test for an alignment error.
abbrev pub misaligned : ℕ → ℕ → Bool
misaligned va size = (size == 4) && not (va % 4 == 0) || (size == 2) && not (va % 2 == 0)

pub aligned_passes : (va size : ℕ) → IsAligned va size → misaligned va size ≡ false
aligned_passes va size (inl e, a) = ground arith
aligned_passes va size (inr (inl e), a) = ground (arith, subst (λ s. va % s ≡ 0) e a)
aligned_passes va size (inr (inr e), a) = ground (arith, subst (λ s. va % s ≡ 0) e a)

in_page :
    (frame va size : ℕ)
    → frame < num_phys_pages
    → IsAligned va size
    → frame * page_size + va % page_size + size ≤ memory_size
in_page frame va size h (inl e, a) = omega arith
in_page frame va size h (inr (inl e), a) = omega (arith, subst (λ s. va % s ≡ 0) e a)
in_page frame va size h (inr (inr e), a) = omega (arith, subst (λ s. va % s ≡ 0) e a)

-- The marks of a use change nothing that the program sees.
record Marks (i v : ℕ) (m m' : Mmu) : Type 0 where
  coherent : Coherent m'
  kept : Preserves m m'
  entered : (page_entry m' v).valid ≡ (page_entry m v).valid
  frame : (page_entry m' v).physical_page ≡ (page_entry m v).physical_page
  valid : (m'.tlb i).valid ≡ (m.tlb i).valid
  named : (m'.tlb i).virtual_page ≡ (m.tlb i).virtual_page

module _ (i v : ℕ) (m : Mmu) (lt : i < tlb_size) (k : v < size_of m) (c : Coherent m) where
  abbrev used_entry : Bool → TranslationEntry
  used_entry d = record (m.tlb i) { used = true; dirty = d; last_hit_time = m.total_ticks }

  abbrev used_frame : Bool → PhysicalPageEntry
  used_frame d = record (m.physical (m.tlb i).physical_page) {
    dirty = d;
    last_hit_time = m.total_ticks;
  }

  marked_read :
      (d d' : Bool)
      → Marks i v m (record m {
        tlb = update m.tlb i (used_entry d);
        physical = update m.physical (m.tlb i).physical_page (used_frame d');
      })
  marked_read d d' = record {
    coherent = record {
      running = c.running;
      agree = mark-Agree i v m.total_ticks false d d' lt k c.agree;
    };
    kept = record { table = refl; size = refl; bytes = λ va _. refl };
    entered = refl;
    frame = refl;
    valid = ap (λ e. e.valid) (update_self m.tlb i (used_entry d));
    named = ap (λ e. e.virtual_page) (update_self m.tlb i (used_entry d));
  }

  abbrev dirtied : TranslationEntry
  dirtied = record (page_entry m v) { dirty = true }

  dirtied-byte_at :
      (mem image : ℕ → ℕ) (va : ℕ)
      → byte_at (update (page_entry m) v dirtied) mem image va ≡ byte_at (page_entry m) mem image va
  dirtied-byte_at mem image va = ground arith

  marked_written :
      (m₁ : Mmu) (d d' : Bool)
      → Edits v (image_of m) m m₁
      → page_entry m₁ v ≡ dirtied
      → Marks i v m (record m₁ {
        tlb = update m₁.tlb i (used_entry d);
        physical = update m₁.physical (m.tlb i).physical_page (used_frame d');
      })
  marked_written m₁ d d' e h =
      let table = Edits-page_entry v dirtied e h in
      record {
        coherent = record {
          running = e.thread ∙ c.running ∙ sym e.table;
          agree =
              Agree-cast e.table e.size table (ap (λ b. update b i (used_entry d)) e.buffer)
                (ap (λ b. update b (m.tlb i).physical_page (used_frame d')) e.frames)
                (mark-Agree i v m.total_ticks true d d' lt k c.agree);
        };
        kept = record {
          table = e.table;
          size = e.size;
          bytes = λ va _.
              byte_at-cast table e.memory e.stored va
              ∙ dirtied-byte_at m.main_memory (image_of m) va;
        };
        entered = ap (λ x. x.valid) h;
        frame = ap (λ x. x.physical_page) h;
        valid = ap (λ x. x.valid) (update_self m₁.tlb i (used_entry d));
        named = ap (λ x. x.virtual_page) (update_self m₁.tlb i (used_entry d));
      }

  mark-Marks : (writing : Bool) → Gives (Marks i v m) (mark i v writing m)
  unfolding mark
  mark-Marks true =
      set_entry-Gives m.table_of v dirtied m _ _ refl k λ m₁ e h. marked_written m₁ _ _ e h
  mark-Marks false = marked_read _ _

Marks-Finds :
    (i va size : ℕ) (m : Mmu) {m' : Mmu}
    → i < tlb_size
    → Has m.tlb (va / page_size) i
    → IsAligned va size
    → Coherent m
    → Marks i (va / page_size) m m'
    → Finds va size m ((m.tlb i).physical_page * page_size + va % page_size) m'
Marks-Finds i va size m lt (w, named) aligned c k =
    let q = c.agree.cached i lt w in
    let entered = subst (λ v. (page_entry m v).valid ≡ true) named q.entered in
    let frame =
      subst (λ v. (page_entry m v).physical_page ≡ (m.tlb i).physical_page) named q.same in
    let fits = (c.agree.mapped (m.tlb i).virtual_page q.inside q.entered).framed in
    let framed : (m.tlb i).physical_page < num_phys_pages = rw (sym q.same) fits in
    record {
      coherent = k.coherent;
      kept = k.kept;
      bounded = in_page (m.tlb i).physical_page va size framed aligned;
      offset = omega arith;
      entered = k.entered ∙ entered;
      frame = k.frame ∙ frame ∙ omega arith;
      slot = i;
      slot_lt = lt;
      has = (k.valid ∙ w, k.named ∙ named);
    }

module _ (i va size : ℕ) (writing : Bool) (m : Mmu) (lt : i < tlb_size)
    (has : Has m.tlb (va / page_size) i) (aligned : IsAligned va size) (c : Coherent m) where
  abbrev cached : Caches (size_of m) (page_entry m) (m.tlb i)
  cached = c.agree.cached i lt (has.0)

  framed : (m.tlb i).physical_page < num_phys_pages
  framed =
      rw (sym cached.same)
        (c.agree.mapped (m.tlb i).virtual_page cached.inside cached.entered).framed

  translate_frame-FindsIt : Gives (FindsIt va size m) (translate_frame i va size writing m)
  unfolding translate_frame
  translate_frame-FindsIt =
      Gives-bind (Marks i (va / page_size) m) _ _ _
        (mark-Marks i (va / page_size) m lt (subst (λ v. v < size_of m) (has.1) cached.inside) c
          writing)
        λ m' marks.
          let f = Marks-Finds i va size m lt has aligned c marks in
          rw (le→leb _ memory_size f.bounded) f

  translate_hit-FindsIt : Gives (FindsIt va size m) (translate_hit i va size writing m)
  unfolding translate_hit
  translate_hit-FindsIt =
      rw (cached.writable, lt→leb num_phys_pages (m.tlb i).physical_page framed)
        translate_frame-FindsIt

-- The counter of hits is not seen.
FindsIt-hit :
    (va size : ℕ) (m : Mmu) (n : ℕ) (r : Translation × Mmu)
    → FindsIt va size (record m { tlb_hit = n }) r
    → FindsIt va size m r
FindsIt-hit va size m n (found pa, m') f = record {
  coherent = f.coherent;
  kept = record { table = f.kept.table; size = f.kept.size; bytes = f.kept.bytes };
  bounded = f.bounded;
  offset = f.offset;
  entered = f.entered;
  frame = f.frame;
  slot = f.slot;
  slot_lt = f.slot_lt;
  has = f.has;
}
FindsIt-hit va size m n (trapped e, m') f = absurd f

pub translate_found-FindsIt :
    (i va size : ℕ) (writing : Bool) (m : Mmu)
    → i < tlb_size
    → Has m.tlb (va / page_size) i
    → IsAligned va size
    → Coherent m
    → Gives (FindsIt va size m) (translate_found (some i) va size writing m)
unfolding translate_found
translate_found-FindsIt i va size writing m lt has aligned c =
    let counted = record m { tlb_hit = m.tlb_hit + 1 } in
    Gives-map (FindsIt-hit va size m (m.tlb_hit + 1)) (translate_hit i va size writing counted) (
      translate_hit-FindsIt i va size writing counted lt has aligned
        (record { running = c.running; agree = c.agree }))

-- In a coherent state, with the page of an aligned address in the translation buffer, `Translate`
-- succeeds: the physical address has the same offset in its page, the whole access lies in the
-- memory, the frame is that of the page table, the state stays coherent and every byte is seen as it
-- was.
pub translate-FindsIt :
    (slot va size : ℕ) (writing : Bool) (m : Mmu)
    → slot < tlb_size
    → Has m.tlb (va / page_size) slot
    → IsAligned va size
    → Coherent m
    → Gives (FindsIt va size m) (translate va size writing m)
unfolding translate
translate-FindsIt slot va size writing m lt has aligned c =
    let (i, at, lt', has') =
      find_tlb-Has m.tlb (va / page_size) tlb_size 0 slot (omega arith) (omega arith) has in
    rw (aligned_passes va size aligned, at)
      (translate_found-FindsIt i va size writing m lt' has' aligned c)
