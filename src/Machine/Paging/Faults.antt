-- ===== src/Machine/Paging/Faults.antt =====
-- What the handling of a page fault comes to: `AllocatePhysicalPage`, `LRU_TLB` and `FIFO_TLB`.
use op_prac.Base.{
  ℕ, ◌/◌, ◌<◌, ◌≡◌, refl, sym, ap, subst, ◌∙◌, inl, inr, Bool, true, false, arith, ok,
  if◌then◌else◌, lt→ltb, Bool-cases, Gives, Gives-bind, Gives-map, update, update_self,
}
use op_prac.Machine.Mmu.{Mmu, page_size, num_phys_pages, tlb_size, size_of, page_entry, set_entry}
use op_prac.Machine.Mmu.Coherence.{
  Coherent, Preserves, Agree-cast, write_back-Agree, write_back-byte_at, byte_at-cast, refill-Agree,
}
use op_prac.Machine.Paging.{
  allocate_physical_page, write_back, bring_in, refill, lru_tlb, fifo_tlb, frame_choice,
}
use op_prac.Machine.Mmu.Edits.{
  Edits, image_of, set_entry-Edits, Edits-page_entry, Preserves-refl, Preserves-trans,
}
use op_prac.Machine.Paging.Evict.{Evicted, evict-Evicted}
use op_prac.Machine.Paging.Install.{Installed, install-Installed}
use op_prac.Machine.Paging.Victim.{choose-lt}

Installed-before :
    (f v : ℕ) {m₁ m₂ m₃ : Mmu} → Preserves m₁ m₂ → Installed f v m₂ m₃ → Installed f v m₁ m₃
Installed-before f v p (c, q, w) = (c, Preserves-trans p q, w)

-- Page `v` has a frame afterwards, and the program sees the memory that it saw.
pub allocate_physical_page-Installed :
    (v : ℕ) (m : Mmu)
    → v < size_of m
    → (page_entry m v).valid ≡ false
    → Coherent m
    → Gives (λ (f, m'). Installed f v m m') (allocate_physical_page v m)
unfolding allocate_physical_page
allocate_physical_page-Installed v m k free c =
    let f = frame_choice m in
    let lt =
      choose-lt (λ p. p.valid) (λ p. p.last_hit_time) m.physical num_phys_pages 0 0 num_phys_pages
        (omega arith) (omega arith) in
    Gives-bind (Evicted f m) _ _ _ (evict-Evicted f m lt c) λ m₁ e.
      Gives-bind (Installed f v m₁) _ _ _
        (install-Installed f v m₁ lt (rw e.kept.size k) (e.none_in v free) e.coherent)
        λ m₂ i. Installed-before f v e.kept i

-- The page table has an entry for page `v`.
abbrev pub Brings : ℕ → Mmu → Mmu → Type 0
Brings v m m' = Coherent m' × Preserves m m' × ((page_entry m' v).valid ≡ true)

bring_in-Brings : (v : ℕ) (m : Mmu) → v < size_of m → Coherent m → Gives (Brings v m) (bring_in v m)
unfolding bring_in
bring_in-Brings v m k c = elim (Bool-cases (page_entry m v).valid) [
  | inl w ↦ rw (lt→ltb v (size_of m) k, w) (c, Preserves-refl m, w)
  | inr free ↦
      rw (lt→ltb v (size_of m) k, free)
        (Gives-bind (λ (f, m'). Installed f v m m') _ (allocate_physical_page v m) _
          (allocate_physical_page-Installed v m k free c) λ (f, m') i. i)
]

-- An entry that has gone back to the page table.
written_back :
    (i : ℕ) (m : Mmu) {m' : Mmu}
    → i < tlb_size
    → (m.tlb i).valid ≡ true
    → Coherent m
    → Edits (m.tlb i).virtual_page (image_of m) m m'
    → page_entry m' (m.tlb i).virtual_page ≡ m.tlb i
    → Coherent m' × Preserves m m'
written_back i m {m'} lt w c d h =
    let table = Edits-page_entry (m.tlb i).virtual_page (m.tlb i) d h in
    (
      record {
        running = d.thread ∙ c.running ∙ sym d.table;
        agree =
            Agree-cast d.table d.size table d.buffer d.frames
              (write_back-Agree num_phys_pages i lt w c.agree);
      },
      record {
        table = d.table;
        size = d.size;
        bytes = λ va _.
            byte_at-cast table d.memory d.stored va
            ∙ write_back-byte_at num_phys_pages i m.main_memory (image_of m) va lt w c.agree;
      },
    )

abbrev Keeps : Mmu → Mmu → Type 0
Keeps m m' = Coherent m' × Preserves m m'

store_back-Keeps :
    (i : ℕ) (m : Mmu)
    → i < tlb_size
    → (m.tlb i).valid ≡ true
    → Coherent m
    → Gives (Keeps m) (set_entry m.table_of (m.tlb i).virtual_page (m.tlb i) m)
store_back-Keeps i m lt w c =
    let v = (m.tlb i).virtual_page in
    Gives-map {P = λ m'. Edits v (image_of m) m m' × (page_entry m' v ≡ m.tlb i)} {Q = Keeps m}
      (λ m' e. written_back i m lt w c (e.0) (e.1)) (set_entry m.table_of v (m.tlb i) m)
      (set_entry-Edits m.table_of v (m.tlb i) m refl (c.agree.cached i lt w).inside)

write_back-Keeps : (i : ℕ) (m : Mmu) → i < tlb_size → Coherent m → Gives (Keeps m) (write_back i m)
unfolding write_back
write_back-Keeps i m lt c = elim (Bool-cases (m.tlb i).valid) [
  | inl w ↦ subst outcome (sym w) (store_back-Keeps i m lt w c)
  | inr free ↦ subst outcome (sym free) (c, Preserves-refl m)
]
  where
    outcome : Bool → Type 0
    outcome b =
        Gives (Keeps m)
          (if b then set_entry m.table_of (m.tlb i).virtual_page (m.tlb i) m else ok m)

-- The translation buffer has an entry for page `v`, and the program sees the memory that it saw.
pub record Refills (v : ℕ) (m m' : Mmu) : Type 0 where
  pub coherent : Coherent m'
  pub kept : Preserves m m'
  pub slot : ℕ
  pub slot_lt : slot < tlb_size
  pub valid : (m'.tlb slot).valid ≡ true
  pub named : (m'.tlb slot).virtual_page ≡ v

Brings-Refills :
    (i v : ℕ) {m m' : Mmu}
    → i < tlb_size
    → v < size_of m
    → Brings v m m'
    → Refills v m (record m' {
      tlb = update m'.tlb i (record (page_entry m' v) { in_time = m'.total_ticks });
    })
Brings-Refills i v {m} {m'} lt k (c, p, w) =
    let k' : v < size_of m' = rw p.size k in
    let same = update_self m'.tlb i (record (page_entry m' v) { in_time = m'.total_ticks }) in
    record {
      coherent = record {
        running = c.running;
        agree = refill-Agree i v m'.total_ticks k' w c.agree;
      };
      kept = record { table = p.table; size = p.size; bytes = p.bytes };
      slot = i;
      slot_lt = lt;
      valid = ap (λ e. e.valid) same ∙ w;
      named = ap (λ e. e.virtual_page) same ∙ (c.agree.mapped v k' w).named;
    }

-- With any slot.
refill-Refills :
    (i v : ℕ) (m : Mmu)
    → i < tlb_size
    → v < size_of m
    → Coherent m
    → Gives (Refills v m) (refill i v m)
unfolding refill
refill-Refills i v m lt k c = Gives-bind (Keeps m) _ _ _ (write_back-Keeps i m lt c) λ m₁ (c₁, p₁).
    Gives-bind (Brings v m₁) _ _ _ (bring_in-Brings v m₁ (rw p₁.size k) c₁)
      λ m₂ (c₂, p₂, w). Brings-Refills i v lt k (c₂, Preserves-trans p₁ p₂, w)

-- In a coherent state and for an address inside the address space, `LRU_TLB` comes to an end with
-- the state coherent again; the translation buffer has an entry for the page, and every byte of the
-- address space is seen as it was.
pub lru_tlb-Refills :
    (va : ℕ) (m : Mmu)
    → va / page_size < size_of m
    → Coherent m
    → Gives (Refills (va / page_size) m) (lru_tlb va m)
unfolding lru_tlb
lru_tlb-Refills va m k c =
    refill-Refills _ (va / page_size) m
      (choose-lt (λ e. e.valid) (λ e. e.last_hit_time) m.tlb tlb_size 0 0 tlb_size (omega arith)
        (omega arith))
      k c

-- The same of `FIFO_TLB`.
pub fifo_tlb-Refills :
    (va : ℕ) (m : Mmu)
    → va / page_size < size_of m
    → Coherent m
    → Gives (Refills (va / page_size) m) (fifo_tlb va m)
unfolding fifo_tlb
fifo_tlb-Refills va m k c =
    refill-Refills _ (va / page_size) m
      (choose-lt (λ e. e.valid) (λ e. e.in_time) m.tlb tlb_size 0 0 tlb_size (omega arith)
        (omega arith))
      k c
