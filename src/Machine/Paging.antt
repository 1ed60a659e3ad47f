-- ===== src/Machine/Paging.antt =====
-- The handling of a page fault, code/machine/translate.cc: `FIFO_TLB`, `LRU_TLB` and
-- `AllocatePhysicalPage`, and the checks of `TLB_PageTable_check`.
mod Evict
mod Install
pub mod Victim
pub mod Faults
pub mod Check
use op_prac.Base.{
  ℕ, zero, suc, ◌+◌, ◌-◌, ◌*◌, ◌/◌, ◌%◌, ◌^◌, ◌≤◌, ◌<◌, ◌≡◌, refl, sym, ap, subst, ◌∙◌, ◌≢◌, ◌↔◌,
  ◌⊎◌, inl, inr, Bool, true, false, not, ◌&&◌, ◌||◌, Option, none, some, List, [], ◌∷◌, ◌++◌, map,
  arith, dec_lt, dec_le, ℕ_discrete, Error, assert_failed, bad_access, arithmetic_fault,
  out_of_fuel, Result, ok, err, ◌>>=◌, ◌>>◌, assert, or_fault, Result-cases, ltb, leb, ◌==◌,
  if◌then◌else◌, ltb→lt, lt→ltb, le→ltb, lt→leb, le→leb, leb→le, ==_iff, tests, Bool-cases,
  Option-cases, length, get_elem?, set, get_or, take, drop, replicate, All, length-append,
  length-set, length-replicate, get_or-set_self, get_or-set_ne, get_elem?-eq-get_or, get_elem?-none,
  get_elem?-set_self, get_elem?-set_ne, get_elem?-append, get_elem?-some, All-set, All-get_or,
  bit_and, bit_or, bit_xor, Gives, Gives-bind, Gives-map, update, update_self, update_ne,
}
use op_prac.Machine.Word.{ltb_signed}
use op_prac.Machine.Mmu.{
  Mmu, TranslationEntry, PhysicalPageEntry, AddrSpace, copy_page, page_size, num_phys_pages,
  tlb_size, size_of, page_entry, set_entry, with_space,
}

-- The loops that choose a slot: the first that is not valid, or else one with the least time, the
-- earliest of these. `best` is the slot so far and `i` the next.
module _ {A : Type 0} (is_valid : A → Bool) (time : A → ℕ) (slots : ℕ → A) where
  unfoldable pub choose : ℕ → ℕ → ℕ → ℕ
  choose zero i best = best
  choose (suc left) i best =
      let next = if ltb_signed (time (slots i)) (time (slots best)) then i else best in
      let rest = choose left (suc i) next in if not (is_valid (slots i)) then i else rest

abbrev pub in_range : ℕ → ℕ → Result (Unit {0})
in_range i n = if ltb i n then ok tt else err bad_access

-- `T->space->pageTable[OldVpn].valid=false`, for the owner of the frame.
abbrev pub invalidate : ℕ → ℕ → Mmu → Result Mmu
invalidate t vpn m = set_entry t vpn (record ((m.spaces t).page_table vpn) { valid = false }) m

abbrev pub undirty : ℕ → ℕ → Mmu → Result Mmu
undirty t vpn m = set_entry t vpn (record ((m.spaces t).page_table vpn) { dirty = false }) m

-- The write back of frame `ppn` to the memory image of thread `t`.
unfoldable pub swap_out : ℕ → ℕ → ℕ → Mmu → Result Mmu
unfolding set_entry
swap_out ppn vpn t m = do
  let m₁ = with_space t (copy_page (m.spaces t).v_space vpn m.main_memory ppn) m
  m₂ ← undirty m₁.table_of vpn m₁
  m₃ ← undirty t vpn m₂
  ok (record m₃ { physical = update m₃.physical ppn (record (m₃.physical ppn) { dirty = false }) })

abbrev pub disown : ℕ → ℕ → Option ℕ → Mmu → Result Mmu
disown ppn vpn none m = ok m
disown ppn vpn (some t) m = do m₁ ← invalidate t vpn m; swap_out ppn vpn t m₁

-- The entries of the translation buffer for page `vpn` in frame `ppn`.
abbrev pub flushed : ℕ → ℕ → (ℕ → TranslationEntry) → ℕ → TranslationEntry
flushed ppn vpn tlb i =
    let e = tlb i in
    if e.valid && (e.physical_page == ppn) && (e.virtual_page == vpn)
    then (record e { valid = false })
    else e

unfoldable pub reclaim : ℕ → ℕ → Option ℕ → Mmu → Result Mmu
unfolding swap_out set_entry
reclaim ppn vpn owner m = do
  m₁ ← disown ppn vpn owner m
  m₂ ← invalidate m₁.table_of vpn m₁
  ok (record m₂ { tlb = flushed ppn vpn m₂.tlb })

-- What `AllocatePhysicalPage` does with a frame that is in use.
unfoldable pub evict : ℕ → Mmu → Result Mmu
unfolding reclaim
evict ppn m =
    let vpn = (m.physical ppn).virtual_page_number in
    if (m.physical ppn).valid then reclaim ppn vpn (m.physical ppn).owner_thread m else ok m

-- The page is copied into the frame, and both tables are told.
unfoldable pub install : ℕ → ℕ → Mmu → Result Mmu
unfolding set_entry
install ppn vpn m = do
  let space = m.spaces m.current_thread
  in_range vpn space.num_pages
  let m₁ = record m {
    main_memory = copy_page m.main_memory ppn space.v_space vpn;
    physical = update m.physical ppn (record (m.physical ppn) {
      last_hit_time = m.total_ticks;
      valid = true;
      owner_thread = some m.current_thread;
      virtual_page_number = vpn;
    });
  }
  set_entry m₁.table_of vpn
      (record (page_entry m₁ vpn) {
        valid = true;
        used = false;
        read_only = false;
        physical_page = ppn;
        virtual_page = vpn;
        in_time = m.total_ticks;
        last_hit_time = m.total_ticks;
      })
      m₁

-- The frame that `AllocatePhysicalPage` takes.
abbrev pub frame_choice : Mmu → ℕ
frame_choice m = choose (λ p. p.valid) (λ p. p.last_hit_time) m.physical num_phys_pages 0 0

unfoldable pub allocate_physical_page : ℕ → Mmu → Result (ℕ × Mmu)
unfolding evict install choose
allocate_physical_page vpn m = do
  let ppn = frame_choice m
  m₁ ← evict ppn m
  m₂ ← install ppn vpn m₁
  ok (ppn, m₂)

-- The slot of the translation buffer is written back to the page table.
unfoldable pub write_back : ℕ → Mmu → Result Mmu
unfolding set_entry
write_back slot m =
    let e = m.tlb slot in if e.valid then set_entry m.table_of e.virtual_page e m else ok m

-- `if(pageTable[vpn].valid)`, or else the page is brought in.
unfoldable pub bring_in : ℕ → Mmu → Result Mmu
unfolding allocate_physical_page
bring_in vpn m =
    if ltb vpn (size_of m)
    then (if (page_entry m vpn).valid
        then ok m
        else allocate_physical_page vpn m >>= λ allocated. ok (allocated.1))
    else err bad_access

-- What `FIFO_TLB` and `LRU_TLB` do with the slot that they have chosen.
unfoldable pub refill : ℕ → ℕ → Mmu → Result Mmu
unfolding write_back bring_in
refill slot vpn m = do
  m₁ ← write_back slot m
  m₂ ← bring_in vpn m₁
  ok (record m₂ {
    tlb = update m₂.tlb slot (record (page_entry m₂ vpn) { in_time = m₂.total_ticks });
  })

unfoldable pub lru_tlb : ℕ → Mmu → Result Mmu
unfolding refill choose
lru_tlb va m =
    refill (choose (λ e. e.valid) (λ e. e.last_hit_time) m.tlb tlb_size 0 0) (va / page_size) m

unfoldable pub fifo_tlb : ℕ → Mmu → Result Mmu
unfolding refill choose
fifo_tlb va m =
    refill (choose (λ e. e.valid) (λ e. e.in_time) m.tlb tlb_size 0 0) (va / page_size) m

-- `TLB_PageTable_check`: its two loops.
unfoldable pub check_tlb : ℕ → ℕ → Mmu → Result (Unit {0})
check_tlb zero i m = ok tt
check_tlb (suc left) i m =
    let e = m.tlb i in
    let rest = check_tlb left (suc i) m in
    if e.valid
    then (in_range e.virtual_page (size_of m)
        >> assert (e.physical_page == (page_entry m e.virtual_page).physical_page)
        >> assert (page_entry m e.virtual_page).valid
        >> in_range e.physical_page num_phys_pages
        >> assert (m.physical e.physical_page).valid
        >> rest)
    else rest

unfoldable pub check_table : ℕ → ℕ → Mmu → Result (Unit {0})
check_table zero vpn m = ok tt
check_table (suc left) vpn m =
    let e = page_entry m vpn in
    let rest = check_table left (suc vpn) m in
    if e.valid
    then (in_range e.physical_page num_phys_pages
        >> assert (m.physical e.physical_page).valid
        >> assert ((m.physical e.physical_page).virtual_page_number == vpn)
        >> rest)
    else rest

unfoldable pub tlb_page_table_check : Mmu → Result (Unit {0})
unfolding check_tlb check_table
tlb_page_table_check m = check_tlb tlb_size 0 m >> check_table (size_of m) 0 m
