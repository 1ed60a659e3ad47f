-- ===== src/Userprog/Exception/Access.antt =====
-- `ReadMem` and `WriteMem` with the kernel behind them: a page fault is repaired.
use op_prac.Base.{
  ℕ, ◌+◌, ◌/◌, ◌^◌, ◌<◌, sym, subst, inl, inr, Bool, Option, none, some, Result, ◌>>=◌,
  Option-cases, Gives, Gives-bind, Gives-map,
}
use op_prac.Machine.Cpu.{Cpu, ExceptionType, page_fault_exception}
use op_prac.Machine.Cpu.Registers.{IsWellFormed}
use op_prac.Machine.Mmu.{Mmu, page_size, tlb_size, size_of}
use op_prac.Machine.Mmu.Coherence.{Coherent, Preserves}
use op_prac.Machine.Mmu.Edits.{Preserves-trans}
use op_prac.Machine.Paging.Faults.{Refills, lru_tlb-Refills}
use op_prac.Machine.Translate.{
  Translation, found, trapped, translate, translate_found, find_tlb, access, after_first, retry,
  raise_if, with_memory,
}
use op_prac.Machine.Translate.Hits.{
  Has, IsAligned, Finds, FindsIt, translate-FindsIt, find_tlb-some, translate_found-FindsIt,
  aligned_passes,
}
use op_prac.Machine.Translate.Raises.{Raises, raise_to-Raises}
use op_prac.Userprog.Exception.{trap_to_kernel, exception_handler, tick}

-- What an access comes to: a physical address for the virtual one.
pub record Accesses (va size : ℕ) (c : Cpu Mmu) (pa : ℕ) (c' : Cpu Mmu) : Type 0 where
  pub finds : Finds va size c.memory pa c'.memory
  pub well_formed : IsWellFormed c'

abbrev pub AccessesIt : ℕ → ℕ → Cpu Mmu → Option ℕ × Cpu Mmu → Type 0
AccessesIt va size c (none, c') = ⊥
AccessesIt va size c (some pa, c') = Accesses va size c pa c'

Finds-before :
    {va size pa : ℕ} {m₁ m₂ m₃ : Mmu}
    → Preserves m₁ m₂
    → Finds va size m₂ pa m₃
    → Finds va size m₁ pa m₃
Finds-before p f = record {
  coherent = f.coherent;
  kept = Preserves-trans p f.kept;
  bounded = f.bounded;
  offset = f.offset;
  entered = f.entered;
  frame = f.frame;
  slot = f.slot;
  slot_lt = f.slot_lt;
  has = f.has;
}

pub with_memory-IsWellFormed :
    (c : Cpu Mmu) (m : Mmu) → IsWellFormed c → IsWellFormed (with_memory c m)
with_memory-IsWellFormed c m w = record {
  sound = record { sized = w.sound.sized; words = w.sound.words; target = w.sound.target };
  zeroth = w.zeroth;
}

ticked : (m : Mmu) → Coherent m → Coherent (tick m)
ticked m co = record { running = co.running; agree = co.agree }

unticked : {v : ℕ} (m : Mmu) {m' : Mmu} → Refills v (tick m) m' → Refills v m m'
unticked m f = record {
  coherent = f.coherent;
  kept = record { table = f.kept.table; size = f.kept.size; bytes = f.kept.bytes };
  slot = f.slot;
  slot_lt = f.slot_lt;
  valid = f.valid;
  named = f.named;
}

module _ (syscall : Cpu Mmu → Result (Cpu Mmu)) (va size : ℕ) (writing : Bool) where
  abbrev handler : ExceptionType → Cpu Mmu → Result (Cpu Mmu)
  handler = trap_to_kernel syscall

  -- The page is in the translation buffer, after a repair.
  record Repaired (c c' : Cpu Mmu) : Type 0 where
    well_formed : IsWellFormed c'
    refills : Refills (va / page_size) c.memory c'.memory

  -- `LRU_TLB`, from the registers that `RaiseException` has made.
  repair :
      (c c' : Cpu Mmu)
      → va / page_size < size_of c.memory
      → Coherent c.memory
      → Raises va c c'
      → Gives (Repaired c) (handler page_fault_exception c')
  unfolding trap_to_kernel exception_handler
  repair c c' k co r =
      let m = tick c'.memory in
      let k' : va / page_size < size_of m =
        subst (λ x. va / page_size < size_of x) (sym r.memory) k in
      let co' = ticked c'.memory (subst Coherent (sym r.memory) co) in
      rw r.bad_v_addr (
        Gives-bind (Refills (va / page_size) m) _ _ _ (lru_tlb-Refills va m k' co') λ m' f. record {
          well_formed = with_memory-IsWellFormed c' m' r.well_formed;
          refills = subst (λ x. Refills (va / page_size) x m') r.memory (unticked c'.memory f);
        })

  -- A `Translate` that succeeds, and whatever follows.
  raise_if-AccessesIt :
      (c : Cpu Mmu) (r : Translation × Mmu)
      → IsWellFormed c
      → FindsIt va size c.memory r
      → Gives (AccessesIt va size c) (raise_if handler va size writing c r)
  unfolding raise_if
  raise_if-AccessesIt c (found pa, m) w f = record {
    finds = f;
    well_formed = with_memory-IsWellFormed c m w;
  }
  raise_if-AccessesIt c (trapped e, m) w f = absurd f

  Accesses-before :
      (c₁ c₂ : Cpu Mmu)
      → Preserves c₁.memory c₂.memory
      → (r : Option ℕ × Cpu Mmu) → AccessesIt va size c₂ r
      → AccessesIt va size c₁ r
  Accesses-before c₁ c₂ p (none, c') a = a
  Accesses-before c₁ c₂ p (some pa, c') a = record {
    finds = Finds-before p a.finds;
    well_formed = a.well_formed;
  }

  -- One attempt, with the page in the translation buffer.
  attempt :
      (c : Cpu Mmu) (slot : ℕ)
      → IsAligned va size
      → IsWellFormed c
      → slot < tlb_size
      → Has c.memory.tlb (va / page_size) slot
      → Coherent c.memory
      → Gives
          (AccessesIt va size c)
          (translate va size writing c.memory >>= raise_if handler va size writing c)
  attempt c slot aligned w lt has co =
      Gives-bind (FindsIt va size c.memory) _ _ _
        (translate-FindsIt slot va size writing c.memory lt has aligned co)
        λ r f. raise_if-AccessesIt c r w f

  retry-AccessesIt :
      (c : Cpu Mmu) (slot : ℕ)
      → IsAligned va size
      → IsWellFormed c
      → slot < tlb_size
      → Has c.memory.tlb (va / page_size) slot
      → Coherent c.memory
      → Gives (AccessesIt va size c) (retry handler va size writing c)
  unfolding retry
  retry-AccessesIt c slot aligned w lt has co =
      Gives-bind (FindsIt va size c.memory) _ _ _
        (translate-FindsIt slot va size writing c.memory lt has aligned co)
        λ r f.
          Gives-bind (AccessesIt va size c) _ _ _ (raise_if-AccessesIt c r w f)
            λ (o, c₂) a. again o c₂ a
    where
      again :
          (o : Option ℕ) (c₂ : Cpu Mmu)
          → AccessesIt va size c (o, c₂)
          → Gives
              (AccessesIt va size c)
              (translate va size writing c₂.memory >>= raise_if handler va size writing c₂)
      again none c₂ a = absurd a
      again (some pa) c₂ a =
          let f = a.finds in
          Gives-map (Accesses-before c c₂ f.kept) _
            (attempt c₂ f.slot aligned a.well_formed f.slot_lt f.has f.coherent)

  after_found :
      (c : Cpu Mmu) (r : Translation × Mmu)
      → IsWellFormed c
      → FindsIt va size c.memory r
      → Gives (AccessesIt va size c) (after_first handler va size writing c r)
  unfolding after_first
  after_found c (found pa, m) w f = record {
    finds = f;
    well_formed = with_memory-IsWellFormed c m w;
  }
  after_found c (trapped e, m) w f = absurd f

  missed : Mmu → Mmu
  missed m = record m { tlb_miss = m.tlb_miss + 1 }

  after_fault :
      (c : Cpu Mmu)
      → va < 2 ^ 32
      → va / page_size < size_of c.memory
      → IsAligned va size
      → IsWellFormed c
      → Coherent c.memory
      → Gives
          (AccessesIt va size c)
          (after_first handler va size writing c (trapped page_fault_exception, missed c.memory))
  unfolding after_first missed
  after_fault c word k aligned w co =
      let m = missed c.memory in
      let c₁ = with_memory c m in
      let co' : Coherent m = record { running = co.running; agree = co.agree } in
      Gives-bind (Repaired c₁) _ _ _
        (raise_to-Raises (Repaired c₁) va c₁ (handler page_fault_exception)
          (with_memory-IsWellFormed c m w).sound word λ c' r. repair c₁ c' k co' r)
        λ c' r.
          let f = r.refills in
          let p : Preserves c.memory c'.memory = record {
            table = f.kept.table;
            size = f.kept.size;
            bytes = f.kept.bytes;
          } in
          Gives-map (Accesses-before c c' p) _ (
            retry-AccessesIt c' f.slot aligned r.well_formed f.slot_lt (f.valid, f.named)
              f.coherent)

  after_missing :
      (c : Cpu Mmu)
      → va < 2 ^ 32
      → va / page_size < size_of c.memory
      → IsAligned va size
      → IsWellFormed c
      → Coherent c.memory
      → Gives
          (AccessesIt va size c)
          (translate_found none va size writing c.memory >>= after_first handler va size writing c)
  unfolding translate_found missed
  after_missing = after_fault

  -- The whole of an access, in a coherent state: whether the page is in the translation buffer, in
  -- the memory or paged out, a physical address is found.
  pub access-AccessesIt :
      (c : Cpu Mmu)
      → va < 2 ^ 32
      → va / page_size < size_of c.memory
      → IsAligned va size
      → IsWellFormed c
      → Coherent c.memory
      → Gives (AccessesIt va size c) (access handler va size writing c)
  unfolding access translate
  access-AccessesIt c word k aligned w co =
      elim (Option-cases (find_tlb c.memory.tlb (va / page_size) tlb_size 0)) [
        | inl missing ↦
            rw (aligned_passes va size aligned, missing) (after_missing c word k aligned w co)
        | inr (i, at) ↦
            let (lt, has) = find_tlb-some c.memory.tlb (va / page_size) tlb_size 0 i at in
            rw (aligned_passes va size aligned, at)
              (Gives-bind (FindsIt va size c.memory) _ _ _
                (translate_found-FindsIt i va size writing c.memory lt has aligned co)
                λ r f. after_found c r w f)
      ]
