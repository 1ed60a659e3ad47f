-- ===== src/Machine/Translate.antt =====
-- `Machine::Translate`, `ReadMem` and `WriteMem` of code/machine/translate.cc, on a little-endian host,
-- where `WordToHost` and its like change nothing.
pub mod Hits
pub mod Raises
use op_prac.Base.{
  ℕ, zero, suc, ◌+◌, ◌-◌, ◌*◌, ◌/◌, ◌%◌, ◌^◌, ◌≤◌, ◌<◌, ◌≡◌, refl, sym, ap, subst, ◌∙◌, ◌≢◌, ◌↔◌,
  ◌⊎◌, inl, inr, Bool, true, false, not, ◌&&◌, ◌||◌, Option, none, some, List, [], ◌∷◌, ◌++◌, map,
  arith, dec_lt, dec_le, ℕ_discrete, Error, assert_failed, bad_access, arithmetic_fault,
  out_of_fuel, Result, ok, err, ◌>>=◌, ◌>>◌, assert, or_fault, Result-cases, ltb, leb, ◌==◌,
  if◌then◌else◌, ltb→lt, lt→ltb, le→ltb, lt→leb, le→leb, leb→le, ==_iff, tests, Bool-cases,
  Option-cases, length, get_elem?, set, get_or, take, drop, replicate, All, length-append,
  length-set, length-replicate, get_or-set_self, get_or-set_ne, get_elem?-eq-get_or, get_elem?-none,
  get_elem?-set_self, get_elem?-set_ne, get_elem?-append, get_elem?-some, All-set, All-get_or,
  bit_and, bit_or, bit_xor, Gives, Gives-bind, Gives-map, update, update_self, update_ne,
}
use op_prac.Machine.Cpu.{
  Cpu, raise_to, ExceptionType, no_exception, page_fault_exception, read_only_exception,
  bus_error_exception, address_error_exception,
}
use op_prac.Machine.Mmu.{
  Mmu, TranslationEntry, PhysicalPageEntry, AddrSpace, page_size, num_phys_pages, memory_size,
  tlb_size, page_entry, set_entry,
}

-- The result of `Translate`: a physical address, or the exception.
pub data Translation : Type 0 where
  found : ℕ → Translation
  trapped : ExceptionType → Translation

unfoldable pub find_tlb : (ℕ → TranslationEntry) → ℕ → ℕ → ℕ → Option ℕ
find_tlb tlb vpn zero i = none
find_tlb tlb vpn (suc left) i =
    let rest = find_tlb tlb vpn left (suc i) in
    if (tlb i).valid && ((tlb i).virtual_page == vpn) then some i else rest

-- `use`, `dirty` and `LastHitTime` of entry `i` and of the page frame.
unfoldable pub mark : ℕ → ℕ → Bool → Mmu → Result Mmu
unfolding set_entry
mark i vpn writing m = do
  let e = m.tlb i
  let frame = e.physical_page
  let p = m.physical frame
  let pte = page_entry m vpn
  m' ← if writing then set_entry m.table_of vpn (record pte { dirty = true }) m else ok m
  ok (record m' {
    tlb =
        update m'.tlb i
          (record e { used = true; dirty = writing || e.dirty; last_hit_time = m.total_ticks });
    physical =
        update m'.physical frame
          (record p { dirty = writing || p.dirty; last_hit_time = m.total_ticks });
  })

-- From the page frame on.
unfoldable pub translate_frame : ℕ → ℕ → ℕ → Bool → Mmu → Result (Translation × Mmu)
translate_frame i va size writing m = do
  m' ← mark i (va / page_size) writing m
  let pa = (m.tlb i).physical_page * page_size + va % page_size
  assert (leb (pa + size) memory_size)
  ok (found pa, m')

unfoldable pub translate_hit : ℕ → ℕ → ℕ → Bool → Mmu → Result (Translation × Mmu)
translate_hit i va size writing m =
    if (m.tlb i).read_only && writing
    then ok (trapped read_only_exception, m)
    else if leb num_phys_pages (m.tlb i).physical_page
    then ok (trapped bus_error_exception, m)
    else translate_frame i va size writing m

unfoldable pub translate_found : Option ℕ → ℕ → ℕ → Bool → Mmu → Result (Translation × Mmu)
translate_found none va size writing m =
    ok (trapped page_fault_exception, record m { tlb_miss = m.tlb_miss + 1 })
translate_found (some i) va size writing m =
    translate_hit i va size writing (record m { tlb_hit = m.tlb_hit + 1 })

unfoldable pub translate : ℕ → ℕ → Bool → Mmu → Result (Translation × Mmu)
translate va size writing m =
    if (size == 4) && not (va % 4 == 0) || (size == 2) && not (va % 2 == 0)
    then ok (trapped address_error_exception, m)
    else translate_found (find_tlb m.tlb (va / page_size) tlb_size 0) va size writing m

abbrev pub Handler : Type 0
Handler = ExceptionType → Cpu Mmu → Result (Cpu Mmu)

abbrev pub is_page_fault : ExceptionType → Bool
is_page_fault page_fault_exception = true
is_page_fault _ = false

-- The memory of the machine changes.
abbrev pub with_memory : Cpu Mmu → Mmu → Cpu Mmu
with_memory c m = record c { memory = m }

module _ (handler : Handler) (va size : ℕ) (writing : Bool) where
  -- `machine->RaiseException(exception, addr)`, if there is one.
  unfoldable pub raise_if : Cpu Mmu → Translation × Mmu → Result (Option ℕ × Cpu Mmu)
  raise_if c (found pa, m) = ok (some pa, with_memory c m)
  raise_if c (trapped e, m) = raise_to handler e va (with_memory c m) >>= λ c'. ok (none, c')

  -- The two attempts after a page fault.
  unfoldable pub retry : Cpu Mmu → Result (Option ℕ × Cpu Mmu)
  retry c = do
    second ← translate va size writing c.memory
    (_, c₂) ← raise_if c second
    third ← translate va size writing c₂.memory
    raise_if c₂ third

  unfoldable pub after_first : Cpu Mmu → Translation × Mmu → Result (Option ℕ × Cpu Mmu)
  after_first c (found pa, m) = ok (some pa, with_memory c m)
  after_first c (trapped e, m) = raise_to handler e va (with_memory c m) >>= λ c'.
      if is_page_fault e then retry c' else ok (none, c')

  -- What `ReadMem` and `WriteMem` begin with: the physical address, unless they return FALSE.
  unfoldable pub access : Cpu Mmu → Result (Option ℕ × Cpu Mmu)
  access c = translate va size writing c.memory >>= after_first c

-- A `char` as an `int`.
abbrev pub sign_extend_byte : ℕ → ℕ
sign_extend_byte b = if leb 128 b then b + (2 ^ 32 - 2 ^ 8) else b

-- A `char` of the memory, without its sign.
abbrev pub char_at : (ℕ → ℕ) → ℕ → ℕ
char_at memory a = memory a % 2 ^ 8

-- The switch of `ReadMem` on the size.
abbrev pub load_bytes : (ℕ → ℕ) → ℕ → ℕ → Result ℕ
load_bytes memory pa size =
    if size == 1
    then ok (sign_extend_byte (char_at memory pa))
    else if size == 2
    then ok (char_at memory pa + char_at memory (pa + 1) * 2 ^ 8)
    else if size == 4
    then ok (
        char_at memory pa
        + char_at memory (pa + 1) * 2 ^ 8
        + char_at memory (pa + 2) * 2 ^ 16
        + char_at memory (pa + 3) * 2 ^ 24)
    else err assert_failed

-- `n` bytes of `value` from address `pa` on, the lowest first.
abbrev pub put_bytes : ℕ → ℕ → ℕ → (ℕ → ℕ) → ℕ → ℕ
put_bytes n pa value memory a =
    if leb pa a && ltb a (pa + n) then value / 2 ^ (8 * (a - pa)) % 2 ^ 8 else memory a

-- The switch of `WriteMem` on the size.
abbrev pub store_bytes : (ℕ → ℕ) → ℕ → ℕ → ℕ → Result (ℕ → ℕ)
store_bytes memory pa size value =
    if (size == 1) || (size == 2) || (size == 4)
    then ok (put_bytes size pa value memory)
    else err assert_failed

abbrev pub loaded_from : ℕ → Option ℕ × Cpu Mmu → Result (Option ℕ × Cpu Mmu)
loaded_from size (none, c) = ok (none, c)
loaded_from size (some pa, c) =
    load_bytes c.memory.main_memory pa size >>= λ value. ok (some value, c)

unfoldable pub read_mem : Handler → ℕ → ℕ → Cpu Mmu → Result (Option ℕ × Cpu Mmu)
unfolding access after_first retry raise_if translate translate_found translate_hit translate_frame
    mark find_tlb
read_mem handler va size c = access handler va size false c >>= loaded_from size

abbrev pub stored_to : ℕ → ℕ → Option ℕ × Cpu Mmu → Result (Bool × Cpu Mmu)
stored_to size value (none, c) = ok (false, c)
stored_to size value (some pa, c) = store_bytes c.memory.main_memory pa size value >>= λ memory.
    ok (true, with_memory c (record (c.memory) { main_memory = memory }))

unfoldable pub write_mem : Handler → ℕ → ℕ → ℕ → Cpu Mmu → Result (Bool × Cpu Mmu)
unfolding access after_first retry raise_if translate translate_found translate_hit translate_frame
    mark find_tlb
write_mem handler va size value c = access handler va size true c >>= stored_to size value
