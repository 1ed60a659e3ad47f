-- ===== src/Machine/Mmu.antt =====
-- Virtual memory: the translation buffer, the page table and the table of physical pages of
-- code/machine/translate.cc and code/threads/system.h, without DiskImage, so that what is paged out
-- lies in `vSpace`, and with USE_TLB.
-- A thread is known by a number, and owns the address space of that number; `table_of` is the thread
-- whose space `RestoreState` has given to the machine as `pageTable` and `pageTableSize`, so that the
-- two names of that table stay one table. An array is a function of the index, and where no test in
-- the code keeps an index below the length of the array, the model does, and fails with `bad_access`.
-- `int`s are words; the words of an instruction's address come from the registers.
pub mod Coherence
pub mod Edits
use op_prac.Base.{
  ℕ, zero, suc, ◌+◌, ◌-◌, ◌*◌, ◌/◌, ◌%◌, ◌^◌, ◌≤◌, ◌<◌, ◌≡◌, refl, sym, ap, subst, ◌∙◌, ◌≢◌, ◌↔◌,
  ◌⊎◌, inl, inr, Bool, true, false, not, ◌&&◌, ◌||◌, Option, none, some, List, [], ◌∷◌, ◌++◌, map,
  arith, dec_lt, dec_le, ℕ_discrete, Error, assert_failed, bad_access, arithmetic_fault,
  out_of_fuel, Result, ok, err, ◌>>=◌, ◌>>◌, assert, or_fault, Result-cases, ltb, leb, ◌==◌,
  if◌then◌else◌, ltb→lt, lt→ltb, le→ltb, lt→leb, le→leb, leb→le, ==_iff, tests, Bool-cases,
  Option-cases, length, get_elem?, set, get_or, take, drop, replicate, All, length-append,
  length-set, length-replicate, get_or-set_self, get_or-set_ne, get_elem?-eq-get_or, get_elem?-none,
  get_elem?-set_self, get_elem?-set_ne, get_elem?-append, get_elem?-some, All-set, All-get_or,
  bit_and, bit_or, bit_xor, Gives, Gives-bind, Gives-map, update, update_self, update_ne,
}

abbrev pub page_size : ℕ
page_size = 128

abbrev pub num_phys_pages : ℕ
num_phys_pages = 32

abbrev pub memory_size : ℕ
memory_size = 4096

abbrev pub tlb_size : ℕ
tlb_size = 4

-- The member `use` is `used` here.
pub record TranslationEntry : Type 0 where
  pub virtual_page : ℕ
  pub physical_page : ℕ
  pub valid : Bool
  pub read_only : Bool
  pub used : Bool
  pub dirty : Bool
  pub in_time : ℕ
  pub last_hit_time : ℕ

pub record PhysicalPageEntry : Type 0 where
  pub virtual_page_number : ℕ
  pub owner_thread : Option ℕ
  pub last_hit_time : ℕ
  pub valid : Bool
  pub dirty : Bool

pub record AddrSpace : Type 0 where
  pub page_table : ℕ → TranslationEntry
  pub num_pages : ℕ
  pub v_space : ℕ → ℕ

pub record Mmu : Type 0 where
  pub main_memory : ℕ → ℕ
  pub tlb : ℕ → TranslationEntry
  pub physical : ℕ → PhysicalPageEntry
  pub spaces : ℕ → AddrSpace
  pub table_of : ℕ
  pub current_thread : ℕ
  pub total_ticks : ℕ
  pub tlb_hit : ℕ
  pub tlb_miss : ℕ

-- `memcpy` of one page: `from` is the page's first byte in `source`, `to` in `target`.
abbrev pub copy_page : (ℕ → ℕ) → ℕ → (ℕ → ℕ) → ℕ → ℕ → ℕ
copy_page target to source from a =
    if a / page_size == to then source (from * page_size + a % page_size) else target a

abbrev pub size_of : Mmu → ℕ
size_of m = (m.spaces m.table_of).num_pages

abbrev pub page_entry : Mmu → ℕ → TranslationEntry
page_entry m vpn = (m.spaces m.table_of).page_table vpn

-- The page table, or the memory, of thread `t` changes.
abbrev pub with_table : ℕ → (ℕ → TranslationEntry) → Mmu → Mmu
with_table t table m = record m {
  spaces = update m.spaces t (record (m.spaces t) { page_table = table });
}

abbrev pub with_space : ℕ → (ℕ → ℕ) → Mmu → Mmu
with_space t bytes m = record m {
  spaces = update m.spaces t (record (m.spaces t) { v_space = bytes });
}

-- `pageTable[vpn] = e` in the table of thread `t`.
unfoldable pub set_entry : ℕ → ℕ → TranslationEntry → Mmu → Result Mmu
set_entry t vpn e m =
    if ltb vpn (m.spaces t).num_pages
    then ok (with_table t (update (m.spaces t).page_table vpn e) m)
    else err bad_access
