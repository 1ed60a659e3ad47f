-- ===== src/Userprog/Exception.antt =====
-- The memory side of code/userprog/exception.cc: `ExceptionHandler` for all exceptions but system
-- calls, which are a parameter, and the clock tick that `RaiseException` takes before it.
-- The interrupts that may be due at that tick are left out.
pub mod Access
pub mod Memory
pub mod Stores
pub mod Registers
mod Tests
use op_prac.Base.{
  ℕ, zero, suc, ◌+◌, ◌-◌, ◌*◌, ◌/◌, ◌%◌, ◌^◌, ◌≤◌, ◌<◌, ◌≡◌, refl, sym, ap, subst, ◌∙◌, ◌≢◌, ◌↔◌,
  ◌⊎◌, inl, inr, Bool, true, false, not, ◌&&◌, ◌||◌, Option, none, some, List, [], ◌∷◌, ◌++◌, map,
  arith, dec_lt, dec_le, ℕ_discrete, Error, assert_failed, bad_access, arithmetic_fault,
  out_of_fuel, Result, ok, err, ◌>>=◌, ◌>>◌, assert, or_fault, Result-cases, ltb, leb, ◌==◌,
  if◌then◌else◌, ltb→lt, lt→ltb, le→ltb, lt→leb, le→leb, leb→le, ==_iff, tests, Bool-cases,
  Option-cases, length, get_elem?, set, get_or, take, drop, replicate, All, length-append,
  length-set, length-replicate, get_or-set_self, get_or-set_ne, get_elem?-eq-get_or, get_elem?-none,
  get_elem?-set_self, get_elem?-set_ne, get_elem?-append, get_elem?-some, All-set, All-get_or,
  bit_and, bit_or, bit_xor, Gives, Gives-bind, Gives-map, update, update_self, update_ne,
}
use op_prac.Machine.Cpu.{
  Cpu, reg, bad_v_addr_reg, Bus, ExceptionType, no_exception, syscall_exception,
  page_fault_exception, read_only_exception, bus_error_exception, address_error_exception,
  overflow_exception, illegal_instr_exception,
}
use op_prac.Machine.Mmu.{Mmu}
use op_prac.Machine.Paging.{lru_tlb}
use op_prac.Machine.Translate.{read_mem, write_mem, with_memory}

abbrev pub system_tick : ℕ
system_tick = 10

-- `OneTick` in system mode.
abbrev pub tick : Mmu → Mmu
tick m = record m { total_ticks = (m.total_ticks + system_tick) % 2 ^ 32 }

module _ (syscall : Cpu Mmu → Result (Cpu Mmu)) where
  unfoldable pub exception_handler : ExceptionType → Cpu Mmu → Result (Cpu Mmu)
  exception_handler syscall_exception c = syscall c
  exception_handler page_fault_exception c =
      lru_tlb (reg c bad_v_addr_reg) c.memory >>= λ m. ok (with_memory c m)
  exception_handler _ c = err assert_failed

  -- What `RaiseException` does when the registers are ready.
  unfoldable pub trap_to_kernel : ExceptionType → Cpu Mmu → Result (Cpu Mmu)
  unfolding exception_handler
  trap_to_kernel which c = exception_handler which (with_memory c (tick c.memory))

  -- The machine's own memory, for the instructions.
  unfoldable pub mmu_bus : Bus Mmu
  mmu_bus = record {
    read_mem = read_mem trap_to_kernel;
    write_mem = write_mem trap_to_kernel;
    exception_handler = trap_to_kernel;
  }
