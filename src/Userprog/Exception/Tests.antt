-- ===== src/Userprog/Exception/Tests.antt =====
-- The theorems at concrete states: a program of two pages that has just been loaded.
use op_prac.Base.{
  ℕ, ◌%◌, ◌≡◌, refl, inr, true, false, Option, none, some, arith, Result, ok, ◌>>=◌, ◌==◌,
  if◌then◌else◌, replicate, Gives,
}
use op_prac.Machine.Cpu.Registers.{Always}
use op_prac.Machine.Execute.{one_instruction}
use op_prac.Machine.Execute.Invariant.{one_instruction-IsWellFormed}
use op_prac.Userprog.Exception.Registers.{mmu_bus-Keeps}
use op_prac.Userprog.Exception.{mmu_bus}
use op_prac.Machine.Cpu.{Cpu}
use op_prac.Machine.Cpu.Registers.{IsWellFormed}
use op_prac.Machine.Mmu.{Mmu, TranslationEntry, PhysicalPageEntry, AddrSpace}
use op_prac.Machine.Mmu.Coherence.{Coherent}
use op_prac.Machine.Paging.{choose, lru_tlb, fifo_tlb}
use op_prac.Machine.Paging.Faults.{Refills, lru_tlb-Refills, fifo_tlb-Refills}
use op_prac.Machine.Paging.Victim.{IsVictim, choose-IsVictim}
use op_prac.Machine.Translate.Hits.{FindsIt, translate-FindsIt}
use op_prac.Machine.Translate.{translate, read_mem, write_mem}
use op_prac.Userprog.Exception.{trap_to_kernel}
use op_prac.Userprog.Exception.Memory.{ReadsIt, read_mem-ReadsIt}
use op_prac.Userprog.Exception.Stores.{WritesIt, write_mem-WritesIt}

abbrev no_entry : TranslationEntry
no_entry = record {
  virtual_page = 0;
  physical_page = 0;
  valid = false;
  read_only = false;
  used = false;
  dirty = false;
  in_time = 0;
  last_hit_time = 0;
}

abbrev no_frame : PhysicalPageEntry
no_frame = record {
  virtual_page_number = 0;
  owner_thread = none;
  last_hit_time = 0;
  valid = false;
  dirty = false;
}

-- Byte `a` of the program is `a` modulo 256.
abbrev loaded_space : AddrSpace
loaded_space = record { page_table = λ p. no_entry; num_pages = 2; v_space = λ a. a % 256 }

abbrev booted : Mmu
booted = record {
  main_memory = λ a. 0;
  tlb = λ i. no_entry;
  physical = λ f. no_frame;
  spaces = λ t. loaded_space;
  table_of = 0;
  current_thread = 0;
  total_ticks = 0;
  tlb_hit = 0;
  tlb_miss = 0;
}

booted-Coherent : Coherent booted
booted-Coherent = record {
  running = refl;
  agree = record {
    mapped = λ p lt w. cc;
    unnamed = λ p lt w. cc;
    resident = λ f lt ne w. cc;
    cached = λ i lt w. cc;
  };
}

abbrev started : Cpu Mmu
started = record { registers = replicate 40 0; memory = booted }

started-IsWellFormed : IsWellFormed started
started-IsWellFormed = record {
  sound = record { sized = refl; words = omega arith; target = omega arith };
  zeroth = refl;
}

abbrev no_syscall : Cpu Mmu → Result (Cpu Mmu)
no_syscall c = ok c

-- A word of the second page, which is not in memory.
read_word : Result (Option ℕ)
read_word = read_mem (trap_to_kernel no_syscall) 132 4 started >>= λ r. ok (r.0)

read_mem-ReadsIt_example :
    Gives (ReadsIt 132 4 started) (read_mem (trap_to_kernel no_syscall) 132 4 started)
read_mem-ReadsIt_example =
    read_mem-ReadsIt no_syscall 132 4 started (omega arith) (omega arith) (inr (inr refl), refl)
      started-IsWellFormed booted-Coherent

write_mem-WritesIt_example :
    Gives (WritesIt 132 4 7 started) (write_mem (trap_to_kernel no_syscall) 132 4 7 started)
write_mem-WritesIt_example =
    write_mem-WritesIt no_syscall 132 4 7 started (omega arith) (omega arith) (inr (inr refl), refl)
      started-IsWellFormed booted-Coherent

lru_tlb-Refills_example : Gives (Refills 1 booted) (lru_tlb 130 booted)
lru_tlb-Refills_example = lru_tlb-Refills 130 booted (omega arith) booted-Coherent

fifo_tlb-Refills_example : Gives (Refills 0 booted) (fifo_tlb 5 booted)
fifo_tlb-Refills_example = fifo_tlb-Refills 5 booted (omega arith) booted-Coherent

-- Page 1 is in frame 3, with an entry in slot 2 of the translation buffer.
abbrev entry_1 : TranslationEntry
entry_1 = record no_entry { virtual_page = 1; physical_page = 3; valid = true }

abbrev resident : Mmu
resident = record booted {
  tlb = λ i. if i == 2 then entry_1 else no_entry;
  physical = λ f.
      if f == 3
      then (record no_frame { virtual_page_number = 1; owner_thread = some 0; valid = true })
      else no_frame;
  spaces = λ t. (record loaded_space { page_table = λ p. if p == 1 then entry_1 else no_entry });
}

resident-Coherent : Coherent resident
resident-Coherent = record {
  running = refl;
  agree = record {
    mapped = λ p lt w. ground arith;
    unnamed = λ p lt w. ground arith;
    resident = λ f lt ne w. ground arith;
    cached = λ i lt w. ground arith;
  };
}

translate-FindsIt_example : Gives (FindsIt 132 4 resident) (translate 132 4 true resident)
translate-FindsIt_example =
    translate-FindsIt 2 132 4 true resident (omega arith) (refl, refl) (inr (inr refl), refl)
      resident-Coherent

abbrev slot_times : ℕ → ℕ
slot_times i = if i == 1 then 5 else 9

choose-IsVictim_example :
    IsVictim {A = ℕ}
      (λ t. true)
      (λ t. t)
      slot_times
      0
      4
      0
      (choose (λ t. true) (λ t. t) slot_times 4 0 0)
choose-IsVictim_example = choose-IsVictim (λ t. true) (λ t. t) slot_times 4 0 0 4 refl

oldest_slot : choose (λ t. true) (λ t. t) slot_times 4 0 0 ≡ 1
unfolding choose
oldest_slot = refl

no_syscall-IsWellFormed : (c : Cpu Mmu) → IsWellFormed c → Always IsWellFormed (no_syscall c)
no_syscall-IsWellFormed c w = w

-- The instruction at 0, whose page is not in memory.
one_instruction-IsWellFormed_example :
    Always IsWellFormed (one_instruction (mmu_bus no_syscall) started)
one_instruction-IsWellFormed_example =
    one_instruction-IsWellFormed (mmu_bus no_syscall)
      (mmu_bus-Keeps no_syscall no_syscall-IsWellFormed) started started-IsWellFormed
