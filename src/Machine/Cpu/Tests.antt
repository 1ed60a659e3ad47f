-- ===== src/Machine/Cpu/Tests.antt =====
-- ADD and SUB at concrete registers.
use op_prac.Base.{ℕ, ◌+◌, ◌^◌, ◌≡◌, refl, ◌⊎◌, false, none, ◌∷◌, arith, ok, replicate}
use op_prac.Machine.Instruction.{Instruction, op_add}
use op_prac.Machine.Cpu.{Cpu, Bus, trap, put_reg, add_instr, overflow_exception}
use op_prac.Machine.Cpu.Overflow.{raised, Fits, add_instr_lem}

abbrev no_bus : Bus (Unit {0})
no_bus = record {
  read_mem = λ a size c. ok (none, c);
  write_mem = λ a size v c. ok (false, c);
  exception_handler = λ e c. ok c;
}

-- Registers 1 and 2 hold the greatest number and 1.
abbrev cpu : Cpu (Unit {0})
cpu = record { registers = 0 ∷ 2147483647 ∷ 1 ∷ replicate 37 0; memory = tt }

abbrev add_three : Instruction
add_three = record { op_code = op_add; rs = 1; rt = 2; rd = 3; extra = 0 }

add_overflows : add_instr no_bus add_three cpu 8 ≡ trap no_bus overflow_exception 0 cpu
unfolding add_instr
add_overflows = refl

add_instr_lem_example :
    (Fits (raised 2147483647 + raised 1)
      × (sum : ℕ) × (raised sum + 2 ^ 31 ≡ raised 2147483647 + raised 1)
      × (add_instr no_bus add_three cpu 8 ≡ put_reg 3 sum cpu 8))
    ⊎ (¬ Fits (raised 2147483647 + raised 1)
        × (add_instr no_bus add_three cpu 8 ≡ trap no_bus overflow_exception 0 cpu))
add_instr_lem_example = add_instr_lem no_bus add_three cpu 8 (omega arith) (omega arith)
