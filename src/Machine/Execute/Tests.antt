-- ===== src/Machine/Execute/Tests.antt =====
-- A machine with a memory of four words.
use op_prac.Base.{
  ℕ, ◌/◌, ◌%◌, ◌^◌, ◌≡◌, refl, true, some, List, [], ◌∷◌, ◌++◌, ok, get_or, replicate,
}
use op_prac.Machine.Instruction.{decode}
use op_prac.Machine.Cpu.{Cpu, Bus, delayed_load}
use op_prac.Machine.Execute.{
  execute, execute_from_lw, execute_from_sb, finish, step, one_instruction,
}

-- Memory that is read by words; nothing is written, and the kernel does nothing.
abbrev rom : Bus (List ℕ)
rom = record {
  read_mem = λ a size c. ok (some (get_or c.memory (a / 4) 0 % 2 ^ 32), c);
  write_mem = λ a size v c. ok (true, c);
  exception_handler = λ e c. ok c;
}

-- ADDIU r2,r0,-24 is the next instruction, at 4.
abbrev started : Cpu (List ℕ)
started = record {
  registers = replicate 34 0 ++ 4 ∷ 8 ∷ 0 ∷ 0 ∷ 0 ∷ 0 ∷ [];
  memory = 0 ∷ 604176360 ∷ 0 ∷ 0 ∷ [];
}

minus_24 :
    one_instruction rom started
    ≡ ok (record started {
      registers = 0 ∷ 0 ∷ 4294967272 ∷ replicate 31 0 ++ 8 ∷ 12 ∷ 4 ∷ 0 ∷ 0 ∷ 0 ∷ [];
    })
unfolding one_instruction step execute execute_from_lw execute_from_sb finish decode delayed_load
minus_24 = refl
