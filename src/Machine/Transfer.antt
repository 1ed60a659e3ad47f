-- ===== src/Machine/Transfer.antt =====
-- The loads and stores of `Machine::OneInstruction`, code/machine/mipssim.cc.
-- LWL, LWR, SWL and SWR first assert that the address is on a word boundary; only the first case of
-- the switch behind that is reached, and it is the one given.
use op_prac.Base.{
  ℕ, ◌-◌, ◌/◌, ◌%◌, ◌^◌, Bool, true, false, not, ◌&&◌, Option, none, some, Result, ok, ◌>>=◌, ◌>>◌,
  assert, ◌==◌, if◌then◌else◌, bit_and, bit_or,
}
use op_prac.Machine.Word.{shift_left}
use op_prac.Machine.Instruction.{Instruction}
use op_prac.Machine.Cpu.{
  Cpu, Bus, Ending, done, returned, reg, trap, address, load_reg, load_value_reg,
  address_error_exception,
}

abbrev pub top_24 : ℕ
top_24 = 2 ^ 32 - 2 ^ 8

abbrev pub top_16 : ℕ
top_16 = 2 ^ 32 - 2 ^ 16

-- The lowest byte, its sign extended for LB.
abbrev pub extend_byte : Bool → ℕ → ℕ
extend_byte signed value =
    if not (bit_and value 128 == 0) && signed then bit_or value top_24 else bit_and value 255

abbrev pub extend_half : Bool → ℕ → ℕ
extend_half signed value =
    if not (bit_and value 32768 == 0) && signed then bit_or value top_16 else bit_and value 65535

module _ {M : Type 0} (bus : Bus M) where
  open bus use {read_mem, write_mem}

  -- What follows a `ReadMem`: an early return if it failed.
  abbrev pub loaded : (ℕ → Cpu M → Result (Ending M)) → Option ℕ × Cpu M → Result (Ending M)
  loaded next (none, c) = ok (returned c)
  loaded next (some value, c) = next value c

  abbrev pub stored : ℕ → Bool × Cpu M → Result (Ending M)
  stored pc_after (false, c) = ok (returned c)
  stored pc_after (true, c) = ok (done c pc_after 0 0)

  unfoldable pub load_byte : Bool → Instruction → Cpu M → ℕ → Result (Ending M)
  load_byte signed instr c pc_after =
      read_mem (address instr c) 1 c
      >>= loaded (λ value c'. ok (done c' pc_after instr.rt (extend_byte signed value)))

  unfoldable pub load_half : Bool → Instruction → Cpu M → ℕ → Result (Ending M)
  load_half signed instr c pc_after =
      let tmp = address instr c in
      if tmp % 2 == 0
      then read_mem tmp 2 c
        >>= loaded (λ value c'. ok (done c' pc_after instr.rt (extend_half signed value)))
      else trap bus address_error_exception tmp c

  unfoldable pub load_word : Instruction → Cpu M → ℕ → Result (Ending M)
  load_word instr c pc_after =
      let tmp = address instr c in
      if tmp % 4 == 0
      then read_mem tmp 4 c >>= loaded (λ value c'. ok (done c' pc_after instr.rt value))
      else trap bus address_error_exception tmp c

  unfoldable pub load_word_left : Instruction → Cpu M → ℕ → Result (Ending M)
  load_word_left instr c pc_after = do
    let tmp = address instr c
    assert (tmp % 4 == 0)
    found ← read_mem tmp 4 c
    loaded (λ value c'. ok (done c' pc_after instr.rt value)) found

  -- The register, or the value that is still on its way to it.
  abbrev pub pending : ℕ → Cpu M → ℕ
  pending i c = if reg c load_reg == i then reg c load_value_reg else reg c i

  unfoldable pub load_word_right : Instruction → Cpu M → ℕ → Result (Ending M)
  load_word_right instr c pc_after = do
    let tmp = address instr c
    assert (tmp % 4 == 0)
    found ← read_mem tmp 4 c
    loaded
        (λ value c'. ok (
          done c' pc_after instr.rt
            (bit_or (bit_and (pending instr.rt c') top_24) (value / 2 ^ 24 % 2 ^ 8))))
        found

  unfoldable pub store : ℕ → Instruction → Cpu M → ℕ → Result (Ending M)
  store size instr c pc_after =
      write_mem (address instr c) size (reg c instr.rt) c >>= stored pc_after

  unfoldable pub store_word_left : Instruction → Cpu M → ℕ → Result (Ending M)
  store_word_left instr c pc_after = do
    let tmp = address instr c
    assert (tmp % 4 == 0)
    found ← read_mem tmp 4 c
    loaded (λ value c'. write_mem tmp 4 (reg c' instr.rt) c' >>= stored pc_after) found

  unfoldable pub store_word_right : Instruction → Cpu M → ℕ → Result (Ending M)
  store_word_right instr c pc_after = do
    let tmp = address instr c
    assert (tmp % 4 == 0)
    found ← read_mem tmp 4 c
    loaded
        (λ value c'.
          write_mem tmp 4 (bit_or (value % 2 ^ 24) (shift_left (reg c' instr.rt) 24)) c'
          >>= stored pc_after)
        found
