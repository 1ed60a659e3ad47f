-- ===== src/Machine/Cpu.antt =====
-- `Machine::OneInstruction` and `DelayedLoad` of code/machine/mipssim.cc, on the registers of
-- code/machine/machine.h.
-- What the instruction needs of the rest of the machine is the record `Bus`: the memory behind
-- `ReadMem` and `WriteMem`, and the kernel's exception handler. Register numbers that come from an
-- instruction have five bits, so only the target of a delayed load can miss the array. The clock
-- ticks and the trace are left out. Sums and products of `int`s wrap around.
pub mod Overflow
pub mod Registers
mod Tests
use op_prac.Base.{
  ℕ, zero, suc, ◌+◌, ◌-◌, ◌*◌, ◌/◌, ◌%◌, ◌^◌, ◌≤◌, ◌<◌, ◌≡◌, refl, sym, ap, subst, ◌∙◌, ◌≢◌, ◌↔◌,
  ◌⊎◌, inl, inr, Bool, true, false, not, ◌&&◌, ◌||◌, Option, none, some, List, [], ◌∷◌, ◌++◌, map,
  arith, dec_lt, dec_le, ℕ_discrete, Error, assert_failed, bad_access, arithmetic_fault,
  out_of_fuel, Result, ok, err, ◌>>=◌, ◌>>◌, assert, or_fault, Result-cases, ltb, leb, ◌==◌,
  if◌then◌else◌, ltb→lt, lt→ltb, le→ltb, leb→le, ==_iff, tests, Bool-cases, Option-cases, length,
  get_elem?, set, get_or, take, drop, replicate, All, length-append, length-set, length-replicate,
  get_or-set_self, get_or-set_ne, get_elem?-eq-get_or, get_elem?-none, get_elem?-set_self,
  get_elem?-set_ne, get_elem?-append, get_elem?-some, All-set, All-get_or, bit_and, bit_or, bit_xor,
}
use op_prac.Machine.Word.{
  add_word, sub_word, is_negative, same_sign, ltb_signed, complement, negate, shift_left,
  shift_right,
}
use op_prac.Machine.Mult.{mult}
use op_prac.Machine.Instruction.{
  Op, Instruction, decode, op_add, op_addi, op_addiu, op_addu, op_and, op_andi, op_beq, op_bgez,
  op_bgezal, op_bgtz, op_blez, op_bltz, op_bltzal, op_bne, op_div, op_divu, op_j, op_jal, op_jalr,
  op_jr, op_lb, op_lbu, op_lh, op_lhu, op_lui, op_lw, op_lwl, op_lwr, op_mfhi, op_mflo, op_mthi,
  op_mtlo, op_mult, op_multu, op_nor, op_or, op_ori, op_rfe, op_sb, op_sh, op_sll, op_sllv, op_slt,
  op_slti, op_sltiu, op_sltu, op_sra, op_srav, op_srl, op_srlv, op_sub, op_subu, op_sw, op_swl,
  op_swr, op_xor, op_xori, op_syscall, op_unimp, op_res,
}

abbrev pub r31 : ℕ
r31 = 31

abbrev pub hi_reg : ℕ
hi_reg = 32

abbrev pub lo_reg : ℕ
lo_reg = 33

abbrev pub pc_reg : ℕ
pc_reg = 34

abbrev pub next_pc_reg : ℕ
next_pc_reg = 35

abbrev pub prev_pc_reg : ℕ
prev_pc_reg = 36

abbrev pub load_reg : ℕ
load_reg = 37

abbrev pub load_value_reg : ℕ
load_value_reg = 38

abbrev pub bad_v_addr_reg : ℕ
bad_v_addr_reg = 39

abbrev pub num_total_regs : ℕ
num_total_regs = 40

pub data ExceptionType : Type 0 where
  no_exception syscall_exception page_fault_exception read_only_exception : ExceptionType
  bus_error_exception address_error_exception overflow_exception : ExceptionType
  illegal_instr_exception : ExceptionType

pub record Cpu (M : Type 0) : Type 0 where
  pub registers : List ℕ
  pub memory : M

-- How an instruction ends: it is done, with the program counter after the next and a delayed load;
-- or it has returned early.
pub data Ending (M : Type 0) : Type 0 where
  done : Cpu M → ℕ → ℕ → ℕ → Ending M
  returned : Cpu M → Ending M

pub record Bus (M : Type 0) : Type 0 where
  pub read_mem : ℕ → ℕ → Cpu M → Result (Option ℕ × Cpu M)
  pub write_mem : ℕ → ℕ → ℕ → Cpu M → Result (Bool × Cpu M)
  pub exception_handler : ExceptionType → Cpu M → Result (Cpu M)

module _ {M : Type 0} where
  abbrev pub reg : Cpu M → ℕ → ℕ
  reg c i = get_or c.registers i 0

  abbrev pub set_reg : ℕ → ℕ → Cpu M → Cpu M
  set_reg i v c = record c { registers = set c.registers i v }

  unfoldable pub delayed_load : ℕ → ℕ → Cpu M → Result (Cpu M)
  delayed_load next_reg next_value c =
      let target = reg c load_reg in
      if ltb target (length c.registers)
      then ok (
          set_reg 0 0 (
            set_reg load_value_reg next_value
              (set_reg load_reg next_reg (set_reg target (reg c load_value_reg) c))))
      else err bad_access

  -- A write of one register, with no delayed load.
  abbrev pub put_reg : ℕ → ℕ → Cpu M → ℕ → Result (Ending M)
  put_reg i v c pc_after = ok (done (set_reg i v c) pc_after 0 0)

  -- A branch that is taken if the test holds.
  abbrev pub branch : Bool → Instruction → Cpu M → ℕ → Result (Ending M)
  branch taken instr c pc_after =
      let target = add_word (reg c next_pc_reg) (shift_left instr.extra 2) in
      ok (done c (if taken then target else pc_after) 0 0)

  -- `registers[R31] = registers[NextPCReg] + 4`
  abbrev pub link : Cpu M → Cpu M
  link c = set_reg r31 (add_word (reg c next_pc_reg) 4) c

  -- `registers[instr->rs] + instr->extra`
  abbrev pub address : Instruction → Cpu M → ℕ
  address instr c = add_word (reg c instr.rs) instr.extra

module _ {M : Type 0} where
  -- `RaiseException`, for a handler.
  abbrev pub raise_to :
      (ExceptionType → Cpu M → Result (Cpu M)) → ExceptionType → ℕ → Cpu M → Result (Cpu M)
  raise_to handler which bad_v_addr c = do
    c' ← delayed_load 0 0 (set_reg bad_v_addr_reg bad_v_addr c)
    handler which c'

module _ {M : Type 0} (bus : Bus M) where
  open bus use {read_mem, write_mem, exception_handler}

  unfoldable pub raise_exception : ExceptionType → ℕ → Cpu M → Result (Cpu M)
  raise_exception = raise_to exception_handler

  -- `RaiseException(...); return;`
  abbrev pub trap : ExceptionType → ℕ → Cpu M → Result (Ending M)
  trap which bad_v_addr c = raise_exception which bad_v_addr c >>= λ c'. ok (returned c')

  unfoldable pub add_instr : Instruction → Cpu M → ℕ → Result (Ending M)
  add_instr instr c pc_after =
      let a = reg c instr.rs in
      let b = reg c instr.rt in
      let sum = add_word a b in
      if same_sign a b && not (same_sign a sum)
      then trap overflow_exception 0 c
      else put_reg instr.rd sum c pc_after

  unfoldable pub addi_instr : Instruction → Cpu M → ℕ → Result (Ending M)
  addi_instr instr c pc_after =
      let a = reg c instr.rs in
      let sum = add_word a instr.extra in
      if same_sign a instr.extra && not (same_sign instr.extra sum)
      then trap overflow_exception 0 c
      else put_reg instr.rt sum c pc_after

  unfoldable pub sub_instr : Instruction → Cpu M → ℕ → Result (Ending M)
  sub_instr instr c pc_after =
      let a = reg c instr.rs in
      let b = reg c instr.rt in
      let diff = sub_word a b in
      if not (same_sign a b) && not (same_sign a diff)
      then trap overflow_exception 0 c
      else put_reg instr.rd diff c pc_after
