-- ===== src/Machine/Execute.antt =====
-- `Machine::OneInstruction` of code/machine/mipssim.cc, operation by operation.
pub mod Steps
mod Transfers
pub mod Invariant
mod Tests
use op_prac.Base.{
  ℕ, zero, suc, ◌+◌, ◌-◌, ◌*◌, ◌/◌, ◌%◌, ◌^◌, ◌≤◌, ◌<◌, ◌≡◌, refl, sym, ap, subst, ◌∙◌, ◌≢◌, ◌↔◌,
  ◌⊎◌, inl, inr, Bool, true, false, not, ◌&&◌, ◌||◌, Option, none, some, List, [], ◌∷◌, ◌++◌, map,
  arith, dec_lt, dec_le, ℕ_discrete, Error, assert_failed, bad_access, arithmetic_fault,
  out_of_fuel, Result, ok, err, ◌>>=◌, ◌>>◌, assert, or_fault, Result-cases, ltb, leb, ◌==◌,
  if◌then◌else◌, ltb→lt, lt→ltb, le→ltb, leb→le, ==_iff, tests, Bool-cases, Option-cases, length,
  get_elem?, set, get_or, take, drop, replicate, All, length-append, length-set, length-replicate,
  get_or-set_self, get_or-set_ne, get_elem?-eq-get_or, get_elem?-none, get_elem?-set_self,
  get_elem?-set_ne, get_elem?-append, get_elem?-some, All-set, All-get_or, bit_and, bit_or, bit_xor,
}
use op_prac.Machine.Word.{
  add_word, sub_word, is_negative, same_sign, ltb_signed, complement, negate, shift_left,
  shift_right,
}
use op_prac.Machine.Mult.{mult}
use op_prac.Machine.Instruction.{
  Op, Instruction, decode, op_add, op_addi, op_addiu, op_addu, op_and, op_andi, op_beq, op_bgez,
  op_bgezal, op_bgtz, op_blez, op_bltz, op_bltzal, op_bne, op_div, op_divu, op_j, op_jal, op_jalr,
  op_jr, op_lb, op_lbu, op_lh, op_lhu, op_lui, op_lw, op_lwl, op_lwr, op_mfhi, op_mflo, op_mthi,
  op_mtlo, op_mult, op_multu, op_nor, op_or, op_ori, op_rfe, op_sb, op_sh, op_sll, op_sllv, op_slt,
  op_slti, op_sltiu, op_sltu, op_sra, op_srav, op_srl, op_srlv, op_sub, op_subu, op_sw, op_swl,
  op_swr, op_xor, op_xori, op_syscall, op_unimp, op_res,
}
use op_prac.Machine.Cpu.{
  r31, hi_reg, lo_reg, pc_reg, next_pc_reg, prev_pc_reg, syscall_exception, illegal_instr_exception,
  Cpu, Ending, done, returned, Bus, reg, set_reg, delayed_load, trap, put_reg, branch, link,
  add_instr, addi_instr, sub_instr,
}
use op_prac.Machine.Transfer.{
  load_byte, load_half, load_word, load_word_left, load_word_right, store, store_word_left,
  store_word_right,
}

-- Quotient and remainder are rounded towards zero. -2 ^ 31 / -1 is no `int`.
unfoldable pub div_signed : ℕ → ℕ → Result (ℕ × ℕ)
div_signed a b =
    let size_a = if is_negative a then negate a else a in
    let size_b = if is_negative b then negate b else b in
    let quotient = size_a / size_b in
    let remainder = size_a % size_b in
    if (a == 2 ^ 31) && (b == 2 ^ 32 - 1)
    then err arithmetic_fault
    else ok (
      (if same_sign a b then quotient else negate quotient),
      (if is_negative a then negate remainder else remainder),
    )

module _ {M : Type 0} where
  -- The words for `HiReg` and `LoReg`.
  abbrev pub put_double : ℕ × ℕ → Cpu M → ℕ → Result (Ending M)
  put_double (hi, lo) c pc_after = ok (done (set_reg lo_reg lo (set_reg hi_reg hi c)) pc_after 0 0)

  abbrev pub divide : ℕ → ℕ → Cpu M → ℕ → Result (Ending M)
  divide a b c pc_after =
      if b == 0
      then put_double (0, 0) c pc_after
      else (do (quotient, remainder) ← div_signed a b; put_double (remainder, quotient) c pc_after)

  abbrev pub divide_unsigned : ℕ → ℕ → Cpu M → ℕ → Result (Ending M)
  divide_unsigned a b c pc_after = put_double (if b == 0 then (0, 0) else (a % b, a / b)) c pc_after

  -- `pcAfter = (pcAfter & 0xf0000000) | IndexToAddr(instr->extra)`
  abbrev pub jump : Instruction → Cpu M → ℕ → Result (Ending M)
  jump instr c pc_after =
      ok (done c (bit_or (bit_and pc_after (2 ^ 32 - 2 ^ 28)) (shift_left instr.extra 2)) 0 0)

  -- The delayed load and the program counters, unless the instruction has returned.
  pub finish : Ending M → Result (Cpu M)
  finish (returned c) = ok c
  finish (done c pc_after next_reg next_value) = do
    c' ← delayed_load next_reg next_value c
    let c'' = set_reg prev_pc_reg (reg c' pc_reg) c'
    let moved = set_reg pc_reg (reg c'' next_pc_reg) c''
    ok (set_reg next_pc_reg pc_after moved)

abbrev pub flag : Bool → ℕ
flag holds = if holds then 1 else 0

module _ {M : Type 0} (bus : Bus M) where
  open bus use {read_mem}

  -- The switch on the operation code, from SB on; `pc` is what `pcAfter` is set to before it.
  pub execute_from_sb : Op → Instruction → Cpu M → ℕ → Result (Ending M)
  execute_from_sb op_sb instr c pc = store bus 1 instr c pc
  execute_from_sb op_sh instr c pc = store bus 2 instr c pc
  execute_from_sb op_sll instr c pc =
      put_reg instr.rd (shift_left (reg c instr.rt) instr.extra) c pc
  execute_from_sb op_sllv instr c pc =
      put_reg instr.rd (shift_left (reg c instr.rt) (reg c instr.rs % 2 ^ 5)) c pc
  execute_from_sb op_slt instr c pc =
      put_reg instr.rd (flag (ltb_signed (reg c instr.rs) (reg c instr.rt))) c pc
  execute_from_sb op_slti instr c pc =
      put_reg instr.rt (flag (ltb_signed (reg c instr.rs) instr.extra)) c pc
  execute_from_sb op_sltiu instr c pc =
      put_reg instr.rt (flag (ltb (reg c instr.rs) instr.extra)) c pc
  execute_from_sb op_sltu instr c pc =
      put_reg instr.rd (flag (ltb (reg c instr.rs) (reg c instr.rt))) c pc
  execute_from_sb op_sra instr c pc =
      put_reg instr.rd (shift_right (reg c instr.rt) instr.extra) c pc
  execute_from_sb op_srav instr c pc =
      put_reg instr.rd (shift_right (reg c instr.rt) (reg c instr.rs % 2 ^ 5)) c pc
  execute_from_sb op_srl instr c pc =
      put_reg instr.rd (shift_right (reg c instr.rt) instr.extra) c pc
  execute_from_sb op_srlv instr c pc =
      put_reg instr.rd (shift_right (reg c instr.rt) (reg c instr.rs % 2 ^ 5)) c pc
  execute_from_sb op_sub instr c pc = sub_instr bus instr c pc
  execute_from_sb op_subu instr c pc =
      put_reg instr.rd (sub_word (reg c instr.rs) (reg c instr.rt)) c pc
  execute_from_sb op_sw instr c pc = store bus 4 instr c pc
  execute_from_sb op_swl instr c pc = store_word_left bus instr c pc
  execute_from_sb op_swr instr c pc = store_word_right bus instr c pc
  execute_from_sb op_syscall instr c pc = trap bus syscall_exception 0 c
  execute_from_sb op_xor instr c pc =
      put_reg instr.rd (bit_xor (reg c instr.rs) (reg c instr.rt)) c pc
  execute_from_sb op_xori instr c pc =
      put_reg instr.rt (bit_xor (reg c instr.rs) (instr.extra % 2 ^ 16)) c pc
  execute_from_sb op_res instr c pc = trap bus illegal_instr_exception 0 c
  execute_from_sb op_unimp instr c pc = trap bus illegal_instr_exception 0 c
  execute_from_sb o instr c pc = err assert_failed

  -- The cases from LW to ORI, before those.
  pub execute_from_lw : Op → Instruction → Cpu M → ℕ → Result (Ending M)
  execute_from_lw op_lw instr c pc = load_word bus instr c pc
  execute_from_lw op_lwl instr c pc = load_word_left bus instr c pc
  execute_from_lw op_lwr instr c pc = load_word_right bus instr c pc
  execute_from_lw op_mfhi instr c pc = put_reg instr.rd (reg c hi_reg) c pc
  execute_from_lw op_mflo instr c pc = put_reg instr.rd (reg c lo_reg) c pc
  execute_from_lw op_mthi instr c pc = put_reg hi_reg (reg c instr.rs) c pc
  execute_from_lw op_mtlo instr c pc = put_reg lo_reg (reg c instr.rs) c pc
  execute_from_lw op_mult instr c pc = put_double (mult (reg c instr.rs) (reg c instr.rt) true) c pc
  execute_from_lw op_multu instr c pc =
      put_double (mult (reg c instr.rs) (reg c instr.rt) false) c pc
  execute_from_lw op_nor instr c pc =
      put_reg instr.rd (complement (bit_or (reg c instr.rs) (reg c instr.rt))) c pc
  execute_from_lw op_or instr c pc =
      put_reg instr.rd (bit_or (reg c instr.rs) (reg c instr.rs)) c pc
  execute_from_lw op_ori instr c pc =
      put_reg instr.rt (bit_or (reg c instr.rs) (instr.extra % 2 ^ 16)) c pc
  execute_from_lw o instr c pc = execute_from_sb o instr c pc

  -- The whole switch, with the cases from ADD to LUI.
  pub execute : Op → Instruction → Cpu M → ℕ → Result (Ending M)
  execute op_add instr c pc = add_instr bus instr c pc
  execute op_addi instr c pc = addi_instr bus instr c pc
  execute op_addiu instr c pc = put_reg instr.rt (add_word (reg c instr.rs) instr.extra) c pc
  execute op_addu instr c pc = put_reg instr.rd (add_word (reg c instr.rs) (reg c instr.rt)) c pc
  execute op_and instr c pc = put_reg instr.rd (bit_and (reg c instr.rs) (reg c instr.rt)) c pc
  execute op_andi instr c pc =
      put_reg instr.rt (bit_and (reg c instr.rs) (instr.extra % 2 ^ 16)) c pc
  execute op_beq instr c pc = branch (reg c instr.rs == reg c instr.rt) instr c pc
  execute op_bgezal instr c pc =
      branch (not (is_negative (reg (link c) instr.rs))) instr (link c) pc
  execute op_bgez instr c pc = branch (not (is_negative (reg c instr.rs))) instr c pc
  execute op_bgtz instr c pc = branch (ltb_signed 0 (reg c instr.rs)) instr c pc
  execute op_blez instr c pc = branch (not (ltb_signed 0 (reg c instr.rs))) instr c pc
  execute op_bltzal instr c pc = branch (is_negative (reg (link c) instr.rs)) instr (link c) pc
  execute op_bltz instr c pc = branch (is_negative (reg c instr.rs)) instr c pc
  execute op_bne instr c pc = branch (not (reg c instr.rs == reg c instr.rt)) instr c pc
  execute op_div instr c pc = divide (reg c instr.rs) (reg c instr.rt) c pc
  execute op_divu instr c pc = divide_unsigned (reg c instr.rs) (reg c instr.rt) c pc
  execute op_jal instr c pc = jump instr (link c) pc
  execute op_j instr c pc = jump instr c pc
  execute op_jalr instr c pc =
      let c' = set_reg instr.rd (add_word (reg c next_pc_reg) 4) c in
      ok (done c' (reg c' instr.rs) 0 0)
  execute op_jr instr c pc = ok (done c (reg c instr.rs) 0 0)
  execute op_lb instr c pc = load_byte bus true instr c pc
  execute op_lbu instr c pc = load_byte bus false instr c pc
  execute op_lh instr c pc = load_half bus true instr c pc
  execute op_lhu instr c pc = load_half bus false instr c pc
  execute op_lui instr c pc = put_reg instr.rt (shift_left instr.extra 16) c pc
  execute o instr c pc = execute_from_lw o instr c pc

  -- What follows the fetch.
  pub step : Option ℕ × Cpu M → Result (Cpu M)
  step (none, c) = ok c
  step (some raw, c) = do
    instr ← decode raw
    ending ← execute instr.op_code instr c (add_word (reg c next_pc_reg) 4)
    finish ending

  pub one_instruction : Cpu M → Result (Cpu M)
  one_instruction c = read_mem (reg c pc_reg) 4 c >>= step
