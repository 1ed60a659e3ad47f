-- ===== src/Machine/Execute/Steps.antt =====
-- How single steps of an instruction leave the registers.
use op_prac.Base.{
  ℕ, ◌/◌, ◌%◌, ◌^◌, ◌<◌, ◌≢◌, inl, inr, Bool, not, ◌&&◌, Option, none, some, arith, or_fault,
  Bool-cases, get_elem?,
}
use op_prac.Machine.Word.{add_word, sub_word, same_sign}
use op_prac.Machine.Instruction.{
  Instruction, decode, Format, ifmt, jfmt, rfmt, extra_of, op_of, op_table,
}
use op_prac.Machine.Cpu.{
  Cpu, Ending, done, returned, Bus, reg, set_reg, raise_exception, trap, put_reg, branch, link,
  load_reg, ExceptionType, next_pc_reg, r31, add_instr, addi_instr, sub_instr, overflow_exception,
  bad_v_addr_reg,
}
use op_prac.Machine.Cpu.Registers.{
  IsSound, IsWellFormed, Always, Always-bind, Always-then, set_reg-IsSound,
  delayed_load-IsWellFormed,
}

-- The fields of an instruction are registers and a word.
pub record HasFields (instr : Instruction) : Type 0 where
  pub rs_fits : instr.rs < 32
  pub rt_fits : instr.rt < 32
  pub rd_fits : instr.rd < 32
  pub extra_fits : instr.extra < 2 ^ 32

extra_of-lt : (f : Format) (w : ℕ) → extra_of f w < 2 ^ 32
extra_of-lt ifmt w = ground arith
extra_of-lt jfmt w = omega arith
extra_of-lt rfmt w = omega arith

-- `Decode` gives such fields, whatever the word.
pub decode-HasFields : (w : ℕ) → Always HasFields (decode w)
unfolding decode
decode-HasFields w =
    Always-then HasFields (or_fault (get_elem? op_table (w / 2 ^ 26 % 2 ^ 6))) _ (λ info.
      Always-then HasFields (op_of info.op_code w) _ (λ o. record {
        rs_fits = omega arith;
        rt_fits = omega arith;
        rd_fits = omega arith;
        extra_fits = extra_of-lt info.format w;
      }))

module _ {M : Type 0} where
  -- An ending that `finish` can take up.
  abbrev pub IsEnding : Ending M → Type 0
  IsEnding (done c pc_after next_reg next_value) =
      IsSound c × (pc_after < 2 ^ 32) × (next_reg < 32) × (next_value < 2 ^ 32)
  IsEnding (returned c) = IsWellFormed c

  -- What a read or a write of memory hands back.
  abbrev pub IsRead : Option ℕ × Cpu M → Type 0
  IsRead (none, c) = IsWellFormed c
  IsRead (some value, c) = (value < 2 ^ 32) × IsWellFormed c

  -- Memory, at addresses of 32 bits, and the kernel keep the registers well-formed.
  pub record Keeps (bus : Bus M) : Type 0 where
    pub reads :
        (a size : ℕ) (c : Cpu M)
        → a < 2 ^ 32
        → IsWellFormed c
        → Always IsRead (bus.read_mem a size c)
    pub writes :
        (a size v : ℕ) (c : Cpu M)
        → a < 2 ^ 32
        → IsWellFormed c
        → Always (λ r. IsWellFormed r.1) (bus.write_mem a size v c)
    pub handles :
        (e : ExceptionType) (c : Cpu M)
        → IsWellFormed c
        → Always IsWellFormed (bus.exception_handler e c)

  pub put_reg-IsEnding :
      (i v : ℕ) (c : Cpu M) (pc : ℕ)
      → i ≢ load_reg
      → v < 2 ^ 32
      → IsSound c
      → pc < 2 ^ 32
      → Always IsEnding (put_reg i v c pc)
  put_reg-IsEnding i v c pc other h s k =
      (set_reg-IsSound c i v other h s, k, omega arith, omega arith)

  pub branch-IsEnding :
      (taken : Bool) (instr : Instruction) (c : Cpu M) (pc : ℕ)
      → IsSound c
      → pc < 2 ^ 32
      → Always IsEnding (branch taken instr c pc)
  branch-IsEnding taken instr c pc s k = (s, ground arith, omega arith, omega arith)

  pub link-IsSound : (c : Cpu M) → IsSound c → IsSound (link c)
  link-IsSound c s =
      set_reg-IsSound c r31 (add_word (reg c next_pc_reg) 4) (ground arith) (omega arith) s

module _ {M : Type 0} (bus : Bus M) (keeps : Keeps bus) where
  pub trap-IsEnding :
      (e : ExceptionType) (v : ℕ) (c : Cpu M)
      → v < 2 ^ 32
      → IsSound c
      → Always IsEnding (trap bus e v c)
  unfolding raise_exception
  trap-IsEnding e v c h s =
      let s' = set_reg-IsSound c bad_v_addr_reg v (ground arith) h s in
      let (c', loads, w) =
        delayed_load-IsWellFormed 0 0 (set_reg bad_v_addr_reg v c) s' (omega arith) (omega arith) in
      rw loads (
        Always-bind IsWellFormed IsEnding (bus.exception_handler e c') _ (keeps.handles e c' w)
          (λ c'' w'. w'))

  pub add_instr-IsEnding :
      (instr : Instruction) (c : Cpu M) (pc : ℕ)
      → HasFields instr
      → IsSound c
      → pc < 2 ^ 32
      → Always IsEnding (add_instr bus instr c pc)
  unfolding add_instr
  add_instr-IsEnding instr c pc f s k =
      let a = reg c instr.rs in
      let b = reg c instr.rt in
      elim (Bool-cases (same_sign a b && not (same_sign a (add_word a b)))) [
        | inl over ↦ rw over (trap-IsEnding overflow_exception 0 c (omega arith) s)
        | inr fine ↦ rw fine (
            put_reg-IsEnding instr.rd (add_word a b) c pc (let n = f.rd_fits in ground arith)
              (omega arith) s k)
      ]

  pub addi_instr-IsEnding :
      (instr : Instruction) (c : Cpu M) (pc : ℕ)
      → HasFields instr
      → IsSound c
      → pc < 2 ^ 32
      → Always IsEnding (addi_instr bus instr c pc)
  unfolding addi_instr
  addi_instr-IsEnding instr c pc f s k =
      let a = reg c instr.rs in
      let b = instr.extra in
      elim (Bool-cases (same_sign a b && not (same_sign b (add_word a b)))) [
        | inl over ↦ rw over (trap-IsEnding overflow_exception 0 c (omega arith) s)
        | inr fine ↦ rw fine (
            put_reg-IsEnding instr.rt (add_word a b) c pc (let n = f.rt_fits in ground arith)
              (omega arith) s k)
      ]

  pub sub_instr-IsEnding :
      (instr : Instruction) (c : Cpu M) (pc : ℕ)
      → HasFields instr
      → IsSound c
      → pc < 2 ^ 32
      → Always IsEnding (sub_instr bus instr c pc)
  unfolding sub_instr
  sub_instr-IsEnding instr c pc f s k =
      let a = reg c instr.rs in
      let b = reg c instr.rt in
      elim (Bool-cases (not (same_sign a b) && not (same_sign a (sub_word a b)))) [
        | inl over ↦ rw over (trap-IsEnding overflow_exception 0 c (omega arith) s)
        | inr fine ↦ rw fine (
            put_reg-IsEnding instr.rd (sub_word a b) c pc (let n = f.rd_fits in ground arith)
              (omega arith) s k)
      ]
