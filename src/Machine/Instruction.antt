-- ===== src/Machine/Instruction.antt =====
-- code/machine/mipssim.h and `Instruction::Decode` of mipssim.cc: the fields of an instruction word.
-- A word is a number below 2 ^ 32; `x >> k` is `x / 2 ^ k`, and `x & (2 ^ k - 1)` is `x % 2 ^ k`.
mod Fields
mod Tests
use op_prac.Base.{
  ℕ, zero, suc, ◌+◌, ◌-◌, ◌*◌, ◌/◌, ◌%◌, ◌^◌, ◌≤◌, ◌<◌, ◌≡◌, refl, sym, ap, subst, ◌∙◌, ◌≢◌, ◌↔◌,
  ◌⊎◌, inl, inr, Bool, true, false, not, ◌&&◌, ◌||◌, Option, none, some, List, [], ◌∷◌, ◌++◌, map,
  arith, dec_lt, dec_le, ℕ_discrete, Error, assert_failed, bad_access, out_of_fuel, Result, ok, err,
  ◌>>=◌, ◌>>◌, assert, or_fault, Result-cases, ltb, leb, ◌==◌, if◌then◌else◌, ltb→lt, lt→ltb,
  le→ltb, leb→le, ==_iff, tests, Bool-cases, Option-cases, length, get_elem?, set, get_or, take,
  drop, replicate, All, length-append, length-set, length-replicate, get_or-set_self, get_or-set_ne,
  get_elem?-eq-get_or, get_elem?-none, get_elem?-set_self, get_elem?-set_ne, get_elem?-append,
  get_elem?-some, All-set, All-get_or, bit_and, bit_or, bit_xor,
}

pub data Op : Type 0 where
  op_add : Op
  op_addi : Op
  op_addiu : Op
  op_addu : Op
  op_and : Op
  op_andi : Op
  op_beq : Op
  op_bgez : Op
  op_bgezal : Op
  op_bgtz : Op
  op_blez : Op
  op_bltz : Op
  op_bltzal : Op
  op_bne : Op
  op_div : Op
  op_divu : Op
  op_j : Op
  op_jal : Op
  op_jalr : Op
  op_jr : Op
  op_lb : Op
  op_lbu : Op
  op_lh : Op
  op_lhu : Op
  op_lui : Op
  op_lw : Op
  op_lwl : Op
  op_lwr : Op
  op_mfhi : Op
  op_mflo : Op
  op_mthi : Op
  op_mtlo : Op
  op_mult : Op
  op_multu : Op
  op_nor : Op
  op_or : Op
  op_ori : Op
  op_rfe : Op
  op_sb : Op
  op_sh : Op
  op_sll : Op
  op_sllv : Op
  op_slt : Op
  op_slti : Op
  op_sltiu : Op
  op_sltu : Op
  op_sra : Op
  op_srav : Op
  op_srl : Op
  op_srlv : Op
  op_sub : Op
  op_subu : Op
  op_sw : Op
  op_swl : Op
  op_swr : Op
  op_xor : Op
  op_xori : Op
  op_syscall : Op
  op_unimp : Op
  op_res : Op

-- The first table gives an operation, or says where to look further.
pub data TableOp : Type 0 where
  op : Op → TableOp
  special : TableOp
  bcond : TableOp

pub data Format : Type 0 where
  ifmt : Format
  jfmt : Format
  rfmt : Format

pub record OpInfo : Type 0 where
  pub op_code : TableOp
  pub format : Format

abbrev pub imm : Op → OpInfo
imm o = record { op_code = op o; format = ifmt }

abbrev pub op_table : List OpInfo
op_table =
    record { op_code = special; format = rfmt }
    ∷ record { op_code = bcond; format = ifmt }
    ∷ record { op_code = op op_j; format = jfmt }
    ∷ record { op_code = op op_jal; format = jfmt }
    ∷ imm op_beq
    ∷ imm op_bne
    ∷ imm op_blez
    ∷ imm op_bgtz
    ∷ imm op_addi
    ∷ imm op_addiu
    ∷ imm op_slti
    ∷ imm op_sltiu
    ∷ imm op_andi
    ∷ imm op_ori
    ∷ imm op_xori
    ∷ imm op_lui
    ∷ imm op_unimp
    ∷ imm op_unimp
    ∷ imm op_unimp
    ∷ imm op_unimp
    ∷ imm op_res
    ∷ imm op_res
    ∷ imm op_res
    ∷ imm op_res
    ∷ imm op_res
    ∷ imm op_res
    ∷ imm op_res
    ∷ imm op_res
    ∷ imm op_res
    ∷ imm op_res
    ∷ imm op_res
    ∷ imm op_res
    ∷ imm op_lb
    ∷ imm op_lh
    ∷ imm op_lwl
    ∷ imm op_lw
    ∷ imm op_lbu
    ∷ imm op_lhu
    ∷ imm op_lwr
    ∷ imm op_res
    ∷ imm op_sb
    ∷ imm op_sh
    ∷ imm op_swl
    ∷ imm op_sw
    ∷ imm op_res
    ∷ imm op_res
    ∷ imm op_swr
    ∷ imm op_res
    ∷ imm op_unimp
    ∷ imm op_unimp
    ∷ imm op_unimp
    ∷ imm op_unimp
    ∷ imm op_res
    ∷ imm op_res
    ∷ imm op_res
    ∷ imm op_res
    ∷ imm op_unimp
    ∷ imm op_unimp
    ∷ imm op_unimp
    ∷ imm op_unimp
    ∷ imm op_res
    ∷ imm op_res
    ∷ imm op_res
    ∷ imm op_res
    ∷ []

abbrev pub special_table : List Op
special_table =
    op_sll ∷ op_res ∷ op_srl ∷ op_sra ∷ op_sllv ∷ op_res ∷ op_srlv ∷ op_srav ∷ op_jr ∷ op_jalr
    ∷ op_res ∷ op_res ∷ op_syscall ∷ op_unimp ∷ op_res ∷ op_res ∷ op_mfhi ∷ op_mthi ∷ op_mflo
    ∷ op_mtlo ∷ op_res ∷ op_res ∷ op_res ∷ op_res ∷ op_mult ∷ op_multu ∷ op_div ∷ op_divu ∷ op_res
    ∷ op_res ∷ op_res ∷ op_res ∷ op_add ∷ op_addu ∷ op_sub ∷ op_subu ∷ op_and ∷ op_or ∷ op_xor
    ∷ op_nor ∷ op_res ∷ op_res ∷ op_slt ∷ op_sltu ∷ op_res ∷ op_res ∷ op_res ∷ op_res ∷ op_res
    ∷ op_res ∷ op_res ∷ op_res ∷ op_res ∷ op_res ∷ op_res ∷ op_res ∷ op_res ∷ op_res ∷ op_res
    ∷ op_res ∷ op_res ∷ op_res ∷ op_res ∷ op_res ∷ []

pub record Instruction : Type 0 where
  pub op_code : Op
  pub rs : ℕ
  pub rt : ℕ
  pub rd : ℕ
  pub extra : ℕ

-- The immediate part, which depends on the format; the sign of 16 bits is extended.
abbrev pub extra_of : Format → ℕ → ℕ
extra_of ifmt value =
    let low = value % 2 ^ 16 in if ltb low (2 ^ 15) then low else low + (2 ^ 32 - 2 ^ 16)
extra_of rfmt value = value / 2 ^ 6 % 2 ^ 5
extra_of jfmt value = value % 2 ^ 26

-- `value & 0x1f0000` against the branches on a condition.
abbrev pub bcond_op : ℕ → Op
bcond_op value =
    let i = value / 2 ^ 16 % 2 ^ 5 in
    if i == 0
    then op_bltz
    else if i == 1
    then op_bgez
    else if i == 16
    then op_bltzal
    else if i == 17
    then op_bgezal
    else op_unimp

abbrev pub op_of : TableOp → ℕ → Result Op
op_of (op o) value = ok o
op_of special value = or_fault (get_elem? special_table (value % 2 ^ 6))
op_of bcond value = ok (bcond_op value)

unfoldable pub decode : ℕ → Result Instruction
decode value = do
  info ← or_fault (get_elem? op_table (value / 2 ^ 26 % 2 ^ 6))
  o ← op_of info.op_code value
  ok (record {
    op_code = o;
    rs = value / 2 ^ 21 % 2 ^ 5;
    rt = value / 2 ^ 16 % 2 ^ 5;
    rd = value / 2 ^ 11 % 2 ^ 5;
    extra = extra_of info.format value;
  })
