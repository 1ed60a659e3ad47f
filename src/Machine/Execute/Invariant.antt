-- ===== src/Machine/Execute/Invariant.antt =====
-- Every instruction keeps the registers well-formed.
use native.Mathlib.Nat.{pow-le-pow_right, div-lt_iff_lt-mul, div-le_self, mod-le, one-le-pow}
use op_prac.Base.{
  ℕ, ◌+◌, ◌-◌, ◌*◌, ◌/◌, ◌%◌, ◌^◌, ◌≤◌, ◌<◌, ◌≡◌, ap, ◌∙◌, ◌≢◌, inl, inr, true, false, ◌&&◌, Option,
  none, some, arith, dec_le, ◌==◌, Bool-cases, get_or-set_ne,
}
use op_prac.Base.Bits.{bit_or-lt, bit_and-lt, bit_xor-lt, pow_sum}
use op_prac.Machine.Word.{add_word, shift_left, shift_right}
use op_prac.Machine.Mult.{mult}
use op_prac.Machine.Mult.Product.{IsDouble, magnitude, magnitude-lt, mult_unsigned, mult_signed}
use op_prac.Machine.Instruction.{
  Op, Instruction, decode, op_add, op_addi, op_addiu, op_addu, op_and, op_andi, op_beq, op_bgez,
  op_bgezal, op_bgtz, op_blez, op_bltz, op_bltzal, op_bne, op_div, op_divu, op_j, op_jal, op_jalr,
  op_jr, op_lb, op_lbu, op_lh, op_lhu, op_lui, op_lw, op_lwl, op_lwr, op_mfhi, op_mflo, op_mthi,
  op_mtlo, op_mult, op_multu, op_nor, op_or, op_ori, op_rfe, op_sb, op_sh, op_sll, op_sllv, op_slt,
  op_slti, op_sltiu, op_sltu, op_sra, op_srav, op_srl, op_srlv, op_sub, op_subu, op_sw, op_swl,
  op_swr, op_xor, op_xori, op_syscall, op_unimp, op_res,
}
use op_prac.Machine.Cpu.{
  Cpu, Ending, done, returned, Bus, reg, set_reg, link, load_reg, hi_reg, lo_reg, pc_reg,
  prev_pc_reg, next_pc_reg, syscall_exception, illegal_instr_exception,
}
use op_prac.Machine.Cpu.Registers.{
  IsSound, IsWellFormed, Always, Always-bind, reg-lt, set_reg-IsSound, delayed_load-IsWellFormed,
}
use op_prac.Machine.Execute.{
  div_signed, put_double, divide, divide_unsigned, jump, execute, execute_from_lw, execute_from_sb,
  finish, step, one_instruction,
}
use op_prac.Machine.Execute.Steps.{
  HasFields, decode-HasFields, IsEnding, IsRead, Keeps, put_reg-IsEnding, branch-IsEnding,
  link-IsSound, trap-IsEnding, add_instr-IsEnding, addi_instr-IsEnding, sub_instr-IsEnding,
}
use op_prac.Machine.Execute.Transfers.{
  load_byte-IsEnding, load_half-IsEnding, load_word-IsEnding, load_word_left-IsEnding,
  load_word_right-IsEnding, store-IsEnding, store_word_left-IsEnding, store_word_right-IsEnding,
}

pow_cover : (k : ℕ) → 2 ^ 32 ≤ 2 ^ (32 - k) * 2 ^ k
pow_cover k = elim (dec_le k 32) [
  | yes within ↦ omega (
    arith,
    pow_sum (32 - k) k,
    (let e : 2 ^ (32 - k + k) ≡ 2 ^ 32 =
          ap (λ m. 2 ^ m) (let e : 32 - k + k ≡ 32 = omega arith in e) in
        e),
  )
  | no beyond ↦
      let none : 2 ^ (32 - k) ≡ 1 = ap (λ m. 2 ^ m) (let e : 32 - k ≡ 0 = omega arith in e) in
      let same : 2 ^ (32 - k) * 2 ^ k ≡ 1 * 2 ^ k = ap (λ x. x * 2 ^ k) none in
      omega
        (arith, same, pow-le-pow_right {n = 2} (omega arith) (let e : 32 ≤ k = omega arith in e))
]

shift_right-lt : (a k : ℕ) → a < 2 ^ 32 → shift_right a k < 2 ^ 32
shift_right-lt a k h =
    let small : a / 2 ^ k < 2 ^ (32 - k) =
      (div-lt_iff_lt-mul (one-le-pow k 2 (omega arith))).1 (omega (arith, h, pow_cover k)) in
    ground arith

div_signed-IsDouble :
    (a b : ℕ)
    → a < 2 ^ 32
    → b < 2 ^ 32
    → Always (λ r. (r.0 < 2 ^ 32) × (r.1 < 2 ^ 32)) (div_signed a b)
unfolding div_signed
div_signed-IsDouble a b h k = elim (Bool-cases ((a == 2 ^ 31) && (b == 2 ^ 32 - 1))) [
  | inl least ↦ rw least tt
  | inr other ↦
      let size = magnitude-lt a h in
      let quotient = div-le_self (magnitude a) (magnitude b) in
      let remainder = mod-le (magnitude a) (magnitude b) in
      rw other (ground (arith, size, quotient), ground (arith, size, remainder))
]

module _ {M : Type 0} where
  put_double-IsEnding :
      (r : ℕ × ℕ) (c : Cpu M) (pc : ℕ)
      → IsDouble r
      → IsSound c
      → pc < 2 ^ 32
      → Always IsEnding (put_double r c pc)
  put_double-IsEnding (hi, lo) c pc w s k = (
    set_reg-IsSound (set_reg hi_reg hi c) lo_reg lo (ground arith) w.1
        (set_reg-IsSound c hi_reg hi (ground arith) w.0 s),
    k,
    omega arith,
    omega arith,
  )

  divide-IsEnding :
      (a b : ℕ) (c : Cpu M) (pc : ℕ)
      → a < 2 ^ 32
      → b < 2 ^ 32
      → IsSound c
      → pc < 2 ^ 32
      → Always IsEnding (divide a b c pc)
  divide-IsEnding a b c pc h k s p = elim (Bool-cases (b == 0)) [
    | inl zero_b ↦ rw zero_b (put_double-IsEnding (0, 0) c pc (omega arith, omega arith) s p)
    | inr other ↦ rw other (
        Always-bind (λ r. (r.0 < 2 ^ 32) × (r.1 < 2 ^ 32)) IsEnding (div_signed a b) _
          (div_signed-IsDouble a b h k) (λ r w. put_double-IsEnding (r.1, r.0) c pc (w.1, w.0) s p))
  ]

  divide_unsigned-IsEnding :
      (a b : ℕ) (c : Cpu M) (pc : ℕ)
      → a < 2 ^ 32
      → b < 2 ^ 32
      → IsSound c
      → pc < 2 ^ 32
      → Always IsEnding (divide_unsigned a b c pc)
  divide_unsigned-IsEnding a b c pc h k s p = elim (Bool-cases (b == 0)) [
    | inl zero_b ↦ rw zero_b (put_double-IsEnding (0, 0) c pc (omega arith, omega arith) s p)
    | inr other ↦ rw other (
        put_double-IsEnding (a % b, a / b) c pc
          (omega (arith, h, mod-le a b), omega (arith, h, div-le_self a b)) s p)
  ]

  jump-IsEnding :
      (instr : Instruction) (c : Cpu M) (pc : ℕ)
      → HasFields instr
      → IsSound c
      → pc < 2 ^ 32
      → Always IsEnding (jump instr c pc)
  jump-IsEnding instr c pc f s k = (
    s,
    bit_or-lt 32 _ (shift_left instr.extra 2) (bit_and-lt 32 pc (2 ^ 32 - 2 ^ 28) k (omega arith))
        (omega arith),
    omega arith,
    omega arith,
  )

module _ {M : Type 0} (bus : Bus M) (keeps : Keeps bus) where
  execute-IsEnding :
      (o : Op) (instr : Instruction) (c : Cpu M) (pc : ℕ)
      → HasFields instr
      → IsWellFormed c
      → pc < 2 ^ 32
      → Always IsEnding (execute bus o instr c pc)
  unfolding execute execute_from_lw execute_from_sb
  execute-IsEnding o instr c pc f w k =
      let s = w.sound in
      let rs_lt = reg-lt c instr.rs s in
      let rt_lt = reg-lt c instr.rt s in
      let rd_ok : instr.rd ≢ load_reg = (let n = f.rd_fits in ground arith) in
      let rt_ok : instr.rt ≢ load_reg = (let n = f.rt_fits in ground arith) in
      elim o as (λ o. Always IsEnding (execute bus o instr c pc)) [
        | op_add ↦ add_instr-IsEnding bus keeps instr c pc f s k
        | op_addi ↦ addi_instr-IsEnding bus keeps instr c pc f s k
        | op_addiu ↦ put_reg-IsEnding instr.rt _ c pc rt_ok (omega arith) s k
        | op_addu ↦ put_reg-IsEnding instr.rd _ c pc rd_ok (omega arith) s k
        | op_and ↦ put_reg-IsEnding instr.rd _ c pc rd_ok (bit_and-lt 32 _ _ rs_lt rt_lt) s k
        | op_andi ↦
            put_reg-IsEnding instr.rt _ c pc rt_ok
              (bit_and-lt 32 _ (instr.extra % 2 ^ 16) rs_lt (omega arith)) s k
        | op_beq ↦ branch-IsEnding _ instr c pc s k
        | op_bgez ↦ branch-IsEnding _ instr c pc s k
        | op_bgezal ↦ branch-IsEnding _ instr (link c) pc (link-IsSound c s) k
        | op_bgtz ↦ branch-IsEnding _ instr c pc s k
        | op_blez ↦ branch-IsEnding _ instr c pc s k
        | op_bltz ↦ branch-IsEnding _ instr c pc s k
        | op_bltzal ↦ branch-IsEnding _ instr (link c) pc (link-IsSound c s) k
        | op_bne ↦ branch-IsEnding _ instr c pc s k
        | op_div ↦ divide-IsEnding _ _ c pc rs_lt rt_lt s k
        | op_divu ↦ divide_unsigned-IsEnding _ _ c pc rs_lt rt_lt s k
        | op_j ↦ jump-IsEnding instr c pc f s k
        | op_jal ↦ jump-IsEnding instr (link c) pc f (link-IsSound c s) k
        | op_jalr ↦
            (let s' =
                set_reg-IsSound c instr.rd (add_word (reg c next_pc_reg) 4) rd_ok (omega arith) s in
              (s', reg-lt _ instr.rs s', omega arith, omega arith))
        | op_jr ↦ (s, rs_lt, omega arith, omega arith)
        | op_lb ↦ load_byte-IsEnding bus keeps instr c pc f w k true
        | op_lbu ↦ load_byte-IsEnding bus keeps instr c pc f w k false
        | op_lh ↦ load_half-IsEnding bus keeps instr c pc f w k true
        | op_lhu ↦ load_half-IsEnding bus keeps instr c pc f w k false
        | op_lui ↦ put_reg-IsEnding instr.rt _ c pc rt_ok (omega arith) s k
        | op_lw ↦ load_word-IsEnding bus keeps instr c pc f w k
        | op_lwl ↦ load_word_left-IsEnding bus keeps instr c pc f w k
        | op_lwr ↦ load_word_right-IsEnding bus keeps instr c pc f w k
        | op_mfhi ↦ put_reg-IsEnding instr.rd _ c pc rd_ok (reg-lt c hi_reg s) s k
        | op_mflo ↦ put_reg-IsEnding instr.rd _ c pc rd_ok (reg-lt c lo_reg s) s k
        | op_mthi ↦ put_reg-IsEnding hi_reg _ c pc (ground arith) rs_lt s k
        | op_mtlo ↦ put_reg-IsEnding lo_reg _ c pc (ground arith) rs_lt s k
        | op_mult ↦
            put_double-IsEnding (mult (reg c instr.rs) (reg c instr.rt) true) c pc
              (mult_signed _ _ rs_lt rt_lt).0 s k
        | op_multu ↦
            put_double-IsEnding (mult (reg c instr.rs) (reg c instr.rt) false) c pc
              (mult_unsigned _ _ rs_lt rt_lt).0 s k
        | op_nor ↦
            put_reg-IsEnding instr.rd _ c pc rd_ok (omega (arith, bit_or-lt 32 _ _ rs_lt rt_lt)) s k
        | op_or ↦ put_reg-IsEnding instr.rd _ c pc rd_ok (bit_or-lt 32 _ _ rs_lt rs_lt) s k
        | op_ori ↦
            put_reg-IsEnding instr.rt _ c pc rt_ok
              (bit_or-lt 32 _ (instr.extra % 2 ^ 16) rs_lt (omega arith)) s k
        | op_rfe ↦ tt
        | op_sb ↦ store-IsEnding bus keeps instr c pc f w k 1
        | op_sh ↦ store-IsEnding bus keeps instr c pc f w k 2
        | op_sll ↦ put_reg-IsEnding instr.rd _ c pc rd_ok (omega arith) s k
        | op_sllv ↦ put_reg-IsEnding instr.rd _ c pc rd_ok (omega arith) s k
        | op_slt ↦ put_reg-IsEnding instr.rd _ c pc rd_ok (ground arith) s k
        | op_slti ↦ put_reg-IsEnding instr.rt _ c pc rt_ok (ground arith) s k
        | op_sltiu ↦ put_reg-IsEnding instr.rt _ c pc rt_ok (ground arith) s k
        | op_sltu ↦ put_reg-IsEnding instr.rd _ c pc rd_ok (ground arith) s k
        | op_sra ↦ put_reg-IsEnding instr.rd _ c pc rd_ok (shift_right-lt _ _ rt_lt) s k
        | op_srav ↦ put_reg-IsEnding instr.rd _ c pc rd_ok (shift_right-lt _ _ rt_lt) s k
        | op_srl ↦ put_reg-IsEnding instr.rd _ c pc rd_ok (shift_right-lt _ _ rt_lt) s k
        | op_srlv ↦ put_reg-IsEnding instr.rd _ c pc rd_ok (shift_right-lt _ _ rt_lt) s k
        | op_sub ↦ sub_instr-IsEnding bus keeps instr c pc f s k
        | op_subu ↦ put_reg-IsEnding instr.rd _ c pc rd_ok (omega arith) s k
        | op_sw ↦ store-IsEnding bus keeps instr c pc f w k 4
        | op_swl ↦ store_word_left-IsEnding bus keeps instr c pc f w k
        | op_swr ↦ store_word_right-IsEnding bus keeps instr c pc f w k
        | op_xor ↦ put_reg-IsEnding instr.rd _ c pc rd_ok (bit_xor-lt 32 _ _ rs_lt rt_lt) s k
        | op_xori ↦
            put_reg-IsEnding instr.rt _ c pc rt_ok
              (bit_xor-lt 32 _ (instr.extra % 2 ^ 16) rs_lt (omega arith)) s k
        | op_syscall ↦ trap-IsEnding bus keeps syscall_exception 0 c (omega arith) s
        | op_unimp ↦ trap-IsEnding bus keeps illegal_instr_exception 0 c (omega arith) s
        | op_res ↦ trap-IsEnding bus keeps illegal_instr_exception 0 c (omega arith) s
      ]

  finish-IsWellFormed : (e : Ending M) → IsEnding e → Always IsWellFormed (finish e)
  unfolding finish
  finish-IsWellFormed (returned c) h = h
  finish-IsWellFormed (done c pc next_reg next_value) (s, p, r, v) =
      let (c₁, loads, w) = delayed_load-IsWellFormed next_reg next_value c s r v in
      let c₂ = set_reg prev_pc_reg (reg c₁ pc_reg) c₁ in
      let s₂ =
        set_reg-IsSound c₁ prev_pc_reg (reg c₁ pc_reg) (ground arith) (reg-lt c₁ pc_reg w.sound)
          w.sound in
      let c₃ = set_reg pc_reg (reg c₂ next_pc_reg) c₂ in
      let s₃ =
        set_reg-IsSound c₂ pc_reg (reg c₂ next_pc_reg) (ground arith) (reg-lt c₂ next_pc_reg s₂)
          s₂ in
      rw loads (record {
        sound = set_reg-IsSound c₃ next_pc_reg pc (ground arith) p s₃;
        zeroth =
            get_or-set_ne c₃.registers next_pc_reg 0 pc 0 (ground arith)
            ∙ get_or-set_ne c₂.registers pc_reg 0 (reg c₂ next_pc_reg) 0 (ground arith)
            ∙ get_or-set_ne c₁.registers prev_pc_reg 0 (reg c₁ pc_reg) 0 (ground arith)
            ∙ w.zeroth;
      })

  -- From well-formed registers, with memory (at addresses of 32 bits) and a kernel that keep them so,
  -- `OneInstruction` leaves well-formed registers where the program goes on, whatever word it fetches:
  -- 40 words, register 0 at 0, and a delayed load that goes to one of the 32 registers of the program.
  pub one_instruction-IsWellFormed :
      (c : Cpu M) → IsWellFormed c → Always IsWellFormed (one_instruction bus c)
  unfolding one_instruction step
  one_instruction-IsWellFormed c w =
      Always-bind IsRead IsWellFormed (bus.read_mem (reg c pc_reg) 4 c) (step bus)
        (keeps.reads (reg c pc_reg) 4 c (reg-lt c pc_reg w.sound) w) go
    where
      go : (r : Option ℕ × Cpu M) → IsRead r → Always IsWellFormed (step bus r)
      go (none, c') h = h
      go (some raw, c') h =
          Always-bind HasFields IsWellFormed (decode raw) _ (decode-HasFields raw) (λ instr f.
            Always-bind IsEnding IsWellFormed (execute bus instr.op_code instr c' _) (finish)
              (execute-IsEnding instr.op_code instr c' (add_word (reg c' next_pc_reg) 4) f h.1
                (omega arith))
              finish-IsWellFormed)
