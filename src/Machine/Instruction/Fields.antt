-- ===== src/Machine/Instruction/Fields.antt =====
-- `Decode` on words that are put together from their fields.
use op_prac.Base.{
  ℕ, ◌+◌, ◌-◌, ◌*◌, ◌/◌, ◌%◌, ◌^◌, ◌<◌, ◌≡◌, refl, some, arith, Result, ok, ltb, if◌then◌else◌,
  get_elem?,
}
use op_prac.Machine.Instruction.{Op, Instruction, imm, op_table, special_table, decode}

-- A word of the register format, whose first six bits are 0.
abbrev pub register_word : ℕ → ℕ → ℕ → ℕ → ℕ → ℕ
register_word rs rt rd shamt funct = rs * 2 ^ 21 + rt * 2 ^ 16 + rd * 2 ^ 11 + shamt * 2 ^ 6 + funct

abbrev pub immediate_word : ℕ → ℕ → ℕ → ℕ → ℕ
immediate_word opcode rs rt immediate = opcode * 2 ^ 26 + rs * 2 ^ 21 + rt * 2 ^ 16 + immediate

abbrev fields : Op → ℕ → ℕ → ℕ → ℕ → Result Instruction
fields o a b c d = ok (record { op_code = o; rs = a; rt = b; rd = c; extra = d })

fields_cong :
    (o : Op) {a b c d a' b' c' d' : ℕ}
    → a ≡ a'
    → b ≡ b'
    → c ≡ c'
    → d ≡ d'
    → fields o a b c d ≡ fields o a' b' c' d'
fields_cong o p q r s = rw (p, q, r, s) refl

-- A word of the register format decodes to its fields, with the operation that the second table has
-- for the function field.
pub decode-register_word :
    (o : Op) (rs rt rd shamt funct : ℕ)
    → rs < 32
    → rt < 32
    → rd < 32
    → shamt < 32
    → funct < 64
    → get_elem? special_table funct ≡ some o
    → decode (register_word rs rt rd shamt funct)
      ≡ ok (record { op_code = o; rs = rs; rt = rt; rd = rd; extra = shamt })
unfolding decode
decode-register_word o rs rt rd shamt funct s t d a f at =
    let w = register_word rs rt rd shamt funct in
    let first : w / 2 ^ 26 % 2 ^ 6 ≡ 0 = omega arith in
    let last : w % 2 ^ 6 ≡ funct = omega arith in
    rw (first, last, at) (fields_cong o (omega arith) (omega arith) (omega arith) (omega arith))

-- A word of the immediate format decodes to its fields, the immediate part with its sign extended.
pub decode-immediate_word :
    (o : Op) (opcode rs rt immediate : ℕ)
    → opcode < 64
    → rs < 32
    → rt < 32
    → immediate < 2 ^ 16
    → get_elem? op_table opcode ≡ some (imm o)
    → decode (immediate_word opcode rs rt immediate)
      ≡ ok (record {
        op_code = o;
        rs = rs;
        rt = rt;
        rd = immediate / 2 ^ 11;
        extra = if ltb immediate (2 ^ 15) then immediate else immediate + (2 ^ 32 - 2 ^ 16);
      })
unfolding decode
decode-immediate_word o opcode rs rt immediate c s t i at =
    let w = immediate_word opcode rs rt immediate in
    let first : w / 2 ^ 26 % 2 ^ 6 ≡ opcode = omega arith in
    let low : w % 2 ^ 16 ≡ immediate = omega arith in
    rw (first, at, low) (fields_cong o (omega arith) (omega arith) (omega arith) refl)
