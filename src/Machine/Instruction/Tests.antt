-- ===== src/Machine/Instruction/Tests.antt =====
-- Words that a compiler makes, and the theorems of `Decode` at them.
use op_prac.Base.{◌≡◌, refl, arith, ok}
use op_prac.Machine.Instruction.{decode, op_addu, op_addiu, op_bgezal}
use op_prac.Machine.Instruction.Fields.{decode-register_word}

-- ADDIU r29,r29,-24
stack_frame :
    decode 666763240
    ≡ ok (record { op_code = op_addiu; rs = 29; rt = 29; rd = 31; extra = 4294967272 })
unfolding decode
stack_frame = refl

branch_and_link :
    decode 68222980 ≡ ok (record { op_code = op_bgezal; rs = 0; rt = 17; rd = 0; extra = 4 })
unfolding decode
branch_and_link = refl

decode-register_word_example :
    decode 2179361 ≡ ok (record { op_code = op_addu; rs = 1; rt = 1; rd = 8; extra = 4 })
decode-register_word_example =
    decode-register_word op_addu 1 1 8 4 33 (omega arith) (omega arith) (omega arith) (omega arith)
      (omega arith) refl
