-- ===== src/Machine/Mult/Tests.antt =====
-- Products of words, and the theorems of `Mult` at them.
use op_prac.Base.{◌+◌, ◌%◌, ◌^◌, ◌≡◌, refl, true, false, arith}
use op_prac.Machine.Mult.{mult, mult_loop}
use op_prac.Machine.Mult.Product.{IsDouble, double, mult_unsigned, mult_signed}

-- 3 * -2 is -6.
minus_six : mult 3 4294967294 true ≡ (4294967295, 4294967290)
unfolding mult mult_loop
minus_six = refl

mult_unsigned_example :
    IsDouble (mult 4294967295 4294967294 false)
    × (double (mult 4294967295 4294967294 false) ≡ 18446744060824649730)
mult_unsigned_example = mult_unsigned 4294967295 4294967294 (omega arith) (omega arith)

mult_signed_example :
    IsDouble (mult 3 4294967294 true) × ((double (mult 3 4294967294 true) + 6) % 2 ^ 64 ≡ 0)
mult_signed_example = mult_signed 3 4294967294 (omega arith) (omega arith)
