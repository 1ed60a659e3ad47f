-- ===== src/Machine/Mult.antt =====
-- `Mult` of code/machine/mipssim.cc: the product of two words in two words.
pub mod Product
mod Tests
use op_prac.Base.{
  ℕ, zero, suc, ◌+◌, ◌-◌, ◌*◌, ◌/◌, ◌%◌, ◌^◌, ◌≤◌, ◌<◌, ◌≡◌, refl, sym, ap, subst, ◌∙◌, ◌≢◌, ◌↔◌,
  ◌⊎◌, inl, inr, Bool, true, false, not, ◌&&◌, ◌||◌, Option, none, some, List, [], ◌∷◌, ◌++◌, map,
  arith, dec_lt, dec_le, ℕ_discrete, Error, assert_failed, bad_access, out_of_fuel, Result, ok, err,
  ◌>>=◌, ◌>>◌, assert, or_fault, Result-cases, ltb, leb, ◌==◌, if◌then◌else◌, ltb→lt, lt→ltb,
  le→ltb, leb→le, ==_iff, tests, Bool-cases, Option-cases, length, get_elem?, set, get_or, take,
  drop, replicate, All, length-append, length-set, length-replicate, get_or-set_self, get_or-set_ne,
  get_elem?-eq-get_or, get_elem?-none, get_elem?-set_self, get_elem?-set_ne, get_elem?-append,
  get_elem?-some, All-set, All-get_or, bit_and, bit_or, bit_xor,
}
use op_prac.Machine.Word.{is_negative, same_sign, negate, complement, shift_left, shift_right}

-- The body of the loop up to its `break`: the shifted `b` is added to the result.
abbrev pub add_shifted : ℕ → ℕ → ℕ → ℕ → ℕ × ℕ
add_shifted b_hi b_lo hi lo =
    let lo' = (lo + b_lo) % 2 ^ 32 in
    let carry = if ltb lo' b_lo then 1 else 0 in ((hi + carry + b_hi) % 2 ^ 32, lo')

-- `n` rounds of the loop are left.
pub mult_loop : ℕ → ℕ → ℕ → ℕ → ℕ → ℕ → ℕ × ℕ
mult_loop zero a b_hi b_lo hi lo = (hi, lo)
mult_loop (suc n) a b_hi b_lo hi lo =
    let odd = a % 2 == 1 in
    let sum : ℕ × ℕ = if odd then add_shifted b_hi b_lo hi lo else (hi, lo) in
    let b_hi' = shift_left b_hi 1 + (if leb (2 ^ 31) b_lo then 1 else 0) in
    let rest = mult_loop n (shift_right a 1) b_hi' (shift_left b_lo 1) sum.0 sum.1 in
    if odd && (a / 2 == 0) then sum else rest

-- The two's complement of the double word.
abbrev pub negate_double : ℕ × ℕ → ℕ × ℕ
negate_double (hi, lo) =
    let lo' = (complement lo + 1) % 2 ^ 32 in
    ((if lo' == 0 then (complement hi + 1) % 2 ^ 32 else complement hi), lo')

-- The words at `hiPtr` and `loPtr`.
pub mult : ℕ → ℕ → Bool → ℕ × ℕ
mult a b signed_arith =
    if (a == 0) || (b == 0)
    then (0, 0)
    else (let a' = if signed_arith && is_negative a then negate a else a in
        let b' = if signed_arith && is_negative b then negate b else b in
        let negative = signed_arith && not (same_sign a b) in
        let product = mult_loop 32 a' 0 b' 0 0 in
        if negative then negate_double product else product)
