-- ===== src/Machine/Mult/Product.antt =====
-- `Mult` against the product of numbers.
use native.Mathlib.Nat.{pow-suc, mul-add, mul-le-mul}
use op_prac.Base.{
  ℕ, zero, suc, ◌+◌, ◌-◌, ◌*◌, ◌/◌, ◌%◌, ◌^◌, ◌≤◌, ◌<◌, ◌≡◌, refl, sym, ap, subst, ◌∙◌, inl, inr,
  true, false, ◌||◌, arith, ℕ_discrete, ltb, leb, ◌==◌, if◌then◌else◌, Bool-cases,
}
use op_prac.Machine.Word.{is_negative, same_sign, negate, shift_left, shift_right}
use op_prac.Machine.Mult.{add_shifted, mult_loop, negate_double, mult}

-- The number in two words.
abbrev pub double : ℕ × ℕ → ℕ
double (hi, lo) = hi * 2 ^ 32 + lo

abbrev pub IsDouble : ℕ × ℕ → Type 0
IsDouble (hi, lo) = (hi < 2 ^ 32) × (lo < 2 ^ 32)

-- The number in the lowest `n` digits.
low : ℕ → ℕ → ℕ
low zero a = 0
low (suc n) a = a % 2 + 2 * low n (a / 2)

low_all : (n a : ℕ) → a < 2 ^ n → low n a ≡ a
unfolding low
low_all zero a h = omega arith
low_all (suc n) a h = let p = pow-suc 2 n in omega (arith, p, low_all n (a / 2) (omega (arith, p)))

low_zero : (n : ℕ) → low n 0 ≡ 0
unfolding low
low_zero zero = refl
low_zero (suc n) = omega (arith, low_zero n)

-- Digits above the lowest `n` do not count.
low_high : (n k a : ℕ) → low n (a + 2 ^ (n + k)) ≡ low n a
unfolding low
low_high zero k a = refl
low_high (suc n) k a =
    let p : 2 ^ (suc n + k) ≡ 2 ^ (n + k) * 2 = omega (
      arith,
      pow-suc 2 (n + k),
      (let e : 2 ^ (suc n + k) ≡ 2 ^ suc (n + k) = ap (λ m. 2 ^ m) (omega arith) in e),
    ) in
    let half : (a + 2 ^ (suc n + k)) / 2 ≡ a / 2 + 2 ^ (n + k) = omega (arith, p) in
    rw half (omega (arith, p, low_high n k (a / 2)))

low-shift_right : (n a : ℕ) → n ≤ 31 → low n (shift_right a 1) ≡ low n (a / 2)
low-shift_right n a h = elim (Bool-cases (is_negative a)) [
  | inl negative ↦ rw negative (
      ap (λ m. low n (a / 2 + 2 ^ m)) (let e : 31 ≡ n + (31 - n) = omega arith in e)
      ∙ low_high n (31 - n) (a / 2))
  | inr positive ↦ rw positive refl
]

doubled :
    (b_hi b_lo : ℕ)
    → b_hi < 2 ^ 32
    → b_lo < 2 ^ 32
    → double (shift_left b_hi 1 + (if leb (2 ^ 31) b_lo then 1 else 0), shift_left b_lo 1)
        + b_hi / 2 ^ 31 * 2 ^ 64
      ≡ 2 * double (b_hi, b_lo)
doubled b_hi b_lo h k = ground arith

added :
    (b_hi b_lo hi lo : ℕ)
    → b_lo < 2 ^ 32
    → lo < 2 ^ 32
    → (d : ℕ) × (double (add_shifted b_hi b_lo hi lo) + d * 2 ^ 64
        ≡ double (hi, lo) + double (b_hi, b_lo))
added b_hi b_lo hi lo h k =
    ((hi + (if ltb ((lo + b_lo) % 2 ^ 32) b_lo then 1 else 0) + b_hi) / 2 ^ 32, ground arith)

product_step : (l v v' c : ℕ) → v' + c * 2 ^ 64 ≡ 2 * v → l * v' + l * c * 2 ^ 64 ≡ 2 * (l * v)
product_step l v v' c e =
    let scaled : l * (v' + c * 2 ^ 64) ≡ l * (2 * v) = ap (λ x. l * x) e in
    omega (arith, scaled, mul-add l v' (c * 2 ^ 64))

-- `r` is `h + k * v`, but for what does not fit into two words.
abbrev Reaches : ℕ → ℕ → ℕ × ℕ → Type 0
Reaches h kv r = IsDouble r × ((q : ℕ) × (double r + q * 2 ^ 64 ≡ h + kv))

-- One round of the loop, where the digit is 0 and where it is 1.
round_even :
    (h l l' v v' c d : ℕ) {r : ℕ × ℕ}
    → l' ≡ l
    → v' + c * 2 ^ 64 ≡ 2 * v
    → d ≡ 0
    → Reaches h (l' * v') r
    → Reaches h ((d + 2 * l) * v) r
round_even h l l' v v' c d same twice digit (w, (q, e)) =
    let step = product_step l v v' c twice in
    let moved : l' * v' ≡ l * v' = ap (λ x. x * v') same in
    let split : (d + 2 * l) * v ≡ 2 * (l * v) = ap (λ x. (x + 2 * l) * v) digit ∙ grind arith in
    (w, (q + l * c, omega (arith, e, step, moved, split)))

round_odd :
    (h h' l l' v v' c d k : ℕ) {r : ℕ × ℕ}
    → l' ≡ l
    → v' + c * 2 ^ 64 ≡ 2 * v
    → h' + k * 2 ^ 64 ≡ h + v
    → d ≡ 1
    → Reaches h' (l' * v') r
    → Reaches h ((d + 2 * l) * v) r
round_odd h h' l l' v v' c d k same twice sum digit (w, (q, e)) =
    let step = product_step l v v' c twice in
    let moved : l' * v' ≡ l * v' = ap (λ x. x * v') same in
    let split : (d + 2 * l) * v ≡ v + 2 * (l * v) = ap (λ x. (x + 2 * l) * v) digit ∙ grind arith in
    (w, (q + l * c + k, omega (arith, e, step, moved, split)))

last_digit : (n a v : ℕ) → a % 2 ≡ 1 → a / 2 ≡ 0 → v ≡ (a % 2 + 2 * low n (a / 2)) * v
last_digit n a v odd last =
    let nothing : low n (a / 2) ≡ 0 = ap (low n) last ∙ low_zero n in
    let one : 1 ≡ a % 2 + 2 * low n (a / 2) = omega (arith, odd, nothing) in
    (let e : v ≡ 1 * v = omega arith in e) ∙ ap (λ x. x * v) one

add_shifted-IsDouble : (b_hi b_lo hi lo : ℕ) → IsDouble (add_shifted b_hi b_lo hi lo)
add_shifted-IsDouble b_hi b_lo hi lo = omega arith

shifted-IsDouble :
    (b_hi b_lo : ℕ)
    → IsDouble (shift_left b_hi 1 + (if leb (2 ^ 31) b_lo then 1 else 0), shift_left b_lo 1)
shifted-IsDouble b_hi b_lo = ground arith

-- What the loop computes: the number in the lowest `n` digits of `a` times the shifted `b`, added to
-- the result so far. What does not fit into two words is a multiple of 2 ^ 64.
mult_loop_lem :
    (n a b_hi b_lo hi lo : ℕ)
    → n ≤ 32
    → IsDouble (b_hi, b_lo)
    → IsDouble (hi, lo)
    → Reaches (double (hi, lo)) (low n a * double (b_hi, b_lo)) (mult_loop n a b_hi b_lo hi lo)
unfolding mult_loop low
mult_loop_lem zero a b_hi b_lo hi lo h wb w = (w, (0, omega arith))
mult_loop_lem (suc n) a b_hi b_lo hi lo h wb w =
    let v = double (b_hi, b_lo) in
    let l = low n (a / 2) in
    let twice = doubled b_hi b_lo wb.0 wb.1 in
    let b_hi' = shift_left b_hi 1 + (if leb (2 ^ 31) b_lo then 1 else 0) in
    let b_lo' = shift_left b_lo 1 in
    let wb' = shifted-IsDouble b_hi b_lo in
    let same = low-shift_right n a (omega arith) in
    elim (Bool-cases (a % 2 == 1)) [
      | inr even ↦ rw even (
          round_even (double (hi, lo)) l (low n (shift_right a 1)) v (double (b_hi', b_lo'))
            (b_hi / 2 ^ 31) (a % 2) same twice (ground arith)
            (mult_loop_lem n (shift_right a 1) b_hi' b_lo' hi lo (omega arith) wb' w))
      | inl odd ↦
          let sum = add_shifted b_hi b_lo hi lo in
          let (k, e) = added b_hi b_lo hi lo wb.1 w.1 in
          let w' = add_shifted-IsDouble b_hi b_lo hi lo in
          elim (Bool-cases (a / 2 == 0)) [
            | inl last ↦
                rw (odd, last)
                  (
                    w',
                    (
                      k,
                      e
                          ∙ ap (λ x. double (hi, lo) + x)
                              (last_digit n a v (ground arith) (ground arith)),
                    ),
                  )
            | inr more ↦
                rw (odd, more)
                  (round_odd (double (hi, lo)) (double sum) l (low n (shift_right a 1)) v
                    (double (b_hi', b_lo')) (b_hi / 2 ^ 31) (a % 2) k same twice e (ground arith)
                    (mult_loop_lem n (shift_right a 1) b_hi' b_lo' sum.0 sum.1 (omega arith) wb'
                      w'))
          ]
    ]

product-lt : (a b : ℕ) → a < 2 ^ 32 → b < 2 ^ 32 → a * b < 2 ^ 64
product-lt a b h k = omega (
  arith,
  mul-le-mul (let p : a ≤ 2 ^ 32 - 1 = omega arith in p)
      (let p : b ≤ 2 ^ 32 - 1 = omega arith in p),
)

-- All 32 rounds give the product.
product_lem :
    (a b : ℕ)
    → a < 2 ^ 32
    → b < 2 ^ 32
    → IsDouble (mult_loop 32 a 0 b 0 0) × (double (mult_loop 32 a 0 b 0 0) ≡ a * b)
product_lem a b h k =
    let (w, (q, e)) = mult_loop_lem 32 a 0 b 0 0 (omega arith) (omega arith) (omega arith) in
    let whole : low 32 a * double (0, b) ≡ a * b =
      ap (λ x. x * double (0, b)) (low_all 32 a h) ∙ ap (λ x. a * x) (omega arith) in
    (w, omega (arith, e, whole, product-lt a b h k))

zero_product : (a b : ℕ) → ((a == 0) || (b == 0)) ≡ true → a * b ≡ 0
zero_product a b e = elim (ℕ_discrete a 0) [
  | yes first ↦ ap (λ x. x * b) first ∙ omega arith
  | no other ↦ let second : b ≡ 0 = ground arith in ap (λ x. a * x) second ∙ omega arith
]

-- Without signs, `Mult` gives the product of the two words, in two words.
pub mult_unsigned :
    (a b : ℕ)
    → a < 2 ^ 32
    → b < 2 ^ 32
    → IsDouble (mult a b false) × (double (mult a b false) ≡ a * b)
unfolding mult
mult_unsigned a b h k = elim (Bool-cases ((a == 0) || (b == 0))) [
  | inl zeros ↦ rw zeros ((omega arith, omega arith), sym (zero_product a b zeros))
  | inr other ↦ rw other (product_lem a b h k)
]

-- The size of a signed word.
abbrev pub magnitude : ℕ → ℕ
magnitude a = if is_negative a then negate a else a

pub magnitude-lt : (a : ℕ) → a < 2 ^ 32 → magnitude a < 2 ^ 32
magnitude-lt a h = ground arith

negate_double_lem :
    (r : ℕ × ℕ)
    → IsDouble r
    → IsDouble (negate_double r) × ((double (negate_double r) + double r) % 2 ^ 64 ≡ 0)
negate_double_lem (hi, lo) (h, k) = (ground arith, ground arith)

zero_magnitudes : (a b : ℕ) → ((a == 0) || (b == 0)) ≡ true → magnitude a * magnitude b ≡ 0
zero_magnitudes a b e = elim (ℕ_discrete a 0) [
  | yes first ↦ ap (λ x. magnitude x * magnitude b) first ∙ omega arith
  | no other ↦
      let second : b ≡ 0 = ground arith in ap (λ x. magnitude a * magnitude x) second ∙ omega arith
]

-- With signs, `Mult` gives the product of the magnitudes where the signs are the same, and its two's
-- complement in 64 bits where they differ.
pub mult_signed :
    (a b : ℕ)
    → a < 2 ^ 32
    → b < 2 ^ 32
    → IsDouble (mult a b true)
      × (if same_sign a b
          then double (mult a b true) ≡ magnitude a * magnitude b
          else (double (mult a b true) + magnitude a * magnitude b) % 2 ^ 64 ≡ 0)
unfolding mult
mult_signed a b h k = elim (Bool-cases ((a == 0) || (b == 0))) [
  | inl zeros ↦
      rw zeros
        ((omega arith, omega arith), (let e = zero_magnitudes a b zeros in ground (arith, e)))
  | inr other ↦
      let (w, e) = product_lem (magnitude a) (magnitude b) (magnitude-lt a h) (magnitude-lt b k) in
      elim (Bool-cases (same_sign a b)) [
        | inl same ↦ rw (other, same) (w, e)
        | inr differ ↦
            rw (other, differ)
              (let (w', e') =
                  negate_double_lem (mult_loop 32 (magnitude a) 0 (magnitude b) 0 0) w in
                (
                  w',
                  subst
                      (λ x.
                        (double (negate_double (mult_loop 32 (magnitude a) 0 (magnitude b) 0 0))
                            + x)
                          % 2 ^ 64
                        ≡ 0)
                      e e',
                ))
      ]
]
