-- ===== src/Base/Bits.antt =====
-- The binary digits of a machine word, and what `&`, `|` and `~` do to them at every width.
use Prim.Native.Nat.{
  ℕ, zero, suc, ◌+◌, ◌-◌, ◌*◌, ◌/◌, ◌%◌, ◌^◌, ◌≤◌, ◌<◌, min, max, bit_and, bit_or, digits,
  bit_and-bitwise, bit_or-bitwise, bit_xor, bit_xor-bitwise, differ,
}
use mathlib.Core.Path.{◌≡◌, refl, ap, ◌∙◌}
use native.Mathlib.Nat.{pow-suc, one-le-pow, pow-le-pow_right}
use native.Mathlib.Omega.{arith}
use op_prac.Base.Tests.{◌==◌, if◌then◌else◌}

-- `&` and `|` are defined digit by digit, with the first operand as fuel. Fuel that reaches the
-- operand is enough, so each is given by its lowest digit and the operation on the halves.
module _ (empty : ℕ → ℕ) (join : ℕ → ℕ → ℕ) where
  one_more : (n a b : ℕ) → a ≤ n → digits empty join (suc n) a b ≡ digits empty join n a b
  one_more n zero b h = elim n as (λ n. digits empty join (suc n) 0 b ≡ digits empty join n 0 b) [
    | zero ↦ refl
    | suc n ↦ refl
  ]
  one_more zero (suc a) b h = absurd (omega arith)
  one_more (suc n) (suc a) b h =
      ap (λ high. high * 2 + join (suc a % 2) (b % 2))
        (one_more n (suc a / 2) (b / 2) (omega arith))

  any_more :
      (extra n a b : ℕ)
      → a ≤ n
      → (m : ℕ) → m ≡ extra + n
      → digits empty join m a b ≡ digits empty join n a b
  any_more zero n a b h m e = ap (λ k. digits empty join k a b) (omega arith)
  any_more (suc extra) n a b h m e =
      ap (λ k. digits empty join k a b) (let e' : m ≡ suc (extra + n) = omega arith in e')
      ∙ one_more (extra + n) a b (omega arith)
      ∙ any_more extra n a b h (extra + n) refl

  halved :
      (a b : ℕ)
      → digits empty join a (suc a / 2) (b / 2) ≡ digits empty join (suc a / 2) (suc a / 2) (b / 2)
  halved a b =
      any_more (a - suc a / 2) (suc a / 2) (suc a / 2) (b / 2) (omega arith) a (omega arith)

pub bit_or_step : (a b : ℕ) → bit_or a b ≡ bit_or (a / 2) (b / 2) * 2 + max (a % 2) (b % 2)
bit_or_step zero b = rw (bit_or-bitwise 0 b, bit_or-bitwise 0 (b / 2)) (omega arith)
bit_or_step (suc a) b =
    rw (bit_or-bitwise (suc a) b, bit_or-bitwise (suc a / 2) (b / 2))
      (ap (λ high. high * 2 + max (suc a % 2) (b % 2)) (halved (λ y. y) max a b))

pub bit_and_step : (a b : ℕ) → bit_and a b ≡ bit_and (a / 2) (b / 2) * 2 + min (a % 2) (b % 2)
bit_and_step zero b = rw (bit_and-bitwise 0 b, bit_and-bitwise 0 (b / 2)) (omega arith)
bit_and_step (suc a) b =
    rw (bit_and-bitwise (suc a) b, bit_and-bitwise (suc a / 2) (b / 2))
      (ap (λ high. high * 2 + min (suc a % 2) (b % 2)) (halved (λ y. 0) min a b))

pub pow-lt : (k n : ℕ) → k < n → 2 ^ k < 2 ^ n
pow-lt k n h =
    let step : 2 ^ suc k ≤ 2 ^ n = pow-le-pow_right (omega arith) h in
    let one : 1 ≤ 2 ^ k = one-le-pow k 2 (omega arith) in omega (arith, step, one, pow-suc 2 k)

-- Digit `j` of a number, counted from the lowest.
unfoldable pub bit : ℕ → ℕ → ℕ
bit a zero = a % 2
bit a (suc j) = bit (a / 2) j

pub bit-lt : (a j : ℕ) → bit a j < 2
unfolding bit
bit-lt a zero = omega arith
bit-lt a (suc j) = bit-lt (a / 2) j

pub bit-bit_and : (a b j : ℕ) → bit (bit_and a b) j ≡ min (bit a j) (bit b j)
unfolding bit
bit-bit_and a b zero = omega (arith, bit_and_step a b)
bit-bit_and a b (suc j) =
    let e : bit_and a b / 2 ≡ bit_and (a / 2) (b / 2) = omega (arith, bit_and_step a b) in
    rw e (bit-bit_and (a / 2) (b / 2) j)

pub bit-bit_or : (a b j : ℕ) → bit (bit_or a b) j ≡ max (bit a j) (bit b j)
unfolding bit
bit-bit_or a b zero = omega (arith, bit_or_step a b)
bit-bit_or a b (suc j) =
    let e : bit_or a b / 2 ≡ bit_or (a / 2) (b / 2) = omega (arith, bit_or_step a b) in
    rw e (bit-bit_or (a / 2) (b / 2) j)

pub bit-zero : (j : ℕ) → bit 0 j ≡ 0
unfolding bit
bit-zero zero = refl
bit-zero (suc j) = bit-zero j

-- A word with one digit set.
pub bit-pow : (k j : ℕ) → bit (2 ^ k) j ≡ (if k == j then 1 else 0)
unfolding bit
bit-pow zero zero = refl
bit-pow zero (suc j) = ground (arith, bit-zero j)
bit-pow (suc k) zero = ground (arith, pow-suc 2 k)
bit-pow (suc k) (suc j) =
    let e : 2 ^ suc k / 2 ≡ 2 ^ k = omega (arith, pow-suc 2 k) in rw e (ground (arith, bit-pow k j))

-- The complement of a word of `n` digits.
pub bit-complement : (n m j : ℕ) → m < 2 ^ n → j < n → bit (2 ^ n - 1 - m) j ≡ 1 - bit m j
unfolding bit
bit-complement zero m j h lt = absurd (omega arith)
bit-complement (suc n) m zero h lt = omega (arith, pow-suc 2 n)
bit-complement (suc n) m (suc j) h lt =
    let e : (2 ^ suc n - 1 - m) / 2 ≡ 2 ^ n - 1 - m / 2 = omega (arith, pow-suc 2 n) in
    rw e (bit-complement n (m / 2) j (omega (arith, pow-suc 2 n)) (omega arith))

-- Nothing is left under a mask of no digits.
no_digits : (n a : ℕ) → a ≤ n → bit_and a 0 ≡ 0
no_digits zero a h = rw (let e : a ≡ 0 = omega arith in e)
no_digits (suc n) a h = omega (arith, bit_and_step a 0, no_digits n (a / 2) (omega arith))

-- The mask of one digit leaves that digit alone.
pub bit_and-pow : (a k : ℕ) → bit_and a (2 ^ k) ≡ bit a k * 2 ^ k
unfolding bit
bit_and-pow a zero = omega (arith, bit_and_step a 1, no_digits a (a / 2) (omega arith))
bit_and-pow a (suc k) =
    let e : 2 ^ suc k / 2 ≡ 2 ^ k = omega (arith, pow-suc 2 k) in
    let h : bit_and (a / 2) (2 ^ suc k / 2) ≡ bit (a / 2) k * 2 ^ k =
      rw e (bit_and-pow (a / 2) k) in
    let m : bit (a / 2) k * 2 ^ suc k ≡ bit (a / 2) k * 2 ^ k * 2 =
      omega (arith, ap (λ (t : ℕ). bit (a / 2) k * t) (pow-suc 2 k)) in
    omega (arith, bit_and_step a (2 ^ suc k), h, m, pow-suc 2 k)

pub bit_or-lt : (n a b : ℕ) → a < 2 ^ n → b < 2 ^ n → bit_or a b < 2 ^ n
bit_or-lt zero zero zero p q = omega arith
bit_or-lt zero zero (suc b) p q = absurd (omega arith)
bit_or-lt zero (suc a) b p q = absurd (omega arith)
bit_or-lt (suc n) a b p q =
    let h = bit_or-lt n (a / 2) (b / 2) (omega (arith, pow-suc 2 n)) (omega (arith, pow-suc 2 n)) in
    omega (arith, bit_or_step a b, pow-suc 2 n, h)

pub bit_and-lt : (n a b : ℕ) → a < 2 ^ n → b < 2 ^ n → bit_and a b < 2 ^ n
bit_and-lt zero zero zero p q = omega arith
bit_and-lt zero zero (suc b) p q = absurd (omega arith)
bit_and-lt zero (suc a) b p q = absurd (omega arith)
bit_and-lt (suc n) a b p q =
    let h =
      bit_and-lt n (a / 2) (b / 2) (omega (arith, pow-suc 2 n)) (omega (arith, pow-suc 2 n)) in
    omega (arith, bit_and_step a b, pow-suc 2 n, h)

differ-lt : (a b : ℕ) → a < 2 → b < 2 → differ a b < 2
differ-lt zero b h k = k
differ-lt (suc zero) zero h k = h
differ-lt (suc zero) (suc zero) h k = omega arith
differ-lt (suc zero) (suc (suc b)) h k = absurd (omega arith)
differ-lt (suc (suc a)) b h k = absurd (omega arith)

bit_xor_step : (a b : ℕ) → bit_xor a b ≡ bit_xor (a / 2) (b / 2) * 2 + differ (a % 2) (b % 2)
bit_xor_step zero b = rw (bit_xor-bitwise 0 b, bit_xor-bitwise 0 (b / 2)) (omega arith)
bit_xor_step (suc a) b =
    rw (bit_xor-bitwise (suc a) b, bit_xor-bitwise (suc a / 2) (b / 2))
      (ap (λ high. high * 2 + differ (suc a % 2) (b % 2)) (halved (λ y. y) differ a b))

pub bit_xor-lt : (n a b : ℕ) → a < 2 ^ n → b < 2 ^ n → bit_xor a b < 2 ^ n
bit_xor-lt zero zero zero p q = omega arith
bit_xor-lt zero zero (suc b) p q = absurd (omega arith)
bit_xor-lt zero (suc a) b p q = absurd (omega arith)
bit_xor-lt (suc n) a b p q =
    let h =
      bit_xor-lt n (a / 2) (b / 2) (omega (arith, pow-suc 2 n)) (omega (arith, pow-suc 2 n)) in
    omega (
      arith,
      bit_xor_step a b,
      pow-suc 2 n,
      h,
      differ-lt (a % 2) (b % 2) (omega arith) (omega arith),
    )

pub pow_sum : (m k : ℕ) → 2 ^ m * 2 ^ k ≡ 2 ^ (m + k)
pow_sum zero k = (let e : 1 * 2 ^ k ≡ 2 ^ k = omega arith in e) ∙ ap (λ n. 2 ^ n) (omega arith)
pow_sum (suc m) k =
    let scaled : 2 ^ suc m * 2 ^ k ≡ 2 * 2 ^ m * 2 ^ k =
      ap (λ x. x * 2 ^ k) (let e : 2 ^ suc m ≡ 2 * 2 ^ m = omega (arith, pow-suc 2 m) in e) in
    let moved : 2 * 2 ^ m * 2 ^ k ≡ 2 * (2 ^ m * 2 ^ k) = grind arith in
    let next : 2 ^ (suc m + k) ≡ 2 ^ suc (m + k) = ap (λ n. 2 ^ n) (omega arith) in
    omega (arith, scaled, moved, next, pow-suc 2 (m + k), pow_sum m k)
