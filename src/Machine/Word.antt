-- ===== src/Machine/Word.antt =====
-- The `int` of the simulator as a word: a number below 2 ^ 32, in two's complement.
use op_prac.Base.{ℕ, ◌+◌, ◌-◌, ◌*◌, ◌/◌, ◌%◌, ◌^◌, Bool, not, ltb, leb, if◌then◌else◌}

abbrev pub add_word : ℕ → ℕ → ℕ
add_word a b = (a + b) % 2 ^ 32

abbrev pub sub_word : ℕ → ℕ → ℕ
sub_word a b = (a + (2 ^ 32 - b)) % 2 ^ 32

-- `a & SIGN_BIT`
abbrev pub is_negative : ℕ → Bool
is_negative a = leb (2 ^ 31) a

-- `<` of two signed words.
abbrev pub ltb_signed : ℕ → ℕ → Bool
ltb_signed a b = ltb ((a + 2 ^ 31) % 2 ^ 32) ((b + 2 ^ 31) % 2 ^ 32)

abbrev pub complement : ℕ → ℕ
complement a = 2 ^ 32 - 1 - a

abbrev pub negate : ℕ → ℕ
negate a = sub_word 0 a

abbrev pub shift_left : ℕ → ℕ → ℕ
shift_left a k = a * 2 ^ k % 2 ^ 32

-- `>>` of a signed word: copies of the sign come in from the left.
abbrev pub shift_right : ℕ → ℕ → ℕ
shift_right a k = if is_negative a then a / 2 ^ k + (2 ^ 32 - 2 ^ (32 - k)) else a / 2 ^ k

-- `!((a ^ b) & SIGN_BIT)`
abbrev pub same_sign : ℕ → ℕ → Bool
same_sign a b = if is_negative a then is_negative b else not (is_negative b)
