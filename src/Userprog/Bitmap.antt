-- ===== src/Userprog/Bitmap.antt =====
-- code/userprog/bitmap.h and bitmap.cc: a bitmap over 32-bit words.
-- `int` arguments are integers, so that the -1 which `find` returns can be handed on. The shift
-- `1 << k` and the complement of it are those of a 32-bit word.
pub mod View
pub mod Loops
pub mod Runs
pub mod Count
mod Tests
use op_prac.Base.{
  ℕ, zero, suc, ◌+◌, ◌-◌, ◌/◌, ◌%◌, ◌^◌, Bool, true, false, not, List, [], ◌∷◌, bit_and, bit_or,
  Result, ok, err, assert_failed, ◌>>=◌, ◌>>◌, assert, or_fault, ltb, ◌==◌, if◌then◌else◌,
  get_elem?, set,
}
use op_prac.Base.Int.{ℤ, pos, negsuc, pos_part, minus_one}

abbrev pub bits_in_word : ℕ
bits_in_word = 32

-- `divRoundUp` of code/threads/utility.h.
abbrev pub div_round_up : ℕ → ℕ → ℕ
div_round_up n s = n / s + (if ltb 0 (n % s) then 1 else 0)

pub record BitMap : Type 0 where
  pub num_bits : ℕ
  pub num_words : ℕ
  pub map : List ℕ

abbrev mask : ℕ → ℕ
mask which = 2 ^ (which % bits_in_word)

pub mark : ℤ → BitMap → Result BitMap
mark (negsuc _) m = err assert_failed
mark (pos which) m = do
  assert (ltb which m.num_bits)
  word ← or_fault (get_elem? m.map (which / bits_in_word))
  ok (record m { map = set m.map (which / bits_in_word) (bit_or word (mask which)) })

pub clear : ℤ → BitMap → Result BitMap
clear (negsuc _) m = err assert_failed
clear (pos which) m = do
  assert (ltb which m.num_bits)
  word ← or_fault (get_elem? m.map (which / bits_in_word))
  let cleared = bit_and word (2 ^ bits_in_word - 1 - mask which)
  ok (record m { map = set m.map (which / bits_in_word) cleared })

pub test : ℤ → BitMap → Result Bool
test (negsuc _) m = err assert_failed
test (pos which) m = do
  assert (ltb which m.num_bits)
  word ← or_fault (get_elem? m.map (which / bits_in_word))
  ok (not (bit_and word (mask which) == 0))

-- for (i = 0; i < numBits; i++) Clear(i): `n` rounds are left.
clear_from : ℕ → ℕ → BitMap → Result BitMap
clear_from zero i m = ok m
clear_from (suc n) i m = clear (pos i) m >>= clear_from n (i + 1)

-- The constructor. `new` leaves the words as they are found in memory.
pub new_bit_map : ℕ → List ℕ → Result BitMap
unfolding clear_from
new_bit_map nitems memory =
    clear_from nitems 0
      (record { num_bits = nitems; num_words = div_round_up nitems bits_in_word; map = memory })

find_from : ℕ → ℕ → BitMap → Result (ℤ × BitMap)
find_from zero i m = ok (minus_one, m)
find_from (suc n) i m = do
  marked ← test (pos i) m
  if marked then find_from n (i + 1) m else (do m' ← mark (pos i) m; ok (pos i, m'))

pub find : BitMap → Result (ℤ × BitMap)
unfolding find_from
find m = find_from m.num_bits 0 m

num_clear_from : ℕ → ℕ → ℕ → BitMap → Result ℕ
num_clear_from zero i count m = ok count
num_clear_from (suc n) i count m = do
  marked ← test (pos i) m
  num_clear_from n (i + 1) (if marked then count else count + 1) m

pub num_clear : BitMap → Result ℕ
unfolding num_clear_from
num_clear m = num_clear_from m.num_bits 0 0 m

-- The two inner loops of `FindN`, over `i + j`.
run_flag : ℕ → ℕ → Bool → BitMap → Result Bool
run_flag zero k flag m = ok flag
run_flag (suc n) k flag m = do
  marked ← test (pos k) m
  run_flag n (k + 1) (if marked then false else flag) m

mark_run : ℕ → ℕ → BitMap → Result BitMap
mark_run zero k m = ok m
mark_run (suc n) k m = mark (pos k) m >>= mark_run n (k + 1)

find_n_from : ℕ → ℕ → ℕ → BitMap → Result (ℤ × BitMap)
find_n_from zero i cnt m = ok (minus_one, m)
find_n_from (suc n) i cnt m = do
  flag ← run_flag cnt i true m
  if flag then (do m' ← mark_run cnt i m; ok (pos i, m')) else find_n_from n (i + 1) cnt m

-- A count below zero runs no inner loop.
pub find_n : ℤ → BitMap → Result (ℤ × BitMap)
unfolding find_n_from run_flag mark_run
find_n cnt m = find_n_from m.num_bits 0 (pos_part cnt) m
