-- ===== src/Userprog/Bitmap/Tests.antt =====
-- Runs of the bitmap on small inputs, and its theorems at a concrete bitmap.
use op_prac.Base.{
  ℕ, ◌+◌, ◌<◌, ◌≡◌, refl, ◌⊎◌, true, false, [], ◌∷◌, arith, assert_failed, ok, err, ◌==◌,
  if◌then◌else◌,
}
use op_prac.Base.Int.{pos, minus_one}
use op_prac.Userprog.Bitmap.{BitMap, mark, test, find, find_n, num_clear}
use op_prac.Userprog.Bitmap.View.{IsValid, marked, test_lem}
use op_prac.Userprog.Bitmap.Count.{find-num_clear}
use op_prac.Userprog.Bitmap.Runs.{FindsRun, find_n-FindsRun}

-- 40 bits in two words; bits 0, 1 and 3 are set, and 33.
abbrev sample : BitMap
sample = record { num_bits = 40; num_words = 2; map = 11 ∷ 2 ∷ [] }

sample-IsValid : IsValid sample
sample-IsValid = omega arith

find_third : find sample ≡ ok (pos 2, record sample { map = 15 ∷ 2 ∷ [] })
unfolding find test mark
find_third = refl

find_run_aborts : find_n (pos 30) sample ≡ err assert_failed
unfolding find_n test mark
find_run_aborts = refl

find_run_sample : find_n (pos 28) sample ≡ ok (pos 4, record sample { map = 4294967291 ∷ 2 ∷ [] })
unfolding find_n test mark
find_run_sample = refl

count_sample : num_clear sample ≡ ok 36
unfolding num_clear test
count_sample = refl

test_lem_example : test (pos 33) sample ≡ ok (marked sample 33)
test_lem_example = test_lem sample sample-IsValid 33 (omega arith)

find-num_clear_example :
    (count : ℕ) × (num_clear sample ≡ ok count)
    × (((count ≡ 0) × (find sample ≡ ok (minus_one, sample)))
        ⊎ ((i : ℕ) × (m' : BitMap) × (count' : ℕ) × (find sample ≡ ok (pos i, m'))
            × (i < 40)
            × (marked sample i ≡ false)
            × ((j : ℕ) → j < i → marked sample j ≡ true)
            × ((j : ℕ) → marked m' j ≡ (if i == j then true else marked sample j))
            × (num_clear m' ≡ ok count')
            × (count' + 1 ≡ count)))
find-num_clear_example = find-num_clear sample sample-IsValid

find_n-FindsRun_example : FindsRun sample 28
find_n-FindsRun_example = find_n-FindsRun sample 28 sample-IsValid
