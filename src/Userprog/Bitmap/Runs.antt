-- ===== src/Userprog/Bitmap/Runs.antt =====
-- `FindN`: the search for a run of clear bits, and where it stops.
use op_prac.Base.{
  ℕ, zero, suc, ◌+◌, ◌-◌, ◌≤◌, ◌<◌, ◌≡◌, refl, ◌∙◌, Bool, true, false, not, ◌&&◌, arith, ok, err,
  assert_failed, Bool-cases, dec_le, ℕ_discrete, inl, inr, if◌then◌else◌,
}
use op_prac.Base.Int.{pos, minus_one}
use op_prac.Userprog.Bitmap.{BitMap, mark_run, run_flag, find_n_from, find_n}
use op_prac.Userprog.Bitmap.View.{IsValid, marked, test_lem, mark_lem, test_out}
use op_prac.Userprog.Bitmap.Loops.{WritesRun, WritesRun-none, WritesRun-step}

-- The `n` bits from `i` on are all clear.
unfoldable pub run_clear : BitMap → ℕ → ℕ → Bool
run_clear m i zero = true
run_clear m i (suc n) = not (marked m i) && run_clear m (i + 1) n

run_flag_lem :
    (n i : ℕ) (flag : Bool) (m : BitMap)
    → IsValid m
    → i + n ≤ m.num_bits
    → run_flag n i flag m ≡ ok (flag && run_clear m i n)
unfolding run_flag run_clear
run_flag_lem zero i flag m v h = ground arith
run_flag_lem (suc n) i flag m v h =
    rw (test_lem m v i (omega arith))
      (run_flag_lem n (i + 1) (if marked m i then false else flag) m v (omega arith) ∙ ground arith)

-- A run that leaves the bitmap is tested one bit too far.
run_flag_out :
    (n i : ℕ) (flag : Bool) (m : BitMap)
    → IsValid m
    → i ≤ m.num_bits
    → m.num_bits < i + n
    → run_flag n i flag m ≡ err assert_failed
unfolding run_flag
run_flag_out zero i flag m v le h = absurd (omega arith)
run_flag_out (suc n) i flag m v le h = elim (dec_le m.num_bits i) [
  | yes out ↦ rw (test_out m i out)
  | no within ↦
      rw (test_lem m v i (omega arith)) (
        run_flag_out n (i + 1) (if marked m i then false else flag) m v (omega arith) (omega arith))
]

mark_run_lem :
    (n i : ℕ) (m : BitMap)
    → IsValid m
    → i + n ≤ m.num_bits
    → (m' : BitMap) × (mark_run n i m ≡ ok m') × WritesRun m m' i n true
unfolding mark_run
mark_run_lem zero i m v h = (m, refl, WritesRun-none m i true v)
mark_run_lem (suc n) i m v h =
    let (m', e, one) = mark_lem m v i (omega arith) in
    let (m'', e', rest) = mark_run_lem n (i + 1) m' one.valid (omega (arith, one.same_size)) in
    (m'', rw e e', WritesRun-step m m' i n true one rest)

-- What `FindN` on `cnt` bits comes to.
pub data FindsRun (m : BitMap) (cnt : ℕ) : Type 0 where
  run :
      (i : ℕ) (m' : BitMap)
      → i + cnt ≤ m.num_bits
      → run_clear m i cnt ≡ true
      → ((j : ℕ) → j < i → run_clear m j cnt ≡ false)
      → find_n (pos cnt) m ≡ ok (pos i, m')
      → WritesRun m m' i cnt true
      → FindsRun m cnt
  absent :
      ((j : ℕ) → j < m.num_bits → (cnt ≡ 1) × (run_clear m j cnt ≡ false))
      → find_n (pos cnt) m ≡ ok (minus_one, m)
      → FindsRun m cnt
  aborted :
      2 ≤ cnt
      → ((j : ℕ) → j + cnt ≤ m.num_bits → run_clear m j cnt ≡ false)
      → find_n (pos cnt) m ≡ err assert_failed
      → FindsRun m cnt

abbrev NoRunBelow : BitMap → ℕ → ℕ → Type 0
NoRunBelow m cnt i = (j : ℕ) → j < i → (j + cnt ≤ m.num_bits) × (run_clear m j cnt ≡ false)

NoRunBelow-suc :
    (m : BitMap) (cnt i : ℕ)
    → i + cnt ≤ m.num_bits
    → run_clear m i cnt ≡ false
    → NoRunBelow m cnt i
    → NoRunBelow m cnt (i + 1)
NoRunBelow-suc m cnt i fits e h j lt = elim (ℕ_discrete j i) [
  | yes same ↦ rw same (fits, e)
  | no other ↦ h j (omega arith)
]

run_clear-zero : (m : BitMap) (j cnt : ℕ) → run_clear m j cnt ≡ false → 1 ≤ cnt
unfolding run_clear
run_clear-zero m j zero e = absurd (cc)
run_clear-zero m j (suc cnt) e = omega arith

find_n_from_lem :
    (n i cnt : ℕ) (m : BitMap)
    → IsValid m
    → i + n ≡ m.num_bits
    → NoRunBelow m cnt i
    → find_n (pos cnt) m ≡ find_n_from n i cnt m
    → FindsRun m cnt
unfolding find_n_from
find_n_from_lem zero i cnt m v e below same =
    absent
      (λ j lt. (
        omega (
          arith,
          run_clear-zero m j cnt (below j (omega arith)).1,
          (below (m.num_bits - 1) (omega arith)).0,
        ),
        (below j (omega arith)).1,
      ))
      same
find_n_from_lem (suc n) i cnt m v e below same = elim (dec_le (i + cnt) m.num_bits) [
  | yes fits ↦ elim (Bool-cases (run_clear m i cnt)) [
    | inl all_clear ↦
        let (m', e', w) = mark_run_lem cnt i m v fits in
        run i m' fits all_clear (λ j lt. (below j lt).1)
          (same ∙ rw (run_flag_lem cnt i true m v fits, all_clear, e') refl) w
    | inr some_set ↦
        find_n_from_lem n (i + 1) cnt m v (omega arith) (NoRunBelow-suc m cnt i fits some_set below)
          (same ∙ rw (run_flag_lem cnt i true m v fits, some_set) refl)
  ]
  | no leaves ↦
      aborted (omega arith) (λ j fits. (below j (omega arith)).1)
        (same ∙ rw (run_flag_out cnt i true m v (omega arith) (omega arith)) refl)
]

-- `FindN` takes the first run of `cnt` clear bits. Where there is none it reports -1 only for a
-- count of one (or on a bitmap of no bits): for two and more it runs into the ASSERT of `Test`.
pub find_n-FindsRun : (m : BitMap) (cnt : ℕ) → IsValid m → FindsRun m cnt
unfolding find_n
find_n-FindsRun m cnt v =
    find_n_from_lem m.num_bits 0 cnt m v (omega arith) (λ j h. absurd (omega arith)) refl
