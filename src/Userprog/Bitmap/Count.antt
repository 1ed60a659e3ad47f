-- ===== src/Userprog/Bitmap/Count.antt =====
-- The number of clear bits once a run of them is set.
use op_prac.Base.{
  ℕ, zero, suc, ◌+◌, ◌-◌, ◌<◌, ◌≡◌, subst, ◌∙◌, ◌⊎◌, inl, inr, true, false, arith, ℕ_discrete, ok,
  ltb, leb, ◌==◌, if◌then◌else◌, Bool-cases,
}
use op_prac.Base.Int.{pos, minus_one}
use op_prac.Userprog.Bitmap.{find, num_clear}
use op_prac.Userprog.Bitmap.Loops.{
  full, found, Finds, find-Finds, num_clear_lem, clear_count-full, clear_count-Writes,
}
use op_prac.Userprog.Bitmap.{BitMap}
use op_prac.Userprog.Bitmap.View.{IsValid, marked}
use op_prac.Userprog.Bitmap.Loops.{in_run, WritesRun, clear_count}
use op_prac.Userprog.Bitmap.Runs.{run_clear}

pub run_clear-marked :
    (m : BitMap) (n i j : ℕ) → run_clear m i n ≡ true → in_run i n j ≡ true → marked m j ≡ false
unfolding run_clear
run_clear-marked m zero i j e h = ground arith
run_clear-marked m (suc n) i j e h = elim (ℕ_discrete i j) [
  | yes same ↦ subst (λ c. marked m c ≡ false) same (ground arith)
  | no other ↦ run_clear-marked m n (i + 1) j (ground arith) (ground arith)
]

-- The bits of a run that are below `k`.
abbrev pub run_below : ℕ → ℕ → ℕ → ℕ
run_below i n k = if leb k i then 0 else if ltb k (i + n) then k - i else n

pub count_run :
    (m m' : BitMap) (i n k : ℕ)
    → run_clear m i n ≡ true
    → WritesRun m m' i n true
    → clear_count m' k + run_below i n k ≡ clear_count m k
unfolding clear_count
count_run m m' i n zero e w = ground arith
count_run m m' i n (suc k) e w = elim (Bool-cases (in_run i n k)) [
  | inl inside ↦
      ground (arith, w.reads k, count_run m m' i n k e w, run_clear-marked m n i k e inside)
  | inr outside ↦ ground (arith, w.reads k, count_run m m' i n k e w)
]

-- A run of clear bits that is set and cleared again reads as before.
pub run_undone :
    (m m₁ m₂ : BitMap) (b n : ℕ)
    → run_clear m b n ≡ true
    → WritesRun m m₁ b n true
    → WritesRun m₁ m₂ b n false
    → (j : ℕ) → marked m₂ j ≡ marked m j
run_undone m m₁ m₂ b n e w w' j = elim (Bool-cases (in_run b n j)) [
  | inl inside ↦ ground (arith, w'.reads j, run_clear-marked m n b j e inside)
  | inr outside ↦ ground (arith, w'.reads j, w.reads j)
]

-- On a valid bitmap, `NumClear` counts and `Find` takes: `Find` reports -1 and changes nothing where
-- `NumClear` gives 0; else it reports the first clear bit and sets it and no other, and `NumClear`
-- gives one less from then on.
pub find-num_clear :
    (m : BitMap)
    → IsValid m
    → (count : ℕ) × (num_clear m ≡ ok count)
      × (((count ≡ 0) × (find m ≡ ok (minus_one, m)))
          ⊎ ((i : ℕ) × (m' : BitMap) × (count' : ℕ) × (find m ≡ ok (pos i, m'))
              × (i < m.num_bits)
              × (marked m i ≡ false)
              × ((j : ℕ) → j < i → marked m j ≡ true)
              × ((j : ℕ) → marked m' j ≡ (if i == j then true else marked m j))
              × (num_clear m' ≡ ok count')
              × (count' + 1 ≡ count)))
find-num_clear m v = (clear_count m m.num_bits, num_clear_lem m v, go (find-Finds m v))
  where
    go :
        Finds m
        → ((clear_count m m.num_bits ≡ 0) × (find m ≡ ok (minus_one, m)))
          ⊎ ((i : ℕ) × (m' : BitMap) × (count' : ℕ) × (find m ≡ ok (pos i, m'))
              × (i < m.num_bits)
              × (marked m i ≡ false)
              × ((j : ℕ) → j < i → marked m j ≡ true)
              × ((j : ℕ) → marked m' j ≡ (if i == j then true else marked m j))
              × (num_clear m' ≡ ok count')
              × (count' + 1 ≡ clear_count m m.num_bits))
    go (full all e) = inl (clear_count-full m.num_bits m all, e)
    go (found i m' lt was below e w) = inr (
      i,
      m',
      clear_count m' m'.num_bits,
      e,
      lt,
      was,
      below,
      (λ j. w.reads j ∙ ground arith),
      num_clear_lem m' w.valid,
      rw w.same_size (ground (arith, clear_count-Writes m.num_bits i m m' w was)),
    )
