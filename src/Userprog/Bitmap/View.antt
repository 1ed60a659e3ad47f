-- ===== src/Userprog/Bitmap/View.antt =====
-- The bitmap seen as a set of indices, and each single-bit operation against that view.
use native.Mathlib.Nat.{one-le-pow}
use op_prac.Base.{
  ℕ, zero, suc, not, ◌-◌, ◌*◌, ◌/◌, ◌%◌, ◌^◌, ◌≤◌, ◌<◌, ◌≡◌, refl, ap, Bool, true, false, arith, ok,
  bit_and, bit_or, ◌==◌, if◌then◌else◌, length, get_or, set, All, All-set, All-get_or, length-set,
  get_or-set_self, get_or-set_ne, get_elem?-eq-get_or, lt→ltb, le→ltb, err, assert_failed, ◌∙◌,
  ℕ_discrete,
}
use op_prac.Base.Int.{pos}
use op_prac.Base.Bits.{
  bit, bit-lt, bit-bit_and, bit-bit_or, bit-pow, bit-complement, bit_and-pow, bit_or-lt, bit_and-lt,
  pow-lt,
}
use op_prac.Userprog.Bitmap.{BitMap, bits_in_word, div_round_up, mark, clear, test}

-- What the constructor sets up: as many words as the bits need, each of 32 digits.
pub record IsValid (m : BitMap) : Type 0 where
  pub sized : length m.map ≡ div_round_up m.num_bits bits_in_word
  pub counted : m.num_words ≡ div_round_up m.num_bits bits_in_word
  pub words : All (λ w. w < 2 ^ 32) m.map

abbrev word_of : BitMap → ℕ → ℕ
word_of m i = get_or m.map (i / bits_in_word) 0

-- Bit `i` is set.
unfoldable pub marked : BitMap → ℕ → Bool
marked m i = bit (word_of m i) (i % bits_in_word) == 1

-- `m'` is `m` with bit `i` set to `v`, and nothing else changed.
pub record Writes (m m' : BitMap) (i : ℕ) (v : Bool) : Type 0 where
  pub valid : IsValid m'
  pub same_size : m'.num_bits ≡ m.num_bits
  pub reads : (j : ℕ) → marked m' j ≡ (if i == j then v else marked m j)

digit_test : (b p : ℕ) → b < 2 → 0 < p → not (b * p == 0) ≡ (b == 1)
digit_test zero p lt h = ground arith
digit_test (suc zero) p lt h = ground arith
digit_test (suc (suc b)) p lt h = absurd (omega arith)

-- The digits of a word in which one was set, and of one in which it was cleared.
bit_set : (w k j : ℕ) → (bit (bit_or w (2 ^ k)) j == 1) ≡ (if k == j then true else bit w j == 1)
bit_set w k j = ground (arith, bit-bit_or w (2 ^ k) j, bit-pow k j, bit-lt w j)

bit_cleared :
    (w k j : ℕ)
    → k < 32
    → j < 32
    → (bit (bit_and w (2 ^ 32 - 1 - 2 ^ k)) j == 1) ≡ (if k == j then false else bit w j == 1)
bit_cleared w k j h lt = ground (
  arith,
  bit-bit_and w (2 ^ 32 - 1 - 2 ^ k) j,
  bit-complement 32 (2 ^ k) j (pow-lt k 32 h) lt,
  bit-pow k j,
  bit-lt w j,
)

module _ (m : BitMap) (v : IsValid m) (i : ℕ) (h : i < m.num_bits) where
  in_words : i / 32 < length m.map
  in_words = ground (arith, v.sized)

  pub test_lem : test (pos i) m ≡ ok (marked m i)
  unfolding test marked
  test_lem =
      rw
        (
          lt→ltb _ _ h,
          get_elem?-eq-get_or m.map (i / 32) 0 in_words,
          bit_and-pow (word_of m i) (i % 32),
        )
        (ap ok
          (digit_test _ _ (bit-lt (word_of m i) (i % 32)) (one-le-pow (i % 32) 2 (omega arith))))

  written : ℕ → BitMap
  written w = record m { map = set m.map (i / bits_in_word) w }

  written-IsValid : (w : ℕ) → w < 2 ^ 32 → IsValid (written w)
  unfolding written
  written-IsValid w lt = record {
    sized = length-set m.map (i / 32) w ∙ v.sized;
    counted = v.counted;
    words = All-set (λ w. w < 2 ^ 32) m.map (i / 32) w lt v.words;
  }

  written-reads :
      (w : ℕ) (b : Bool)
      → ((j : ℕ) → j < 32 → (bit w j == 1) ≡ (if i % 32 == j then b else bit (word_of m i) j == 1))
      → (j : ℕ) → marked (written w) j ≡ (if i == j then b else marked m j)
  unfolding marked written
  written-reads w b e j = elim (ℕ_discrete (i / 32) (j / 32)) [
    | yes same ↦
        rw (← same, get_or-set_self m.map (i / 32) w 0 in_words)
          (rw (e (j % 32) (omega arith)) (ground arith))
    | no other ↦ rw (get_or-set_ne m.map (i / 32) (j / 32) w 0 other) (ground arith)
  ]

  word_of-lt : word_of m i < 2 ^ 32
  word_of-lt = All-get_or (λ w. w < 2 ^ 32) m.map (i / 32) 0 (omega arith) v.words

  written-Writes :
      (w : ℕ) (b : Bool)
      → w < 2 ^ 32
      → ((j : ℕ) → j < 32 → (bit w j == 1) ≡ (if i % 32 == j then b else bit (word_of m i) j == 1))
      → Writes m (written w) i b
  unfolding written
  written-Writes w b lt e = record {
    valid = written-IsValid w lt;
    same_size = refl;
    reads = written-reads w b e;
  }

  -- On a valid bitmap, `Mark` of an index in range succeeds, and sets that bit and no other.
  pub mark_lem : (m' : BitMap) × (mark (pos i) m ≡ ok m') × Writes m m' i true
  unfolding mark
  mark_lem =
      let w = bit_or (word_of m i) (2 ^ (i % 32)) in
      (
        written w,
        unfold written in rw (lt→ltb _ _ h, get_elem?-eq-get_or m.map (i / 32) 0 in_words) refl,
        written-Writes w true
            (bit_or-lt 32 (word_of m i) (2 ^ (i % 32)) word_of-lt
              (pow-lt (i % 32) 32 (omega arith)))
            (λ j _. bit_set (word_of m i) (i % 32) j),
      )

  -- On a valid bitmap, `Clear` of an index in range succeeds, and clears that bit and no other.
  pub clear_lem : (m' : BitMap) × (clear (pos i) m ≡ ok m') × Writes m m' i false
  unfolding clear
  clear_lem =
      let w = bit_and (word_of m i) (2 ^ 32 - 1 - 2 ^ (i % 32)) in
      (
        written w,
        unfold written in rw (lt→ltb _ _ h, get_elem?-eq-get_or m.map (i / 32) 0 in_words) refl,
        written-Writes w false
            (bit_and-lt 32 (word_of m i) (2 ^ 32 - 1 - 2 ^ (i % 32)) word_of-lt (omega arith))
            (λ j lt. bit_cleared (word_of m i) (i % 32) j (omega arith) lt),
      )

-- An index out of range, or below zero, ends the program at the ASSERT.
pub test_out : (m : BitMap) (i : ℕ) → m.num_bits ≤ i → test (pos i) m ≡ err assert_failed
unfolding test
test_out m i h = rw (le→ltb _ _ h)
