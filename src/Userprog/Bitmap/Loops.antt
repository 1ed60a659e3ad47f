-- ===== src/Userprog/Bitmap/Loops.antt =====
-- The loops of the bitmap: the constructor, `Find` and `NumClear`, against the set of indices.
use native.Mathlib.Numerals.{add-one}
use op_prac.Base.{
  ℕ, zero, suc, ◌+◌, ◌≤◌, ◌<◌, ◌≡◌, refl, ◌⊎◌, inl, inr, ap, ◌∙◌, Bool, true, false, ◌&&◌, List,
  arith, ok, ltb, leb, if◌then◌else◌, ℕ_discrete, Bool-cases, length, All, ◌^◌,
}
use op_prac.Base.Int.{pos, minus_one}
use op_prac.Userprog.Bitmap.{
  BitMap, bits_in_word, div_round_up, clear, clear_from, new_bit_map, find_from, find,
  num_clear_from, num_clear,
}
use op_prac.Userprog.Bitmap.View.{IsValid, Writes, marked, test_lem, mark_lem, clear_lem}

-- `j` is one of the `n` indices from `i` on.
abbrev pub in_run : ℕ → ℕ → ℕ → Bool
in_run i n j = leb i j && ltb j (i + n)

-- `m'` is `m` with `n` bits from `i` on set to `v`, and nothing else changed.
pub record WritesRun (m m' : BitMap) (i n : ℕ) (v : Bool) : Type 0 where
  pub valid : IsValid m'
  pub same_size : m'.num_bits ≡ m.num_bits
  pub reads : (j : ℕ) → marked m' j ≡ (if in_run i n j then v else marked m j)

pub WritesRun-none : (m : BitMap) (i : ℕ) (v : Bool) → IsValid m → WritesRun m m i 0 v
WritesRun-none m i v valid = record { valid = valid; same_size = refl; reads = λ j. ground arith }

pub WritesRun-step :
    (m m' : BitMap) {m'' : BitMap} (i n : ℕ) (v : Bool)
    → Writes m m' i v
    → WritesRun m' m'' (i + 1) n v
    → WritesRun m m'' i (suc n) v
WritesRun-step m m' i n v one rest = record {
  valid = rest.valid;
  same_size = rest.same_size ∙ one.same_size;
  reads = λ j. ground (arith, rest.reads j, one.reads j);
}

clear_from_lem :
    (n i : ℕ) (m : BitMap)
    → IsValid m
    → i + n ≤ m.num_bits
    → (m' : BitMap) × (clear_from n i m ≡ ok m') × WritesRun m m' i n false
unfolding clear_from
clear_from_lem zero i m v h = (m, refl, WritesRun-none m i false v)
clear_from_lem (suc n) i m v h =
    let (m', e, one) = clear_lem m v i (omega arith) in
    let (m'', e', rest) = clear_from_lem n (i + 1) m' one.valid (omega (arith, one.same_size)) in
    (m'', rw e e', WritesRun-step m m' i n false one rest)

-- Whatever the memory held, a new bitmap is valid and every one of its bits is clear.
pub new_bit_map-clear :
    (nitems : ℕ) (memory : List ℕ)
    → length memory ≡ div_round_up nitems bits_in_word
    → All (λ w. w < 2 ^ 32) memory
    → (m : BitMap) × (new_bit_map nitems memory ≡ ok m)
      × IsValid m
      × (m.num_bits ≡ nitems)
      × ((j : ℕ) → j < nitems → marked m j ≡ false)
unfolding new_bit_map
new_bit_map-clear nitems memory size words =
    let start : BitMap = record {
      num_bits = nitems;
      num_words = div_round_up nitems bits_in_word;
      map = memory;
    } in
    let (m, e, w) =
      clear_from_lem nitems 0 start (record { sized = size; counted = refl; words = words })
        (omega arith) in
    (m, e, w.valid, w.same_size, λ j h. ground (arith, w.reads j))

-- What `Find` comes to: every bit was set, or the first clear bit `i` is set now.
pub data Finds (m : BitMap) : Type 0 where
  full : ((j : ℕ) → j < m.num_bits → marked m j ≡ true) → find m ≡ ok (minus_one, m) → Finds m
  found :
      (i : ℕ) (m' : BitMap)
      → i < m.num_bits
      → marked m i ≡ false
      → ((j : ℕ) → j < i → marked m j ≡ true)
      → find m ≡ ok (pos i, m')
      → Writes m m' i true
      → Finds m

below_suc :
    (m : BitMap) (i : ℕ)
    → marked m i ≡ true
    → ((j : ℕ) → j < i → marked m j ≡ true)
    → (j : ℕ) → j < i + 1
    → marked m j ≡ true
below_suc m i e h j lt = elim (ℕ_discrete j i) [
  | yes same ↦ rw same e
  | no other ↦ h j (omega arith)
]

find_from_lem :
    (n i : ℕ) (m : BitMap)
    → IsValid m
    → i + n ≡ m.num_bits
    → ((j : ℕ) → j < i → marked m j ≡ true)
    → find m ≡ find_from n i m
    → Finds m
unfolding find_from
find_from_lem zero i m v e below same = full (λ j h. below j (omega arith)) same
find_from_lem (suc n) i m v e below same = elim (Bool-cases (marked m i)) [
  | inl set ↦
      find_from_lem n (i + 1) m v (omega arith) (below_suc m i set below)
        (same ∙ rw (test_lem m v i (omega arith), set) refl)
  | inr clear ↦
      let (m', e', w) = mark_lem m v i (omega arith) in
      found i m' (omega arith) clear below
        (same ∙ rw (test_lem m v i (omega arith), clear, e') refl) w
]

-- `Find` never fails on a valid bitmap: it takes the first clear bit, or reports that none is left.
pub find-Finds : (m : BitMap) → IsValid m → Finds m
unfolding find
find-Finds m v = find_from_lem m.num_bits 0 m v (omega arith) (λ j h. absurd (omega arith)) refl

-- The number of clear bits below `n`.
unfoldable pub clear_count : BitMap → ℕ → ℕ
clear_count m zero = 0
clear_count m (suc n) = clear_count m n + (if marked m n then 0 else 1)

count_step :
    (m : BitMap) (i : ℕ)
    → (if marked m i then clear_count m i else clear_count m i + 1) ≡ clear_count m (i + 1)
unfolding clear_count
count_step m i = rw (add-one i) (ground arith)

num_clear_from_lem :
    (n i : ℕ) (m : BitMap)
    → IsValid m
    → i + n ≤ m.num_bits
    → num_clear_from n i (clear_count m i) m ≡ ok (clear_count m (i + n))
unfolding num_clear_from
num_clear_from_lem zero i m v h = ap (λ k. ok (clear_count m k)) (omega arith)
num_clear_from_lem (suc n) i m v h =
    rw (test_lem m v i (omega arith), count_step m i)
      (num_clear_from_lem n (i + 1) m v (omega arith)
        ∙ ap (λ k. ok (clear_count m k)) (omega arith))

-- On a valid bitmap, `NumClear` returns the number of its clear bits.
pub num_clear_lem : (m : BitMap) → IsValid m → num_clear m ≡ ok (clear_count m m.num_bits)
unfolding num_clear clear_count
num_clear_lem m v =
    num_clear_from_lem m.num_bits 0 m v (omega arith) ∙ ap (λ k. ok (clear_count m k)) (omega arith)

-- Setting a clear bit takes one from the count, wherever the bit is counted.
pub clear_count-Writes :
    (n i : ℕ) (m m' : BitMap)
    → Writes m m' i true
    → marked m i ≡ false
    → clear_count m' n + (if ltb i n then 1 else 0) ≡ clear_count m n
unfolding clear_count
clear_count-Writes zero i m m' w e = ground arith
clear_count-Writes (suc n) i m m' w e = ground (arith, w.reads n, clear_count-Writes n i m m' w e)

pub clear_count-full :
    (n : ℕ) (m : BitMap) → ((j : ℕ) → j < n → marked m j ≡ true) → clear_count m n ≡ 0
unfolding clear_count
clear_count-full zero m h = refl
clear_count-full (suc n) m h =
    ground (arith, h n (omega arith), clear_count-full n m (λ j lt. h j (omega arith)))

-- `Find` reports -1 exactly when `NumClear` is 0 and then changes nothing; any other result is the
-- index of a bit, and the count of clear bits is one less than before.
pub find-clear_count :
    (m : BitMap)
    → IsValid m
    → ((clear_count m m.num_bits ≡ 0) × (find m ≡ ok (minus_one, m)))
      ⊎ ((i : ℕ) × (m' : BitMap) × (find m ≡ ok (pos i, m'))
          × (i < m.num_bits)
          × (clear_count m' m'.num_bits + 1 ≡ clear_count m m.num_bits))
find-clear_count m v = go (find-Finds m v)
  where
    go :
        Finds m
        → ((clear_count m m.num_bits ≡ 0) × (find m ≡ ok (minus_one, m)))
          ⊎ ((i : ℕ) × (m' : BitMap) × (find m ≡ ok (pos i, m'))
              × (i < m.num_bits)
              × (clear_count m' m'.num_bits + 1 ≡ clear_count m m.num_bits))
    go (full all e) = inl (clear_count-full m.num_bits m all, e)
    go (found i m' lt was below e w) =
        inr (
          i,
          m',
          e,
          lt,
          rw w.same_size (ground (arith, clear_count-Writes m.num_bits i m m' w was)),
        )
