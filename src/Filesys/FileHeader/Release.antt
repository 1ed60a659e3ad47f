-- ===== src/Filesys/FileHeader/Release.antt =====
-- `Deallocate` on a file whose sectors are consecutive.
use op_prac.Base.{
  ℕ, zero, suc, ◌+◌, ◌-◌, ◌*◌, ◌/◌, ◌≤◌, ◌<◌, ◌≡◌, refl, sym, ap, subst, ◌∙◌, Bool, true, false,
  some, List, arith, dec_le, ok, leb, tests, get_elem?,
}
use op_prac.Base.Int.{ℤ, pos}
use op_prac.Userprog.Bitmap.{BitMap, test, clear}
use op_prac.Userprog.Bitmap.View.{IsValid, marked, Writes, test_lem, clear_lem}
use op_prac.Userprog.Bitmap.Loops.{in_run, WritesRun, WritesRun-none, WritesRun-step}
use op_prac.Filesys.SynchDisk.{num_sectors}
use op_prac.Filesys.SectorStore.{SectorStore}
use op_prac.Filesys.FileHeader.{
  FileHeader, clear_each, dealloc_indexed, deallocate, share, num_direct,
}
use op_prac.Filesys.FileHeader.Consecutive.{Indexed, round_up_lem}
use op_prac.Filesys.FileHeader.Layout.{LaidOut, total_sectors}

abbrev RunMarked : BitMap → ℕ → ℕ → Type 0
RunMarked m b n = (j : ℕ) → in_run b n j ≡ true → marked m j ≡ true

clear_each_lem :
    (n i b : ℕ) (xs : List ℤ) (m : BitMap)
    → IsValid m
    → b + n ≤ m.num_bits
    → RunMarked m b n
    → ((j : ℕ) → j < n → get_elem? xs (i + j) ≡ some (pos (b + j)))
    → (m' : BitMap) × (clear_each n i xs m ≡ ok m') × WritesRun m m' b n false
unfolding clear_each
clear_each_lem zero i b xs m v fits all at = (m, refl, WritesRun-none m b false v)
clear_each_lem (suc n) i b xs m v fits all at =
    let (m', e, one) = clear_lem m v b (omega arith) in
    let (m'', e', rest) =
      clear_each_lem n (i + 1) (b + 1) xs m' one.valid (omega (arith, one.same_size))
        (λ j h. one.reads j ∙ ground (arith, all j (ground arith)))
        (λ j h.
          ap (get_elem? xs) (let p : i + 1 + j ≡ i + (1 + j) = omega arith in p)
          ∙ at (1 + j) (omega arith)
          ∙ ap (λ c. some (pos c)) (omega arith)) in
    let here : get_elem? xs i ≡ some (pos b) =
      ap (get_elem? xs) (let p : i ≡ i + 0 = omega arith in p)
      ∙ at 0 (omega arith)
      ∙ ap (λ c. some (pos c)) (omega arith) in
    (
      m'',
      rw (here, test_lem m v b (omega arith), all b (ground arith), e, e') refl,
      WritesRun-step m m' b n false one rest,
    )

-- A run, the bit before it and a run behind it make one run.
WritesRun-join :
    (m m₁ m₂ m₃ : BitMap) (b n k : ℕ) (v : Bool)
    → WritesRun m m₁ (b + 1) n v
    → Writes m₁ m₂ b v
    → WritesRun m₂ m₃ (b + 1 + n) k v
    → WritesRun m m₃ b (1 + n + k) v
WritesRun-join m m₁ m₂ m₃ b n k v first one last = record {
  valid = last.valid;
  same_size = last.same_size ∙ one.same_size ∙ first.same_size;
  reads = λ j. ground (arith, last.reads j, one.reads j, first.reads j);
}

-- Two runs, one behind the other, make one run.
WritesRun-append :
    (m m₁ m₂ : BitMap) (b n k : ℕ) (v : Bool)
    → WritesRun m m₁ b n v
    → WritesRun m₁ m₂ (b + n) k v
    → WritesRun m m₂ b (n + k) v
WritesRun-append m m₁ m₂ b n k v first last = record {
  valid = last.valid;
  same_size = last.same_size ∙ first.same_size;
  reads = λ j. ground (arith, last.reads j, first.reads j);
}

RunMarked-rest :
    (m m₁ m₂ : BitMap) (b n k : ℕ)
    → RunMarked m b (1 + n + k)
    → WritesRun m m₁ (b + 1) n false
    → Writes m₁ m₂ b false
    → RunMarked m₂ (b + 1 + n) k
RunMarked-rest m m₁ m₂ b n k all first one j h =
    one.reads j ∙ ground (arith, first.reads j, all j (ground arith))

-- The sectors that `left` sectors behind the direct ones take, index sectors included.
pub used : ℕ → ℕ
used left = left + (left + 31) / 32

used-zero : used 0 ≡ 0
unfolding used
used-zero = refl

share-le : (left : ℕ) → (share left ≤ left) × (share left ≤ 32)
share-le left = ground arith

share-full : (left : ℕ) → 0 < left - share left → share left ≡ 32
share-full left h = ground arith

used_step : (left : ℕ) → used (suc left) ≡ 1 + share (suc left) + used (suc left - share (suc left))
unfolding used
used_step left = ground arith

total_small : (n : ℕ) → n ≤ num_direct → total_sectors n ≡ n
unfolding total_sectors
total_small n h = omega (arith, round_up_lem (n - num_direct))

total_large : (n : ℕ) → ¬ (n ≤ num_direct) → total_sectors n ≡ num_direct + used (n - num_direct)
unfolding used total_sectors
total_large n h = omega (arith, round_up_lem (n - num_direct))

share-pos : (left : ℕ) → 1 ≤ share (suc left)
share-pos left = ground arith

share-fits : (left j : ℕ) → j < share left → (j < 32) × (32 * 0 + j < left)
share-fits left j h = let (a, c) = share-le left in omega (arith)

module _ {S : Type 0} (store : SectorStore S) where
  open store use {IsGood, contents, read, read_lem}

  Indexed-first :
      (xs : List ℤ) (st : S) (i b left : ℕ)
      → Indexed store xs st i b left
      → (j : ℕ) → j < share left
      → get_elem? (contents st b) (0 + j) ≡ some (pos (b + 1 + j))
  Indexed-first xs st i b left laid j h =
      let (small, within) = share-fits left j h in
      ap (get_elem? (contents st b)) (let p : 0 + j ≡ j = omega arith in p)
      ∙ ap (λ c. get_elem? (contents st c) j) (let p : b ≡ b + 33 * 0 = omega arith in p)
      ∙ laid.address_at 0 j small within
      ∙ ap (λ c. some (pos c)) (omega arith)

  Indexed-rest :
      (xs : List ℤ) (st st' : S) (i b left : ℕ)
      → Indexed store xs st i b left
      → ((s : ℕ) → contents st' s ≡ contents st s)
      → Indexed store xs st' (i + 1) (b + 1 + share left) (left - share left)
  Indexed-rest xs st st' i b left laid same = record {
    index_at = λ d h.
        let full = share-full left (omega arith) in
        ap (get_elem? xs)
          (let p : num_direct + (i + 1) + d ≡ num_direct + i + (d + 1) = omega arith in p)
        ∙ laid.index_at (d + 1) (omega (arith, full))
        ∙ ap (λ c. some (pos c)) (omega (arith, full));
    address_at = λ d j lt h.
        let full = share-full left (omega arith) in
        ap (λ c. get_elem? (contents st' c) j)
          (let p : b + 1 + share left + 33 * d ≡ b + 33 * (d + 1) = omega (arith, full) in p)
        ∙ ap (λ c. get_elem? c j) (same (b + 33 * (d + 1)))
        ∙ laid.address_at (d + 1) j lt (omega (arith, full))
        ∙ ap (λ c. some (pos c)) (omega (arith, full));
  }

  Indexed-here :
      (xs : List ℤ) (st : S) (i b left : ℕ)
      → Indexed store xs st i b (suc left)
      → get_elem? xs (num_direct + i) ≡ some (pos b)
  Indexed-here xs st i b left laid =
      ap (get_elem? xs) (let p : num_direct + i ≡ num_direct + i + 0 = omega arith in p)
      ∙ laid.index_at 0 (omega arith)
      ∙ ap (λ c. some (pos c)) (omega arith)

  dealloc_round :
      (now fuel i left b : ℕ) (xs addresses : List ℤ) (m m₁ m₂ : BitMap) (st st₁ : S)
      → get_elem? xs (num_direct + i) ≡ some (pos b)
      → read (pos b) now st ≡ ok (some addresses, st₁)
      → clear_each (share (suc left)) 0 addresses m ≡ ok m₁
      → test (pos b) m₁ ≡ ok true
      → clear (pos b) m₁ ≡ ok m₂
      → dealloc_indexed store now (suc fuel) i (suc left) xs m st
        ≡ dealloc_indexed store now fuel (i + 1) (suc left - share (suc left)) xs m₂ st₁
  unfolding dealloc_indexed
  dealloc_round now fuel i left b xs addresses m m₁ m₂ st st₁ at reads clears tests clears' =
      rw (at, reads, clears, tests, clears') refl

  dealloc_indexed_lem :
      (now fuel i left b : ℕ) (xs : List ℤ) (m : BitMap) (st : S)
      → left ≤ fuel
      → IsValid m
      → b + used left ≤ m.num_bits
      → m.num_bits ≤ num_sectors
      → RunMarked m b (used left)
      → Indexed store xs st i b left
      → IsGood st
      → (m' : BitMap) × (st' : S) × (dealloc_indexed store now fuel i left xs m st ≡ ok (m', st'))
        × WritesRun m m' b (used left) false
        × IsGood st'
  unfolding dealloc_indexed
  dealloc_indexed_lem now fuel i zero b xs m st f v fits disk all laid good = (
    m,
    st,
    refl,
    subst (λ c. WritesRun m m b c false) (sym used-zero) (WritesRun-none m b false v),
    good,
  )
  dealloc_indexed_lem now zero i (suc left) b xs m st f v fits disk all laid good =
      absurd (omega arith)
  dealloc_indexed_lem now (suc fuel) i (suc left) b xs m st f v fits disk all laid good =
      let n = share (suc left) in
      let rest = suc left - n in
      let sum = used_step left in
      let some_share = share-pos left in
      let all' = subst (RunMarked m b) sum all in
      let (st₁, e₁, good₁, same) = read_lem st b now good (omega (arith, sum)) in
      let (m₁, e₂, first) =
        clear_each_lem n 0 (b + 1) (contents st b) m v (omega (arith, sum))
          (λ j h. all' j (ground arith)) (Indexed-first xs st i b (suc left) laid) in
      let (m₂, e₃, one) = clear_lem m₁ first.valid b (omega (arith, sum, first.same_size)) in
      let (m₃, st₃, e₄, last, good₃) =
        dealloc_indexed_lem now fuel (i + 1) rest (b + 1 + n) xs m₂ st₁ (omega arith) one.valid
          (omega (arith, sum, first.same_size, one.same_size))
          (omega (arith, first.same_size, one.same_size))
          (RunMarked-rest m m₁ m₂ b n (used rest) all' first one)
          (Indexed-rest xs st st₁ i b (suc left) laid same) good₁ in
      (
        m₃,
        st₃,
        dealloc_round now fuel i left b xs (contents st b) m m₁ m₂ st st₁
              (Indexed-here xs st i b left laid) e₁ e₂
              (test_lem m₁ first.valid b (omega (arith, sum, first.same_size))
                ∙ ap ok (first.reads b ∙ ground (arith, all' b (ground arith))))
              e₃
            ∙ e₄,
        subst (λ c. WritesRun m m₃ b c false) (sym sum)
            (WritesRun-join m m₁ m₂ m₃ b n (used rest) false first one last),
        good₃,
      )

  deallocate_small :
      (now : ℕ) (hdr : FileHeader) (m m' : BitMap) (st : S)
      → leb hdr.num_sectors num_direct ≡ true
      → clear_each hdr.num_sectors 0 hdr.data_sectors m ≡ ok m'
      → deallocate store now hdr m st ≡ ok (m', st)
  unfolding deallocate
  deallocate_small now hdr m m' st small clears = rw (small, clears) refl

  deallocate_large :
      (now : ℕ) (hdr : FileHeader) (m m' : BitMap) (st : S)
      → leb hdr.num_sectors num_direct ≡ false
      → clear_each num_direct 0 hdr.data_sectors m ≡ ok m'
      → deallocate store now hdr m st
        ≡ dealloc_indexed store now
            (hdr.num_sectors - num_direct)
            0
            (hdr.num_sectors - num_direct)
            hdr.data_sectors
            m'
            st
  unfolding deallocate
  deallocate_large now hdr m m' st large clears = rw (large, clears) refl

  -- `Deallocate` on a file whose sectors lie from `b` on, all of them set in the bitmap, clears
  -- those bits and the bits of the index sectors, and no others.
  pub deallocate-LaidOut :
      (now b : ℕ) (hdr : FileHeader) (m : BitMap) (st : S)
      → LaidOut store hdr st b hdr.num_sectors
      → IsValid m
      → b + total_sectors hdr.num_sectors ≤ m.num_bits
      → m.num_bits ≤ num_sectors
      → ((j : ℕ) → in_run b (total_sectors hdr.num_sectors) j ≡ true → marked m j ≡ true)
      → IsGood st
      → (m' : BitMap) × (st' : S) × (deallocate store now hdr m st ≡ ok (m', st'))
        × WritesRun m m' b (total_sectors hdr.num_sectors) false
        × IsGood st'
  deallocate-LaidOut now b hdr m st laid v fits disk all good =
      let n = hdr.num_sectors in
      elim (dec_le n num_direct) [
        | yes small ↦
            let same = total_small n small in
            let (m', e, w) =
              clear_each_lem n 0 b hdr.data_sectors m v (omega (arith, same))
                (subst (RunMarked m b) same all)
                (λ j h.
                  laid.direct_at (0 + j) (omega arith) (omega arith)
                  ∙ ap (λ c. some (pos c)) (omega arith)) in
            (
              m',
              st,
              deallocate_small now hdr m m' st (ground arith) e,
              subst (λ c. WritesRun m m' b c false) (sym same) w,
              good,
            )
        | no large ↦
            let left = n - num_direct in
            let sum = total_large n large in
            let all' = subst (RunMarked m b) sum all in
            let (m₁, e, w) =
              clear_each_lem num_direct 0 b hdr.data_sectors m v (omega (arith, sum))
                (λ j h. all' j (ground arith))
                (λ j h.
                  laid.direct_at (0 + j) (omega arith) (omega arith)
                  ∙ ap (λ c. some (pos c)) (omega arith)) in
            let (m₂, st₂, e', w', good₂) =
              dealloc_indexed_lem now left 0 left (b + num_direct) hdr.data_sectors m₁ st
                (omega arith) w.valid (omega (arith, sum, w.same_size)) (omega (arith, w.same_size))
                (λ j h. w.reads j ∙ ground (arith, all' j (ground arith))) laid.indexed good in
            (
              m₂,
              st₂,
              deallocate_large now hdr m m₁ st (ground arith) e ∙ e',
              subst (λ c. WritesRun m m₂ b c false) (sym sum)
                  (WritesRun-append m m₁ m₂ b num_direct (used left) false w w'),
              good₂,
            )
      ]
