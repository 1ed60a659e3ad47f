-- ===== src/Filesys/FileHeader/Refusal.antt =====
-- `Allocate` where it gives no file: too few sectors behind the run that `FindN` took, and no run.
use op_prac.Base.{
  ℕ, ◌+◌, ◌≤◌, ◌<◌, ◌≡◌, refl, true, false, List, arith, assert_failed, ok, err, lt→ltb,
}
use op_prac.Base.Int.{ℤ, pos}
use op_prac.Userprog.Bitmap.{BitMap, div_round_up}
use op_prac.Userprog.Bitmap.View.{IsValid}
use op_prac.Userprog.Bitmap.Loops.{WritesRun, clear_count}
use op_prac.Userprog.Bitmap.Runs.{run_clear, FindsRun, run, absent, aborted, find_n-FindsRun}
use op_prac.Filesys.SectorStore.{SectorStore}
use op_prac.Filesys.FileHeader.Layout.{total_sectors}
use op_prac.Filesys.FileHeader.{max_file_size, FileHeader, allocate, wanted, sector_size}
use op_prac.Filesys.FileHeader.Allocation.{count_after}

module _ {S : Type 0} (store : SectorStore S) where
  -- For a file that the header can take, where `FindN` is asked for enough sectors for the whole file,
  -- index sectors included, and there is such a run, but behind it fewer clear bits than the file has
  -- sectors, `Allocate` returns FALSE, although the run alone would do, and the run stays set in the
  -- bitmap.
  pub allocate-leaks :
      (memory : List ℤ) (junk : ℤ) (now file_size total : ℕ) (hdr : FileHeader) (m : BitMap)
      (st : S)
      → IsValid m
      → wanted junk (div_round_up file_size sector_size) ≡ pos total
      → 0 < total
      → file_size ≤ max_file_size
      → total_sectors (div_round_up file_size sector_size) ≤ total
      → (j : ℕ) × (j + total ≤ m.num_bits) × (run_clear m j total ≡ true)
      → clear_count m m.num_bits < div_round_up file_size sector_size + total
      → (b : ℕ) × (after : FileHeader) × (m' : BitMap) × (allocate store memory junk now file_size
            hdr m st
          ≡ ok (false, after, m', st))
        × (run_clear m b total ≡ true)
        × WritesRun m m' b total true
  unfolding allocate
  allocate-leaks memory junk now file_size total hdr m st v asks some_total small enough run_at
        few =
      go (find_n-FindsRun m total v)
    where
      go :
          FindsRun m total
          → (b : ℕ) × (after : FileHeader) × (m' : BitMap) × (allocate store memory junk now
                file_size hdr m st
              ≡ ok (false, after, m', st))
            × (run_clear m b total ≡ true)
            × WritesRun m m' b total true
      go (absent none_at e) =
          let (j, fits, clear) = run_at in
          let none_here = (none_at j (omega (arith, some_total))).1 in absurd (cc)
      go (aborted two none_at e) =
          let (j, fits, clear) = run_at in let none_here = none_at j fits in absurd (cc)
      go (run b m' fits clear below e w) =
          let (k, counted, count) = count_after m m' b total v fits clear w in
          let n = div_round_up file_size sector_size in
          (
            b,
            record hdr { num_bytes = file_size; num_sectors = n },
            m',
            rw (asks, e, counted, lt→ltb k n (omega (arith, few))) refl,
            clear,
            w,
          )

  -- Where two or more sectors are asked for, no more than the bitmap has, and no run of that length is
  -- clear, `Allocate` does not fall back on single sectors: the program ends at the ASSERT of `Test`.
  pub allocate-aborts :
      (memory : List ℤ) (junk : ℤ) (now file_size total : ℕ) (hdr : FileHeader) (m : BitMap)
      (st : S)
      → IsValid m
      → 2 ≤ total
      → total ≤ m.num_bits
      → wanted junk (div_round_up file_size sector_size) ≡ pos total
      → ((j : ℕ) → j + total ≤ m.num_bits → run_clear m j total ≡ false)
      → allocate store memory junk now file_size hdr m st ≡ err assert_failed
  unfolding allocate
  allocate-aborts memory junk now file_size total hdr m st v two fits asks none_at =
      go (find_n-FindsRun m total v)
    where
      go : FindsRun m total → allocate store memory junk now file_size hdr m st ≡ err assert_failed
      go (absent none_here e) = absurd (omega (arith, (none_here 0 (omega arith)).0))
      go (aborted _ _ e) = rw (asks, e) refl
      go (run b m' within clear below e w) = let none_here = none_at b within in absurd (cc)
