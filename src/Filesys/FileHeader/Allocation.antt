-- ===== src/Filesys/FileHeader/Allocation.antt =====
-- `Allocate` where the bitmap has a run that is long enough: the count of clear bits behind a run,
-- and the layout that comes of it.
use op_prac.Base.{
  ℕ, zero, suc, ◌+◌, ◌-◌, ◌*◌, ◌≤◌, ◌<◌, ◌≡◌, refl, ap, ◌∙◌, true, false, some, List, arith, dec_le,
  ok, leb, lt→ltb, le→ltb, length, get_elem?,
}
use op_prac.Base.Int.{ℤ, pos}
use op_prac.Userprog.Bitmap.{BitMap, div_round_up, num_clear}
use op_prac.Userprog.Bitmap.View.{IsValid, marked}
use op_prac.Userprog.Bitmap.Loops.{WritesRun, clear_count, num_clear_lem}
use op_prac.Userprog.Bitmap.Runs.{run_clear, FindsRun, run, absent, aborted, find_n-FindsRun}
use op_prac.Userprog.Bitmap.Count.{run_clear-marked, count_run}
use op_prac.Filesys.SynchDisk.{num_sectors}
use op_prac.Filesys.SectorStore.{SectorStore}
use op_prac.Filesys.FileHeader.{
  FileHeader, assign_sectors, allocate, wanted, sector_size, num_direct, num_second_index,
  second_direct, max_file_size,
}
use op_prac.Filesys.FileHeader.Consecutive.{Indexed, alloc_direct_lem, alloc_indexed_lem}
use op_prac.Filesys.FileHeader.Layout.{LaidOut, total_sectors}

-- The file fits in the header, in the run that `FindN` is asked for, and in what is left when that
-- run is set.
pub record HasRoom (junk : ℤ) (file_size total : ℕ) (m : BitMap) : Type 0 where
  pub not_large : file_size ≤ max_file_size
  pub asks : wanted junk (div_round_up file_size sector_size) ≡ pos total
  pub enough : total_sectors (div_round_up file_size sector_size) ≤ total
  pub some_total : 0 < total
  pub run_at : (j : ℕ) × (j + total ≤ m.num_bits) × (run_clear m j total ≡ true)
  pub left : div_round_up file_size sector_size + total ≤ clear_count m m.num_bits

-- A run of clear bits does not begin at a bit that is set.
run_start-pos : (m : BitMap) (n b : ℕ) → marked m 0 ≡ true → 0 < n → run_clear m b n ≡ true → 0 < b
run_start-pos m n zero e h c =
    let first_clear = run_clear-marked m n 0 0 c (ground arith) in absurd (cc)
run_start-pos m n (suc b) e h c = omega arith

pub count_after :
    (m m' : BitMap) (b n : ℕ)
    → IsValid m
    → b + n ≤ m.num_bits
    → run_clear m b n ≡ true
    → WritesRun m m' b n true
    → (k : ℕ) × (num_clear m' ≡ ok k) × (k + n ≡ clear_count m m.num_bits)
count_after m m' b n v h c w = (
  clear_count m' m.num_bits,
  num_clear_lem m' w.valid ∙ ap (λ k. ok (clear_count m' k)) w.same_size,
  ground (arith, count_run m m' b n m.num_bits c w),
)

module _ {S : Type 0} (store : SectorStore S) where
  open store use {IsGood, contents}

  assign_sectors_lem :
      (memory : List ℤ) (now n b : ℕ) (hdr : FileHeader) (free_map : BitMap) (st : S)
      → n ≤ num_direct + num_second_index * second_direct
      → length hdr.data_sectors ≡ num_direct + num_second_index
      → b + total_sectors n ≤ num_sectors
      → IsGood st
      → (xs : List ℤ) × (st' : S) × (assign_sectors store memory now n true b hdr.data_sectors
            free_map st
          ≡ ok (xs, free_map, st'))
        × (length xs ≡ num_direct + num_second_index)
        × IsGood st'
        × ((s : ℕ) → s < b → contents st' s ≡ contents st s)
        × ((k : ℕ) → k < num_direct → k < n → get_elem? xs k ≡ some (pos (b + k)))
        × Indexed store xs st' 0 (b + num_direct) (n - num_direct)
  unfolding assign_sectors total_sectors
  assign_sectors_lem memory now n b hdr free_map st fits size room good =
      elim (dec_le n num_direct) [
        | yes small ↦
            let (xs, e, size', at) =
              alloc_direct_lem n 0 b hdr.data_sectors free_map (omega (arith, size)) in
            (
              xs,
              st,
              let is_small : leb n num_direct ≡ true = ground arith in rw (is_small, e) refl,
              size' ∙ size,
              good,
              (λ s h. refl),
              (λ k h lt. at k ∙ ground arith),
              record {
                index_at = λ d h. absurd (omega arith);
                address_at = λ d j lt h. absurd (omega arith);
              },
            )
        | no large ↦
            let (xs, e, size', at) =
              alloc_direct_lem num_direct 0 b hdr.data_sectors free_map (omega (arith, size)) in
            let (xs', st', e', size'', good', before, below, laid) =
              alloc_indexed_lem store memory now (n - num_direct) 0 (n - num_direct)
                (b + num_direct) xs free_map st (omega arith) (omega arith) (size' ∙ size)
                (omega (arith, room)) good in
            (
              xs',
              st',
              (let is_large : leb n num_direct ≡ false = ground arith in rw (is_large, e, e') refl),
              size'',
              good',
              (λ s h. below s (omega arith)),
              (λ k h lt. before k (omega arith) ∙ (at k ∙ ground arith)),
              laid,
            )
      ]

  -- `FindN` chose the run of `total` sectors at `b`, and `Allocate` uses it up from its start.
  pub record Allocated (memory : List ℤ) (junk : ℤ) (now file_size total : ℕ) (hdr : FileHeader)
      (m : BitMap) (st : S) : Type 0 where
    pub start : ℕ
    pub after : FileHeader
    pub free_map : BitMap
    pub disk : S
    pub returns :
        allocate store memory junk now file_size hdr m st ≡ ok (true, after, free_map, disk)
    pub first : (0 < start) × (start + total ≤ m.num_bits)
    pub was_clear : run_clear m start total ≡ true
    pub none_before : (j : ℕ) → j < start → run_clear m j total ≡ false
    pub taken : WritesRun m free_map start total true
    pub counts :
        (after.num_bytes ≡ file_size) × (after.num_sectors ≡ div_round_up file_size sector_size)
    pub laid : LaidOut store after disk start (div_round_up file_size sector_size)
    pub good : IsGood disk

  -- On a valid bitmap with bit 0 set, for a file that `HasRoom` with a clear run of the length asked
  -- for, `Allocate` returns TRUE: its first clear run is set, nothing else changes in the bitmap, and
  -- the header and its index sectors lay the file out from the start of that run.
  pub allocate-Allocated :
      (memory : List ℤ) (junk : ℤ) (now file_size total : ℕ) (hdr : FileHeader) (m : BitMap)
      (st : S)
      → IsValid m
      → m.num_bits ≤ num_sectors
      → marked m 0 ≡ true
      → HasRoom junk file_size total m
      → length hdr.data_sectors ≡ num_direct + num_second_index
      → IsGood st
      → Allocated memory junk now file_size total hdr m st
  unfolding allocate
  allocate-Allocated memory junk now file_size total hdr m st v in_disk zeroth room size good =
      go (find_n-FindsRun m total v)
    where
      n : ℕ
      n = div_round_up file_size sector_size

      small : n ≤ num_direct + num_second_index * second_direct
      small = ground (arith, room.not_large)

      go : FindsRun m total → Allocated memory junk now file_size total hdr m st
      go (absent none_at e) =
          let (j, fits, clear) = room.run_at in
          let none_here = (none_at j (omega (arith, room.some_total))).1 in absurd (cc)
      go (aborted two none_at e) =
          let (j, fits, clear) = room.run_at in let none_here = none_at j fits in absurd (cc)
      go (run b m' fits clear below e w) =
          let b_pos = run_start-pos m total b zeroth room.some_total clear in
          let (k, counted, count) = count_after m m' b total v fits clear w in
          let (xs, st', assigned, size', good', rest, direct, indexed) =
            assign_sectors_lem memory now n b hdr m' st small size (omega (arith, room.enough))
              good in
          record {
            start = b;
            after = record hdr { num_bytes = file_size; num_sectors = n; data_sectors = xs };
            free_map = m';
            disk = st';
            returns =
                rw
                  (
                    room.asks,
                    e,
                    counted,
                    le→ltb k n (omega (arith, room.left)),
                    le→ltb max_file_size file_size room.not_large,
                    lt→ltb 0 b b_pos,
                    assigned,
                  )
                  refl;
            first = (b_pos, fits);
            was_clear = clear;
            none_before = below;
            taken = w;
            counts = (refl, refl);
            laid = record { direct_at = direct; indexed = indexed };
            good = good';
          }
