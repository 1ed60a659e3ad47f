-- ===== src/Filesys/OpenFile/Fresh.antt =====
-- A file whose sectors are consecutive, as `Allocate` makes them, is one that can be read and written.
use op_prac.Base.{ℕ, ◌+◌, ◌*◌, ◌≤◌, ◌<◌, ◌≡◌, ap, ◌∙◌, some, arith}
use op_prac.Base.Int.{pos}
use op_prac.Filesys.SynchDisk.{num_sectors}
use op_prac.Filesys.SectorStore.{SectorStore}
use op_prac.Filesys.FileHeader.{sector_size, num_direct}
use op_prac.Filesys.FileHeader.Layout.{sector_at, sector_at-lt, total_sectors, LaidOut}
use op_prac.Filesys.OpenFile.{OpenFile}
use op_prac.Filesys.OpenFile.Sectors.{FileMap, Apart}
use op_prac.Filesys.OpenFile.Edges.{Placed}

abbrev pub run_map : ℕ → FileMap
run_map start = record {
  place = λ k. start + sector_at k;
  index = λ d. start + num_direct + 33 * d;
}

run_map-Apart : (start n : ℕ) → Apart (run_map start) n
unfolding sector_at
run_map-Apart start n = record {
  differ = λ k l h i ne. ground (arith, ne);
  no_index = λ k d h i. ground arith;
}

sector_at_far :
    (d j : ℕ) → j < 32 → sector_at (num_direct + (32 * d + j)) ≡ num_direct + 33 * d + 1 + j
unfolding sector_at
sector_at_far d j h = ground (arith, h)

module _ {S : Type 0} (store : SectorStore S) where
  open store use {IsGood}

  pub LaidOut-Placed :
      (start n : ℕ) (f : OpenFile) (st : S)
      → LaidOut store f.hdr st start n
      → IsGood st
      → start + total_sectors n ≤ num_sectors
      → f.hdr.num_bytes ≤ n * sector_size
      → f.header_sector < start
      → Placed store f (run_map start) n st
  unfolding total_sectors sector_at
  LaidOut-Placed start n f st laid good room fits before = record {
    on = record {
      direct_at =
          λ k h i. laid.direct_at k h i ∙ ap (λ c. some (pos (start + c))) (ground (arith, h));
      index_at = laid.indexed.index_at;
      address_at = λ d j h i.
          laid.indexed.address_at d j h i
          ∙ ap (λ c. some (pos c)) (omega (arith, sector_at_far d j h));
      good = good;
      room = λ k h. omega (arith, room, sector_at-lt k n h);
      index_room = λ d h. omega (arith, room, h);
    };
    fits = fits;
    is_sector = omega (arith, before, room);
    apart = run_map-Apart start n;
    no_data = λ k h. omega (arith, before);
    no_index = λ d h. omega (arith, before);
  }
