-- ===== src/Filesys/FileHeader/RoundTrip.antt =====
-- `Allocate`, then `ByteToSector` and `Deallocate` on the header that it made.
use op_prac.Base.{
  ℕ, ◌+◌, ◌/◌, ◌≤◌, ◌<◌, ◌≡◌, sym, ap, subst, ◌∙◌, ◌≢◌, true, false, List, arith, ok, length,
}
use op_prac.Base.Int.{ℤ, pos}
use op_prac.Userprog.Bitmap.{BitMap, div_round_up}
use op_prac.Userprog.Bitmap.View.{IsValid, marked}
use op_prac.Userprog.Bitmap.Loops.{WritesRun}
use op_prac.Userprog.Bitmap.Runs.{run_clear}
use op_prac.Userprog.Bitmap.Count.{run_clear-marked, run_undone}
use op_prac.Filesys.SynchDisk.{num_sectors}
use op_prac.Filesys.SectorStore.{SectorStore}
use op_prac.Filesys.FileHeader.{
  FileHeader, allocate, deallocate, byte_to_sector, sector_size, num_direct, num_second_index,
}
use op_prac.Filesys.FileHeader.Layout.{
  LaidOut, total_sectors, sector_at_ne, sector_at, sector_at-lt, byte_to_sector-LaidOut,
}
use op_prac.Filesys.FileHeader.Allocation.{HasRoom, allocate-Allocated}
use op_prac.Filesys.FileHeader.Release.{deallocate-LaidOut}

module _ {S : Type 0} (store : SectorStore S) where
  open store use {IsGood}

  -- Where `FindN` is asked for just the sectors that the file takes, `Deallocate` undoes what
  -- `Allocate` did: every bit of the bitmap reads as before.
  pub deallocate-allocate :
      (memory : List ℤ) (junk : ℤ) (now file_size : ℕ) (hdr : FileHeader) (m : BitMap) (st : S)
      → IsValid m
      → m.num_bits ≤ num_sectors
      → marked m 0 ≡ true
      → HasRoom junk file_size (total_sectors (div_round_up file_size sector_size)) m
      → length hdr.data_sectors ≡ num_direct + num_second_index
      → IsGood st
      → (hdr' : FileHeader) × (m' m'' : BitMap) × (st' st'' : S) × (allocate store memory junk now
            file_size hdr m st
          ≡ ok (true, hdr', m', st'))
        × (deallocate store now hdr' m' st' ≡ ok (m'', st''))
        × ((j : ℕ) → marked m'' j ≡ marked m j)
  deallocate-allocate memory junk now file_size hdr m st v in_disk zeroth room size good =
      let total = total_sectors (div_round_up file_size sector_size) in
      let a =
        allocate-Allocated store memory junk now file_size total hdr m st v in_disk zeroth room size
          good in
      let same : total_sectors a.after.num_sectors ≡ total = ap total_sectors a.counts.1 in
      let (m'', st'', e, w, good') =
        deallocate-LaidOut store now a.start a.after a.free_map a.disk
          (subst (LaidOut store a.after a.disk a.start) (sym a.counts.1) a.laid) a.taken.valid
          (omega (arith, same, a.first.1, a.taken.same_size)) (omega (arith, a.taken.same_size))
          (λ j h. a.taken.reads j ∙ ground (arith, same)) a.good in
      (
        a.after,
        a.free_map,
        m'',
        a.disk,
        st'',
        a.returns,
        e,
        run_undone m a.free_map m'' a.start total a.was_clear a.taken
            (subst (λ c. WritesRun a.free_map m'' a.start c false) same w),
      )

  -- A file for which `Allocate` has room can be addressed by byte: `Allocate` takes the first clear run
  -- of the length that it asks for, and `ByteToSector` on the header that it made finds every offset
  -- in the file at the sector of that run that the layout gives it, which was clear in the bitmap
  -- and is set now; offsets in different sectors of the file are at different sectors of the disk.
  pub byte_to_sector-allocate :
      (memory : List ℤ) (junk : ℤ) (now file_size total : ℕ) (hdr : FileHeader) (m : BitMap)
      (st : S)
      → IsValid m
      → m.num_bits ≤ num_sectors
      → marked m 0 ≡ true
      → HasRoom junk file_size total m
      → length hdr.data_sectors ≡ num_direct + num_second_index
      → IsGood st
      → (start : ℕ) × (hdr' : FileHeader) × (m' : BitMap) × (st' : S) × (allocate store memory junk
            now file_size hdr m st
          ≡ ok (true, hdr', m', st'))
        × (run_clear m start total ≡ true)
        × ((j : ℕ) → j < start → run_clear m j total ≡ false)
        × ((offset : ℕ)
            → offset < file_size
            → ((st'' : S) × (byte_to_sector store now offset hdr' st'
                  ≡ ok (pos (start + sector_at (offset / sector_size)), st'')))
              × (marked m (start + sector_at (offset / sector_size)) ≡ false)
              × (marked m' (start + sector_at (offset / sector_size)) ≡ true))
        × ((k l : ℕ) → k ≢ l → start + sector_at k ≢ start + sector_at l)
  byte_to_sector-allocate memory junk now file_size total hdr m st v in_disk zeroth room size good =
      let n = div_round_up file_size sector_size in
      let a =
        allocate-Allocated store memory junk now file_size total hdr m st v in_disk zeroth room size
          good in
      (
        a.start,
        a.after,
        a.free_map,
        a.disk,
        a.returns,
        a.was_clear,
        a.none_before,
        (λ offset inside.
            let k = offset / sector_size in
            let within : k < n = ground (arith, inside) in
            let bound = sector_at-lt k n within in
            let (st'', e, _, _) =
              byte_to_sector-LaidOut store now offset a.start n a.after a.disk a.laid a.good within
                (omega (arith, bound, room.enough, a.first.1)) in
            (
              (st'', e),
              run_clear-marked m total a.start (a.start + sector_at k) a.was_clear
                  (ground (arith, bound, room.enough)),
              a.taken.reads (a.start + sector_at k) ∙ ground (arith, bound, room.enough),
            )),
        (λ k l ne e. sector_at_ne k l ne (omega (arith, e))),
      )
