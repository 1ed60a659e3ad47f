-- ===== src/Filesys/OpenFile/Tests.antt =====
-- A file of 200 bytes in the sectors 9 and 5, with its header in sector 3, on a cached disk.
use op_prac.Base.{
  ℕ, zero, suc, ◌<◌, ◌≡◌, refl, false, some, List, [], ◌∷◌, arith, ok, ◌==◌, if◌then◌else◌,
  get_elem?, replicate, Gives,
}
use op_prac.Base.Int.{ℤ, pos}
use op_prac.Filesys.SynchDisk.{CacheEntry, SynchDisk, new_synch_disk}
use op_prac.Filesys.SynchDisk.View.{IsCoherent}
use op_prac.Filesys.SynchDisk.Refines.{new_synch_disk-IsCoherent}
use op_prac.Filesys.SectorStore.{synch_disk_store}
use op_prac.Filesys.FileHeader.{FileHeader, num_direct}
use op_prac.Filesys.OpenFile.{OpenFile, read_at, write_at}
use op_prac.Filesys.OpenFile.Sectors.{FileMap, OnDisk}
use op_prac.Filesys.OpenFile.Edges.{Placed}
use op_prac.Filesys.OpenFile.Writes.{Writes, write_at-Writes}
use op_prac.Filesys.OpenFile.Reads.{ReadsIt, read_at-ReadsIt}

abbrev blank : CacheEntry (List ℤ)
blank = record { valid = false; dirty = false; sector = pos 0; lru = 0; contents = [] }

-- Every byte of sector `n` is `n`.
abbrev disk : SynchDisk (List ℤ)
disk = new_synch_disk (λ n. replicate 128 (pos n)) 0 (replicate 8 blank)

disk-IsCoherent : IsCoherent disk
disk-IsCoherent =
    (new_synch_disk-IsCoherent (λ n. replicate 128 (pos n)) 0 (replicate 8 blank) refl).0

abbrev hdr : FileHeader
hdr = record {
  num_bytes = 200;
  num_sectors = 2;
  data_sectors = pos 9 ∷ pos 5 ∷ replicate 9 (pos 0);
}

abbrev file : OpenFile
file = record { hdr = hdr; seek_position = 0; header_sector = 3 }

abbrev places : FileMap
places = record { place = λ k. if k == 0 then 9 else 5; index = λ d. 0 }

abbrev image : FileHeader → List ℤ
image h = pos h.num_bytes ∷ pos h.num_sectors ∷ h.data_sectors

two_direct :
    (k : ℕ) → k < num_direct → k < 2 → get_elem? hdr.data_sectors k ≡ some (pos (places.place k))
two_direct zero _ _ = refl
two_direct (suc zero) _ _ = refl
two_direct (suc (suc k)) _ h = absurd (omega (arith, h))

file-OnDisk : OnDisk synch_disk_store hdr disk places 2
file-OnDisk = record {
  direct_at = two_direct;
  index_at = λ d h. absurd (omega (arith, h));
  address_at = λ d j h k. absurd (omega (arith, k));
  good = disk-IsCoherent;
  room = λ k h. ground (arith, h);
  index_room = λ d h. omega arith;
}

read_at-ReadsIt_example :
    Gives
      (ReadsIt synch_disk_store disk places 126 100 (λ j. pos 0) file)
      (read_at synch_disk_store (λ j. pos 0) image 1 (λ j. pos 0) 100 126 file disk)
read_at-ReadsIt_example =
    read_at-ReadsIt synch_disk_store (λ j. pos 0) image 1 places 2 100 126 (λ j. pos 0) file disk
      file-OnDisk (omega arith) (omega arith)

file-Placed : Placed synch_disk_store file places 2 disk
file-Placed = record {
  on = file-OnDisk;
  fits = omega arith;
  is_sector = omega arith;
  apart = record {
    differ = λ k l h i ne. ground (arith, h, i, ne);
    no_index = λ k d h i. ground arith;
  };
  no_data = λ k h. ground arith;
  no_index = λ d h. omega arith;
}

-- From the end of the first sector into the second.
write_at-Writes_example : Gives (Writes synch_disk_store places 2 50 100 (λ j. pos 9) file disk) (
    write_at synch_disk_store
      (λ size sector h more st. ok (false, h, st))
      (λ j. pos 0)
      image
      1
      (λ j. pos 9)
      50
      100
      file
      disk)
write_at-Writes_example =
    write_at-Writes synch_disk_store (λ size sector h more st. ok (false, h, st)) (λ j. pos 0) image
      1 places 2 50 100 (λ j. pos 9) file disk file-Placed (omega arith)
