-- ===== src/Filesys/FileHeader/Tests.antt =====
-- The theorems of the file header at a file of 1000 bytes, on a cached disk.
use op_prac.Base.{
  ℕ, zero, suc, ◌+◌, ◌/◌, ◌≤◌, ◌<◌, ◌≡◌, refl, ◌≢◌, true, false, some, List, [], ◌∷◌, arith,
  assert_failed, ok, err, get_elem?,
}
use op_prac.Base.Int.{minus_one, ℤ, pos, negsuc}
use op_prac.Base.Bits.{bit}
use op_prac.Userprog.Bitmap.{BitMap}
use op_prac.Userprog.Bitmap.View.{IsValid, marked}
use op_prac.Userprog.Bitmap.Loops.{WritesRun, clear_count}
use op_prac.Userprog.Bitmap.Runs.{run_clear}
use op_prac.Filesys.SynchDisk.{CacheEntry, SynchDisk, new_synch_disk}
use op_prac.Filesys.SynchDisk.View.{IsCoherent}
use op_prac.Filesys.SynchDisk.Refines.{new_synch_disk-IsCoherent}
use op_prac.Filesys.SectorStore.{synch_disk_store}
use op_prac.Filesys.FileHeader.{FileHeader, allocate, deallocate, byte_to_sector}
use op_prac.Filesys.FileHeader.Layout.{sector_at, total_sectors}
use op_prac.Filesys.FileHeader.Allocation.{Allocated, HasRoom, allocate-Allocated}
use op_prac.Filesys.FileHeader.Extend.{extend_length, extend_length_full}
use op_prac.Filesys.FileHeader.Refusal.{allocate-leaks, allocate-aborts}
use op_prac.Filesys.FileHeader.RoundTrip.{deallocate-allocate, byte_to_sector-allocate}

abbrev blank : CacheEntry (List ℤ)
blank = record { valid = false; dirty = false; sector = pos 0; lru = 0; contents = [] }

abbrev blanks : List (CacheEntry (List ℤ))
blanks = blank ∷ blank ∷ blank ∷ blank ∷ blank ∷ blank ∷ blank ∷ blank ∷ []

abbrev disk : SynchDisk (List ℤ)
disk = new_synch_disk (λ n. []) 0 blanks

disk-IsCoherent : IsCoherent disk
disk-IsCoherent = (new_synch_disk-IsCoherent (λ n. []) 0 blanks refl).0

-- 64 sectors, the first two taken by the headers of the bitmap and of the directory.
abbrev free_map : BitMap
free_map = record { num_bits = 64; num_words = 2; map = 3 ∷ 0 ∷ [] }

free_map-IsValid : IsValid free_map
free_map-IsValid = omega arith

abbrev empty_header : FileHeader
empty_header = record {
  num_bytes = 0;
  num_sectors = 0;
  data_sectors =
      pos 0 ∷ pos 0 ∷ pos 0 ∷ pos 0 ∷ pos 0 ∷ pos 0 ∷ pos 0 ∷ pos 0 ∷ pos 0 ∷ pos 0 ∷ pos 0 ∷ [];
}

-- Eight sectors and an index sector, in the run from sector 2 on.
free_map-HasRoom : HasRoom (negsuc 4) 1000 9 free_map
unfolding run_clear clear_count marked bit total_sectors
free_map-HasRoom = record {
  not_large = omega arith;
  asks = refl;
  enough = omega arith;
  some_total = omega arith;
  run_at = (2, omega arith, refl);
  left = let count : clear_count free_map 64 ≡ 62 = refl in omega (arith, count);
}

first_marked : marked free_map 0 ≡ true
unfolding marked bit
first_marked = refl

allocate-Allocated_example :
    Allocated synch_disk_store [] (negsuc 4) 3 1000 9 empty_header free_map disk
allocate-Allocated_example =
    allocate-Allocated synch_disk_store [] (negsuc 4) 3 1000 9 empty_header free_map disk
      free_map-IsValid (omega arith) first_marked free_map-HasRoom refl disk-IsCoherent

byte_to_sector-allocate_example :
    (start : ℕ) × (hdr' : FileHeader) × (m' : BitMap) × (st' : SynchDisk (List ℤ)) × (allocate
        synch_disk_store []
        (negsuc 4)
        3
        1000
        empty_header
        free_map
        disk
      ≡ ok (true, hdr', m', st'))
    × (run_clear free_map start 9 ≡ true)
    × ((j : ℕ) → j < start → run_clear free_map j 9 ≡ false)
    × ((offset : ℕ)
        → offset < 1000
        → ((st'' : SynchDisk (List ℤ)) × (byte_to_sector synch_disk_store 3 offset hdr' st'
              ≡ ok (pos (start + sector_at (offset / 128)), st'')))
          × (marked free_map (start + sector_at (offset / 128)) ≡ false)
          × (marked m' (start + sector_at (offset / 128)) ≡ true))
    × ((k l : ℕ) → k ≢ l → start + sector_at k ≢ start + sector_at l)
byte_to_sector-allocate_example =
    byte_to_sector-allocate synch_disk_store [] (negsuc 4) 3 1000 9 empty_header free_map disk
      free_map-IsValid (omega arith) first_marked free_map-HasRoom refl disk-IsCoherent

deallocate-allocate_example :
    (hdr' : FileHeader) × (m' m'' : BitMap) × (st' st'' : SynchDisk (List ℤ)) × (allocate
        synch_disk_store []
        (negsuc 4)
        3
        1000
        empty_header
        free_map
        disk
      ≡ ok (true, hdr', m', st'))
    × (deallocate synch_disk_store 3 hdr' m' st' ≡ ok (m'', st''))
    × ((j : ℕ) → marked m'' j ≡ marked free_map j)
unfolding total_sectors
deallocate-allocate_example =
    deallocate-allocate synch_disk_store [] (negsuc 4) 3 1000 empty_header free_map disk
      free_map-IsValid (omega arith) first_marked free_map-HasRoom refl disk-IsCoherent

-- 18 sectors, two of them taken: the run of nine leaves seven for a file of eight.
abbrev tight_map : BitMap
tight_map = record { num_bits = 18; num_words = 1; map = 3 ∷ [] }

tight_map-IsValid : IsValid tight_map
tight_map-IsValid = omega arith

tight_run : (j : ℕ) × (j + 9 ≤ 18) × (run_clear tight_map j 9 ≡ true)
unfolding run_clear marked bit
tight_run = (2, omega arith, refl)

tight_count : clear_count tight_map 18 < 17
unfolding clear_count marked bit
tight_count = let count : clear_count tight_map 18 ≡ 16 = refl in omega (arith, count)

allocate-leaks_example :
    (b : ℕ) × (after : FileHeader) × (m' : BitMap) × (allocate synch_disk_store []
        (negsuc 4)
        3
        1000
        empty_header
        tight_map
        disk
      ≡ ok (false, after, m', disk))
    × (run_clear tight_map b 9 ≡ true)
    × WritesRun tight_map m' b 9 true
unfolding total_sectors
allocate-leaks_example =
    allocate-leaks synch_disk_store [] (negsuc 4) 3 1000 9 empty_header tight_map disk
      tight_map-IsValid refl (omega arith) (omega arith) (omega arith) tight_run tight_count

-- Nine sectors, the first and the last one taken.
abbrev split_map : BitMap
split_map = record { num_bits = 9; num_words = 1; map = 257 ∷ [] }

split_map-IsValid : IsValid split_map
split_map-IsValid = omega arith

split_runs : (j : ℕ) → j + 8 ≤ 9 → run_clear split_map j 8 ≡ false
unfolding run_clear marked bit
split_runs zero h = refl
split_runs (suc zero) h = refl
split_runs (suc (suc j)) h = absurd (omega arith)

allocate-aborts_example :
    allocate synch_disk_store [] (negsuc 4) 3 800 empty_header split_map disk ≡ err assert_failed
allocate-aborts_example =
    allocate-aborts synch_disk_store [] (negsuc 4) 3 800 8 empty_header split_map disk
      split_map-IsValid (omega arith) (omega arith) refl split_runs

-- Two sectors, both taken.
abbrev no_room : BitMap
no_room = record { num_bits = 2; num_words = 1; map = 3 ∷ [] }

extend_length_full_example :
    (hdr' : FileHeader) × (extend_length synch_disk_store [] 3 100 1 empty_header no_room disk
      ≡ ok (true, hdr', no_room, disk))
    × (hdr'.num_bytes ≡ 100)
    × (get_elem? hdr'.data_sectors 0 ≡ some minus_one)
unfolding clear_count marked bit
extend_length_full_example =
    extend_length_full synch_disk_store [] 3 100 empty_header no_room disk (omega arith) refl
      (omega arith) refl
