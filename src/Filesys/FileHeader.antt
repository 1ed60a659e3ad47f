-- ===== src/Filesys/FileHeader.antt =====
-- code/filesys/filehdr.h and filehdr.cc: the file header, with six direct sectors and five sectors
-- of 32 disk addresses each.
-- The times of a file are left out. `memory` is what the sector-sized space at a `new` array held
-- before; `junk` is what the local variable `NSecIndex` held, which is set only for files that need
-- an index. A file size is not negative. `now` is the time, taken once for each call.
pub mod Layout
pub mod Consecutive
pub mod Allocation
pub mod Refusal
pub mod Release
pub mod RoundTrip
pub mod Extend
mod Tests
use op_prac.Base.{
  ℕ, zero, suc, ◌+◌, ◌-◌, ◌*◌, ◌/◌, ◌%◌, ◌^◌, ◌≤◌, ◌<◌, ◌≡◌, refl, sym, ap, subst, ◌∙◌, ◌≢◌, ◌↔◌,
  ◌⊎◌, inl, inr, Bool, true, false, not, ◌&&◌, ◌||◌, Option, none, some, List, [], ◌∷◌, ◌++◌, map,
  arith, dec_lt, dec_le, ℕ_discrete, Error, assert_failed, bad_access, out_of_fuel, Result, ok, err,
  ◌>>=◌, ◌>>◌, assert, or_fault, Result-cases, ltb, leb, ◌==◌, if◌then◌else◌, ltb→lt, lt→ltb,
  le→ltb, leb→le, ==_iff, tests, Bool-cases, Option-cases, length, get_elem?, set, get_or, take,
  drop, replicate, All, length-append, length-set, length-replicate, get_or-set_self, get_or-set_ne,
  get_elem?-eq-get_or, get_elem?-none, get_elem?-set_self, get_elem?-some, All-set, All-get_or,
  bit_and, bit_or, bit_xor,
}
use op_prac.Base.Int.{ℤ, pos, negsuc, ◌+ℤ◌}
use op_prac.Userprog.Bitmap.{BitMap, div_round_up, find, find_n, num_clear, test, clear}
use op_prac.Filesys.SectorStore.{SectorStore}

abbrev pub sector_size : ℕ
sector_size = 128

abbrev pub num_direct : ℕ
num_direct = 6

abbrev pub num_second_index : ℕ
num_second_index = 5

abbrev pub second_direct : ℕ
second_direct = 32

abbrev pub max_file_size : ℕ
max_file_size = num_direct * sector_size + num_second_index * second_direct * sector_size

pub record FileHeader : Type 0 where
  pub num_bytes : ℕ
  pub num_sectors : ℕ
  pub data_sectors : List ℤ

-- `xs[i] = v`
abbrev pub put : List ℤ → ℕ → ℤ → Result (List ℤ)
put xs i v = if ltb i (length xs) then ok (set xs i v) else err bad_access

-- `conse ? beg++ : freeMap->Find()`
pub take_sector : Bool → ℕ → BitMap → Result (ℤ × ℕ × BitMap)
take_sector true beg free_map = ok (pos beg, beg + 1, free_map)
take_sector false beg free_map = do (sector, free_map') ← find free_map; ok (sector, beg, free_map')

-- Sectors for `dataSectors[i]` on, `n` rounds being left.
pub alloc_direct : ℕ → ℕ → Bool → ℕ → List ℤ → BitMap → Result (ℕ × List ℤ × BitMap)
alloc_direct zero i conse beg sectors free_map = ok (beg, sectors, free_map)
alloc_direct (suc n) i conse beg sectors free_map = do
  (sector, beg', free_map') ← take_sector conse beg free_map
  sectors' ← put sectors i sector
  alloc_direct n (i + 1) conse beg' sectors' free_map'

-- The `num1` addresses that go into one index sector.
pub fill_index : ℕ → Bool → ℕ → BitMap → Result (List ℤ × ℕ × BitMap)
fill_index zero conse beg free_map = ok ([], beg, free_map)
fill_index (suc n) conse beg free_map = do
  (sector, beg', free_map') ← take_sector conse beg free_map
  (rest, beg'', free_map'') ← fill_index n conse beg' free_map'
  ok (sector ∷ rest, beg'', free_map'')

-- The share of one index sector in the sectors that are left.
abbrev pub share : ℕ → ℕ
share left = if ltb left second_direct then left else second_direct

-- `Test` must hold of each of the `n` sectors from `xs[i]` on, which are then cleared.
pub clear_each : ℕ → ℕ → List ℤ → BitMap → Result BitMap
clear_each zero i xs free_map = ok free_map
clear_each (suc n) i xs free_map = do
  sector ← or_fault (get_elem? xs i)
  marked ← test sector free_map
  assert marked
  free_map' ← clear sector free_map
  clear_each n (i + 1) xs free_map'

-- The number of sectors that `Allocate` asks `FindN` for.
abbrev pub wanted : ℤ → ℕ → ℤ
wanted junk n =
    if ltb num_direct n
    then pos (n + div_round_up (n - num_direct) second_direct)
    else pos n +ℤ junk

module _ {S : Type 0} (store : SectorStore S) where
  open store use {read, write}

  -- The loop over the index sectors, `left` sectors being left.
  pub alloc_indexed :
      List ℤ → ℕ → ℕ → ℕ → ℕ → Bool → ℕ → List ℤ → BitMap → S → Result (List ℤ × BitMap × S)
  alloc_indexed memory now fuel i zero conse beg sectors free_map st = ok (sectors, free_map, st)
  alloc_indexed memory now zero i (suc left) conse beg sectors free_map st = err out_of_fuel
  alloc_indexed memory now (suc fuel) i (suc left) conse beg sectors free_map st = do
    (index, beg', free_map') ← take_sector conse beg free_map
    sectors' ← put sectors (num_direct + i) index
    (addresses, beg'', free_map'') ← fill_index (share (suc left)) conse beg' free_map'
    st' ← write index (addresses ++ drop (share (suc left)) memory) now st
    alloc_indexed memory now fuel (i + 1) (suc left - share (suc left)) conse beg'' sectors'
        free_map'' st'

  -- The second half of `Allocate`, behind its checks.
  pub assign_sectors :
      List ℤ → ℕ → ℕ → Bool → ℕ → List ℤ → BitMap → S → Result (List ℤ × BitMap × S)
  assign_sectors memory now n conse beg sectors free_map st =
      if leb n num_direct
      then (do
        (_, sectors', free_map') ← alloc_direct n 0 conse beg sectors free_map
        ok (sectors', free_map', st))
      else (do
        (beg', sectors', free_map') ← alloc_direct num_direct 0 conse beg sectors free_map
        let left = n - num_direct
        alloc_indexed memory now left 0 left conse beg' sectors' free_map' st)

  -- The result, the header, the bitmap and the disk.
  pub allocate :
      List ℤ → ℤ → ℕ → ℕ → FileHeader → BitMap → S → Result (Bool × FileHeader × BitMap × S)
  allocate memory junk now file_size hdr free_map st = do
    let n = div_round_up file_size sector_size
    let hdr' = record hdr { num_bytes = file_size; num_sectors = n }
    (beg, free_map') ← find_n (wanted junk n) free_map
    free ← num_clear free_map'
    if ltb free n
        then ok (false, hdr', free_map', st)
        else if ltb max_file_size file_size
        then ok (false, hdr', free_map', st)
        else (do
          let conse : Bool = elim beg [ pos b ↦ ltb 0 b | negsuc _ ↦ false ]
          let start : ℕ = elim beg [ pos b ↦ b | negsuc _ ↦ 0 ]
          (sectors, free_map'', st') ←
              assign_sectors memory now n conse start hdr.data_sectors free_map' st
          ok (true, record hdr' { data_sectors = sectors }, free_map'', st'))

  pub dealloc_indexed : ℕ → ℕ → ℕ → ℕ → List ℤ → BitMap → S → Result (BitMap × S)
  dealloc_indexed now fuel i zero sectors free_map st = ok (free_map, st)
  dealloc_indexed now zero i (suc left) sectors free_map st = err out_of_fuel
  dealloc_indexed now (suc fuel) i (suc left) sectors free_map st = do
    index ← or_fault (get_elem? sectors (num_direct + i))
    (buffer, st') ← read index now st
    addresses ← or_fault buffer
    free_map' ← clear_each (share (suc left)) 0 addresses free_map
    marked ← test index free_map'
    assert marked
    free_map'' ← clear index free_map'
    dealloc_indexed now fuel (i + 1) (suc left - share (suc left)) sectors free_map'' st'

  pub deallocate : ℕ → FileHeader → BitMap → S → Result (BitMap × S)
  deallocate now hdr free_map st =
      if leb hdr.num_sectors num_direct
      then (do
        free_map' ← clear_each hdr.num_sectors 0 hdr.data_sectors free_map
        ok (free_map', st))
      else (do
        free_map' ← clear_each num_direct 0 hdr.data_sectors free_map
        let left = hdr.num_sectors - num_direct
        dealloc_indexed now left 0 left hdr.data_sectors free_map' st)

  unfoldable pub byte_to_sector : ℕ → ℕ → FileHeader → S → Result (ℤ × S)
  byte_to_sector now offset hdr st =
      let sector_offset = offset / sector_size in
      if ltb sector_offset num_direct
      then (do sector ← or_fault (get_elem? hdr.data_sectors sector_offset); ok (sector, st))
      else (do
        let second_index = (sector_offset - num_direct) / second_direct
        index ← or_fault (get_elem? hdr.data_sectors (num_direct + second_index))
        (buffer, st') ← read index now st
        addresses ← or_fault buffer
        sector ←
            or_fault
              (get_elem? addresses (sector_offset - num_direct - second_index * second_direct))
        ok (sector, st'))

unfoldable pub file_length : FileHeader → ℕ
file_length hdr = hdr.num_bytes
