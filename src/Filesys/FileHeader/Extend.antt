-- ===== src/Filesys/FileHeader/Extend.antt =====
-- code/filesys/filehdr.cc: `extendLength`, which gives a file more sectors. `memory` is what the space
-- at a `new` array held before; `left` is `sectorNum`, which is not negative.
use op_prac.Base.{
  ℕ, zero, suc, ◌+◌, ◌-◌, ◌*◌, ◌%◌, ◌<◌, ◌≡◌, refl, inl, inr, Bool, true, false, ◌&&◌, some, List,
  arith, Result, ok, ◌>>=◌, or_fault, ltb, ◌==◌, if◌then◌else◌, lt→ltb, length, get_elem?, set,
  get_elem?-set_self,
}
use op_prac.Base.Int.{ℤ, minus_one}
use op_prac.Userprog.Bitmap.{BitMap, find}
use op_prac.Userprog.Bitmap.View.{IsValid}
use op_prac.Userprog.Bitmap.Loops.{clear_count, find-clear_count}
use op_prac.Filesys.SectorStore.{SectorStore}
use op_prac.Filesys.FileHeader.{FileHeader, put, num_direct, num_second_index, second_direct}

-- `numSectors++`
abbrev pub one_more : FileHeader → FileHeader
one_more hdr = record hdr { num_sectors = hdr.num_sectors + 1 }

-- The loop over the direct sectors from `i` on, `n` of them.
pub extend_direct : ℕ → ℕ → ℕ → FileHeader → BitMap → Result (ℕ × FileHeader × BitMap)
extend_direct zero i left hdr free_map = ok (left, hdr, free_map)
extend_direct (suc n) i zero hdr free_map = ok (zero, hdr, free_map)
extend_direct (suc n) i (suc left) hdr free_map = do
  (sector, free_map') ← find free_map
  sectors ← put hdr.data_sectors i sector
  extend_direct n (i + 1) left (one_more (record hdr { data_sectors = sectors })) free_map'

-- A loop over the addresses of an index sector from `j` on, `n` of them.
unfoldable pub extend_index :
    ℕ → ℕ → ℕ → List ℤ → FileHeader → BitMap → Result (ℕ × List ℤ × FileHeader × BitMap)
extend_index zero j left sectors hdr free_map = ok (left, sectors, hdr, free_map)
extend_index (suc n) j zero sectors hdr free_map = ok (zero, sectors, hdr, free_map)
extend_index (suc n) j (suc left) sectors hdr free_map = do
  (sector, free_map') ← find free_map
  sectors' ← put sectors j sector
  extend_index n (j + 1) left sectors' (one_more hdr) free_map'

extend_direct_none :
    (n i : ℕ) (hdr : FileHeader) (free_map : BitMap)
    → extend_direct n i 0 hdr free_map ≡ ok (0, hdr, free_map)
unfolding extend_direct
extend_direct_none zero i hdr free_map = refl
extend_direct_none (suc n) i hdr free_map = refl

find_full : (m : BitMap) → IsValid m → clear_count m m.num_bits ≡ 0 → find m ≡ ok (minus_one, m)
find_full m v full = elim (find-clear_count m v) [
  | inl (none_left, e) ↦ e
  | inr (i, m', e, bound, count) ↦ absurd (omega (arith, count, full))
]

module _ {S : Type 0} (store : SectorStore S) where
  open store use {read, write}

  -- A new index sector for the addresses from number `d * second_direct` on, if one is needed.
  unfoldable pub open_index :
      List ℤ → ℕ → ℕ → ℕ → FileHeader → BitMap → S → Result (ℕ × FileHeader × BitMap × S)
  open_index memory now d left hdr free_map st =
      if hdr.num_sectors == num_direct + d * second_direct
      then (do
        (index, free_map') ← find free_map
        data_sectors ← put hdr.data_sectors (num_direct + d) index
        (left', sectors, hdr', free_map'') ←
            extend_index second_direct 0 left memory (record hdr { data_sectors = data_sectors })
              free_map'
        st' ← write index sectors now st
        ok (left', hdr', free_map'', st'))
      else ok (left, hdr, free_map, st)

  -- More addresses in index sector `d`, if it is there and not full.
  unfoldable pub fill_up :
      ℕ → ℕ → ℕ → FileHeader → BitMap → S → Result (ℕ × FileHeader × BitMap × S)
  fill_up now d left hdr free_map st =
      if ltb (num_direct + d * second_direct) hdr.num_sectors
        && ltb hdr.num_sectors (num_direct + (d + 1) * second_direct)
        && ltb 0 left
      then (do
        index ← or_fault (get_elem? hdr.data_sectors (num_direct + d))
        (buffer, st') ← read index now st
        sectors ← or_fault buffer
        let j = (hdr.num_sectors - num_direct) % second_direct
        (left', sectors', hdr', free_map') ←
            extend_index (second_direct - j) j left sectors hdr free_map
        st'' ← write index sectors' now st'
        ok (left', hdr', free_map', st''))
      else ok (left, hdr, free_map, st)

  -- The loop over the index sectors from `d` on, `n` of them; its variable is `d + 1`.
  pub extend_levels :
      List ℤ → ℕ → ℕ → ℕ → ℕ → FileHeader → BitMap → S → Result (ℕ × FileHeader × BitMap × S)
  extend_levels memory now zero d left hdr free_map st = ok (left, hdr, free_map, st)
  extend_levels memory now (suc n) d zero hdr free_map st = ok (zero, hdr, free_map, st)
  extend_levels memory now (suc n) d (suc left) hdr free_map st = do
    (left', hdr', free_map', st') ← open_index memory now d (suc left) hdr free_map st
    (left'', hdr'', free_map'', st'') ← fill_up now d left' hdr' free_map' st'
    extend_levels memory now n (d + 1) left'' hdr'' free_map'' st''

  -- The result, the header, the bitmap and the disk.
  pub extend_length :
      List ℤ → ℕ → ℕ → ℕ → FileHeader → BitMap → S → Result (Bool × FileHeader × BitMap × S)
  extend_length memory now size more hdr free_map st = do
    (left, hdr', free_map') ←
        extend_direct (num_direct - hdr.num_sectors) hdr.num_sectors more hdr free_map
    (left', hdr'', free_map'', st') ←
        extend_levels memory now num_second_index 0 left hdr' free_map' st
    if left' == 0
        then ok (true, record hdr'' { num_bytes = size }, free_map'', st')
        else ok (false, hdr'', free_map'', st')

  -- On a disk that is full, a file that has fewer sectors than the header takes is made longer by
  -- one sector with success, and the new sector is -1.
  pub extend_length_full :
      (memory : List ℤ) (now size : ℕ) (hdr : FileHeader) (free_map : BitMap) (st : S)
      → IsValid free_map
      → clear_count free_map free_map.num_bits ≡ 0
      → hdr.num_sectors < num_direct
      → length hdr.data_sectors ≡ num_direct + num_second_index
      → (hdr' : FileHeader) × (extend_length memory now size 1 hdr free_map st
          ≡ ok (true, hdr', free_map, st))
        × (hdr'.num_bytes ≡ size)
        × (get_elem? hdr'.data_sectors hdr.num_sectors ≡ some minus_one)
  unfolding extend_length extend_direct extend_levels
  extend_length_full memory now size hdr free_map st v full few whole =
      let i = hdr.num_sectors in
      let rounds : num_direct - i ≡ suc (num_direct - i - 1) = omega (arith, few) in
      let room : ltb i (length hdr.data_sectors) ≡ true =
        lt→ltb i (length hdr.data_sectors) (omega (arith, whole, few)) in
      let sectors = set hdr.data_sectors i minus_one in
      let hdr₁ = one_more (record hdr { data_sectors = sectors }) in
      (
        record hdr₁ { num_bytes = size },
        rw
            (
              rounds,
              find_full free_map v full,
              room,
              extend_direct_none (num_direct - i - 1) (i + 1) hdr₁ free_map,
            )
            refl,
        refl,
        get_elem?-set_self hdr.data_sectors i minus_one (omega (arith, whole, few)),
      )
