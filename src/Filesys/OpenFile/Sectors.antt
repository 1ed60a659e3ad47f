-- ===== src/Filesys/OpenFile/Sectors.antt =====
-- Where the sectors of a file are, whichever they are: `ByteToSector` on such a file.
use op_prac.Base.{
  ℕ, ◌+◌, ◌-◌, ◌*◌, ◌/◌, ◌<◌, ◌≡◌, refl, ap, ◌∙◌, ◌≢◌, some, arith, dec_lt, ok, lt→ltb, le→ltb,
  get_elem?,
}
use op_prac.Base.Int.{pos}
use op_prac.Filesys.SynchDisk.{num_sectors}
use op_prac.Filesys.SectorStore.{SectorStore}
use op_prac.Filesys.FileHeader.{FileHeader, byte_to_sector, sector_size, num_direct, second_direct}

-- The sector of each sector of a file, and of each of its index sectors.
pub record FileMap : Type 0 where
  pub place : ℕ → ℕ
  pub index : ℕ → ℕ

-- No two of the first `n` sectors of a file are one, and none is an index sector.
pub record Apart (fm : FileMap) (n : ℕ) : Type 0 where
  pub differ : (k l : ℕ) → k < n → l < n → k ≢ l → fm.place k ≢ fm.place l
  pub no_index : (k d : ℕ) → k < n → 32 * d < n - num_direct → fm.place k ≢ fm.index d

module _ {S : Type 0} (store : SectorStore S) where
  open store use {IsGood, contents, read_lem}

  -- The header and the index sectors give the file's `n` sectors as `fm` does, all on the disk.
  pub record OnDisk (hdr : FileHeader) (st : S) (fm : FileMap) (n : ℕ) : Type 0 where
    pub direct_at :
        (k : ℕ) → k < num_direct → k < n → get_elem? hdr.data_sectors k ≡ some (pos (fm.place k))
    pub index_at :
        (d : ℕ)
        → 32 * d < n - num_direct
        → get_elem? hdr.data_sectors (num_direct + d) ≡ some (pos (fm.index d))
    pub address_at :
        (d j : ℕ)
        → j < 32
        → 32 * d + j < n - num_direct
        → get_elem? (contents st (fm.index d)) j ≡ some (pos (fm.place (num_direct + (32 * d + j))))
    pub good : IsGood st
    pub room : (k : ℕ) → k < n → fm.place k < num_sectors
    pub index_room : (d : ℕ) → 32 * d < n - num_direct → fm.index d < num_sectors

  -- It is so as long as the index sectors read as before.
  pub OnDisk-keeps :
      (hdr : FileHeader) (st st' : S) (fm : FileMap) (n : ℕ)
      → IsGood st'
      → ((d : ℕ) → 32 * d < n - num_direct → contents st' (fm.index d) ≡ contents st (fm.index d))
      → OnDisk hdr st fm n
      → OnDisk hdr st' fm n
  OnDisk-keeps hdr st st' fm n good same on = record {
    direct_at = on.direct_at;
    index_at = on.index_at;
    address_at =
        λ d j h k. ap (λ c. get_elem? c j) (same d (omega (arith, k))) ∙ on.address_at d j h k;
    good = good;
    room = on.room;
    index_room = on.index_room;
  }

  pub byte_to_sector-OnDisk :
      (now offset : ℕ) (fm : FileMap) (n : ℕ) (hdr : FileHeader) (st : S)
      → OnDisk hdr st fm n
      → offset / sector_size < n
      → (st' : S) × (byte_to_sector store now offset hdr st
          ≡ ok (pos (fm.place (offset / sector_size)), st'))
        × IsGood st'
        × ((s : ℕ) → contents st' s ≡ contents st s)
  unfolding byte_to_sector
  byte_to_sector-OnDisk now offset fm n hdr st on within =
      let k = offset / sector_size in
      elim (dec_lt k num_direct) [
        | yes direct ↦ (
          st,
          rw (lt→ltb k num_direct direct, on.direct_at k direct within) refl,
          on.good,
          (λ s. refl),
        )
        | no far ↦
            let d = (k - num_direct) / second_direct in
            let j = k - num_direct - d * second_direct in
            let is_far = le→ltb k num_direct (omega arith) in
            let (st', e, good', same) =
              read_lem st (fm.index d) now on.good (on.index_room d (omega (arith, within))) in
            (
              st',
              rw
                  (
                    is_far,
                    on.index_at d (omega (arith, within)),
                    e,
                    on.address_at d j (omega arith) (omega (arith, within)),
                  )
                  (ap (λ c. ok (pos (fm.place c), st')) (omega arith)),
              good',
              same,
            )
      ]
