-- ===== src/Filesys/FileHeader/Layout.antt =====
-- Where the bytes of a file lie whose sectors are consecutive: `ByteToSector` on such a header.
use op_prac.Base.{
  ℕ, ◌+◌, ◌-◌, ◌*◌, ◌/◌, ◌%◌, ◌<◌, ◌≡◌, refl, ap, ◌≢◌, some, arith, dec_lt, ok, ltb, if◌then◌else◌,
  lt→ltb, le→ltb, get_elem?,
}
use op_prac.Base.Int.{pos}
use op_prac.Userprog.Bitmap.{div_round_up}
use op_prac.Filesys.SynchDisk.{num_sectors}
use op_prac.Filesys.SectorStore.{SectorStore}
use op_prac.Filesys.FileHeader.{FileHeader, byte_to_sector, sector_size, num_direct, second_direct}
use op_prac.Filesys.FileHeader.Consecutive.{Indexed}

-- How far behind the first sector of the run the `k`-th sector of the file lies: six sectors, then
-- an index sector before every 32.
unfoldable pub sector_at : ℕ → ℕ
sector_at k = if ltb k 6 then k else 7 + 33 * ((k - 6) / 32) + (k - 6) % 32

-- The sectors that a file of `n` sectors takes, index sectors included.
unfoldable pub total_sectors : ℕ → ℕ
total_sectors n = n + div_round_up (n - num_direct) second_direct

-- Each sector of a file is within the sectors that the file takes.
pub sector_at-lt : (k n : ℕ) → k < n → sector_at k < total_sectors n
unfolding sector_at total_sectors
sector_at-lt k n h = ground arith

-- Two sectors of a file are not the same sector of the run.
pub sector_at_ne : (k l : ℕ) → k ≢ l → sector_at k ≢ sector_at l
unfolding sector_at
sector_at_ne k l ne = ground (arith, ne)

module _ {S : Type 0} (store : SectorStore S) where
  open store use {IsGood, contents, read_lem}

  -- The header and the index sectors describe `n` sectors laid out from `b` on.
  pub record LaidOut (hdr : FileHeader) (st : S) (b n : ℕ) : Type 0 where
    pub direct_at :
        (k : ℕ) → k < num_direct → k < n → get_elem? hdr.data_sectors k ≡ some (pos (b + k))
    pub indexed : Indexed store hdr.data_sectors st 0 (b + num_direct) (n - num_direct)

  -- The sector of a byte of the file, which is read from the header or from an index sector.
  pub byte_to_sector-LaidOut :
      (now offset b n : ℕ) (hdr : FileHeader) (st : S)
      → LaidOut hdr st b n
      → IsGood st
      → offset / sector_size < n
      → b + sector_at (offset / sector_size) < num_sectors
      → (st' : S) × (byte_to_sector store now offset hdr st
          ≡ ok (pos (b + sector_at (offset / sector_size)), st'))
        × IsGood st'
        × ((s : ℕ) → contents st' s ≡ contents st s)
  unfolding byte_to_sector sector_at
  byte_to_sector-LaidOut now offset b n hdr st laid good within room =
      let k = offset / sector_size in
      elim (dec_lt k num_direct) [
        | yes direct ↦ (
          st,
          rw (lt→ltb k num_direct direct, laid.direct_at k direct within) refl,
          good,
          (λ s. refl),
        )
        | no far ↦
            let d = (k - num_direct) / second_direct in
            let j = k - num_direct - d * second_direct in
            let index = b + num_direct + 33 * d in
            let is_far = le→ltb k num_direct (omega arith) in
            let (st', e, good', same) = read_lem st index now good (ground (arith, room, is_far)) in
            (
              st',
              rw
                  (
                    is_far,
                    laid.indexed.index_at d (omega arith),
                    e,
                    laid.indexed.address_at d j (omega arith) (omega arith),
                  )
                  (ap (λ c. ok (pos c, st')) (omega arith)),
              good',
              same,
            )
      ]
