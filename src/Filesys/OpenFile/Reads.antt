-- ===== src/Filesys/OpenFile/Reads.antt =====
-- What `ReadAt` and `FetchFrom` read.
use op_prac.Base.{
  ℕ, ◌+◌, ◌-◌, ◌*◌, ◌≤◌, ◌<◌, ◌≡◌, refl, sym, ap, subst, ◌∙◌, ◌≢◌, inl, inr, false, ◌||◌, List,
  arith, ok, ◌>>=◌, ltb, leb, ◌==◌, if◌then◌else◌, Bool-cases, Gives, Gives-bind,
}
use op_prac.Base.Int.{ℤ}
use op_prac.Filesys.SynchDisk.{num_sectors}
use op_prac.Filesys.SectorStore.{SectorStore}
use op_prac.Filesys.FileHeader.{FileHeader, sector_size, file_length}
use op_prac.Filesys.OpenFile.Sectors.{FileMap, OnDisk}
use op_prac.Filesys.OpenFile.{
  Buffer, bcopy, OpenFile, granted, first_sector, sector_count, write_back, read_slots, transfer,
  read_at,
}
use op_prac.Filesys.OpenFile.Loads.{
  bcopy_inside, bcopy_behind, file_byte, AllSlotted, read_slots-AllSlotted,
}

module _ {S : Type 0} (store : SectorStore S) where
  open store use {IsGood, contents, read_lem, write_lem}

  -- How many bytes there are of `n` from `position` on.
  abbrev pub available : ℕ → ℕ → ℕ → ℕ
  available size position n = if ltb (size - position) n then size - position else n

  -- `into` has the bytes of the file from `position` on, as far as the file and the request go, and no
  -- sector but that of the header has changed.
  pub record ReadsIt (st : S) (fm : FileMap) (position n : ℕ) (into : Buffer) (f : OpenFile)
      (r : ℕ × Buffer × S) : Type 0 where
    pub count : r.0 ≡ available f.hdr.num_bytes position n
    pub bytes : (j : ℕ) → j < r.0 → r.1 j ≡ file_byte store st fm (position + j)
    pub behind : (j : ℕ) → r.0 ≤ j → r.1 j ≡ into j
    pub good : IsGood (r.2)
    pub sectors : (s : ℕ) → s ≢ f.header_sector → contents (r.2) s ≡ contents st s

  transfer-ReadsIt :
      (memory : Buffer) (image : FileHeader → List ℤ) (now : ℕ) (fm : FileMap) (size n position : ℕ)
      (into : Buffer) (f : OpenFile) (st : S)
      → OnDisk store f.hdr st fm size
      → 0 < n
      → position + n ≤ size * sector_size
      → f.header_sector < num_sectors
      → (wanted : ℕ) → n ≡ available f.hdr.num_bytes position wanted
      → Gives
          (ReadsIt st fm position wanted into f)
          (transfer store memory image now into n position f st)
  unfolding transfer write_back
  transfer-ReadsIt memory image now fm size n position into f st on some_n inside is_sector wanted
        enough =
      let first = first_sector position in
      let start = position - first * sector_size in
      let count = sector_count n position in
      Gives-bind (AllSlotted store st fm first 0 count memory)
        (ReadsIt st fm position wanted into f) (read_slots store now count f.hdr first 0 memory st)
        (λ r. write_back store image now f.header_sector f.hdr (r.1) >>= λ st''.
          ok (n, bcopy (r.0) start into 0 n, st''))
        (read_slots-AllSlotted store now fm size first f.hdr count 0 memory st on
          (omega (arith, some_n, inside)))
        (λ (buf, st') all.
          let (st'', e, good, after) =
            write_lem st' f.header_sector (image f.hdr) now all.unchanged.good is_sector in
          rw e (record {
            count = enough;
            bytes = λ j h.
                let here : start + j < (0 + count) * sector_size = omega (arith, h) in
                let place : first * sector_size + (start + j) ≡ position + j = omega arith in
                ap (bcopy buf start into 0 n) (omega arith)
                ∙ bcopy_inside buf into start 0 n j h
                ∙ all.holds (start + j) (omega arith) here
                ∙ ap (file_byte store st fm) place;
            behind = λ j h. bcopy_behind buf into start 0 n j (omega (arith, h));
            good = good;
            sectors = λ s ne.
                let other : (f.header_sector == s) ≡ false = ground (arith, ne) in
                after s
                ∙ subst (λ c. (if c then image f.hdr else contents st' s) ≡ contents st' s)
                    (sym other) refl
                ∙ all.unchanged.same s;
          }))

  -- `ReadAt` of a file with enough sectors for its bytes, wherever on the disk they, its index sectors
  -- and its header are, gives the bytes of the file that the request asks for, as many as there are behind
  -- the position, and 0 beyond the end of the file; the rest of the buffer is untouched, and on the
  -- disk only the header's own sector is written.
  pub read_at-ReadsIt :
      (memory : Buffer) (image : FileHeader → List ℤ) (now : ℕ) (fm : FileMap) (size n position : ℕ)
      (into : Buffer) (f : OpenFile) (st : S)
      → OnDisk store f.hdr st fm size
      → f.hdr.num_bytes ≤ size * sector_size
      → f.header_sector < num_sectors
      → Gives
          (ReadsIt st fm position n into f)
          (read_at store memory image now into n position f st)
  unfolding read_at file_length
  read_at-ReadsIt memory image now fm size n position into f st on fits is_sector =
      elim (Bool-cases (n == 0 || leb f.hdr.num_bytes position)) [
        | inl nothing ↦ rw nothing (record {
          count = ground (arith, nothing);
          bytes = λ j h. absurd (omega (arith, h));
          behind = λ j h. refl;
          good = on.good;
          sectors = λ s ne. refl;
        })
        | inr some_left ↦ rw some_left (
            transfer-ReadsIt memory image now fm size (granted n position f.hdr) position into f st
              on (ground (arith, some_left)) (ground (arith, some_left, fits)) is_sector n
              (ground (arith, some_left)))
      ]
