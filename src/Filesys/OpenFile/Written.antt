-- ===== src/Filesys/OpenFile/Written.antt =====
-- The bytes of a file behind the loop of `WriteAt`.
use op_prac.Base.{
  ℕ, ◌+◌, ◌-◌, ◌*◌, ◌/◌, ◌%◌, ◌≤◌, ◌<◌, ◌≡◌, refl, ap, ◌∙◌, ◌≢◌, ◌⊎◌, inl, inr, true, false, ◌&&◌,
  arith, dec_lt, ltb, leb, if◌then◌else◌, lt→ltb, le→ltb, lt→leb, le→leb,
}
use op_prac.Base.Int.{ℤ}
use op_prac.Filesys.SectorStore.{SectorStore}
use op_prac.Filesys.FileHeader.{sector_size}
use op_prac.Filesys.OpenFile.Sectors.{FileMap, Apart}
use op_prac.Filesys.OpenFile.{
  Buffer, bcopy, bytes_of, OpenFile, first_sector, last_sector, sector_count,
}
use op_prac.Filesys.OpenFile.Loads.{file_byte, bcopy_inside, bcopy_before, bcopy_behind}
use op_prac.Filesys.OpenFile.Slots.{tabulate_lem, WritesSlots, WritesSlots-OnDisk}
use op_prac.Filesys.OpenFile.Edges.{
  Placed, OnlyHeader, Placed-OnlyHeader, file_byte-OnlyHeader, Framed,
}

module _ {S : Type 0} (store : SectorStore S) where
  open store use {IsGood, contents, write_lem}

  -- Byte `p` of the file behind a write of `n` bytes at `position`.
  abbrev pub byte_after : S → FileMap → ℕ → ℕ → Buffer → ℕ → ℤ
  byte_after st fm n position from p =
      if leb position p && ltb p (position + n)
      then from (p - position)
      else file_byte store st fm p

  -- The bytes of the request are those of `from`, all others of the file are as before, and no sector
  -- has changed but those of the file's data and of its header.
  pub record WritesFile (fm : FileMap) (size n position : ℕ) (from : Buffer) (f : OpenFile)
      (st st' : S) : Type 0 where
    pub placed : Placed store f fm size st'
    pub bytes :
        (p : ℕ)
        → p < f.hdr.num_bytes
        → file_byte store st' fm p ≡ byte_after st fm n position from p
    pub others :
        (s : ℕ)
        → s ≢ f.header_sector
        → ((k : ℕ) → k < size → s ≢ fm.place k)
        → contents st' s ≡ contents st s

  -- The buffer that is written: byte `p` of the file stands at `p` less the start of the first sector.
  filled :
      (fm : FileMap) (n position : ℕ) (from buf : Buffer) (f : OpenFile) (st st₂ : S) (p : ℕ)
      → Framed store n position f fm st (buf, st₂)
      → 0 < n
      → first_sector position * sector_size ≤ p
      → p < (last_sector n position + 1) * sector_size
      → p < f.hdr.num_bytes
      → bcopy from 0 buf
          (position - first_sector position * sector_size)
          n
          (p - first_sector position * sector_size)
        ≡ byte_after st fm n position from p
  filled fm n position from buf f st st₂ p framed some_n low high inside =
      let base = first_sector position * sector_size in
      let start = position - base in
      let y = p - base in
      let place : base + y ≡ p = omega (arith, low) in
      elim (dec_lt p position) [
        | yes early ↦
            let out : leb position p ≡ false = lt→leb position p early in
            rw out (
              bcopy_before from buf 0 start n y (omega (arith, early, low))
              ∙ framed.lower y (omega (arith, early, low))
              ∙ ap (file_byte store st fm) place)
        | no later ↦ elim (dec_lt p (position + n)) [
          | yes within ↦
              let i : leb position p ≡ true = le→leb position p (omega (arith, later)) in
              let j : ltb p (position + n) ≡ true = lt→ltb p (position + n) within in
              rw (i, j)
                (ap (bcopy from 0 buf start n) (omega (arith, later))
                  ∙ bcopy_inside from buf 0 start n (p - position) (omega (arith, later, within))
                  ∙ ap from (omega arith))
          | no behind ↦
              let i : leb position p ≡ true = le→leb position p (omega (arith, later)) in
              let j : ltb p (position + n) ≡ false =
                le→ltb p (position + n) (omega (arith, behind)) in
              rw (i, j)
                (bcopy_behind from buf 0 start n y (omega (arith, behind, low))
                  ∙ framed.upper y (omega (arith, behind, low)) (omega (arith, place, high))
                      (omega (arith, place, inside))
                  ∙ ap (file_byte store st fm) place)
        ]
      ]

  -- A byte in a sector that is written, and one in a sector that is not.
  byte_written :
      (st₂ st₃ : S) (fm : FileMap) (first count p : ℕ) (buf : Buffer)
      → WritesSlots store st₂ fm first 0 count buf st₃
      → first * sector_size ≤ p
      → p < (first + count) * sector_size
      → file_byte store st₃ fm p ≡ buf (p - first * sector_size)
  byte_written st₂ st₃ fm first count p buf w low high =
      let k = p / sector_size in
      let j = p % sector_size in
      ap (λ c. bytes_of c j) (w.written k (omega (arith, low)) (omega (arith, high)))
      ∙ tabulate_lem sector_size (λ i. buf ((k - first) * sector_size + i)) j (omega arith)
      ∙ ap buf (omega (arith, low))

  byte_kept :
      (st₂ st₃ : S) (fm : FileMap) (size first count p : ℕ) (buf : Buffer)
      → Apart fm size
      → first + count ≤ size
      → p < size * sector_size
      → WritesSlots store st₂ fm first 0 count buf st₃
      → (p < first * sector_size) ⊎ ((first + count) * sector_size ≤ p)
      → file_byte store st₃ fm p ≡ file_byte store st₂ fm p
  byte_kept st₂ st₃ fm size first count p buf apart enough inside w out =
      let k = p / sector_size in
      ap (λ c. bytes_of c (p % sector_size))
        (w.others (fm.place k) (λ l low high e.
          apart.differ k l (omega (arith, inside)) (omega (arith, high, enough))
            (elim out [
              | inl early ↦ omega (arith, early, low)
              | inr late ↦ omega (arith, late, high)
            ])
            e))

  pub Placed-WritesSlots :
      (fm : FileMap) (size first count : ℕ) (buf : Buffer) (f : OpenFile) (st st' : S)
      → first + count ≤ size
      → WritesSlots store st fm first 0 count buf st'
      → Placed store f fm size st
      → Placed store f fm size st'
  Placed-WritesSlots fm size first count buf f st st' enough w p = record {
    on =
        WritesSlots-OnDisk store f.hdr st st' fm size first 0 count buf p.apart
          (omega (arith, enough)) w p.on;
    fits = p.fits;
    is_sector = p.is_sector;
    apart = p.apart;
    no_data = p.no_data;
    no_index = p.no_index;
  }

  pub written-WritesFile :
      (fm : FileMap) (size n position : ℕ) (from buf : Buffer) (f : OpenFile) (st st₂ st₃ st₄ : S)
      → Placed store f fm size st
      → 0 < n
      → position + n ≤ f.hdr.num_bytes
      → Framed store n position f fm st (buf, st₂)
      → WritesSlots store st₂ fm
          (first_sector position)
          0
          (sector_count n position)
          (bcopy from 0 buf (position - first_sector position * sector_size) n)
          st₃
      → OnlyHeader store f st₃ st₄
      → WritesFile fm size n position from f st st₄
  written-WritesFile fm size n position from buf f st st₂ st₃ st₄ p some_n inside framed w only =
      let first = first_sector position in
      let count = sector_count n position in
      let buf₃ = bcopy from 0 buf (position - first * sector_size) n in
      let p₂ = Placed-OnlyHeader store f fm size st st₂ framed.only p in
      let fits = p.fits in
      let enough : first + count ≤ size = omega (arith, some_n, inside, fits) in
      let p₃ = Placed-WritesSlots fm size first count buf₃ f st₂ st₃ enough w p₂ in
      record {
        placed = Placed-OnlyHeader store f fm size st₃ st₄ only p₃;
        bytes = λ x h.
            file_byte-OnlyHeader store f fm size st₃ st₄ x only p₃ h
            ∙ elim (dec_lt x (first * sector_size)) [
              | yes early ↦
                  let out : leb position x ≡ false = lt→leb position x (omega (arith, early)) in
                  byte_kept st₂ st₃ fm size first count x buf₃ p.apart enough
                    (omega (arith, h, fits)) w (inl early)
                  ∙ file_byte-OnlyHeader store f fm size st st₂ x framed.only p h
                  ∙ rw out refl
              | no low ↦ elim (dec_lt x ((first + count) * sector_size)) [
                | yes high ↦
                    byte_written st₂ st₃ fm first count x buf₃ w (omega (arith, low)) high
                    ∙ filled fm n position from buf f st st₂ x framed some_n (omega (arith, low))
                        (omega (arith, high, some_n)) h
                | no late ↦
                    let out : ltb x (position + n) ≡ false =
                      le→ltb x (position + n) (omega (arith, late, some_n)) in
                    let above : leb position x ≡ true =
                      le→leb position x (omega (arith, low, late, some_n)) in
                    byte_kept st₂ st₃ fm size first count x buf₃ p.apart enough
                      (omega (arith, h, fits)) w (inr (omega (arith, late)))
                    ∙ file_byte-OnlyHeader store f fm size st st₂ x framed.only p h
                    ∙ rw (above, out) refl
              ]
            ];
        others = λ s ne no_data.
            only.sectors s ne
            ∙ w.others s (λ k low high. no_data k (omega (arith, high, some_n, inside, fits)))
            ∙ framed.only.sectors s ne;
      }
