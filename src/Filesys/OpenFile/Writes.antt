-- ===== src/Filesys/OpenFile/Writes.antt =====
-- What `WriteAt` does to the bytes of a file.
use op_prac.Base.{
  ℕ, ◌+◌, ◌-◌, ◌*◌, ◌≤◌, ◌<◌, ◌≡◌, refl, sym, ◌∙◌, Bool, true, false, ◌||◌, List, arith, ℕ_discrete,
  Result, ok, ◌>>=◌, ltb, leb, ◌==◌, le→ltb, Gives, Gives-bind, Gives-map,
}
use op_prac.Base.Int.{ℤ}
use op_prac.Filesys.SectorStore.{SectorStore}
use op_prac.Filesys.FileHeader.{FileHeader, sector_size, file_length}
use op_prac.Filesys.OpenFile.Sectors.{FileMap}
use op_prac.Filesys.OpenFile.{
  Buffer, bcopy, OpenFile, first_sector, last_sector, sector_count, write_back, read_edge,
  write_slots, write_through, write_at,
}
use op_prac.Filesys.OpenFile.Slots.{at_other, WritesSlots, write_slots-WritesSlots}
use op_prac.Filesys.OpenFile.Edges.{
  Placed, OnlyHeader, Placed-OnlyHeader, Edged, read_edge-Edged, starts_inside, ends_inside,
  edges-Framed,
}
use op_prac.Filesys.OpenFile.Written.{WritesFile, Placed-WritesSlots, written-WritesFile}

module _ {S : Type 0} (store : SectorStore S) where
  open store use {IsGood, contents, write_lem}

  write_back-OnlyHeader :
      (image : FileHeader → List ℤ) (now : ℕ) (fm : FileMap) (size : ℕ) (f : OpenFile) (st : S)
      → Placed store f fm size st
      → Gives (OnlyHeader store f st) (write_back store image now f.header_sector f.hdr st)
  unfolding write_back
  write_back-OnlyHeader image now fm size f st p =
      let (st', e, good, after) =
        write_lem st f.header_sector (image f.hdr) now p.on.good p.is_sector in
      rw e (record {
        good = good;
        sectors = λ s ne. after s ∙ at_other (image f.hdr) (contents st s) f.header_sector s ne;
      })

  write_through-WritesFile :
      (memory : Buffer) (image : FileHeader → List ℤ) (now : ℕ) (fm : FileMap) (size n position : ℕ)
      (from : Buffer) (f : OpenFile) (st : S)
      → Placed store f fm size st
      → 0 < n
      → position + n ≤ f.hdr.num_bytes
      → Gives
          (WritesFile store fm size n position from f st)
          (write_through store memory image now from n position f st)
  unfolding write_through
  write_through-WritesFile memory image now fm size n position from f st p some_n inside =
      let first = first_sector position in
      let last = last_sector n position in
      let count = sector_count n position in
      let x = (last - first) * sector_size in
      let start = position - first * sector_size in
      let fits = p.fits in
      let Q = WritesFile store fm size n position from f st in
      let finish : S → Result S = write_back store image now f.header_sector f.hdr in
      let rest : Buffer × S → Result S = λ (buf, st₂).
        write_slots store now count f.hdr first 0 (bcopy from 0 buf start n) st₂ >>= finish in
      Gives-bind (Edged store (starts_inside position) 0 first memory f fm st) Q
        (read_edge store memory image now (starts_inside position) 0 first memory f st)
        (λ (buf₁, st₁).
          read_edge store memory image now (ends_inside n position) x last buf₁ f st₁ >>= rest)
        (read_edge-Edged store memory image now (starts_inside position) 0 first fm size memory f st
          p)
        (λ (buf₁, st₁) one.
          Gives-bind (Edged store (ends_inside n position) x last buf₁ f fm st₁) Q
            (read_edge store memory image now (ends_inside n position) x last buf₁ f st₁) rest
            (read_edge-Edged store memory image now (ends_inside n position) x last fm size buf₁ f
              st₁ (Placed-OnlyHeader store f fm size st st₁ one.only p))
            (λ (buf, st₂) two.
              let framed =
                edges-Framed store n position fm size memory f st (buf₁, st₁) (buf, st₂) p some_n
                  inside one two in
              let p₂ = Placed-OnlyHeader store f fm size st st₂ framed.only p in
              let buf₃ = bcopy from 0 buf start n in
              Gives-bind (WritesSlots store st₂ fm first 0 count buf₃) Q
                (write_slots store now count f.hdr first 0 buf₃ st₂) finish
                (write_slots-WritesSlots store now fm size first f.hdr count 0 buf₃ st₂ p₂.on
                  p.apart (omega (arith, some_n, inside, fits)))
                (λ st₃ w.
                  Gives-map {P = OnlyHeader store f st₃} {Q = Q}
                    (λ st₄ only.
                      written-WritesFile store fm size n position from buf f st st₂ st₃ st₄ p some_n
                        inside framed w only)
                    (finish st₃)
                    (write_back-OnlyHeader image now fm size f st₃ (
                      Placed-WritesSlots store fm size first count buf₃ f st₂ st₃
                        (omega (arith, some_n, inside, fits)) w p₂)))))

  -- What `WriteAt` returns where the file need not grow.
  pub record Writes (fm : FileMap) (size n position : ℕ) (from : Buffer) (f : OpenFile) (st : S)
      (r : ℕ × OpenFile × S) : Type 0 where
    pub count : r.0 ≡ n
    pub same_file : r.1 ≡ f
    pub file : WritesFile store fm size n position from f st (r.2)

  -- `WriteAt` of `n` bytes that end within a file writes all of them, wherever on the disk the sectors
  -- of the file are, as long as no two of them, of its index sectors and of the header are one: the
  -- file has the bytes of the buffer from the position on and every other byte as it was, whether or
  -- not the request begins and ends at the edge of a sector, and no sector changes but those of the
  -- file's data and of its header.
  pub write_at-Writes :
      (extend : ℕ → ℕ → FileHeader → ℕ → S → Result (Bool × FileHeader × S)) (memory : Buffer)
      (image : FileHeader → List ℤ) (now : ℕ) (fm : FileMap) (size n position : ℕ) (from : Buffer)
      (f : OpenFile) (st : S)
      → Placed store f fm size st
      → position + n ≤ f.hdr.num_bytes
      → Gives
          (Writes fm size n position from f st)
          (write_at store extend memory image now from n position f st)
  unfolding write_at file_length
  write_at-Writes extend memory image now fm size n position from f st p inside =
      elim (ℕ_discrete n 0) [
        | yes none_asked ↦
            let t : (n == 0 || leb f.hdr.num_bytes position) ≡ true = ground (arith, none_asked) in
            rw t (record {
              count = sym none_asked;
              same_file = refl;
              file = record {
                placed = p;
                bytes = λ x h. ground (arith, none_asked);
                others = λ s ne no_data. refl;
              };
            })
        | no some_asked ↦
            let t : (n == 0 || leb f.hdr.num_bytes position) ≡ false =
              ground (arith, some_asked, inside) in
            let u : ltb f.hdr.num_bytes (position + n) ≡ false =
              le→ltb f.hdr.num_bytes (position + n) inside in
            rw (t, u)
              (Gives-bind (WritesFile store fm size n position from f st)
                (Writes fm size n position from f st)
                (write_through store memory image now from n position f st) (λ st'. ok (n, f, st'))
                (write_through-WritesFile memory image now fm size n position from f st p
                  (omega (arith, some_asked)) inside)
                (λ st' w. record { count = refl; same_file = refl; file = w }))
      ]
