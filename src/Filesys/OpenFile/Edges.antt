-- ===== src/Filesys/OpenFile/Edges.antt =====
-- What `WriteAt` reads in first: the sectors that it does not write as a whole.
use op_prac.Base.{
  ℕ, ◌+◌, ◌-◌, ◌*◌, ◌/◌, ◌%◌, ◌≤◌, ◌<◌, ◌≡◌, refl, ap, ◌∙◌, ◌≢◌, inl, inr, Bool, true, false, not,
  ◌&&◌, ◌||◌, List, arith, ℕ_discrete, ok, ◌==◌, Bool-cases, Gives, Gives-bind,
}
use op_prac.Base.Int.{ℤ}
use op_prac.Filesys.SynchDisk.{num_sectors}
use op_prac.Filesys.SectorStore.{SectorStore}
use op_prac.Filesys.FileHeader.{FileHeader, sector_size, num_direct}
use op_prac.Filesys.OpenFile.Sectors.{FileMap, OnDisk, Apart, OnDisk-keeps}
use op_prac.Filesys.OpenFile.{
  Buffer, bcopy, bytes_of, OpenFile, first_sector, last_sector, first_aligned, last_aligned,
  read_at, read_edge,
}
use op_prac.Filesys.OpenFile.Loads.{file_byte, bcopy_inside, bcopy_before}
use op_prac.Filesys.OpenFile.Reads.{ReadsIt, read_at-ReadsIt}

-- The two edges of a request for `n` bytes at `position`.
abbrev pub starts_inside : ℕ → Bool
starts_inside position = not (first_aligned position)

abbrev pub ends_inside : ℕ → ℕ → Bool
ends_inside n position =
    not (last_aligned n position)
    && (not (first_sector position == last_sector n position) || first_aligned position)

module _ {S : Type 0} (store : SectorStore S) where
  open store use {IsGood, contents, write_lem}

  -- The file's `size` sectors are on the disk where `fm` says, enough for its bytes; no two of
  -- them are one sector, and the header is in a sector apart from them and from their index sectors.
  pub record Placed (f : OpenFile) (fm : FileMap) (size : ℕ) (st : S) : Type 0 where
    pub on : OnDisk store f.hdr st fm size
    pub fits : f.hdr.num_bytes ≤ size * sector_size
    pub is_sector : f.header_sector < num_sectors
    pub apart : Apart fm size
    pub no_data : (k : ℕ) → k < size → fm.place k ≢ f.header_sector
    pub no_index : (d : ℕ) → 32 * d < size - num_direct → fm.index d ≢ f.header_sector

  -- Only the header's sector may read otherwise.
  pub record OnlyHeader (f : OpenFile) (st st' : S) : Type 0 where
    pub good : IsGood st'
    pub sectors : (s : ℕ) → s ≢ f.header_sector → contents st' s ≡ contents st s

  pub Placed-OnlyHeader :
      (f : OpenFile) (fm : FileMap) (size : ℕ) (st st' : S)
      → OnlyHeader f st st'
      → Placed f fm size st
      → Placed f fm size st'
  Placed-OnlyHeader f fm size st st' o p = record {
    on =
        OnDisk-keeps store f.hdr st st' fm size o.good
          (λ d h. o.sectors (fm.index d) (p.no_index d h)) p.on;
    fits = p.fits;
    is_sector = p.is_sector;
    apart = p.apart;
    no_data = p.no_data;
    no_index = p.no_index;
  }

  pub file_byte-OnlyHeader :
      (f : OpenFile) (fm : FileMap) (size : ℕ) (st st' : S) (p : ℕ)
      → OnlyHeader f st st'
      → Placed f fm size st
      → p < f.hdr.num_bytes
      → file_byte store st' fm p ≡ file_byte store st fm p
  file_byte-OnlyHeader f fm size st st' p o at h =
      let k = p / sector_size in
      let fits = at.fits in
      let lt : k < size = omega (arith, h, fits) in
      ap (λ c. bytes_of c (p % sector_size)) (o.sectors (fm.place k) (at.no_data k lt))

  pub record Edged (partial : Bool) (x sector : ℕ) (buf : Buffer) (f : OpenFile) (fm : FileMap)
      (st : S) (r : Buffer × S) : Type 0 where
    pub only : OnlyHeader f st (r.1)
    pub read_in :
        partial ≡ true
        → (j : ℕ) → j < sector_size
        → sector * sector_size + j < f.hdr.num_bytes
        → r.0 (x + j) ≡ file_byte store st fm (sector * sector_size + j)
    pub before : (y : ℕ) → y < x → r.0 y ≡ buf y
    pub untouched : partial ≡ false → (y : ℕ) → r.0 y ≡ buf y

  pub read_edge-Edged :
      (memory : Buffer) (image : FileHeader → List ℤ) (now : ℕ) (partial : Bool) (x sector : ℕ)
      (fm : FileMap) (size : ℕ) (buf : Buffer) (f : OpenFile) (st : S)
      → Placed f fm size st
      → Gives
          (Edged partial x sector buf f fm st)
          (read_edge store memory image now partial x sector buf f st)
  unfolding read_edge
  read_edge-Edged memory image now false x sector fm size buf f st p = record {
    only = record { good = p.on.good; sectors = λ s ne. refl };
    read_in = λ e. absurd (ground (arith, e));
    before = λ y h. refl;
    untouched = λ e y. refl;
  }
  read_edge-Edged memory image now true x sector fm size buf f st p =
      Gives-bind (ReadsIt store st fm (sector * sector_size) sector_size (λ j. buf (x + j)) f)
        (Edged true x sector buf f fm st)
        (read_at store memory image now (λ j. buf (x + j)) sector_size (sector * sector_size) f st)
        (λ (count, into, st'). ok (bcopy into 0 buf x count, st'))
        (read_at-ReadsIt store memory image now fm size sector_size (sector * sector_size)
          (λ j. buf (x + j)) f st p.on p.fits p.is_sector)
        (λ (count, into, st') r. record {
          only = record { good = r.good; sectors = r.sectors };
          read_in = λ e j h inside.
              let is_count = r.count in
              let below : j < count = ground (arith, h, inside, is_count) in
              bcopy_inside into buf 0 x count j below ∙ ap into (omega arith) ∙ r.bytes j below;
          before = λ y h. bcopy_before into buf 0 x count y h;
          untouched = λ e. absurd (ground (arith, e));
        })

  -- The buffer has what the file has around the bytes that are written.
  pub record Framed (n position : ℕ) (f : OpenFile) (fm : FileMap) (st : S) (r : Buffer × S)
      : Type 0 where
    pub only : OnlyHeader f st (r.1)
    pub lower :
        (y : ℕ)
        → first_sector position * sector_size + y < position
        → r.0 y ≡ file_byte store st fm (first_sector position * sector_size + y)
    pub upper :
        (y : ℕ)
        → position + n ≤ first_sector position * sector_size + y
        → first_sector position * sector_size + y < (last_sector n position + 1) * sector_size
        → first_sector position * sector_size + y < f.hdr.num_bytes
        → r.0 y ≡ file_byte store st fm (first_sector position * sector_size + y)

  from_first :
      (partial : Bool) (sector : ℕ) (buf : Buffer) (f : OpenFile) (fm : FileMap) (st : S)
      (r : Buffer × S) (y : ℕ)
      → Edged partial 0 sector buf f fm st r
      → partial ≡ true
      → y < sector_size
      → sector * sector_size + y < f.hdr.num_bytes
      → r.0 y ≡ file_byte store st fm (sector * sector_size + y)
  from_first partial sector buf f fm st r y e reads h inside =
      ap (r.0) (omega arith) ∙ e.read_in reads y h inside

  from_last :
      (partial : Bool) (first last : ℕ) (fm : FileMap) (size : ℕ) (buf : Buffer) (f : OpenFile)
      (st st₁ : S) (r : Buffer × S) (y : ℕ)
      → Placed f fm size st
      → OnlyHeader f st st₁
      → Edged partial ((last - first) * sector_size) last buf f fm st₁ r
      → partial ≡ true
      → first ≤ last
      → last * sector_size ≤ first * sector_size + y
      → first * sector_size + y < (last + 1) * sector_size
      → first * sector_size + y < f.hdr.num_bytes
      → r.0 y ≡ file_byte store st fm (first * sector_size + y)
  from_last partial first last fm size buf f st st₁ r y p only e reads order low high inside =
      let j = first * sector_size + y - last * sector_size in
      let place : last * sector_size + j ≡ first * sector_size + y = omega (arith, low) in
      ap (r.0) (omega (arith, low, order))
      ∙ e.read_in reads j (omega (arith, low, high)) (omega (arith, low, inside))
      ∙ ap (file_byte store st₁ fm) place
      ∙ file_byte-OnlyHeader f fm size st st₁ (first * sector_size + y) only p inside

  pub edges-Framed :
      (n position : ℕ) (fm : FileMap) (size : ℕ) (buf : Buffer) (f : OpenFile) (st : S)
      (r₁ r₂ : Buffer × S)
      → Placed f fm size st
      → 0 < n
      → position + n ≤ f.hdr.num_bytes
      → Edged (starts_inside position) 0 (first_sector position) buf f fm st r₁
      → Edged
          (ends_inside n position)
          ((last_sector n position - first_sector position) * sector_size)
          (last_sector n position)
          (r₁.0)
          f
          fm
          (r₁.1)
          r₂
      → Framed n position f fm st r₂
  edges-Framed n position fm size buf f st r₁ r₂ p some_n inside one two =
      let first = first_sector position in
      let last = last_sector n position in
      record {
        only = record {
          good = two.only.good;
          sectors = λ s ne. two.only.sectors s ne ∙ one.only.sectors s ne;
        };
        lower = λ y h. elim (ℕ_discrete first last) [
          | yes same ↦
              let early : ends_inside n position ≡ false = ground (arith, h, same) in
              two.untouched early y
              ∙ from_first (starts_inside position) first buf f fm st r₁ y one (ground (arith, h))
                  (omega (arith, h)) (omega (arith, h, inside))
          | no apart ↦
              two.before y (omega (arith, h, apart, some_n))
              ∙ from_first (starts_inside position) first buf f fm st r₁ y one (ground (arith, h))
                  (omega (arith, h)) (omega (arith, h, inside))
        ];
        upper = λ y h below size_ok. elim (Bool-cases (ends_inside n position)) [
          | inl reads ↦
              from_last (ends_inside n position) first last fm size (r₁.0) f st (r₁.1) r₂ y p
                one.only two reads (omega arith) (omega (arith, h, some_n)) below size_ok
          | inr quiet ↦
              let unaligned : last_aligned n position ≡ false = ground (arith, h, below) in
              let alone : first ≡ last = ground (arith, quiet, unaligned) in
              let starts : starts_inside position ≡ true = ground (arith, quiet, unaligned) in
              two.untouched quiet y
              ∙ from_first (starts_inside position) first buf f fm st r₁ y one starts
                  (omega (arith, alone, below)) size_ok
        ];
      }
