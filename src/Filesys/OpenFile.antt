-- ===== src/Filesys/OpenFile.antt =====
-- code/filesys/openfile.cc: an open file, and FetchFrom and WriteBack of filehdr.cc.
-- A buffer is a function from its indices. `memory` is what a new buffer held before. A sector that
-- holds data is the list of its bytes. How a `FileHeader`, its times included, lies in memory is up to
-- the compiler: `image` is what its bytes are as the contents of a sector, and `object` the header that
-- they are. The locks of synchdisk.cc are left out.
-- `ExtendWrapper` of filesys.cc, which makes a file longer, is the argument `extend`.
-- A position in a file and a number of bytes are not negative.
pub mod Sectors
pub mod Loads
pub mod Reads
pub mod Slots
pub mod Edges
pub mod Written
pub mod Writes
pub mod Fresh
mod Tests
use op_prac.Base.{
  ℕ, zero, suc, ◌+◌, ◌-◌, ◌*◌, ◌/◌, ◌%◌, ◌^◌, ◌≤◌, ◌<◌, ◌≡◌, refl, sym, ap, subst, ◌∙◌, ◌≢◌, ◌↔◌,
  ◌⊎◌, inl, inr, Bool, true, false, not, ◌&&◌, ◌||◌, Option, none, some, List, [], ◌∷◌, ◌++◌, map,
  arith, dec_lt, dec_le, ℕ_discrete, Error, assert_failed, bad_access, arithmetic_fault,
  out_of_fuel, Result, ok, err, ◌>>=◌, ◌>>◌, assert, or_fault, Result-cases, ltb, leb, ◌==◌,
  if◌then◌else◌, ltb→lt, lt→ltb, le→ltb, lt→leb, le→leb, leb→le, ==_iff, tests, Bool-cases,
  Option-cases, length, get_elem?, set, get_or, take, drop, replicate, All, length-append,
  length-set, length-replicate, get_or-set_self, get_or-set_ne, get_elem?-eq-get_or, get_elem?-none,
  get_elem?-set_self, get_elem?-set_ne, get_elem?-append, get_elem?-some, All-set, All-get_or,
  bit_and, bit_or, bit_xor, Gives, Gives-bind, Gives-map, update, update_self, update_ne,
}
use op_prac.Base.Int.{ℤ, pos, pos_part}
use op_prac.Userprog.Bitmap.{div_round_up}
use op_prac.Filesys.SectorStore.{SectorStore}
use op_prac.Filesys.FileHeader.{FileHeader, byte_to_sector, sector_size, file_length}

abbrev pub Buffer : Type 0
Buffer = ℕ → ℤ

-- `bcopy(&from[i], &to[j], n)`
pub bcopy : Buffer → ℕ → Buffer → ℕ → ℕ → Buffer
bcopy from i to j n k = if leb j k && ltb k (j + n) then from (i + (k - j)) else to k

-- The bytes of a sector.
abbrev pub bytes_of : List ℤ → Buffer
bytes_of sector i = get_or sector i (pos 0)

pub record OpenFile : Type 0 where
  pub hdr : FileHeader
  pub seek_position : ℕ
  pub header_sector : ℕ

-- `Seek`
abbrev pub seek : ℕ → OpenFile → OpenFile
seek position f = record f { seek_position = position }

-- How many bytes a request for `n` bytes at `position` gets.
abbrev pub granted : ℕ → ℕ → FileHeader → ℕ
granted n position hdr =
    if ltb (file_length hdr) (position + n) then file_length hdr - position else n

-- The sectors that `n` bytes at `position` lie in: `firstSector` and `numSectors`.
abbrev pub first_sector : ℕ → ℕ
first_sector position = position / sector_size

abbrev pub sector_count : ℕ → ℕ → ℕ
sector_count n position = 1 + (position + n - 1) / sector_size - first_sector position

module _ {S : Type 0} (store : SectorStore S) where
  open store use {read, write}

  pub write_back : (FileHeader → List ℤ) → ℕ → ℕ → FileHeader → S → Result S
  write_back image now sector hdr st = write (pos sector) (image hdr) now st

  unfoldable pub fetch_from : (List ℤ → FileHeader) → ℕ → ℕ → S → Result (FileHeader × S)
  fetch_from object now sector st = do
    (words, st') ← read (pos sector) now st
    words' ← or_fault words
    ok (object words', st')

  -- The constructor.
  unfoldable pub open_file : (List ℤ → FileHeader) → ℕ → ℕ → S → Result (OpenFile × S)
  open_file object now sector st = do
    (hdr, st') ← fetch_from object now sector st
    ok (record { hdr = hdr; seek_position = 0; header_sector = sector }, st')

  -- One round of the loop over the sectors: sector `first + d` of the file, into slot `d` of `buf`.
  pub read_slot : ℕ → FileHeader → ℕ → ℕ → Buffer → S → Result (Buffer × S)
  read_slot now hdr first d buf st = do
    (sector, st') ← byte_to_sector store now ((first + d) * sector_size) hdr st
    (contents, st'') ← read sector now st'
    bytes ← or_fault contents
    ok (bcopy (bytes_of bytes) 0 buf (d * sector_size) sector_size, st'')

  pub read_slots : ℕ → ℕ → FileHeader → ℕ → ℕ → Buffer → S → Result (Buffer × S)
  read_slots now zero hdr first d buf st = ok (buf, st)
  read_slots now (suc n) hdr first d buf st = do
    (buf', st') ← read_slot now hdr first d buf st
    read_slots now n hdr first (d + 1) buf' st'

  -- `ReadAt` once `numBytes` is cut to `n`.
  pub transfer :
      Buffer → (FileHeader → List ℤ) → ℕ → Buffer → ℕ → ℕ → OpenFile → S → Result (ℕ × Buffer × S)
  transfer memory image now into n position f st = do
    let first = first_sector position
    (buf, st') ← read_slots now (sector_count n position) f.hdr first 0 memory st
    st'' ← write_back image now f.header_sector f.hdr st'
    ok (n, bcopy buf (position - first * sector_size) into 0 n, st'')

  -- The number of bytes, what `into` holds behind it, and the disk.
  pub read_at :
      Buffer → (FileHeader → List ℤ) → ℕ → Buffer → ℕ → ℕ → OpenFile → S → Result (ℕ × Buffer × S)
  read_at memory image now into n position f st =
      if n == 0 || leb (file_length f.hdr) position
      then ok (0, into, st)
      else transfer memory image now into (granted n position f.hdr) position f st

  -- `Read`
  unfoldable pub read_on :
      Buffer
      → (FileHeader → List ℤ)
      → ℕ
      → Buffer
      → ℕ
      → OpenFile
      → S
      → Result (ℕ × Buffer × OpenFile × S)
  read_on memory image now into n f st = do
    (count, into', st') ← read_at memory image now into n f.seek_position f st
    ok (count, into', record f { seek_position = f.seek_position + count }, st')

-- `n` bytes of a buffer, as they are written to a sector.
pub tabulate : ℕ → Buffer → List ℤ
tabulate zero buf = []
tabulate (suc n) buf = buf 0 ∷ tabulate n (λ j. buf (suc j))

-- `firstAligned` and `lastAligned`
abbrev pub first_aligned : ℕ → Bool
first_aligned position = position == first_sector position * sector_size

abbrev pub last_sector : ℕ → ℕ → ℕ
last_sector n position = (position + n - 1) / sector_size

abbrev pub last_aligned : ℕ → ℕ → Bool
last_aligned n position = position + n == (last_sector n position + 1) * sector_size

module _ {S : Type 0} (store : SectorStore S) where
  open store use {write}

  -- `ReadAt(&buf[x], SectorSize, sector * SectorSize)`, if `partial`.
  pub read_edge :
      Buffer
      → (FileHeader → List ℤ)
      → ℕ
      → Bool
      → ℕ
      → ℕ
      → Buffer
      → OpenFile
      → S
      → Result (Buffer × S)
  read_edge memory image now partial x sector buf f st =
      if partial
      then (do
        (count, into, st') ←
            read_at store memory image now (λ j. buf (x + j)) sector_size (sector * sector_size) f
              st
        ok (bcopy into 0 buf x count, st'))
      else ok (buf, st)

  -- One round of the loop over the sectors: slot `d` of `buf` into sector `first + d` of the file.
  pub write_slot : ℕ → FileHeader → ℕ → ℕ → Buffer → S → Result S
  write_slot now hdr first d buf st = do
    (sector, st') ← byte_to_sector store now ((first + d) * sector_size) hdr st
    write sector (tabulate sector_size (λ j. buf (d * sector_size + j))) now st'

  pub write_slots : ℕ → ℕ → FileHeader → ℕ → ℕ → Buffer → S → Result S
  write_slots now zero hdr first d buf st = ok st
  write_slots now (suc n) hdr first d buf st = do
    st' ← write_slot now hdr first d buf st
    write_slots now n hdr first (d + 1) buf st'

  -- `WriteAt` once `numBytes` is settled as `n`. `memory` is what the buffers held.
  pub write_through : Buffer → (FileHeader → List ℤ) → ℕ → Buffer → ℕ → ℕ → OpenFile → S → Result S
  write_through memory image now from n position f st = do
    let first = first_sector position
    let last = last_sector n position
    (buf₁, st₁) ← read_edge memory image now (not (first_aligned position)) 0 first memory f st
    (buf₂, st₂) ←
        read_edge memory image now
          (not (last_aligned n position) && (not (first == last) || first_aligned position))
          ((last - first) * sector_size) last buf₁ f st₁
    let buf₃ = bcopy from 0 buf₂ (position - first * sector_size) n
    st₃ ← write_slots now (sector_count n position) f.hdr first 0 buf₃ st₂
    write_back store image now f.header_sector f.hdr st₃

  pub write_at :
      (ℕ → ℕ → FileHeader → ℕ → S → Result (Bool × FileHeader × S))
      → Buffer
      → (FileHeader → List ℤ)
      → ℕ
      → Buffer
      → ℕ
      → ℕ
      → OpenFile
      → S
      → Result (ℕ × OpenFile × S)
  write_at extend memory image now from n position f st =
      if n == 0 || leb (file_length f.hdr) position
      then ok (0, f, st)
      else if ltb (file_length f.hdr) (position + n)
      then (do
        let size = file_length f.hdr
        let more = div_round_up (position + n) sector_size - div_round_up size sector_size
        (extended, hdr, st') ← extend (position + n) f.header_sector f.hdr more st
        let f' = record f { hdr = hdr }
        let n' = if extended then n else size - position
        st'' ← write_through memory image now from n' position f' st'
        ok (n', f', st''))
      else (write_through memory image now from n position f st >>= λ st'. ok (n, f, st'))

  -- `Write`
  unfoldable pub write_on :
      (ℕ → ℕ → FileHeader → ℕ → S → Result (Bool × FileHeader × S))
      → Buffer
      → (FileHeader → List ℤ)
      → ℕ
      → Buffer
      → ℕ
      → OpenFile
      → S
      → Result (ℕ × OpenFile × S)
  write_on extend memory image now from n f st = do
    (count, f', st') ← write_at extend memory image now from n f.seek_position f st
    ok (count, record f' { seek_position = f'.seek_position + count }, st')
