-- ===== src/Filesys/SynchDisk.antt =====
-- code/filesys/synchdisk.h and synchdisk.cc: reads and writes of whole sectors through a write-back
-- cache of eight entries, over the raw disk of code/machine/disk.cc.
-- One thread at a time: a call runs to its end with no other between, so the lock and the wait for
-- the disk interrupt have no effect that the caller sees. What 128 bytes of a sector are does not
-- matter here: `D` is their type. `now` is `stats->totalTicks`, taken once for each call.
pub mod View
pub mod Table
pub mod Miss
pub mod Refines
mod Tests
use op_prac.Base.{
  ℕ, zero, suc, ◌+◌, ◌-◌, ◌*◌, ◌/◌, ◌%◌, ◌^◌, ◌≤◌, ◌<◌, ◌≡◌, refl, sym, ap, subst, ◌∙◌, ◌≢◌, ◌↔◌,
  ◌⊎◌, inl, inr, Bool, true, false, not, ◌&&◌, ◌||◌, Option, none, some, List, [], ◌∷◌, ◌++◌, map,
  arith, dec_lt, dec_le, ℕ_discrete, Error, assert_failed, bad_access, out_of_fuel, Result, ok, err,
  ◌>>=◌, ◌>>◌, assert, or_fault, Result-cases, ltb, leb, ◌==◌, if◌then◌else◌, ltb→lt, lt→ltb,
  le→ltb, leb→le, ==_iff, tests, Bool-cases, Option-cases, length, get_elem?, set, get_or, take,
  drop, replicate, All, length-append, length-set, length-replicate, get_or-set_self, get_or-set_ne,
  get_elem?-eq-get_or, get_elem?-none, All-set, All-get_or, bit_and, bit_or, bit_xor,
}
use op_prac.Base.Int.{ℤ, pos, negsuc, ◌==ℤ◌}

abbrev pub num_sectors : ℕ
num_sectors = 1024

abbrev pub cache_size : ℕ
cache_size = 8

pub record CacheEntry {ℓ} (D : Type ℓ) : Type ℓ where
  pub valid : Bool
  pub dirty : Bool
  pub sector : ℤ
  pub lru : ℕ
  pub contents : D

pub record SynchDisk {ℓ} (D : Type ℓ) : Type ℓ where
  pub disk : ℕ → D
  pub cache_table : List (CacheEntry D)

module _ {ℓ} {D : Type ℓ} where
  -- `Disk::ReadRequest` and `Disk::WriteRequest`: the bounds check and the transfer.
  pub read_request : ℤ → (ℕ → D) → Result D
  read_request (negsuc _) disk = err assert_failed
  read_request (pos s) disk = assert (ltb s num_sectors) >> ok (disk s)

  pub write_request : ℤ → D → (ℕ → D) → Result (ℕ → D)
  write_request (negsuc _) buffer disk = err assert_failed
  write_request (pos s) buffer disk =
      assert (ltb s num_sectors) >> ok (λ n. if s == n then buffer else disk n)

  -- `valid && sector == sectorNumber`
  abbrev pub is_hit : ℤ → CacheEntry D → Bool
  is_hit s e = e.valid && (e.sector ==ℤ s)

  -- The loop of `ReadSector` over the whole table: the last entry that is hit fills the buffer.
  pub read_hits : ℤ → ℕ → List (CacheEntry D) → Option D → List (CacheEntry D) × Option D
  read_hits s now [] buffer = ([], buffer)
  read_hits s now (e ∷ es) buffer =
      let (es', buffer') = read_hits s now es (if is_hit s e then some e.contents else buffer) in
      ((if is_hit s e then record e { lru = now } else e) ∷ es', buffer')

  pub write_hits : ℤ → ℕ → D → List (CacheEntry D) → Bool → List (CacheEntry D) × Bool
  write_hits s now buffer [] hit = ([], hit)
  write_hits s now buffer (e ∷ es) hit =
      let (es', hit') = write_hits s now buffer es (if is_hit s e then true else hit) in
      (
        (if is_hit s e then record e { contents = buffer; lru = now; dirty = true } else e) ∷ es',
        hit',
      )

  -- The first loop of `CacheMiss` from entry `i` on, `evict` being the choice so far and `oldest`
  -- its time.
  pub choose_from : List (CacheEntry D) → ℕ → ℕ → ℕ → ℕ
  choose_from [] i evict oldest = evict
  choose_from (e ∷ es) i evict oldest =
      let older = ltb e.lru oldest in
      let rest =
        choose_from es (i + 1) (if older then i else evict) (if older then e.lru else oldest) in
      if e.valid then rest else i

  pub choose : List (CacheEntry D) → ℕ
  unfolding choose_from
  choose [] = 0
  choose (e ∷ es) = choose_from (e ∷ es) 0 0 e.lru

  -- The write-back of `CacheMiss`.
  pub write_back : ℕ → SynchDisk D → Result (SynchDisk D)
  write_back evict d = do
    e ← or_fault (get_elem? d.cache_table evict)
    if e.valid && e.dirty
        then (do
          disk' ← write_request e.sector e.contents d.disk
          let emptied = record e { dirty = false; valid = false }
          ok (record { disk = disk'; cache_table = set d.cache_table evict emptied }))
        else ok d

  -- Its second half, which swaps the sector in.
  pub swap_in : ℤ → ℕ → ℕ → SynchDisk D → Result (SynchDisk D)
  swap_in s now evict d = do
    e ← or_fault (get_elem? d.cache_table evict)
    buffer ← read_request s d.disk
    let filled : CacheEntry D = record {
      valid = true;
      dirty = false;
      sector = s;
      lru = now;
      contents = buffer;
    }
    ok (record d { cache_table = set d.cache_table evict filled })

  pub cache_miss : ℤ → ℕ → SynchDisk D → Result (SynchDisk D)
  cache_miss s now d =
      let evict = choose d.cache_table in write_back evict d >>= swap_in s now evict

  -- What follows the first loop of `ReadSector`: on a miss, the loop again after `CacheMiss`.
  read_after :
      ℤ → ℕ → SynchDisk D → List (CacheEntry D) × Option D → Result (Option D × SynchDisk D)
  read_after s now d (table, some found) = ok (some found, record d { cache_table = table })
  read_after s now d (table, none) = do
    d' ← cache_miss s now (record d { cache_table = table })
    let (table', buffer') = read_hits s now d'.cache_table none
    ok (buffer', record d' { cache_table = table' })

  -- The result is what the caller's buffer holds, `none` if it was left alone.
  pub read_sector : ℤ → ℕ → SynchDisk D → Result (Option D × SynchDisk D)
  unfolding read_after
  read_sector s now d = read_after s now d (read_hits s now d.cache_table none)

  write_after : ℤ → D → ℕ → SynchDisk D → List (CacheEntry D) × Bool → Result (SynchDisk D)
  write_after s buffer now d (table, true) = ok (record d { cache_table = table })
  write_after s buffer now d (table, false) = do
    d' ← cache_miss s now (record d { cache_table = table })
    let (table', hit') = write_hits s now buffer d'.cache_table false
    ok (record d' { cache_table = table' })

  pub write_sector : ℤ → D → ℕ → SynchDisk D → Result (SynchDisk D)
  unfolding write_after
  write_sector s buffer now d =
      write_after s buffer now d (write_hits s now buffer d.cache_table false)

  -- The constructor: every entry is empty. What the entries hold besides is what memory held.
  pub new_synch_disk : (ℕ → D) → ℕ → List (CacheEntry D) → SynchDisk D
  new_synch_disk disk now memory = record {
    disk = disk;
    cache_table =
        map {A = CacheEntry D} (λ e. record e { dirty = false; valid = false; lru = now }) memory;
  }
