-- ===== src/Filesys/SynchDisk/Tests.antt =====
-- Runs of the cached disk on small inputs, and its theorems at a concrete disk.
use op_prac.Base.{
  ℕ, ◌+◌, ◌≡◌, refl, Bool, true, false, some, List, [], ◌∷◌, arith, Result, ok, ◌>>=◌, ◌==◌,
  if◌then◌else◌,
}
use op_prac.Base.Int.{pos}
use op_prac.Filesys.SynchDisk.{
  CacheEntry, SynchDisk, read_sector, write_sector, cache_miss, write_back, swap_in, new_synch_disk,
  write_request, read_request, read_hits, choose,
}
use op_prac.Filesys.SynchDisk.View.{view, cached, IsCoherent}
use op_prac.Filesys.SynchDisk.Refines.{
  read_sector-view, write_sector-view, new_synch_disk-IsCoherent,
}

abbrev noise : CacheEntry ℕ
noise = record { valid = true; dirty = true; sector = pos 3; lru = 9; contents = 77 }

abbrev memory : List (CacheEntry ℕ)
memory = noise ∷ noise ∷ noise ∷ noise ∷ noise ∷ noise ∷ noise ∷ noise ∷ []

-- Sector `n` holds `n + 100`.
abbrev fresh : SynchDisk ℕ
fresh = new_synch_disk (λ n. n + 100) 5 memory

fresh-IsCoherent : IsCoherent fresh
fresh-IsCoherent = (new_synch_disk-IsCoherent (λ n. n + 100) 5 memory refl).0

abbrev entry_for : ℕ → Bool → ℕ → CacheEntry ℕ
entry_for s dirty lru = record {
  valid = true;
  dirty = dirty;
  sector = pos s;
  lru = lru;
  contents = s + 200;
}

-- All entries are taken; the one for sector 14 is the oldest, and changed.
abbrev full_table : List (CacheEntry ℕ)
full_table =
    entry_for 10 true 30
    ∷ entry_for 11 false 31
    ∷ entry_for 12 false 32
    ∷ entry_for 13 false 33
    ∷ entry_for 14 true 20
    ∷ entry_for 15 false 35
    ∷ entry_for 16 false 36
    ∷ entry_for 17 false 37
    ∷ []

abbrev both : SynchDisk ℕ → ℕ → ℕ → Result (ℕ × ℕ)
both d s t = do (_, d') ← read_sector (pos s) 40 d; ok (d'.disk t, view d' t)

-- A read on a miss writes the evicted sector to the disk before its entry is filled again.
evicted_is_written :
    both (record { disk = λ n. n + 100; cache_table = full_table }) 20 14 ≡ ok (214, 214)
unfolding read_sector cache_miss write_back swap_in write_request read_request view read_hits choose
    cached
evicted_is_written = refl

-- A dirty entry that stays in the cache is not yet on the disk.
changed_is_cached :
    both (record { disk = λ n. n + 100; cache_table = full_table }) 20 10 ≡ ok (110, 210)
unfolding read_sector cache_miss write_back swap_in write_request read_request view read_hits choose
    cached
changed_is_cached = refl

read_sector-view_example :
    (d' : SynchDisk ℕ) × (read_sector (pos 7) 40 fresh ≡ ok (some (view fresh 7), d'))
    × IsCoherent d'
    × ((n : ℕ) → view d' n ≡ view fresh n)
read_sector-view_example = read_sector-view fresh 7 40 fresh-IsCoherent (omega arith)

write_sector-view_example :
    (d' : SynchDisk ℕ) × (write_sector (pos 7) 55 40 fresh ≡ ok d')
    × IsCoherent d'
    × ((n : ℕ) → view d' n ≡ (if 7 == n then 55 else view fresh n))
write_sector-view_example = write_sector-view fresh 7 55 40 fresh-IsCoherent (omega arith)
