-- ===== src/Filesys/SynchDisk/View.antt =====
-- The disk as its users see it: for each sector the cached contents, or else those on the disk.
use op_prac.Base.{
  ℕ, ◌<◌, ◌≡◌, true, false, Option, none, some, List, [], ◌∷◌, arith, if◌then◌else◌, length, All,
}
use mathlib.Core.Option
use op_prac.Base.Int.{ℤ, pos, negsuc, ◌==ℤ◌}
use op_prac.Filesys.SynchDisk.{CacheEntry, SynchDisk, num_sectors, cache_size, is_hit}

abbrev pub InRange : ℤ → Type 0
InRange z = (n : ℕ) × (z ≡ pos n) × (n < num_sectors)

pub ==ℤ→eq : (z : ℤ) (n : ℕ) → (z ==ℤ pos n) ≡ true → z ≡ pos n
==ℤ→eq (pos m) n h = ground arith
==ℤ→eq (negsuc m) n h = absurd (cc)

module _ {ℓ} {D : Type ℓ} where
  -- What the first entry for a sector holds.
  unfoldable pub cached : List (CacheEntry D) → ℕ → Option D
  cached [] n = none
  cached (e ∷ es) n = if is_hit (pos n) e then some e.contents else cached es n

  unfoldable pub view : SynchDisk D → ℕ → D
  view d n = Option.get_or (cached d.cache_table n) (d.disk n)

  -- No sector is in two entries.
  abbrev pub Alone : List (CacheEntry D) → Type ℓ
  Alone [] = Unit
  Alone (e ∷ es) = ((n : ℕ) → is_hit (pos n) e ≡ true → cached es n ≡ none) × Alone es

  -- A valid entry is for a sector of the disk, and holds what the disk holds unless it is dirty.
  pub record EntryOk (disk : ℕ → D) (e : CacheEntry D) : Type ℓ where
    pub ranged : e.valid ≡ true → InRange e.sector
    pub clean : (n : ℕ) → is_hit (pos n) e ≡ true → e.dirty ≡ false → e.contents ≡ disk n

  pub record IsCoherent (d : SynchDisk D) : Type ℓ where
    pub sized : length d.cache_table ≡ cache_size
    pub alone : Alone d.cache_table
    pub entries_ok : All (EntryOk d.disk) d.cache_table

  -- An entry is hit by one sector at most.
  pub is_hit_unique :
      (e : CacheEntry D) (m n : ℕ) → is_hit (pos m) e ≡ true → is_hit (pos n) e ≡ true → m ≡ n
  is_hit_unique e m n h k =
      let a = ==ℤ→eq e.sector m (ground arith) in
      let b = ==ℤ→eq e.sector n (ground arith) in ground arith
