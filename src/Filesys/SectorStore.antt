-- ===== src/Filesys/SectorStore.antt =====
-- What the file system asks of the disk: sectors that are read as they were last written.
-- A sector that holds disk addresses is the list of its `int`s.
use op_prac.Base.{ℕ, ◌<◌, ◌≡◌, Option, some, List, Result, ok, ◌==◌, if◌then◌else◌}
use op_prac.Base.Int.{ℤ, pos}
use op_prac.Filesys.SynchDisk.{SynchDisk, num_sectors, read_sector, write_sector}
use op_prac.Filesys.SynchDisk.View.{view, IsCoherent}
use op_prac.Filesys.SynchDisk.Refines.{read_sector-view, write_sector-view}

pub record SectorStore (S : Type 0) : Type 1 where
  pub IsGood : S → Type 0
  pub contents : S → ℕ → List ℤ
  pub read : ℤ → ℕ → S → Result (Option (List ℤ) × S)
  pub write : ℤ → List ℤ → ℕ → S → Result S
  pub read_lem :
      (st : S) (s now : ℕ)
      → IsGood st
      → s < num_sectors
      → (st' : S) × (read (pos s) now st ≡ ok (some (contents st s), st'))
        × IsGood st'
        × ((n : ℕ) → contents st' n ≡ contents st n)
  pub write_lem :
      (st : S) (s : ℕ) (v : List ℤ) (now : ℕ)
      → IsGood st
      → s < num_sectors
      → (st' : S) × (write (pos s) v now st ≡ ok st')
        × IsGood st'
        × ((n : ℕ) → contents st' n ≡ (if s == n then v else contents st n))

-- The cached disk is such a store.
abbrev pub synch_disk_store : SectorStore (SynchDisk (List ℤ))
synch_disk_store = record {
  IsGood = IsCoherent;
  contents = view;
  read = read_sector;
  write = write_sector;
  read_lem = read_sector-view;
  write_lem = write_sector-view;
}
