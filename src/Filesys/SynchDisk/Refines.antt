-- ===== src/Filesys/SynchDisk/Refines.antt =====
-- Reads and writes through the cache refine those of a plain array of sectors.
use op_prac.Base.{
  ℕ, suc, ◌≤◌, ◌<◌, ◌≡◌, refl, sym, ap, ◌∙◌, inl, inr, false, none, some, List, [], ◌∷◌, map, arith,
  assert_failed, ok, err, ◌==◌, if◌then◌else◌, le→ltb, Option-cases, length, All, get_elem?-some,
}
use op_prac.Base.Int.{pos}
use op_prac.Filesys.SynchDisk.{
  CacheEntry, SynchDisk, num_sectors, cache_size, read_request, choose, swap_in, cache_miss,
  read_sector, write_sector, new_synch_disk,
}
use op_prac.Filesys.SynchDisk.View.{cached, view, Alone, EntryOk, IsCoherent}
use op_prac.Filesys.SynchDisk.Table.{
  touch, refill, read_hits_lem, cached-touch, Alone-touch, EntryOk-touch, length-touch,
  write_hits_lem, cached-refill, Alone-refill, EntryOk-refill, length-refill, refill_miss,
  choose-lt,
}
use op_prac.Filesys.SynchDisk.Miss.{write_back_lem, EntryOk-at, cache_miss_lem, cached_out}

module _ {ℓ} {D : Type ℓ} where
  -- The table after the hits of a read, or of a write, were handled.
  touched_lem :
      (d : SynchDisk D) (n now : ℕ)
      → IsCoherent d
      → IsCoherent (record d { cache_table = touch n now d.cache_table })
  touched_lem d n now c = record {
    sized = length-touch n now d.cache_table ∙ c.sized;
    alone = Alone-touch n now d.cache_table c.alone;
    entries_ok = EntryOk-touch d.disk n now d.cache_table c.entries_ok;
  }

  view-cached : (d : SynchDisk D) (n : ℕ) {v : D} → cached d.cache_table n ≡ some v → view d n ≡ v
  unfolding view
  view-cached d n e = rw e refl

  view-touched :
      (d : SynchDisk D) (n now m : ℕ)
      → view (record d { cache_table = touch n now d.cache_table }) m ≡ view d m
  unfolding view
  view-touched d n now m = rw (cached-touch n now m d.cache_table) refl

  refilled_lem :
      (d : SynchDisk D) (n now : ℕ) (v : D)
      → IsCoherent d
      → IsCoherent (record d { cache_table = refill n now v d.cache_table })
  refilled_lem d n now v c = record {
    sized = length-refill n now v d.cache_table ∙ c.sized;
    alone = Alone-refill n now v d.cache_table c.alone;
    entries_ok = EntryOk-refill d.disk n now v d.cache_table c.entries_ok;
  }

  view-refilled :
      (d : SynchDisk D) (n now : ℕ) (v : D) {old : D} (m : ℕ)
      → cached d.cache_table n ≡ some old
      → view (record d { cache_table = refill n now v d.cache_table }) m
        ≡ (if n == m then v else view d m)
  unfolding view
  view-refilled d n now v m is_in = ground (arith, cached-refill n now v m d.cache_table)

  -- Through a coherent cache, a read of a sector of the disk returns what the sector reads as in the
  -- view, and leaves the view of every sector as it was; the cache stays coherent.
  pub read_sector-view :
      (d : SynchDisk D) (s now : ℕ)
      → IsCoherent d
      → s < num_sectors
      → (d' : SynchDisk D) × (read_sector (pos s) now d ≡ ok (some (view d s), d'))
        × IsCoherent d'
        × ((n : ℕ) → view d' n ≡ view d n)
  unfolding read_sector
  read_sector-view d s now c fits = elim (Option-cases (cached d.cache_table s)) [
    | inr (v, is_in) ↦ (
      record d { cache_table = touch s now d.cache_table },
      rw (read_hits_lem s now d.cache_table none c.alone, is_in) (rw (view-cached d s is_in) refl),
      touched_lem d s now c,
      view-touched d s now,
    )
    | inl miss ↦
        let d₀ = record d { cache_table = touch s now d.cache_table } in
        let (d', done, c', same, (v, is_in)) =
          cache_miss_lem d₀ s now (touched_lem d s now c) fits
            (cached-touch s now s d.cache_table ∙ miss) in
        let seen = sym (view-touched d s now s) ∙ sym (same s) ∙ view-cached d' s is_in in
        (
          record d' { cache_table = touch s now d'.cache_table },
          rw (read_hits_lem s now d.cache_table none c.alone, miss, done)
              (rw (read_hits_lem s now d'.cache_table none c'.alone, is_in, seen) refl),
          touched_lem d' s now c',
          (λ n. view-touched d' s now n ∙ same n ∙ view-touched d s now n),
        )
  ]

  -- Through a coherent cache, a write to a sector of the disk changes what that sector reads as, to what was written, and no
  -- other; the cache stays coherent.
  pub write_sector-view :
      (d : SynchDisk D) (s : ℕ) (v : D) (now : ℕ)
      → IsCoherent d
      → s < num_sectors
      → (d' : SynchDisk D) × (write_sector (pos s) v now d ≡ ok d')
        × IsCoherent d'
        × ((n : ℕ) → view d' n ≡ (if s == n then v else view d n))
  unfolding write_sector
  write_sector-view d s v now c fits = elim (Option-cases (cached d.cache_table s)) [
    | inr (old, is_in) ↦ (
      record d { cache_table = refill s now v d.cache_table },
      rw (write_hits_lem s now v d.cache_table false, is_in) refl,
      refilled_lem d s now v c,
      (λ n. view-refilled d s now v n is_in),
    )
    | inl miss ↦
        let untouched = refill_miss s now v d.cache_table miss in
        let (d', done, c', same, (old, is_in)) = cache_miss_lem d s now c fits miss in
        (
          record d' { cache_table = refill s now v d'.cache_table },
          rw (write_hits_lem s now v d.cache_table false, miss, untouched, done)
              (rw (write_hits_lem s now v d'.cache_table false) refl),
          refilled_lem d' s now v c',
          (λ n. view-refilled d' s now v n is_in ∙ ap (λ w. if s == n then v else w) (same n)),
        )
  ]

  -- A request for a sector that the disk does not have ends the program.
  pub read_sector_out :
      (d : SynchDisk D) (s now : ℕ)
      → IsCoherent d
      → num_sectors ≤ s
      → read_sector (pos s) now d ≡ err assert_failed
  unfolding read_sector cache_miss swap_in read_request
  read_sector_out d s now c out =
      let miss = cached_out d.disk d.cache_table s out c.entries_ok in
      let d₀ = record d { cache_table = touch s now d.cache_table } in
      let c₀ = touched_lem d s now c in
      let lt = choose-lt d₀.cache_table (omega (arith, c₀.sized)) in
      let (e, at) = get_elem?-some d₀.cache_table (choose d₀.cache_table) lt in
      let (freed, done, f) =
        write_back_lem d₀ (choose d₀.cache_table) e c₀ at
          (EntryOk-at d.disk d₀.cache_table (choose d₀.cache_table) at c₀.entries_ok) lt in
      rw (read_hits_lem s now d.cache_table none c.alone, miss)
        (rw (done, f.found, le→ltb s num_sectors out) refl)

  abbrev emptied : ℕ → CacheEntry D → CacheEntry D
  emptied now e = record e { dirty = false; valid = false; lru = now }

  emptied_lem :
      (disk : ℕ → D) (now : ℕ) (memory : List (CacheEntry D))
      → Alone (map (emptied now) memory)
        × All (EntryOk disk) (map (emptied now) memory)
        × (length (map (emptied now) memory) ≡ length memory)
        × ((n : ℕ) → cached (map (emptied now) memory) n ≡ none)
  unfolding cached
  emptied_lem disk now [] = (tt, tt, refl, λ n. refl)
  emptied_lem disk now (e ∷ es) =
      let (alone, entries_ok, size, free) = emptied_lem disk now es in
      (
        ((λ n hit. cc), alone),
        (record { ranged = λ v. cc; clean = λ n hit. cc }, entries_ok),
        ap suc size,
        free,
      )

  -- Whatever memory held, the constructor sets up a coherent cache that shows the disk.
  pub new_synch_disk-IsCoherent :
      (disk : ℕ → D) (now : ℕ) (memory : List (CacheEntry D))
      → length memory ≡ cache_size
      → IsCoherent (new_synch_disk disk now memory)
        × ((n : ℕ) → view (new_synch_disk disk now memory) n ≡ disk n)
  unfolding new_synch_disk view
  new_synch_disk-IsCoherent disk now memory size =
      let (alone, entries_ok, kept, free) = emptied_lem disk now memory in
      (
        record { sized = kept ∙ size; alone = alone; entries_ok = entries_ok },
        λ n. rw (free n) refl,
      )
