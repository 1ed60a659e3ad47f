-- ===== src/Filesys/SynchDisk/Miss.antt =====
-- `CacheMiss`: the entry that is evicted is written back, and the sector is swapped in.
use op_prac.Base.{
  ℕ, zero, suc, ◌≤◌, ◌<◌, ◌≡◌, refl, sym, ap, subst, ◌∙◌, ◌≢◌, inl, inr, true, false, ◌&&◌, none,
  some, List, [], ◌∷◌, arith, ok, ◌==◌, if◌then◌else◌, lt→ltb, Bool-cases, length, get_elem?, set,
  All, length-set, get_elem?-set_self, get_elem?-some, All-set,
}
use mathlib.Core.Option.{some-injective}
use op_prac.Base.Int.{pos}
use op_prac.Filesys.SynchDisk.{
  CacheEntry, SynchDisk, num_sectors, is_hit, read_request, write_request, choose, write_back,
  swap_in, cache_miss,
}
use op_prac.Filesys.SynchDisk.View.{cached, view, Alone, EntryOk, IsCoherent, ==ℤ→eq, is_hit_unique}
use op_prac.Filesys.SynchDisk.Table.{cached-none, cached-set, Alone-set, choose-lt}

module _ {ℓ} {D : Type ℓ} where
  abbrev overwrite : ℕ → D → (ℕ → D) → ℕ → D
  overwrite n v disk k = if n == k then v else disk k

  cached-some :
      (es : List (CacheEntry D)) (i : ℕ) (e : CacheEntry D) (m : ℕ)
      → Alone es
      → get_elem? es i ≡ some e
      → is_hit (pos m) e ≡ true
      → cached es m ≡ some e.contents
  unfolding cached
  cached-some [] i e m alone at hit = cc
  cached-some (x ∷ es) zero e m alone at hit = ground arith
  cached-some (x ∷ es) (suc i) e m alone at hit =
      ground (arith, alone.0 m, cached-some es i e m alone.1, cached-none es i e m)

  -- Entries that are not for sector `n` do not mind a write to it.
  EntryOk-other :
      (n : ℕ) (v : D) (disk : ℕ → D) (e : CacheEntry D)
      → is_hit (pos n) e ≡ false
      → EntryOk disk e
      → EntryOk (overwrite n v disk) e
  EntryOk-other n v disk e miss h = record {
    ranged = h.ranged;
    clean = λ k hit fresh.
        let same = h.clean k hit fresh in
        let ne : n ≢ k = λ p. cc (miss, subst (λ j. is_hit (pos j) e ≡ true) (sym p) hit) in
        ground arith;
  }

  EntryOk-others :
      (n : ℕ) (v : D) (disk : ℕ → D) (es : List (CacheEntry D))
      → cached es n ≡ none
      → All (EntryOk disk) es
      → All (EntryOk (overwrite n v disk)) es
  unfolding cached
  EntryOk-others n v disk [] miss h = tt
  EntryOk-others n v disk (e ∷ es) miss h =
      (EntryOk-other n v disk e (ground arith) h.0, EntryOk-others n v disk es (ground arith) h.1)

  EntryOk-written :
      (n : ℕ) (v : D) (disk : ℕ → D) (es : List (CacheEntry D)) (i : ℕ) (e e' : CacheEntry D)
      → Alone es
      → get_elem? es i ≡ some e
      → is_hit (pos n) e ≡ true
      → EntryOk (overwrite n v disk) e'
      → All (EntryOk disk) es
      → All (EntryOk (overwrite n v disk)) (set es i e')
  EntryOk-written n v disk [] i e e' alone at hit new h = tt
  EntryOk-written n v disk (x ∷ es) zero e e' alone at hit new h =
      (new, EntryOk-others n v disk es (alone.0 n (ground arith)) h.1)
  EntryOk-written n v disk (x ∷ es) (suc i) e e' alone at hit new h = (
    EntryOk-other n v disk x (ground (arith, alone.0 n, cached-none es i e n at)) h.0,
    EntryOk-written n v disk es i e e' alone.1 at hit new h.1,
  )

  -- What the write-back leaves behind: the same view, and an entry that can be dropped.
  pub record Freed (d d' : SynchDisk D) (evict : ℕ) : Type ℓ where
    pub coherent : IsCoherent d'
    pub same_view : (n : ℕ) → view d' n ≡ view d n
    pub none_new : (n : ℕ) → cached d.cache_table n ≡ none → cached d'.cache_table n ≡ none
    pub entry : CacheEntry D
    pub found : get_elem? d'.cache_table evict ≡ some entry
    pub droppable : (n : ℕ) → is_hit (pos n) entry ≡ true → entry.contents ≡ d'.disk n

  write_back_dirty :
      (d : SynchDisk D) (evict : ℕ) (e : CacheEntry D) (s : ℕ)
      → IsCoherent d
      → get_elem? d.cache_table evict ≡ some e
      → evict < length d.cache_table
      → e.valid ≡ true
      → e.dirty ≡ true
      → e.sector ≡ pos s
      → s < num_sectors
      → (d' : SynchDisk D) × (write_back evict d ≡ ok d') × Freed d d' evict
  unfolding write_back write_request view
  write_back_dirty d evict e s c at lt valid dirty is_s fits =
      let emptied = record e { dirty = false; valid = false } in
      let table = set d.cache_table evict emptied in
      let hit : is_hit (pos s) e ≡ true = ground arith in
      let reads : (m : ℕ)
          → cached table m ≡ (if is_hit (pos m) e then none else cached d.cache_table m) =
        λ m. cached-set d.cache_table evict e emptied m c.alone at (λ hit. cc) in
      (
        record { disk = overwrite s e.contents d.disk; cache_table = table },
        rw (at, valid, dirty, is_s, lt→ltb s num_sectors fits) refl,
        record {
          coherent = record {
            sized = length-set d.cache_table evict emptied ∙ c.sized;
            alone = Alone-set d.cache_table evict e emptied c.alone at (λ m hit. cc);
            entries_ok =
                EntryOk-written s e.contents d.disk d.cache_table evict e emptied c.alone at hit
                  (record { ranged = λ v. cc; clean = λ n hit. cc }) c.entries_ok;
          };
          same_view = λ m. ground (
            arith,
            reads m,
            cached-some d.cache_table evict e m c.alone at,
            is_hit_unique e s m hit,
            hit,
          );
          none_new = λ m h. ground (arith, reads m);
          entry = emptied;
          found = get_elem?-set_self d.cache_table evict emptied lt;
          droppable = λ n hit. cc;
        },
      )

  pub write_back_lem :
      (d : SynchDisk D) (evict : ℕ) (e : CacheEntry D)
      → IsCoherent d
      → get_elem? d.cache_table evict ≡ some e
      → EntryOk d.disk e
      → evict < length d.cache_table
      → (d' : SynchDisk D) × (write_back evict d ≡ ok d') × Freed d d' evict
  unfolding write_back
  write_back_lem d evict e c at h lt = elim (Bool-cases (e.valid && e.dirty)) [
    | inl dirty ↦
        let (s, is_s, fits) = h.ranged (ground arith) in
        write_back_dirty d evict e s c at lt (ground arith) (ground arith) is_s fits
    | inr kept ↦ (
      d,
      rw at (rw kept refl),
      record {
        coherent = c;
        same_view = λ n. refl;
        none_new = λ n miss. miss;
        entry = e;
        found = at;
        droppable = λ n hit. h.clean n hit (ground arith);
      },
    )
  ]

  pub EntryOk-at :
      (disk : ℕ → D) (es : List (CacheEntry D)) (i : ℕ) {e : CacheEntry D}
      → get_elem? es i ≡ some e
      → All (EntryOk disk) es
      → EntryOk disk e
  EntryOk-at disk [] i at h = absurd (cc)
  EntryOk-at disk (x ∷ es) zero at h = subst (EntryOk disk) (some-injective _ _ at) h.0
  EntryOk-at disk (x ∷ es) (suc i) at h = EntryOk-at disk es i at h.1

  swap_in_lem :
      (d : SynchDisk D) (s now evict : ℕ) (e : CacheEntry D)
      → IsCoherent d
      → get_elem? d.cache_table evict ≡ some e
      → ((n : ℕ) → is_hit (pos n) e ≡ true → e.contents ≡ d.disk n)
      → s < num_sectors
      → cached d.cache_table s ≡ none
      → (d' : SynchDisk D) × (swap_in (pos s) now evict d ≡ ok d')
        × IsCoherent d'
        × ((n : ℕ) → view d' n ≡ view d n)
        × (cached d'.cache_table s ≡ some (d.disk s))
  unfolding swap_in read_request view
  swap_in_lem d s now evict e c at droppable fits miss =
      let filled : CacheEntry D = record {
        valid = true;
        dirty = false;
        sector = pos s;
        lru = now;
        contents = d.disk s;
      } in
      let free : (m : ℕ) → is_hit (pos m) filled ≡ true → cached d.cache_table m ≡ none =
        λ m hit. let same : s ≡ m = ground arith in rw (← same) miss in
      let reads = λ (m : ℕ). cached-set d.cache_table evict e filled m c.alone at (free m) in
      (
        record d { cache_table = set d.cache_table evict filled },
        rw (at, lt→ltb s num_sectors fits) refl,
        record {
          sized = length-set d.cache_table evict filled ∙ c.sized;
          alone = Alone-set d.cache_table evict e filled c.alone at free;
          entries_ok =
              All-set (EntryOk d.disk) d.cache_table evict filled
                (record {
                  ranged = λ v. (s, refl, fits);
                  clean = λ n hit fresh. ap d.disk (ground arith);
                })
                c.entries_ok;
        },
        (λ m.
            ground (
              arith,
              reads m,
              free m,
              droppable m,
              cached-some d.cache_table evict e m c.alone at,
            )),
        ground (arith, reads s),
      )

  -- After a miss the sector is in the cache, and the view is as before.
  pub cache_miss_lem :
      (d : SynchDisk D) (s now : ℕ)
      → IsCoherent d
      → s < num_sectors
      → cached d.cache_table s ≡ none
      → (d' : SynchDisk D) × (cache_miss (pos s) now d ≡ ok d')
        × IsCoherent d'
        × ((n : ℕ) → view d' n ≡ view d n)
        × ((v : D) × (cached d'.cache_table s ≡ some v))
  unfolding cache_miss
  cache_miss_lem d s now c fits miss =
      let lt = choose-lt d.cache_table (omega (arith, c.sized)) in
      let (e, at) = get_elem?-some d.cache_table (choose d.cache_table) lt in
      let (freed, done, f) =
        write_back_lem d (choose d.cache_table) e c at
          (EntryOk-at d.disk d.cache_table (choose d.cache_table) at c.entries_ok) lt in
      let (d', done', c', same, now_in) =
        swap_in_lem freed s now (choose d.cache_table) f.entry f.coherent f.found f.droppable fits
          (f.none_new s miss) in
      (d', rw done done', c', (λ n. same n ∙ f.same_view n), (freed.disk s, now_in))

  pub cached_out :
      (disk : ℕ → D) (es : List (CacheEntry D)) (s : ℕ)
      → num_sectors ≤ s
      → All (EntryOk disk) es
      → cached es s ≡ none
  unfolding cached
  cached_out disk [] s out h = refl
  cached_out disk (e ∷ es) s out h = elim (Bool-cases (is_hit (pos s) e)) [
    | inl hit ↦
        let (n, at, lt) = h.0.ranged (ground arith) in
        let same = ==ℤ→eq e.sector s (ground arith) in absurd (ground arith)
    | inr miss ↦ rw miss (cached_out disk es s out h.1)
  ]
