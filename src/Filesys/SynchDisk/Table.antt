-- ===== src/Filesys/SynchDisk/Table.antt =====
-- The two ways in which the table of entries changes: all hits are touched, or one entry is replaced.
use op_prac.Base.{
  ℕ, zero, suc, ◌+◌, ◌≤◌, ◌<◌, ◌≡◌, refl, ap, ◌∙◌, inl, inr, Bool, true, false, ◌||◌, Option, none,
  some, List, [], ◌∷◌, arith, ◌==◌, if◌then◌else◌, Bool-cases, length, get_elem?, set, All,
}
use mathlib.Core.Option
use op_prac.Base.Int.{pos}
use op_prac.Filesys.SynchDisk.{CacheEntry, is_hit, read_hits, write_hits, choose_from, choose}
use op_prac.Filesys.SynchDisk.View.{cached, Alone, EntryOk, is_hit_unique}

module _ {ℓ} {D : Type ℓ} where
  -- `f` changes no more than the time, and of entries that are hit by `n` the contents.
  pub touch : ℕ → ℕ → List (CacheEntry D) → List (CacheEntry D)
  touch n now [] = []
  touch n now (e ∷ es) = (if is_hit (pos n) e then record e { lru = now } else e) ∷ touch n now es

  pub refill : ℕ → ℕ → D → List (CacheEntry D) → List (CacheEntry D)
  refill n now v [] = []
  refill n now v (e ∷ es) =
      (if is_hit (pos n) e then record e { contents = v; lru = now; dirty = true } else e)
      ∷ refill n now v es

  abbrev pub or_else : Option D → Option D → Option D
  or_else none b = b
  or_else (some a) b = some a

  pub read_hits_lem :
      (n now : ℕ) (es : List (CacheEntry D)) (buffer : Option D)
      → Alone es
      → read_hits (pos n) now es buffer ≡ (touch n now es, or_else (cached es n) buffer)
  unfolding read_hits touch cached
  read_hits_lem n now [] buffer h = refl
  read_hits_lem n now (e ∷ es) buffer h = elim (Bool-cases (is_hit (pos n) e)) [
    | inl hit ↦ rw hit (rw (read_hits_lem n now es (some e.contents) h.1, h.0 n hit) refl)
    | inr miss ↦ rw miss (rw (read_hits_lem n now es buffer h.1) refl)
  ]

  pub cached-touch :
      (n now m : ℕ) (es : List (CacheEntry D)) → cached (touch n now es) m ≡ cached es m
  unfolding touch cached
  cached-touch n now m [] = refl
  cached-touch n now m (e ∷ es) = ground (arith, cached-touch n now m es)

  pub Alone-touch : (n now : ℕ) (es : List (CacheEntry D)) → Alone es → Alone (touch n now es)
  unfolding touch
  Alone-touch n now [] h = tt
  Alone-touch n now (e ∷ es) h =
      ((λ k hit. cached-touch n now k es ∙ h.0 k (same_hit k hit)), Alone-touch n now es h.1)
    where
      same_hit :
          (k : ℕ)
          → is_hit (pos k) (if is_hit (pos n) e then record e { lru = now } else e) ≡ true
          → is_hit (pos k) e ≡ true
      same_hit k hit = ground arith

  pub EntryOk-touch :
      (disk : ℕ → D) (n now : ℕ) (es : List (CacheEntry D))
      → All (EntryOk disk) es
      → All (EntryOk disk) (touch n now es)
  unfolding touch
  EntryOk-touch disk n now [] h = tt
  EntryOk-touch disk n now (e ∷ es) h =
      (touched (is_hit (pos n) e), EntryOk-touch disk n now es h.1)
    where
      touched : (b : Bool) → EntryOk disk (if b then record e { lru = now } else e)
      touched true = record { ranged = h.0.ranged; clean = h.0.clean }
      touched false = h.0

  pub length-touch : (n now : ℕ) (es : List (CacheEntry D)) → length (touch n now es) ≡ length es
  unfolding touch
  length-touch n now [] = refl
  length-touch n now (e ∷ es) = ap suc (length-touch n now es)

  abbrev pub is_filled : Option D → Bool
  is_filled none = false
  is_filled (some v) = true

  abbrev pub is_cached : List (CacheEntry D) → ℕ → Bool
  is_cached es n = is_filled (cached es n)

  pub write_hits_lem :
      (n now : ℕ) (v : D) (es : List (CacheEntry D)) (hit : Bool)
      → write_hits (pos n) now v es hit ≡ (refill n now v es, hit || is_cached es n)
  unfolding write_hits refill cached
  write_hits_lem n now v [] hit = ground arith
  write_hits_lem n now v (e ∷ es) hit = elim (Bool-cases (is_hit (pos n) e)) [
    | inl yes_hit ↦ rw yes_hit (rw (write_hits_lem n now v es true) (ground arith))
    | inr miss ↦ rw miss (rw (write_hits_lem n now v es hit) refl)
  ]

  pub refill_miss :
      (n now : ℕ) (v : D) (es : List (CacheEntry D)) → cached es n ≡ none → refill n now v es ≡ es
  unfolding refill cached
  refill_miss n now v [] miss = refl
  refill_miss n now v (e ∷ es) miss = ground (arith, refill_miss n now v es)

  pub cached-refill :
      (n now : ℕ) (v : D) (m : ℕ) (es : List (CacheEntry D))
      → cached (refill n now v es) m
        ≡ (if n == m then Option.map (λ _. v) (cached es m) else cached es m)
  unfolding refill cached
  cached-refill n now v m [] = ground arith
  cached-refill n now v m (e ∷ es) = ground (arith, cached-refill n now v m es, is_hit_unique e n m)

  pub Alone-refill :
      (n now : ℕ) (v : D) (es : List (CacheEntry D)) → Alone es → Alone (refill n now v es)
  unfolding refill
  Alone-refill n now v [] h = tt
  Alone-refill n now v (e ∷ es) h = (still_alone, Alone-refill n now v es h.1)
    where
      still_alone :
          (k : ℕ)
          → is_hit
              (pos k)
              (if is_hit (pos n) e then record e { contents = v; lru = now; dirty = true } else e)
            ≡ true
          → cached (refill n now v es) k ≡ none
      still_alone k hit =
          let alone = h.0 k (ground arith) in ground (arith, cached-refill n now v k es, alone)

  pub EntryOk-refill :
      (disk : ℕ → D) (n now : ℕ) (v : D) (es : List (CacheEntry D))
      → All (EntryOk disk) es
      → All (EntryOk disk) (refill n now v es)
  unfolding refill
  EntryOk-refill disk n now v [] h = tt
  EntryOk-refill disk n now v (e ∷ es) h =
      (refilled (is_hit (pos n) e), EntryOk-refill disk n now v es h.1)
    where
      refilled :
          (b : Bool)
          → EntryOk disk (if b then record e { contents = v; lru = now; dirty = true } else e)
      refilled true = record { ranged = h.0.ranged; clean = λ k hit fresh. cc }
      refilled false = h.0

  pub length-refill :
      (n now : ℕ) (v : D) (es : List (CacheEntry D)) → length (refill n now v es) ≡ length es
  unfolding refill
  length-refill n now v [] = refl
  length-refill n now v (e ∷ es) = ap suc (length-refill n now v es)

  -- Replacing entry `i` by one that is for no cached sector.
  pub cached-none :
      (es : List (CacheEntry D)) (i : ℕ) (e : CacheEntry D) (m : ℕ)
      → get_elem? es i ≡ some e
      → cached es m ≡ none
      → is_hit (pos m) e ≡ false
  unfolding cached
  cached-none [] i e m at h = cc
  cached-none (x ∷ es) zero e m at h = ground arith
  cached-none (x ∷ es) (suc i) e m at h = ground (arith, cached-none es i e m)

  pub cached-set :
      (es : List (CacheEntry D)) (i : ℕ) (e e' : CacheEntry D) (m : ℕ)
      → Alone es
      → get_elem? es i ≡ some e
      → (is_hit (pos m) e' ≡ true → cached es m ≡ none)
      → cached (set es i e') m ≡ (
          if is_hit (pos m) e'
          then some e'.contents
          else if is_hit (pos m) e
          then none
          else cached es m)
  unfolding cached
  cached-set [] i e e' m alone at new = cc
  cached-set (x ∷ es) zero e e' m alone at new = ground (arith, alone.0 m)
  cached-set (x ∷ es) (suc i) e e' m alone at new =
      ground (arith, alone.0 m, cached-set es i e e' m alone.1, cached-none es i e m)

  pub Alone-set :
      (es : List (CacheEntry D)) (i : ℕ) (e e' : CacheEntry D)
      → Alone es
      → get_elem? es i ≡ some e
      → ((m : ℕ) → is_hit (pos m) e' ≡ true → cached es m ≡ none)
      → Alone (set es i e')
  unfolding cached
  Alone-set [] i e e' alone at new = tt
  Alone-set (x ∷ es) zero e e' alone at new =
      ((λ k hit. let unheld = new k hit in ground arith), alone.1)
  Alone-set (x ∷ es) (suc i) e e' alone at new = (
    (λ k hit.
        let free = new k in
        ground (arith, alone.0 k, free, cached-set es i e e' k alone.1, cached-none es i e k)),
    Alone-set es i e e' alone.1 at (λ m hit. let unheld = new m hit in ground arith),
  )

  pub choose_from-lt :
      (es : List (CacheEntry D)) (i evict oldest n : ℕ)
      → evict < n
      → i + length es ≤ n
      → choose_from es i evict oldest < n
  unfolding choose_from
  choose_from-lt [] i evict oldest n lt h = lt
  choose_from-lt (e ∷ es) i evict oldest n lt h =
      ground (arith, choose_from-lt es (i + 1) i e.lru n, choose_from-lt es (i + 1) evict oldest n)

  -- The entry to evict is one of the table.
  pub choose-lt : (es : List (CacheEntry D)) → 0 < length es → choose es < length es
  unfolding choose
  choose-lt [] h = absurd (omega arith)
  choose-lt (e ∷ es) h =
      choose_from-lt (e ∷ es) 0 0 e.lru (suc (length es)) (omega arith) (omega arith)
