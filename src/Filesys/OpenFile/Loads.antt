-- ===== src/Filesys/OpenFile/Loads.antt =====
-- The loop of `ReadAt` over the sectors.
use op_prac.Base.{
  ℕ, zero, suc, ◌+◌, ◌-◌, ◌*◌, ◌/◌, ◌%◌, ◌≤◌, ◌<◌, ◌≡◌, refl, ap, subst, ◌∙◌, true, false, arith,
  dec_lt, ltb, leb, lt→ltb, le→ltb, le→leb, Gives, Gives-bind, Gives-map,
}
use op_prac.Base.Int.{ℤ}
use op_prac.Filesys.SectorStore.{SectorStore}
use op_prac.Filesys.FileHeader.{FileHeader, sector_size}
use op_prac.Filesys.OpenFile.Sectors.{FileMap, OnDisk, OnDisk-keeps, byte_to_sector-OnDisk}
use op_prac.Filesys.OpenFile.{Buffer, bcopy, bytes_of, read_slot, read_slots}

-- The indices that `bcopy` writes, and those before and behind them.
pub bcopy_inside :
    (from to : Buffer) (i j n x : ℕ) → x < n → bcopy from i to j n (j + x) ≡ from (i + x)
unfolding bcopy
bcopy_inside from to i j n x h =
    let e : j + x - j ≡ x = omega arith in
    rw (le→leb j (j + x) (omega arith), lt→ltb (j + x) (j + n) (omega (arith, h)), e) refl

pub bcopy_before : (from to : Buffer) (i j n x : ℕ) → x < j → bcopy from i to j n x ≡ to x
unfolding bcopy
bcopy_before from to i j n x h = let e : leb j x ≡ false = ground (arith, h) in rw e refl

pub bcopy_behind : (from to : Buffer) (i j n x : ℕ) → j + n ≤ x → bcopy from i to j n x ≡ to x
unfolding bcopy
bcopy_behind from to i j n x h =
    let e : ltb x (j + n) ≡ false = le→ltb x (j + n) h in
    let l : leb j x ≡ true = le→leb j x (omega (arith, h)) in rw (l, e) refl

module _ {S : Type 0} (store : SectorStore S) where
  open store use {IsGood, contents, read_lem, write_lem}

  -- A good disk on which all sectors read as before.
  pub record Same (st st' : S) : Type 0 where
    pub good : IsGood st'
    pub same : (s : ℕ) → contents st' s ≡ contents st s

  -- Byte `p` of a file.
  abbrev pub file_byte : S → FileMap → ℕ → ℤ
  file_byte st fm p = bytes_of (contents st (fm.place (p / sector_size))) (p % sector_size)

  OnDisk-Same :
      (hdr : FileHeader) (st st' : S) (fm : FileMap) (n : ℕ)
      → Same st st'
      → OnDisk store hdr st fm n
      → OnDisk store hdr st' fm n
  OnDisk-Same hdr st st' fm n s on =
      OnDisk-keeps store hdr st st' fm n s.good (λ d h. s.same (fm.index d)) on

  -- Slot `d` holds sector `k` of the file, and the slots before it hold what they held.
  record Slotted (st : S) (fm : FileMap) (k d : ℕ) (buf : Buffer) (r : Buffer × S) : Type 0 where
    pub unchanged : Same st (r.1)
    pub holds :
        (j : ℕ)
        → j < sector_size
        → r.0 (d * sector_size + j) ≡ file_byte st fm (k * sector_size + j)
    pub before : (j : ℕ) → j < d * sector_size → r.0 j ≡ buf j

  file_byte-Same :
      (st st' : S) (fm : FileMap) (p : ℕ) → Same st st' → file_byte st' fm p ≡ file_byte st fm p
  file_byte-Same st st' fm p s =
      ap (λ c. bytes_of c (p % sector_size)) (s.same (fm.place (p / sector_size)))

  -- What a slot gets of sector `k`.
  slot_bytes :
      (st : S) (fm : FileMap) (k d : ℕ) (buf : Buffer) (st' : S)
      → Same st st'
      → Slotted st fm k d buf
          (bcopy (bytes_of (contents st (fm.place k))) 0 buf (d * sector_size) sector_size, st')
  slot_bytes st fm k d buf st' u = record {
    unchanged = u;
    holds = λ j h.
        let q : (k * sector_size + j) / sector_size ≡ k = omega (arith, h) in
        let r : (k * sector_size + j) % sector_size ≡ j = omega (arith, h) in
        let bytes = bytes_of (contents st (fm.place k)) in
        rw (q, r)
          (bcopy_inside bytes buf 0 (d * sector_size) sector_size j h ∙ ap bytes (omega arith));
    before = λ j h.
        bcopy_before (bytes_of (contents st (fm.place k))) buf 0 (d * sector_size) sector_size j h;
  }

  read_slot-Slotted :
      (now : ℕ) (fm : FileMap) (n first d : ℕ) (hdr : FileHeader) (buf : Buffer) (st : S)
      → OnDisk store hdr st fm n
      → first + d < n
      → Gives (Slotted st fm (first + d) d buf) (read_slot store now hdr first d buf st)
  unfolding read_slot
  read_slot-Slotted now fm n first d hdr buf st on h =
      let k = first + d in
      let q : k * sector_size / sector_size ≡ k = omega arith in
      let (st₁, e₁, good₁, same₁) =
        byte_to_sector-OnDisk store now (k * sector_size) fm n hdr st on (omega (arith, q, h)) in
      let (st₂, e₂, good₂, same₂) = read_lem st₁ (fm.place k) now good₁ (on.room k h) in
      rw (e₁, q, e₂, same₁ (fm.place k))
        (slot_bytes st fm k d buf st₂ (record { good = good₂; same = λ s. same₂ s ∙ same₁ s }))

  -- The slots from `d` on hold the file from sector `first + d` on.
  pub record AllSlotted (st : S) (fm : FileMap) (first d n : ℕ) (buf : Buffer) (r : Buffer × S)
      : Type 0 where
    pub unchanged : Same st (r.1)
    pub holds :
        (j : ℕ)
        → d * sector_size ≤ j
        → j < (d + n) * sector_size
        → r.0 j ≡ file_byte st fm (first * sector_size + j)
    pub before : (j : ℕ) → j < d * sector_size → r.0 j ≡ buf j

  AllSlotted-first :
      (st : S) (fm : FileMap) (first d count : ℕ) (buf : Buffer) (r : Buffer × S)
      → Slotted st fm (first + d) d buf r
      → (r' : Buffer × S) → AllSlotted (r.1) fm first (d + 1) count (r.0) r'
      → AllSlotted st fm first d (suc count) buf r'
  AllSlotted-first st fm first d count buf r s r' all = record {
    unchanged = record {
      good = all.unchanged.good;
      same = λ x. all.unchanged.same x ∙ s.unchanged.same x;
    };
    holds = λ j low high. elim (dec_lt j ((d + 1) * sector_size)) [
      | yes here ↦
          let x = j - d * sector_size in
          let e : d * sector_size + x ≡ j = omega (arith, low) in
          let e' : (first + d) * sector_size + x ≡ first * sector_size + j = omega (arith, low) in
          all.before j here
          ∙ subst (λ i. r.0 i ≡ file_byte st fm (first * sector_size + j)) e
              (subst (λ p. r.0 (d * sector_size + x) ≡ file_byte st fm p) e'
                (s.holds x (omega (arith, low, here))))
      | no later ↦
          all.holds j (omega (arith, later)) (omega (arith, high))
          ∙ file_byte-Same st (r.1) fm (first * sector_size + j) s.unchanged
    ];
    before = λ j below. all.before j (omega (arith, below)) ∙ s.before j below;
  }

  pub read_slots-AllSlotted :
      (now : ℕ) (fm : FileMap) (n first : ℕ) (hdr : FileHeader) (count d : ℕ) (buf : Buffer)
      (st : S)
      → OnDisk store hdr st fm n
      → first + d + count ≤ n
      → Gives (AllSlotted st fm first d count buf) (read_slots store now count hdr first d buf st)
  unfolding read_slots
  read_slots-AllSlotted now fm n first hdr zero d buf st on h = record {
    unchanged = record { good = on.good; same = λ s. refl };
    holds = λ j low high. absurd (omega (arith, low, high));
    before = λ j below. refl;
  }
  read_slots-AllSlotted now fm n first hdr (suc count) d buf st on h =
      Gives-bind (Slotted st fm (first + d) d buf) (AllSlotted st fm first d (suc count) buf)
        (read_slot store now hdr first d buf st)
        (λ r. read_slots store now count hdr first (d + 1) (r.0) (r.1))
        (read_slot-Slotted now fm n first d hdr buf st on (omega (arith, h)))
        (λ (buf', st') s.
          Gives-map {P = AllSlotted st' fm first (d + 1) count buf'}
            {Q = AllSlotted st fm first d (suc count) buf}
            (AllSlotted-first st fm first d count buf (buf', st') s)
            (read_slots store now count hdr first (d + 1) buf' st')
            (read_slots-AllSlotted now fm n first hdr count (d + 1) buf' st'
              (OnDisk-Same hdr st st' fm n s.unchanged on) (omega (arith, h))))
