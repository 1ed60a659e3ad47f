-- ===== src/Filesys/OpenFile/Slots.antt =====
-- The loop of `WriteAt` over the sectors.
use op_prac.Base.{
  ℕ, zero, suc, ◌+◌, ◌-◌, ◌*◌, ◌/◌, ◌≤◌, ◌<◌, ◌≡◌, refl, sym, ap, ◌∙◌, ◌≢◌, true, false, List,
  arith, ℕ_discrete, ◌==◌, if◌then◌else◌, Gives, Gives-bind, Gives-map,
}
use op_prac.Base.Int.{ℤ}
use op_prac.Filesys.SectorStore.{SectorStore}
use op_prac.Filesys.FileHeader.{FileHeader, sector_size}
use op_prac.Filesys.OpenFile.Sectors.{FileMap, OnDisk, Apart, OnDisk-keeps, byte_to_sector-OnDisk}
use op_prac.Filesys.OpenFile.{Buffer, bytes_of, tabulate, write_slot, write_slots}

pub tabulate_lem : (n : ℕ) (buf : Buffer) (j : ℕ) → j < n → bytes_of (tabulate n buf) j ≡ buf j
unfolding tabulate
tabulate_lem zero buf j h = absurd (omega (arith, h))
tabulate_lem (suc n) buf zero h = refl
tabulate_lem (suc n) buf (suc j) h = tabulate_lem n (λ j. buf (suc j)) j (omega (arith, h))

at_same {ℓ} : {A : Type ℓ} (x y : A) (m n : ℕ) → m ≡ n → (if m == n then x else y) ≡ x
at_same x y m n e = let t : (m == n) ≡ true = ground (arith, e) in rw t refl

pub at_other {ℓ} : {A : Type ℓ} (x y : A) (m n : ℕ) → n ≢ m → (if m == n then x else y) ≡ y
at_other x y m n ne = let t : (m == n) ≡ false = ground (arith, ne) in rw t refl

module _ {S : Type 0} (store : SectorStore S) where
  open store use {IsGood, contents, read_lem, write_lem}

  abbrev pub slot : Buffer → ℕ → List ℤ
  slot buf d = tabulate sector_size (λ j. buf (d * sector_size + j))

  pub record WritesSlots (st : S) (fm : FileMap) (first d n : ℕ) (buf : Buffer) (st' : S)
      : Type 0 where
    pub good : IsGood st'
    pub written :
        (k : ℕ)
        → first + d ≤ k
        → k < first + d + n
        → contents st' (fm.place k) ≡ slot buf (k - first)
    pub others :
        (s : ℕ)
        → ((k : ℕ) → first + d ≤ k → k < first + d + n → s ≢ fm.place k)
        → contents st' s ≡ contents st s

  one_slot :
      (st st₁ st₂ : S) (fm : FileMap) (first d : ℕ) (buf : Buffer)
      → IsGood st₂
      → ((s : ℕ) → contents st₁ s ≡ contents st s)
      → ((s : ℕ)
          → contents st₂ s ≡ (if fm.place (first + d) == s then slot buf d else contents st₁ s))
      → WritesSlots st fm first d 1 buf st₂
  one_slot st st₁ st₂ fm first d buf good same after = record {
    good = good;
    written = λ l low high.
        let e : first + d ≡ l = omega (arith, low, high) in
        after (fm.place l)
        ∙ at_same (slot buf d) (contents st₁ (fm.place l)) (fm.place (first + d)) (fm.place l)
            (ap (λ x. fm.place x) e)
        ∙ ap (slot buf) (omega (arith, e));
    others = λ s ne.
        after s
        ∙ at_other (slot buf d) (contents st₁ s) (fm.place (first + d)) s
            (ne (first + d) (omega arith) (omega arith))
        ∙ same s;
  }

  write_slot-WritesSlots :
      (now : ℕ) (fm : FileMap) (n first d : ℕ) (hdr : FileHeader) (buf : Buffer) (st : S)
      → OnDisk store hdr st fm n
      → first + d < n
      → Gives (WritesSlots st fm first d 1 buf) (write_slot store now hdr first d buf st)
  unfolding write_slot
  write_slot-WritesSlots now fm n first d hdr buf st on h =
      let k = first + d in
      let q : k * sector_size / sector_size ≡ k = omega arith in
      let (st₁, e₁, good₁, same₁) =
        byte_to_sector-OnDisk store now (k * sector_size) fm n hdr st on (omega (arith, q, h)) in
      let (st₂, e₂, good₂, after) =
        write_lem st₁ (fm.place k) (slot buf d) now good₁ (on.room k h) in
      rw (e₁, q, e₂) (one_slot st st₁ st₂ fm first d buf good₂ same₁ after)

  -- Data goes to no index sector.
  pub WritesSlots-OnDisk :
      (hdr : FileHeader) (st st' : S) (fm : FileMap) (n first d count : ℕ) (buf : Buffer)
      → Apart fm n
      → first + d + count ≤ n
      → WritesSlots st fm first d count buf st'
      → OnDisk store hdr st fm n
      → OnDisk store hdr st' fm n
  WritesSlots-OnDisk hdr st st' fm n first d count buf apart inside w on =
      OnDisk-keeps store hdr st st' fm n w.good
        (λ i h.
          w.others (fm.index i)
            (λ k low high e. apart.no_index k i (omega (arith, high, inside)) h (sym e)))
        on

  then_slots :
      (st st₁ : S) (fm : FileMap) (size first d n : ℕ) (buf : Buffer)
      → Apart fm size
      → first + d + suc n ≤ size
      → WritesSlots st fm first d 1 buf st₁
      → (st₂ : S) → WritesSlots st₁ fm first (d + 1) n buf st₂
      → WritesSlots st fm first d (suc n) buf st₂
  then_slots st st₁ fm size first d n buf apart inside one st₂ rest = record {
    good = rest.good;
    written = λ k low high. elim (ℕ_discrete (first + d) k) [
      | yes here ↦
          rest.others (fm.place k) (λ l low' high' e.
            apart.differ k l (omega (arith, high, inside)) (omega (arith, high', inside))
              (omega (arith, here, low')) e)
          ∙ one.written k low (omega (arith, here))
      | no later ↦ rest.written k (omega (arith, later, low)) (omega (arith, high))
    ];
    others = λ s ne.
        rest.others s (λ k low high. ne k (omega (arith, low)) (omega (arith, high)))
        ∙ one.others s (λ k low high. ne k low (omega (arith, high)));
  }

  pub write_slots-WritesSlots :
      (now : ℕ) (fm : FileMap) (n first : ℕ) (hdr : FileHeader) (count d : ℕ) (buf : Buffer)
      (st : S)
      → OnDisk store hdr st fm n
      → Apart fm n
      → first + d + count ≤ n
      → Gives (WritesSlots st fm first d count buf) (write_slots store now count hdr first d buf st)
  unfolding write_slots
  write_slots-WritesSlots now fm n first hdr zero d buf st on apart h = record {
    good = on.good;
    written = λ k low high. absurd (omega (arith, low, high));
    others = λ s ne. refl;
  }
  write_slots-WritesSlots now fm n first hdr (suc count) d buf st on apart h =
      Gives-bind (WritesSlots st fm first d 1 buf) (WritesSlots st fm first d (suc count) buf)
        (write_slot store now hdr first d buf st)
        (λ st'. write_slots store now count hdr first (d + 1) buf st')
        (write_slot-WritesSlots now fm n first d hdr buf st on (omega (arith, h)))
        (λ st' one.
          Gives-map {P = WritesSlots st' fm first (d + 1) count buf}
            {Q = WritesSlots st fm first d (suc count) buf}
            (then_slots st st' fm n first d count buf apart h one)
            (write_slots store now count hdr first (d + 1) buf st')
            (write_slots-WritesSlots now fm n first hdr count (d + 1) buf st'
              (WritesSlots-OnDisk hdr st st' fm n first d 1 buf apart (omega (arith, h)) one on)
              apart (omega (arith, h))))
