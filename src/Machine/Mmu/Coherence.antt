-- ===== src/Machine/Mmu/Coherence.antt =====
-- When the translation buffer, the page table and the table of physical pages agree, and the memory
-- that a program sees through them.
use op_prac.Base.{
  ℕ, ◌+◌, ◌*◌, ◌/◌, ◌%◌, ◌<◌, ◌≡◌, sym, ◌≢◌, Bool, true, false, some, arith, ℕ_discrete,
  if◌then◌else◌, update,
}
use op_prac.Machine.Mmu.{
  Mmu, size_of, page_entry, TranslationEntry, PhysicalPageEntry, copy_page, page_size,
  num_phys_pages, tlb_size,
}

-- A valid entry of the page table and the frame that it names.
pub record Maps (p : ℕ) (e : TranslationEntry) (phys : ℕ → PhysicalPageEntry) : Type 0 where
  pub framed : e.physical_page < num_phys_pages
  pub named : e.virtual_page ≡ p
  pub writable : e.read_only ≡ false
  pub taken : (phys e.physical_page).valid ≡ true
  pub back : (phys e.physical_page).virtual_page_number ≡ p

-- A frame in use and the entry of the page table that names it.
pub record Holds (me n f : ℕ) (pt : ℕ → TranslationEntry) (p : PhysicalPageEntry) : Type 0 where
  pub inside : p.virtual_page_number < n
  pub entered : (pt p.virtual_page_number).valid ≡ true
  pub here : (pt p.virtual_page_number).physical_page ≡ f
  pub owned : p.owner_thread ≡ some me

-- A valid entry of the translation buffer and that of the page table.
pub record Caches (n : ℕ) (pt : ℕ → TranslationEntry) (e : TranslationEntry) : Type 0 where
  pub inside : e.virtual_page < n
  pub entered : (pt e.virtual_page).valid ≡ true
  pub same : (pt e.virtual_page).physical_page ≡ e.physical_page
  pub writable : e.read_only ≡ false

-- All frames in use belong to thread `me`, with `n` pages. Frame `hole`, where it is one, is between
-- two pages: no entry names it.
pub record Agree (me n hole : ℕ) (pt tlb : ℕ → TranslationEntry) (phys : ℕ → PhysicalPageEntry)
    : Type 0 where
  pub mapped : (p : ℕ) → p < n → (pt p).valid ≡ true → Maps p (pt p) phys
  pub unnamed : (p : ℕ) → p < n → (pt p).valid ≡ true → (pt p).physical_page ≢ hole
  pub resident :
      (f : ℕ) → f < num_phys_pages → f ≢ hole → (phys f).valid ≡ true → Holds me n f pt (phys f)
  pub cached : (i : ℕ) → i < tlb_size → (tlb i).valid ≡ true → Caches n pt (tlb i)

-- The byte at a virtual address: in its frame, or else in the memory image.
abbrev pub byte_at : (ℕ → TranslationEntry) → (ℕ → ℕ) → (ℕ → ℕ) → ℕ → ℕ
byte_at pt mem image va =
    let e = pt (va / page_size) in
    if e.valid then mem (e.physical_page * page_size + va % page_size) else image va

pub Agree-cast :
    {me me' n n' hole : ℕ} {pt pt' tlb tlb' : ℕ → TranslationEntry}
    {phys phys' : ℕ → PhysicalPageEntry}
    → me' ≡ me
    → n' ≡ n
    → pt' ≡ pt
    → tlb' ≡ tlb
    → phys' ≡ phys
    → Agree me n hole pt tlb phys
    → Agree me' n' hole pt' tlb' phys'
Agree-cast e₁ e₂ e₃ e₄ e₅ a = rw (e₁, e₂, e₃, e₄, e₅) a

pub byte_at-cast :
    {pt pt' : ℕ → TranslationEntry} {mem mem' image image' : ℕ → ℕ}
    → pt' ≡ pt
    → mem' ≡ mem
    → image' ≡ image
    → (va : ℕ) → byte_at pt' mem' image' va ≡ byte_at pt mem image va
byte_at-cast e₁ e₂ e₃ va = rw (e₁, e₂, e₃)

module _ {me n : ℕ} {pt tlb : ℕ → TranslationEntry} {phys : ℕ → PhysicalPageEntry} where
  -- An entry of the translation buffer goes back to the page table.
  pub write_back-Agree :
      (hole i : ℕ)
      → i < tlb_size
      → (tlb i).valid ≡ true
      → Agree me n hole pt tlb phys
      → Agree me n hole (update pt (tlb i).virtual_page (tlb i)) tlb phys
  write_back-Agree hole i h v a =
      let c = a.cached i h v in
      let m = a.mapped (tlb i).virtual_page c.inside c.entered in
      record {
        mapped = λ p lt w. ground (arith, c, m, a.mapped p lt);
        unnamed = λ p lt w. ground (arith, c, a.unnamed p lt, a.unnamed (tlb i).virtual_page);
        resident = λ f lt ne w. ground (arith, c, a.resident f lt ne w);
        cached = λ j lt w. ground (arith, c, a.cached j lt w);
      }

  pub write_back-byte_at :
      (hole i : ℕ) (mem image : ℕ → ℕ) (va : ℕ)
      → i < tlb_size
      → (tlb i).valid ≡ true
      → Agree me n hole pt tlb phys
      → byte_at (update pt (tlb i).virtual_page (tlb i)) mem image va ≡ byte_at pt mem image va
  write_back-byte_at hole i mem image va h v a = ground (arith, a.cached i h v)

  -- A frame that is not in use may be the hole.
  pub free-Agree :
      (f : ℕ)
      → (phys f).valid ≡ false
      → Agree me n num_phys_pages pt tlb phys
      → Agree me n f pt tlb phys
  free-Agree f v a = record {
    mapped = a.mapped;
    unnamed = λ p lt w. ground (arith, a.mapped p lt w);
    resident = λ g lt ne w. a.resident g lt (omega arith) w;
    cached = a.cached;
  }

  -- Frame `f` is given up: `pt'` has its page's entry invalid, and `tlb'` no entry for that page.
  pub reclaim-Agree :
      (f : ℕ) (pt' tlb' : ℕ → TranslationEntry) (phys' : ℕ → PhysicalPageEntry)
      → f < num_phys_pages
      → (phys f).valid ≡ true
      → ((p : ℕ) → p ≢ (phys f).virtual_page_number → pt' p ≡ pt p)
      → (pt' (phys f).virtual_page_number).valid ≡ false
      → ((g : ℕ) → g ≢ f → phys' g ≡ phys g)
      → ((i : ℕ)
          → i < tlb_size
          → (tlb' i).valid ≡ true
          → (tlb' i ≡ tlb i) × ((tlb i).virtual_page ≢ (phys f).virtual_page_number))
      → Agree me n num_phys_pages pt tlb phys
      → Agree me n f pt' tlb' phys'
  reclaim-Agree f pt' tlb' phys' h v others gone frames flushed a = record {
    mapped = λ p lt w.
        let ne : p ≢ (phys f).virtual_page_number = λ e. cc in
        let e = others p ne in
        let m = a.mapped p lt (rw (sym e) w) in
        let off : (pt p).physical_page ≢ f = λ e'. ground (arith, m) in
        rw e (ground (arith, m, frames (pt p).physical_page off));
    unnamed = λ p lt w here.
        let ne : p ≢ (phys f).virtual_page_number = λ e. cc in
        let e = others p ne in ground (arith, e, a.mapped p lt (rw (sym e) w));
    resident = λ g lt ne w.
        let w' : (phys g).valid ≡ true = rw (sym (frames g ne)) w in
        let r = a.resident g lt (omega arith) w' in
        let other : (phys g).virtual_page_number ≢ (phys f).virtual_page_number =
          λ e. ne (ground (arith, r, a.resident f h (omega arith) v)) in
        rw (frames g ne) (ground (arith, r, others (phys g).virtual_page_number other));
    cached = λ i lt w.
        let (same, ne) = flushed i lt w in
        let c = a.cached i lt (rw (sym same) w) in
        rw same (ground (arith, c, others (tlb i).virtual_page ne));
  }

  -- Page `v` is given the hole.
  pub install-Agree :
      (f v : ℕ) (e : TranslationEntry) (q : PhysicalPageEntry)
      → f < num_phys_pages
      → v < n
      → (pt v).valid ≡ false
      → e.valid ≡ true
      → e.read_only ≡ false
      → e.physical_page ≡ f
      → e.virtual_page ≡ v
      → q.virtual_page_number ≡ v
      → q.owner_thread ≡ some me
      → q.valid ≡ true
      → Agree me n f pt tlb phys
      → Agree me n num_phys_pages (update pt v e) tlb (update phys f q)
  install-Agree f v e q h k free e₁ e₂ e₃ e₄ q₁ q₂ q₃ a = record {
    mapped = λ p lt w. ground (arith, a.mapped p lt, a.unnamed p lt);
    unnamed = λ p lt w. ground (arith, a.mapped p lt);
    resident = λ g lt ne w. ground (arith, a.resident g lt);
    cached = λ i lt w. ground (arith, a.cached i lt w);
  }

  pub reclaim-byte_at :
      (f : ℕ) (pt' : ℕ → TranslationEntry) (mem image : ℕ → ℕ) (va : ℕ)
      → f < num_phys_pages
      → (phys f).valid ≡ true
      → ((p : ℕ) → p ≢ (phys f).virtual_page_number → pt' p ≡ pt p)
      → (pt' (phys f).virtual_page_number).valid ≡ false
      → Agree me n num_phys_pages pt tlb phys
      → byte_at pt' mem (copy_page image (phys f).virtual_page_number mem f) va
        ≡ byte_at pt mem image va
  reclaim-byte_at f pt' mem image va h v others gone a =
      elim (ℕ_discrete (va / page_size) (phys f).virtual_page_number) [
        | yes e ↦ ground (arith, gone, a.resident f h (omega arith) v)
        | no ne ↦ rw (others (va / page_size) ne) (ground arith)
      ]

  pub install-byte_at :
      (f v : ℕ) (e : TranslationEntry) (mem image : ℕ → ℕ) (va : ℕ)
      → va / page_size < n
      → (pt v).valid ≡ false
      → e.valid ≡ true
      → e.physical_page ≡ f
      → Agree me n f pt tlb phys
      → byte_at (update pt v e) (copy_page mem f image v) image va ≡ byte_at pt mem image va
  install-byte_at f v e mem image va lt free e₁ e₂ a = ground (arith, a.unnamed (va / page_size) lt)

  -- The page table's entry for page `v` is taken into the translation buffer.
  pub refill-Agree :
      (i v time : ℕ)
      → v < n
      → (pt v).valid ≡ true
      → Agree me n num_phys_pages pt tlb phys
      → Agree me n num_phys_pages pt (update tlb i (record (pt v) { in_time = time })) phys
  refill-Agree i v time k w a = record {
    mapped = a.mapped;
    unnamed = a.unnamed;
    resident = a.resident;
    cached = λ j lt u. ground (arith, a.mapped v k w, a.cached j lt);
  }

  -- The marks of a use: `dirty`, `use` and the times.
  pub mark-Agree :
      (i v time : ℕ) (writing d d' : Bool)
      → i < tlb_size
      → v < n
      → Agree me n num_phys_pages pt tlb phys
      → Agree me n num_phys_pages
          (if writing then update pt v (record (pt v) { dirty = true }) else pt)
          (update tlb i (record (tlb i) { used = true; dirty = d; last_hit_time = time }))
          (update phys
            (tlb i).physical_page
            (record (phys (tlb i).physical_page) { dirty = d'; last_hit_time = time }))
  mark-Agree i v time true d d' h k a = record {
    mapped = λ p lt w. ground (arith, a.mapped p lt);
    unnamed = λ p lt w. ground (arith, a.unnamed p lt);
    resident = λ g lt ne w. ground (arith, a.resident g lt ne);
    cached = λ j lt u. ground (arith, a.cached j lt);
  }
  mark-Agree i v time false d d' h k a = record {
    mapped = λ p lt w. ground (arith, a.mapped p lt);
    unnamed = λ p lt w. ground (arith, a.unnamed p lt);
    resident = λ g lt ne w. ground (arith, a.resident g lt ne);
    cached = λ j lt u. ground (arith, a.cached j lt);
  }

-- The state, with frame `hole` between two pages; with `num_phys_pages`, no frame is.
pub record CoherentBut (hole : ℕ) (m : Mmu) : Type 0 where
  pub running : m.current_thread ≡ m.table_of
  pub agree : Agree m.table_of (size_of m) hole (page_entry m) m.tlb m.physical

abbrev pub Coherent : Mmu → Type 0
Coherent m = CoherentBut num_phys_pages m

-- The byte that the program sees.
abbrev pub virtual_byte : Mmu → ℕ → ℕ
virtual_byte m va = byte_at (page_entry m) m.main_memory (m.spaces m.table_of).v_space va

-- The same thread runs, and it sees the same memory.
pub record Preserves (m m' : Mmu) : Type 0 where
  pub table : m'.table_of ≡ m.table_of
  pub size : size_of m' ≡ size_of m
  pub bytes : (va : ℕ) → va / page_size < size_of m → virtual_byte m' va ≡ virtual_byte m va
