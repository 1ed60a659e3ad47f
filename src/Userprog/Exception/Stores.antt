-- ===== src/Userprog/Exception/Stores.antt =====
-- `WriteMem` is a write to the flat memory that the program sees.
use op_prac.Base.{
  ℕ, ◌+◌, ◌-◌, ◌*◌, ◌/◌, ◌%◌, ◌^◌, ◌≤◌, ◌<◌, ◌≡◌, sym, ap, subst, ◌∙◌, ◌≢◌, ◌⊎◌, inl, inr, Bool,
  true, false, ◌&&◌, ◌||◌, Option, none, some, arith, dec_lt, ℕ_discrete, Result, ltb, leb, ◌==◌,
  Bool-cases, Gives, Gives-bind,
}
use op_prac.Machine.Cpu.{Cpu}
use op_prac.Machine.Cpu.Registers.{IsWellFormed}
use op_prac.Machine.Mmu.{Mmu, page_size, size_of, page_entry}
use op_prac.Machine.Mmu.Coherence.{Coherent, virtual_byte, byte_at}
use op_prac.Machine.Mmu.Edits.{image_of}
use op_prac.Machine.Translate.{put_bytes, write_mem, stored_to}
use op_prac.Machine.Translate.Hits.{IsAligned, Finds}
use op_prac.Userprog.Exception.{trap_to_kernel}
use op_prac.Userprog.Exception.Access.{AccessesIt, access-AccessesIt, with_memory-IsWellFormed}

-- An aligned access ends in the page where it begins.
ends_in_page : (va size : ℕ) → IsAligned va size → (0 < size) × (va % page_size + size ≤ page_size)
ends_in_page va size (inl e, a) = omega arith
ends_in_page va size (inr (inl e), a) = omega (arith, subst (λ s. va % s ≡ 0) e a)
ends_in_page va size (inr (inr e), a) = omega (arith, subst (λ s. va % s ≡ 0) e a)

-- Outside the bytes that are written, the memory is as it was.
put_bytes_outside :
    (n pa value : ℕ) (memory : ℕ → ℕ) (a : ℕ)
    → (a < pa) ⊎ (pa + n ≤ a)
    → put_bytes n pa value memory a ≡ memory a
put_bytes_outside n pa value memory a (inl h) = ground arith
put_bytes_outside n pa value memory a (inr h) = ground arith

-- The same byte of the value, where both memories are written at the same offset.
put_bytes_shift :
    (n pa va value : ℕ) (f g : ℕ → ℕ) (b a : ℕ)
    → b + va ≡ a + pa
    → f b ≡ g a
    → put_bytes n pa value f b ≡ put_bytes n va value g a
put_bytes_shift n pa va value f g b a e same =
    let distance : b - pa ≡ a - va = omega arith in
    let test : (leb pa b && ltb b (pa + n)) ≡ (leb va a && ltb a (va + n)) = ground arith in
    rw (distance, test, same)

outside_page :
    (pa n b : ℕ)
    → pa % page_size + n ≤ page_size
    → b / page_size ≢ pa / page_size
    → (b < pa) ⊎ (pa + n ≤ b)
outside_page pa n b h ne = elim (dec_lt b pa) [ yes lt ↦ inl lt | no ge ↦ inr (omega arith) ]

module _ {va size pa : ℕ} {m m' : Mmu} (f : Finds va size m pa m') (aligned : IsAligned va size)
    (k : va / page_size < size_of m') where
  abbrev fits : (0 < size) × (va % page_size + size ≤ page_size)
  fits = ends_in_page va size aligned

  -- Two pages of the page table have two frames.
  frames_apart :
      (a : ℕ)
      → a / page_size < size_of m'
      → (page_entry m' (a / page_size)).valid ≡ true
      → (page_entry m' (a / page_size)).physical_page ≡ pa / page_size
      → a / page_size ≡ va / page_size
  frames_apart a lt w e =
      let n₁ = (f.coherent.agree.mapped (a / page_size) lt w).back in
      let n₂ = (f.coherent.agree.mapped (va / page_size) k f.entered).back in
      sym n₁ ∙ ap (λ p. (m'.physical p).virtual_page_number) (e ∙ sym f.frame) ∙ n₂

  -- Where a byte of a page in memory lies.
  abbrev place : ℕ → ℕ
  place a = (page_entry m' (a / page_size)).physical_page * page_size + a % page_size

  seen :
      (memory : ℕ → ℕ) (a : ℕ)
      → (page_entry m' (a / page_size)).valid ≡ true
      → byte_at (page_entry m') memory (image_of m') a ≡ memory (place a)
  seen memory a w = rw w

  stored_here :
      (value a : ℕ)
      → (page_entry m' (a / page_size)).valid ≡ true
      → a / page_size ≡ va / page_size
      → put_bytes size pa value m'.main_memory (place a)
        ≡ put_bytes size va value (virtual_byte m') a
  stored_here value a w e =
      let frame : (page_entry m' (a / page_size)).physical_page ≡ pa / page_size = rw e f.frame in
      put_bytes_shift size pa va value m'.main_memory (virtual_byte m') (place a) a
        (omega (arith, frame, f.offset)) (sym (seen m'.main_memory a w))

  stored_elsewhere :
      (value a : ℕ)
      → a / page_size < size_of m'
      → (page_entry m' (a / page_size)).valid ≡ true
      → a / page_size ≢ va / page_size
      → put_bytes size pa value m'.main_memory (place a)
        ≡ put_bytes size va value (virtual_byte m') a
  stored_elsewhere value a lt w ne =
      let apart : place a / page_size ≢ pa / page_size =
        λ e. ne (frames_apart a lt w (omega (arith, e))) in
      put_bytes_outside size pa value m'.main_memory (place a)
        (outside_page pa size (place a) (omega (arith, fits, f.offset)) apart)
      ∙ sym (seen m'.main_memory a w)
      ∙ sym
          (put_bytes_outside size va value (virtual_byte m') a (outside_page va size a (fits.1) ne))

  stored_byte :
      (value a : ℕ)
      → a / page_size < size_of m'
      → byte_at (page_entry m') (put_bytes size pa value m'.main_memory) (image_of m') a
        ≡ put_bytes size va value (virtual_byte m') a
  stored_byte value a lt = elim (Bool-cases (page_entry m' (a / page_size)).valid) [
    | inl w ↦
        seen (put_bytes size pa value m'.main_memory) a w
        ∙ elim (ℕ_discrete (a / page_size) (va / page_size)) [
          | yes e ↦ stored_here value a w e
          | no ne ↦ stored_elsewhere value a lt w ne
        ]
    | inr out ↦
        let ne : a / page_size ≢ va / page_size =
          λ e. cc (sym (subst (λ p. (page_entry m' p).valid ≡ false) e out) ∙ f.entered) in
        rw out (
          sym
            (put_bytes_outside size va value (image_of m') a (outside_page va size a (fits.1) ne)))
  ]

-- A write: what the program sees is the flat memory with the bytes written.
pub record Writes (va size value : ℕ) (c c' : Cpu Mmu) : Type 0 where
  pub coherent : Coherent c'.memory
  pub table : c'.memory.table_of ≡ c.memory.table_of
  pub pages : size_of c'.memory ≡ size_of c.memory
  pub well_formed : IsWellFormed c'
  pub bytes :
      (a : ℕ)
      → a / page_size < size_of c.memory
      → virtual_byte c'.memory a ≡ put_bytes size va value (virtual_byte c.memory) a

abbrev pub WritesIt : ℕ → ℕ → ℕ → Cpu Mmu → Bool × Cpu Mmu → Type 0
WritesIt va size value c (false, c') = ⊥
WritesIt va size value c (true, c') = Writes va size value c c'

put_bytes-same :
    (n pa value : ℕ) (f g : ℕ → ℕ) (a : ℕ)
    → f a ≡ g a
    → put_bytes n pa value f a ≡ put_bytes n pa value g a
put_bytes-same n pa value f g a e = rw e

accepted :
    (size : ℕ) (va : ℕ) → IsAligned va size → ((size == 1) || (size == 2) || (size == 4)) ≡ true
accepted size va (inl e, a) = ground arith
accepted size va (inr (inl e), a) = ground arith
accepted size va (inr (inr e), a) = ground arith

module _ (syscall : Cpu Mmu → Result (Cpu Mmu)) (va size value : ℕ) (c : Cpu Mmu) where
  stored_to-WritesIt :
      (r : Option ℕ × Cpu Mmu)
      → va / page_size < size_of c.memory
      → IsAligned va size
      → AccessesIt va size c r
      → Gives (WritesIt va size value c) (stored_to size value r)
  stored_to-WritesIt (none, c') k aligned x = x
  stored_to-WritesIt (some pa, c') k aligned x =
      let f = x.finds in
      let m' = record (c'.memory) { main_memory = put_bytes size pa value c'.memory.main_memory } in
      rw (accepted size va aligned) (record {
        coherent = record { running = f.coherent.running; agree = f.coherent.agree };
        table = f.kept.table;
        pages = f.kept.size;
        well_formed = with_memory-IsWellFormed c' m' x.well_formed;
        bytes = λ a lt.
            stored_byte f aligned (rw f.kept.size k) value a (rw f.kept.size lt)
            ∙ put_bytes-same size va value (virtual_byte c'.memory) (virtual_byte c.memory) a
                (f.kept.bytes a lt);
      })

  -- `WriteMem` of an aligned word, half or byte inside the address space, in a coherent state,
  -- succeeds, and the bytes that the program sees afterwards are those before, but for the `size`
  -- bytes at `va`, which are those of the value, the lowest first; the state is coherent and the
  -- registers are well-formed again. This is so whatever the system calls do.
  pub write_mem-WritesIt :
      va < 2 ^ 32
      → va / page_size < size_of c.memory
      → IsAligned va size
      → IsWellFormed c
      → Coherent c.memory
      → Gives (WritesIt va size value c) (write_mem (trap_to_kernel syscall) va size value c)
  unfolding write_mem
  write_mem-WritesIt word k aligned w co =
      Gives-bind (AccessesIt va size c) _ _ _
        (access-AccessesIt syscall va size true c word k aligned w co)
        λ r x. stored_to-WritesIt r k aligned x
