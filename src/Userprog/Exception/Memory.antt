-- ===== src/Userprog/Exception/Memory.antt =====
-- `ReadMem` and `WriteMem` are reads and writes of a flat memory, the one that the program sees.
use op_prac.Base.{
  ℕ, ◌+◌, ◌*◌, ◌/◌, ◌%◌, ◌^◌, ◌<◌, ◌≡◌, sym, ap, subst, ◌∙◌, inl, inr, false, Option, none, some,
  arith, Result, ok, Gives, Gives-bind,
}
use op_prac.Machine.Cpu.{Cpu}
use op_prac.Machine.Cpu.Registers.{IsWellFormed}
use op_prac.Machine.Mmu.{Mmu, page_size, size_of}
use op_prac.Machine.Mmu.Coherence.{Coherent, Preserves, virtual_byte}
use op_prac.Machine.Translate.{load_bytes, char_at, sign_extend_byte, read_mem, loaded_from}
use op_prac.Machine.Translate.Hits.{IsAligned, Finds}
use op_prac.Userprog.Exception.{trap_to_kernel}
use op_prac.Userprog.Exception.Access.{AccessesIt, access-AccessesIt}

-- An aligned access stays in its page.
same_page :
    (va size j : ℕ)
    → IsAligned va size
    → j < size
    → ((va + j) / page_size ≡ va / page_size) × ((va + j) % page_size ≡ va % page_size + j)
same_page va size j (inl e, a) h = omega arith
same_page va size j (inr (inl e), a) h = omega (arith, subst (λ s. va % s ≡ 0) e a)
same_page va size j (inr (inr e), a) h = omega (arith, subst (λ s. va % s ≡ 0) e a)

-- The bytes of the access, in the memory.
byte_found :
    {va size pa : ℕ} {m m' : Mmu} (j : ℕ)
    → Finds va size m pa m'
    → IsAligned va size
    → j < size
    → va / page_size < size_of m
    → m'.main_memory (pa + j) ≡ virtual_byte m (va + j)
byte_found {va} {size} {pa} {m} {m'} j f aligned h k =
    let (page, offset) = same_page va size j aligned h in
    let seen : virtual_byte m' (va + j) ≡ m'.main_memory (pa + j) =
      rw (page, f.entered, f.frame) (ap m'.main_memory (omega (arith, offset, f.offset))) in
    sym seen ∙ f.kept.bytes (va + j) (rw page k)

-- A read: the value is that of the same bytes of the flat memory, and the memory stays the same.
pub record Reads (va size : ℕ) (c : Cpu Mmu) (value : ℕ) (c' : Cpu Mmu) : Type 0 where
  pub loads : load_bytes (virtual_byte c.memory) va size ≡ ok value
  pub coherent : Coherent c'.memory
  pub kept : Preserves c.memory c'.memory
  pub well_formed : IsWellFormed c'

abbrev pub ReadsIt : ℕ → ℕ → Cpu Mmu → Option ℕ × Cpu Mmu → Type 0
ReadsIt va size c (none, c') = ⊥
ReadsIt va size c (some value, c') = Reads va size c value c'

-- The same bytes, at another place.
module _ (f g : ℕ → ℕ) (pa va size : ℕ) (h : (j : ℕ) → j < size → f (pa + j) ≡ g (va + j)) where
  first_byte : 0 < size → f pa ≡ g va
  first_byte lt =
      ap f (let e : pa ≡ pa + 0 = omega arith in e)
      ∙ h 0 lt
      ∙ ap g (let e : va + 0 ≡ va = omega arith in e)

  load_bytes-cast :
      IsAligned va size → (v : ℕ) × (load_bytes f pa size ≡ ok v) × (load_bytes g va size ≡ ok v)
  load_bytes-cast (inl e, a) =
      let b₀ = first_byte (omega arith) in (sign_extend_byte (char_at g va), rw e (rw b₀), rw e)
  load_bytes-cast (inr (inl e), a) =
      let b₀ = first_byte (omega arith) in
      let b₁ = h 1 (omega arith) in
      (char_at g va + char_at g (va + 1) * 2 ^ 8, rw e (rw (b₀, b₁)), rw e)
  load_bytes-cast (inr (inr e), a) =
      let b₀ = first_byte (omega arith) in
      let b₁ = h 1 (omega arith) in
      let b₂ = h 2 (omega arith) in
      let b₃ = h 3 (omega arith) in
      (
        char_at g va
            + char_at g (va + 1) * 2 ^ 8
            + char_at g (va + 2) * 2 ^ 16
            + char_at g (va + 3) * 2 ^ 24,
        rw e (rw (b₀, b₁, b₂, b₃)),
        rw e,
      )

module _ (syscall : Cpu Mmu → Result (Cpu Mmu)) (va size : ℕ) (c : Cpu Mmu) where
  loaded_from-ReadsIt :
      (r : Option ℕ × Cpu Mmu)
      → va / page_size < size_of c.memory
      → IsAligned va size
      → AccessesIt va size c r
      → Gives (ReadsIt va size c) (loaded_from size r)
  loaded_from-ReadsIt (none, c') k aligned a = a
  loaded_from-ReadsIt (some pa, c') k aligned a =
      let f = a.finds in
      let (v, here, there) =
        load_bytes-cast c'.memory.main_memory (virtual_byte c.memory) pa va size
          (λ j lt. byte_found j f aligned lt k) aligned in
      rw here (record {
        loads = there;
        coherent = f.coherent;
        kept = f.kept;
        well_formed = a.well_formed;
      })

  -- `ReadMem` of an aligned word, half or byte inside the address space, in a coherent state, gives
  -- the value that a flat memory with the bytes of the program would give, whether or not the page is
  -- in the translation buffer or in memory; the program sees the same bytes afterwards, and the
  -- state is coherent and the registers well-formed again. This is so whatever the system calls do.
  pub read_mem-ReadsIt :
      va < 2 ^ 32
      → va / page_size < size_of c.memory
      → IsAligned va size
      → IsWellFormed c
      → Coherent c.memory
      → Gives (ReadsIt va size c) (read_mem (trap_to_kernel syscall) va size c)
  unfolding read_mem
  read_mem-ReadsIt word k aligned w co =
      Gives-bind (AccessesIt va size c) _ _ _
        (access-AccessesIt syscall va size false c word k aligned w co)
        λ r a. loaded_from-ReadsIt r k aligned a
