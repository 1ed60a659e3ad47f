-- ===== src/Machine/Paging/Evict.antt =====
-- A frame is given up, `evict`, and given to another page, `install`.
use op_prac.Base.{
  ℕ, ◌<◌, ◌≡◌, refl, sym, ap, subst, ◌∙◌, ◌≢◌, inl, inr, true, false, some, arith, ℕ_discrete,
  Bool-cases, Gives, Gives-bind, Gives-map, update, update_ne,
}
use op_prac.Machine.Mmu.{
  Mmu, TranslationEntry, PhysicalPageEntry, copy_page, num_phys_pages, tlb_size, size_of,
  page_entry, with_space,
}
use op_prac.Machine.Mmu.Coherence
use op_prac.Machine.Mmu.Coherence.{
  CoherentBut, Coherent, Preserves, virtual_byte, Agree, Agree-cast, byte_at, reclaim-Agree,
  reclaim-byte_at, free-Agree, install-Agree, install-byte_at,
}
use op_prac.Machine.Mmu.Edits.{
  Edits, image_of, set_entry-Gives, with_space-Edits, Edits-trans, Edits-then, Preserves-refl,
}
use op_prac.Machine.Paging.{evict, reclaim, swap_out, flushed, disown}

-- What `reclaim` does to frame `f`, with page `v` of thread `table_of`.
record Reclaims (f v : ℕ) (m m' : Mmu) : Type 0 where
  table : m'.table_of ≡ m.table_of
  thread : m'.current_thread ≡ m.current_thread
  size : size_of m' ≡ size_of m
  memory : m'.main_memory ≡ m.main_memory
  image :
      (m'.spaces m'.table_of).v_space ≡ copy_page (m.spaces m.table_of).v_space v m.main_memory f
  buffer : m'.tlb ≡ flushed f v m.tlb
  others : (p : ℕ) → p ≢ v → page_entry m' p ≡ page_entry m p
  gone : (page_entry m' v).valid ≡ false
  frames : (g : ℕ) → g ≢ f → m'.physical g ≡ m.physical g

abbrev cleaned : ℕ → Mmu → Mmu
cleaned f m = record m { physical = update m.physical f (record (m.physical f) { dirty = false }) }

-- Page `v` is written back from frame `f`, which is no longer dirty.
abbrev Cleans : ℕ → ℕ → Mmu → Mmu → Type 0
Cleans f v m m' =
    (m₁ : Mmu) × Edits v (copy_page (image_of m) v m.main_memory f) m m₁ × (m' ≡ cleaned f m₁)

swap_out-Cleans :
    (f v t : ℕ) (m : Mmu) → t ≡ m.table_of → v < size_of m → Gives (Cleans f v m) (swap_out f v t m)
unfolding swap_out
swap_out-Cleans f v t m h k =
    let m₁ = with_space t (copy_page (m.spaces t).v_space v m.main_memory f) m in
    let e₁ : Edits v (copy_page (image_of m) v m.main_memory f) m m₁ =
      rw h ((with_space-Edits m.table_of v (copy_page (image_of m) v m.main_memory f) m refl).0) in
    set_entry-Gives m₁.table_of v _ m₁ _ _ refl (rw e₁.size k) λ m₂ e₂ _.
      set_entry-Gives t v _ m₂ _ _ (h ∙ sym e₂.table) (rw (e₂.size, e₁.size) k)
        λ m₃ e₃ _. (m₃, Edits-then (Edits-then e₁ e₂) e₃, refl)

Cleans-before :
    (f : ℕ) {v : ℕ} {m m₁ : Mmu}
    → Edits v (image_of m) m m₁
    → (m' : Mmu) → Cleans f v m₁ m'
    → Cleans f v m m'
Cleans-before f {v} {m} {m₁} e m' (m₂, c, same) =
    let old : copy_page (image_of m₁) v m₁.main_memory f
        ≡ copy_page (image_of m) v m.main_memory f =
      rw (e.stored, e.memory) in
    (m₂, subst (λ i. Edits v i m m₂) old (Edits-trans e c), same)

Reclaims-after :
    {f v : ℕ} {m m₁ m₂ : Mmu}
    → Cleans f v m m₁
    → Edits v (image_of m₁) m₁ m₂
    → (page_entry m₂ v).valid ≡ false
    → Reclaims f v m (record m₂ { tlb = flushed f v m₂.tlb })
Reclaims-after {f} {v} {m} {m₁} {m₂} (m₀, c, same) b gone =
    let b' : Edits v (image_of m₀) (cleaned f m₀) m₂ = rw same at b in
    record {
      table = b'.table ∙ c.table;
      thread = b'.thread ∙ c.thread;
      size = b'.size ∙ c.size;
      memory = b'.memory ∙ c.memory;
      image = b'.stored ∙ c.stored;
      buffer = ap (flushed f v) (b'.buffer ∙ c.buffer);
      others = λ p ne. b'.others p ne ∙ c.others p ne;
      gone = gone;
      frames = λ g ne.
          ap (λ frames. frames g) b'.frames
          ∙ update_ne m₀.physical f _ g ne
          ∙ ap (λ frames. frames g) c.frames;
    }

disown-Cleans :
    (f v : ℕ) (m : Mmu) → v < size_of m → Gives (Cleans f v m) (disown f v (some m.table_of) m)
disown-Cleans f v m k = set_entry-Gives m.table_of v _ m _ _ refl k λ m₁ e₁ _.
    Gives-map (Cleans-before f e₁) _
      (swap_out-Cleans f v m.table_of m₁ (sym e₁.table) (rw e₁.size k))

reclaim-Reclaims :
    (f v : ℕ) (m : Mmu) → v < size_of m → Gives (Reclaims f v m) (reclaim f v (some m.table_of) m)
unfolding reclaim
reclaim-Reclaims f v m k = Gives-bind (Cleans f v m) _ _ _ (disown-Cleans f v m k) λ m₁ c.
    set_entry-Gives m₁.table_of v _ m₁ _ _ refl (rw (c.2) (rw (c.1.size) k))
      λ m₂ e₂ entry. Reclaims-after c e₂ (ap (λ e. e.valid) entry)

flushed_valid :
    (f v : ℕ) {me n : ℕ} {pt tlb : ℕ → TranslationEntry} {phys : ℕ → PhysicalPageEntry}
    → (pt v).physical_page ≡ f
    → Agree me n num_phys_pages pt tlb phys
    → (i : ℕ) → i < tlb_size
    → (flushed f v tlb i).valid ≡ true
    → (flushed f v tlb i ≡ tlb i) × ((tlb i).virtual_page ≢ v)
flushed_valid f v {tlb = tlb} h a i lt w = ground (arith, a.cached i lt)

-- Frame `f` is free, the program sees the same, and no page has come in.
pub record Evicted (f : ℕ) (m m' : Mmu) : Type 0 where
  pub coherent : CoherentBut f m'
  pub kept : Preserves m m'
  pub none_in : (p : ℕ) → (page_entry m p).valid ≡ false → (page_entry m' p).valid ≡ false

reclaim-CoherentBut :
    (f : ℕ) {m m' : Mmu}
    → f < num_phys_pages
    → (m.physical f).valid ≡ true
    → Reclaims f (m.physical f).virtual_page_number m m'
    → Coherent m
    → Evicted f m m'
reclaim-CoherentBut f {m} {m'} lt w r c =
    let here = Coherence.Holds.here (c.agree.resident f lt (omega arith) w) in
    let kept =
      reclaim-Agree f (page_entry m') (flushed f (m.physical f).virtual_page_number m.tlb)
        m'.physical lt w r.others r.gone r.frames (flushed_valid f _ here c.agree) c.agree in
    record {
      coherent = record {
        running = r.thread ∙ c.running ∙ sym r.table;
        agree = Agree-cast r.table r.size refl r.buffer refl kept;
      };
      kept = record {
        table = r.table;
        size = r.size;
        bytes = λ va _.
            rw (r.memory, r.image)
              (reclaim-byte_at f (page_entry m') m.main_memory (image_of m) va lt w r.others r.gone
                c.agree);
      };
      none_in = λ p out. elim (ℕ_discrete p (m.physical f).virtual_page_number) [
        | yes e ↦ rw e r.gone
        | no ne ↦ rw (r.others p ne) out
      ];
    }

reclaim-Evicted :
    (f : ℕ) (m : Mmu)
    → f < num_phys_pages
    → (m.physical f).valid ≡ true
    → Coherent m
    → Gives (Evicted f m) (reclaim f (m.physical f).virtual_page_number (some m.table_of) m)
reclaim-Evicted f m lt w c =
    let v = (m.physical f).virtual_page_number in
    Gives-map {P = Reclaims f v m} {Q = Evicted f m} (λ m' e. reclaim-CoherentBut f lt w e c)
      (reclaim f v (some m.table_of) m)
      (reclaim-Reclaims f v m (c.agree.resident f lt (omega arith) w).inside)

pub evict-Evicted :
    (f : ℕ) (m : Mmu) → f < num_phys_pages → Coherent m → Gives (Evicted f m) (evict f m)
unfolding evict
evict-Evicted f m lt c = elim (Bool-cases (m.physical f).valid) [
  | inl w ↦ rw (w, (c.agree.resident f lt (omega arith) w).owned) (reclaim-Evicted f m lt w c)
  | inr free ↦ rw free (record {
    coherent = record { running = c.running; agree = free-Agree f free c.agree };
    kept = Preserves-refl m;
    none_in = λ p out. out;
  })
]
