-- ===== src/Machine/Mmu/Edits.antt =====
-- Writes to one entry of the machine's page table.
use op_prac.Base.{
  ℕ, ◌<◌, ◌≡◌, refl, sym, subst, ◌∙◌, ◌≢◌, arith, ℕ_discrete, Result, ◌>>=◌, lt→ltb, Gives, update,
  update_self, update_ne,
}
use mathlib.Core.Path.{fun_ext}
use op_prac.Machine.Mmu.{
  Mmu, TranslationEntry, size_of, page_entry, set_entry, with_space, with_table,
}
use op_prac.Machine.Mmu.Coherence.{Preserves}

abbrev pub image_of : Mmu → ℕ → ℕ
image_of m = (m.spaces m.table_of).v_space

-- The entry for page `v` of the machine's page table may change, and its memory image is `image`.
pub record Edits (v : ℕ) (image : ℕ → ℕ) (m m' : Mmu) : Type 0 where
  pub table : m'.table_of ≡ m.table_of
  pub thread : m'.current_thread ≡ m.current_thread
  pub size : size_of m' ≡ size_of m
  pub memory : m'.main_memory ≡ m.main_memory
  pub stored : image_of m' ≡ image
  pub buffer : m'.tlb ≡ m.tlb
  pub others : (p : ℕ) → p ≢ v → page_entry m' p ≡ page_entry m p
  pub frames : m'.physical ≡ m.physical

pub with_table-Edits :
    (t v : ℕ) (e : TranslationEntry) (m : Mmu)
    → t ≡ m.table_of
    → Edits v (image_of m) m (with_table t (update (m.spaces t).page_table v e) m)
      × (page_entry (with_table t (update (m.spaces t).page_table v e) m) v ≡ e)
with_table-Edits t v e m h = ground (arith, h)

-- A write to an entry, and what follows it.
pub set_entry-Gives :
    (t v : ℕ) (e : TranslationEntry) (m : Mmu) {B : Type 0} (Q : B → Type 0) (next : Mmu → Result B)
    → t ≡ m.table_of
    → v < size_of m
    → ((m' : Mmu) → Edits v (image_of m) m m' → page_entry m' v ≡ e → Gives Q (next m'))
    → Gives Q (set_entry t v e m >>= next)
unfolding set_entry
set_entry-Gives t v e m Q next h k after =
    let (edits, entry) = with_table-Edits t v e m h in
    rw (lt→ltb v (m.spaces t).num_pages (rw h k)) (after _ edits entry)

pub set_entry-Edits :
    (t v : ℕ) (e : TranslationEntry) (m : Mmu)
    → t ≡ m.table_of
    → v < size_of m
    → Gives (λ m'. Edits v (image_of m) m m' × (page_entry m' v ≡ e)) (set_entry t v e m)
unfolding set_entry
set_entry-Edits t v e m h k =
    rw (lt→ltb v (m.spaces t).num_pages (rw h k)) (with_table-Edits t v e m h)

pub with_space-Edits :
    (t v : ℕ) (image : ℕ → ℕ) (m : Mmu)
    → t ≡ m.table_of
    → Edits v image m (with_space t image m)
      × (page_entry (with_space t image m) v ≡ page_entry m v)
with_space-Edits t v image m h = ground (arith, h)

pub Edits-trans :
    {v : ℕ} {image image' : ℕ → ℕ} {m m₁ m₂ : Mmu}
    → Edits v image m m₁
    → Edits v image' m₁ m₂
    → Edits v image' m m₂
Edits-trans a b = record {
  table = b.table ∙ a.table;
  thread = b.thread ∙ a.thread;
  size = b.size ∙ a.size;
  memory = b.memory ∙ a.memory;
  stored = b.stored;
  buffer = b.buffer ∙ a.buffer;
  others = λ p ne. b.others p ne ∙ a.others p ne;
  frames = b.frames ∙ a.frames;
}

-- The second leaves the image alone.
pub Edits-then :
    {v : ℕ} {image : ℕ → ℕ} {m m₁ m₂ : Mmu}
    → Edits v image m m₁
    → Edits v (image_of m₁) m₁ m₂
    → Edits v image m m₂
Edits-then {v} {m = m} {m₂ = m₂} a b = subst (λ im. Edits v im m m₂) a.stored (Edits-trans a b)

-- The page table of the same thread, but for the one entry.
pub Edits-page_entry :
    (v : ℕ) (e : TranslationEntry) {image : ℕ → ℕ} {m m' : Mmu}
    → Edits v image m m'
    → page_entry m' v ≡ e
    → page_entry m' ≡ update (page_entry m) v e
Edits-page_entry v e {m = m} {m' = m'} d h = fun_ext λ p. elim (ℕ_discrete v p) [
  | yes same ↦ rw (sym same) (h ∙ sym (update_self (page_entry m) v e))
  | no ne ↦ d.others p (λ x. ne (sym x)) ∙ sym (update_ne (page_entry m) v e p (λ x. ne (sym x)))
]

pub Preserves-refl : (m : Mmu) → Preserves m m
Preserves-refl m = record { table = refl; size = refl; bytes = λ va _. refl }

pub Preserves-trans : {m₁ m₂ m₃ : Mmu} → Preserves m₁ m₂ → Preserves m₂ m₃ → Preserves m₁ m₃
Preserves-trans a b = record {
  table = b.table ∙ a.table;
  size = b.size ∙ a.size;
  bytes = λ va lt. b.bytes va (rw a.size lt) ∙ a.bytes va lt;
}
