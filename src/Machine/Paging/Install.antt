-- ===== src/Machine/Paging/Install.antt =====
-- A free frame is given to a page, `install`; with `evict`, what `AllocatePhysicalPage` does.
use op_prac.Base.{
  ℕ, ◌<◌, ◌≡◌, refl, sym, ap, ◌∙◌, true, false, some, lt→ltb, Gives, Gives-map, update,
}
use op_prac.Machine.Mmu.{
  Mmu, TranslationEntry, PhysicalPageEntry, copy_page, num_phys_pages, size_of, page_entry,
  set_entry,
}
use op_prac.Machine.Mmu.Coherence.{
  CoherentBut, Coherent, Preserves, Agree-cast, byte_at-cast, install-Agree, install-byte_at,
}
use op_prac.Machine.Paging.{install}
use op_prac.Machine.Mmu.Edits.{Edits, image_of, set_entry-Edits, Edits-page_entry}

module _ (f v : ℕ) (m : Mmu) where
  abbrev taken : PhysicalPageEntry
  taken = record (m.physical f) {
    last_hit_time = m.total_ticks;
    valid = true;
    owner_thread = some m.current_thread;
    virtual_page_number = v;
  }

  abbrev copied : Mmu
  copied = record m {
    main_memory = copy_page m.main_memory f (m.spaces m.current_thread).v_space v;
    physical = update m.physical f taken;
  }

  abbrev entry : TranslationEntry
  entry = record (page_entry m v) {
    valid = true;
    used = false;
    read_only = false;
    physical_page = f;
    virtual_page = v;
    in_time = m.total_ticks;
    last_hit_time = m.total_ticks;
  }

  -- Page `v` is in the page table, and nothing else has changed for the program.
  abbrev pub Installed : Mmu → Type 0
  Installed m' = Coherent m' × Preserves m m' × ((page_entry m' v).valid ≡ true)

  Edits-Installed :
      {m' : Mmu}
      → f < num_phys_pages
      → v < size_of m
      → (page_entry m v).valid ≡ false
      → CoherentBut f m
      → Edits v (image_of m) copied m'
      → page_entry m' v ≡ entry
      → Installed m'
  Edits-Installed {m'} lt k free c d h =
      let table = Edits-page_entry v entry d h in
      let a =
        install-Agree f v entry taken lt k free refl refl refl refl refl (ap some c.running) refl
          c.agree in
      let memory =
        d.memory ∙ ap (λ t. copy_page m.main_memory f (m.spaces t).v_space v) c.running in
      (
        record {
          running = d.thread ∙ c.running ∙ sym d.table;
          agree = Agree-cast d.table d.size table d.buffer d.frames a;
        },
        record {
          table = d.table;
          size = d.size;
          bytes = λ va inside.
              byte_at-cast table memory d.stored va
              ∙ install-byte_at f v entry m.main_memory (image_of m) va inside free refl refl
                  c.agree;
        },
        ap (λ e. e.valid) h,
      )

  -- The frame is given to page `v`, which has none.
  pub install-Installed :
      f < num_phys_pages
      → v < size_of m
      → (page_entry m v).valid ≡ false
      → CoherentBut f m
      → Gives Installed (install f v m)
  unfolding install
  install-Installed lt k free c =
      rw (lt→ltb v (m.spaces m.current_thread).num_pages (rw c.running k)) (
        Gives-map {P = λ m'. Edits v (image_of m) copied m' × (page_entry m' v ≡ entry)}
          {Q = Installed} (λ m' e. Edits-Installed lt k free c (e.0) (e.1))
          (set_entry m.table_of v entry copied) (set_entry-Edits m.table_of v entry copied refl k))
