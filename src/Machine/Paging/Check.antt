-- ===== src/Machine/Paging/Check.antt =====
-- `TLB_PageTable_check`: its assertions hold.
use op_prac.Base.{
  ℕ, zero, suc, ◌+◌, ◌≤◌, ◌<◌, ◌≡◌, refl, sym, inl, inr, true, arith, ok, ◌==◌, lt→ltb, Bool-cases,
}
use op_prac.Machine.Mmu.{Mmu, num_phys_pages, tlb_size, size_of, page_entry}
use op_prac.Machine.Mmu.Coherence.{Coherent}
use op_prac.Machine.Paging.{check_tlb, check_table, tlb_page_table_check}

eq→== : (a b : ℕ) → a ≡ b → (a == b) ≡ true
eq→== a b e = ground arith

module _ (m : Mmu) (c : Coherent m) where
  check_tlb-ok : (left i : ℕ) → i + left ≤ tlb_size → check_tlb left i m ≡ ok tt
  unfolding check_tlb
  check_tlb-ok zero i h = refl
  check_tlb-ok (suc left) i h = elim (Bool-cases (m.tlb i).valid) [
    | inl w ↦
        let q = c.agree.cached i (omega arith) w in
        let e = c.agree.mapped (m.tlb i).virtual_page q.inside q.entered in
        let framed : (m.tlb i).physical_page < num_phys_pages = rw (sym q.same) e.framed in
        let taken : (m.physical (m.tlb i).physical_page).valid ≡ true = rw (sym q.same) e.taken in
        rw
          (
            w,
            lt→ltb (m.tlb i).virtual_page (size_of m) q.inside,
            eq→== (m.tlb i).physical_page (page_entry m (m.tlb i).virtual_page).physical_page
                (sym q.same),
            q.entered,
            lt→ltb (m.tlb i).physical_page num_phys_pages framed,
            taken,
          )
          (check_tlb-ok left (suc i) (omega arith))
    | inr out ↦ rw out (check_tlb-ok left (suc i) (omega arith))
  ]

  check_table-ok : (left p : ℕ) → p + left ≤ size_of m → check_table left p m ≡ ok tt
  unfolding check_table
  check_table-ok zero p h = refl
  check_table-ok (suc left) p h = elim (Bool-cases (page_entry m p).valid) [
    | inl w ↦
        let e = c.agree.mapped p (omega arith) w in
        rw
          (
            w,
            lt→ltb (page_entry m p).physical_page num_phys_pages e.framed,
            e.taken,
            eq→== (m.physical (page_entry m p).physical_page).virtual_page_number p e.back,
          )
          (check_table-ok left (suc p) (omega arith))
    | inr out ↦ rw out (check_table-ok left (suc p) (omega arith))
  ]

  -- In a coherent state, no assertion of `TLB_PageTable_check` fails.
  pub tlb_page_table_check_passes : tlb_page_table_check m ≡ ok tt
  unfolding tlb_page_table_check
  tlb_page_table_check_passes =
      rw (check_tlb-ok tlb_size 0 (omega arith)) (check_table-ok (size_of m) 0 (omega arith))
