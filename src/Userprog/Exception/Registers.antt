-- ===== src/Userprog/Exception/Registers.antt =====
-- The registers behind the machine's memory and the kernel's handler: they stay well-formed, whatever
-- the tables hold.
use op_prac.Base.{
  ℕ, ◌^◌, ◌<◌, inl, inr, Bool, true, false, Option, none, some, arith, Result, Bool-cases,
}
use op_prac.Machine.Cpu.{
  Cpu, raise_to, reg, set_reg, bad_v_addr_reg, ExceptionType, syscall_exception,
  page_fault_exception,
}
use op_prac.Machine.Cpu.Registers.{
  IsWellFormed, Always, Always-bind, Always-then, set_reg-IsSound, delayed_load-IsWellFormed,
}
use op_prac.Machine.Execute.Steps.{IsRead, Keeps}
use op_prac.Machine.Mmu.{Mmu}
use op_prac.Machine.Paging.{lru_tlb}
use op_prac.Machine.Translate.{
  Translation, found, trapped, Handler, is_page_fault, with_memory, translate, raise_if, retry,
  after_first, access, load_bytes, store_bytes, loaded_from, stored_to, read_mem, write_mem,
}
use op_prac.Userprog.Exception.{tick, exception_handler, trap_to_kernel, mmu_bus}

pub with_memory-IsWellFormed :
    (c : Cpu Mmu) (m : Mmu) → IsWellFormed c → IsWellFormed (with_memory c m)
with_memory-IsWellFormed c m w = record {
  sound = record { sized = w.sound.sized; words = w.sound.words; target = w.sound.target };
  zeroth = w.zeroth;
}

-- What a call hands back has well-formed registers.
abbrev pub Sane {ℓ} : {A : Type ℓ} → A × Cpu Mmu → Type 0
Sane r = IsWellFormed (r.1)

module _ (handler : Handler)
    (keeps : (e : ExceptionType) (c : Cpu Mmu) → IsWellFormed c → Always IsWellFormed (handler e c))
    (va size : ℕ) (writing : Bool) (word : va < 2 ^ 32) where
  raise_to-IsWellFormed :
      (e : ExceptionType) (c : Cpu Mmu)
      → IsWellFormed c
      → Always IsWellFormed (raise_to handler e va c)
  raise_to-IsWellFormed e c w =
      let s' = set_reg-IsSound c bad_v_addr_reg va (ground arith) word w.sound in
      let (c', loads, w') =
        delayed_load-IsWellFormed 0 0 (set_reg bad_v_addr_reg va c) s' (omega arith)
          (omega arith) in
      rw loads (keeps e c' w')

  raise_if-Sane :
      (c : Cpu Mmu) (t : Translation × Mmu)
      → IsWellFormed c
      → Always Sane (raise_if handler va size writing c t)
  unfolding raise_if
  raise_if-Sane c (found pa, m) w = with_memory-IsWellFormed c m w
  raise_if-Sane c (trapped e, m) w =
      Always-bind IsWellFormed Sane (raise_to handler e va (with_memory c m)) _
        (raise_to-IsWellFormed e (with_memory c m) (with_memory-IsWellFormed c m w)) (λ c' w'. w')

  retry-Sane : (c : Cpu Mmu) → IsWellFormed c → Always Sane (retry handler va size writing c)
  unfolding retry
  retry-Sane c w = Always-then Sane (translate va size writing c.memory) _ (λ second.
      Always-bind Sane Sane (raise_if handler va size writing c second) _ (raise_if-Sane c second w)
        (λ (p, c₂) w₂.
          Always-then Sane (translate va size writing c₂.memory) _
            (λ third. raise_if-Sane c₂ third w₂)))

  after_first-Sane :
      (c : Cpu Mmu) (t : Translation × Mmu)
      → IsWellFormed c
      → Always Sane (after_first handler va size writing c t)
  unfolding after_first
  after_first-Sane c (found pa, m) w = with_memory-IsWellFormed c m w
  after_first-Sane c (trapped e, m) w =
      Always-bind IsWellFormed Sane (raise_to handler e va (with_memory c m)) _
        (raise_to-IsWellFormed e (with_memory c m) (with_memory-IsWellFormed c m w))
        (λ c' w'. elim (Bool-cases (is_page_fault e)) [
          | inl fault ↦ rw fault (retry-Sane c' w')
          | inr other ↦ rw other w'
        ])

  pub access-Sane : (c : Cpu Mmu) → IsWellFormed c → Always Sane (access handler va size writing c)
  unfolding access
  access-Sane c w =
      Always-then Sane (translate va size writing c.memory) _ (λ t. after_first-Sane c t w)

  load_bytes-lt : (memory : ℕ → ℕ) (pa : ℕ) → Always (λ v. v < 2 ^ 32) (load_bytes memory pa size)
  load_bytes-lt memory pa = ground arith

  loaded_from-IsRead : (r : Option ℕ × Cpu Mmu) → Sane r → Always IsRead (loaded_from size r)
  loaded_from-IsRead (none, c) w = w
  loaded_from-IsRead (some pa, c) w =
      Always-bind (λ v. v < 2 ^ 32) IsRead (load_bytes c.memory.main_memory pa size) _
        (load_bytes-lt c.memory.main_memory pa) (λ v h. (h, w))

  stored_to-Sane :
      (value : ℕ) (r : Option ℕ × Cpu Mmu) → Sane r → Always Sane (stored_to size value r)
  stored_to-Sane value (none, c) w = w
  stored_to-Sane value (some pa, c) w =
      Always-then Sane (store_bytes c.memory.main_memory pa size value) _
        (λ memory. with_memory-IsWellFormed c (record (c.memory) { main_memory = memory }) w)

module _ (syscall : Cpu Mmu → Result (Cpu Mmu))
    (sane : (c : Cpu Mmu) → IsWellFormed c → Always IsWellFormed (syscall c)) where
  exception_handler-IsWellFormed :
      (e : ExceptionType) (c : Cpu Mmu)
      → IsWellFormed c
      → Always IsWellFormed (exception_handler syscall e c)
  unfolding exception_handler
  exception_handler-IsWellFormed syscall_exception c w = sane c w
  exception_handler-IsWellFormed page_fault_exception c w =
      Always-then IsWellFormed (lru_tlb (reg c bad_v_addr_reg) c.memory) _
        (λ m. with_memory-IsWellFormed c m w)
  exception_handler-IsWellFormed _ c w = tt

  trap_to_kernel-IsWellFormed :
      (e : ExceptionType) (c : Cpu Mmu)
      → IsWellFormed c
      → Always IsWellFormed (trap_to_kernel syscall e c)
  unfolding trap_to_kernel
  trap_to_kernel-IsWellFormed e c w =
      exception_handler-IsWellFormed e (with_memory c (tick c.memory))
        (with_memory-IsWellFormed c (tick c.memory) w)

  pub mmu_bus-Keeps : Keeps (mmu_bus syscall)
  unfolding mmu_bus read_mem write_mem
  mmu_bus-Keeps = record {
    reads = λ a size c h w.
        Always-bind Sane IsRead (access (trap_to_kernel syscall) a size false c) (loaded_from size)
          (access-Sane (trap_to_kernel syscall) trap_to_kernel-IsWellFormed a size false h c w)
          (loaded_from-IsRead (trap_to_kernel syscall) trap_to_kernel-IsWellFormed a size false h);
    writes = λ a size v c h w.
        Always-bind Sane Sane (access (trap_to_kernel syscall) a size true c) (stored_to size v)
          (access-Sane (trap_to_kernel syscall) trap_to_kernel-IsWellFormed a size true h c w)
          (stored_to-Sane (trap_to_kernel syscall) trap_to_kernel-IsWellFormed a size true h v);
    handles = trap_to_kernel-IsWellFormed;
  }
