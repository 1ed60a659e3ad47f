-- ===== src/Machine/Translate/Raises.antt =====
-- What `RaiseException` has done with the registers when it calls the kernel.
use op_prac.Base.{
  ℕ, ◌^◌, ◌<◌, ◌≡◌, sym, ap, ◌∙◌, arith, Result, ok, ◌>>=◌, lt→ltb, length, set, get_or-set_self,
  get_or-set_ne, Gives,
}
use op_prac.Machine.Cpu.{Cpu, reg, set_reg, delayed_load, load_reg, load_value_reg, bad_v_addr_reg}
use op_prac.Machine.Cpu.Registers.{
  IsSound, IsWellFormed, set_reg-IsSound, delayed_load-IsWellFormed,
}

-- The registers are well-formed, with the address in `BadVAddrReg`, and the memory is as it was.
pub record Raises {M : Type 0} (va : ℕ) (c c' : Cpu M) : Type 0 where
  pub well_formed : IsWellFormed c'
  pub bad_v_addr : reg c' bad_v_addr_reg ≡ va
  pub memory : c'.memory ≡ c.memory

module _ {M : Type 0} (c : Cpu M) where
  abbrev loaded : ℕ → Cpu M
  loaded target =
      set_reg 0 0
        (set_reg load_value_reg 0 (set_reg load_reg 0 (set_reg target (reg c load_value_reg) c)))

  delayed_load-loaded :
      reg c load_reg < length c.registers → delayed_load 0 0 c ≡ ok (loaded (reg c load_reg))
  unfolding delayed_load
  delayed_load-loaded h = rw (lt→ltb _ _ h)

  loaded-bad_v_addr : (t : ℕ) → t < 32 → reg (loaded t) bad_v_addr_reg ≡ reg c bad_v_addr_reg
  loaded-bad_v_addr t h =
      let r₁ = set c.registers t (reg c load_value_reg) in
      let r₂ = set r₁ load_reg 0 in
      let r₃ = set r₂ load_value_reg 0 in
      get_or-set_ne r₃ 0 bad_v_addr_reg 0 0 (ground arith)
      ∙ get_or-set_ne r₂ load_value_reg bad_v_addr_reg 0 0 (ground arith)
      ∙ get_or-set_ne r₁ load_reg bad_v_addr_reg 0 0 (ground arith)
      ∙ get_or-set_ne c.registers t bad_v_addr_reg (reg c load_value_reg) 0 (omega arith)

pub raise_to-Raises :
    {M : Type 0} {B : Type 0} (Q : B → Type 0) (va : ℕ) (c : Cpu M) (next : Cpu M → Result B)
    → IsSound c
    → va < 2 ^ 32
    → ((c' : Cpu M) → Raises va c c' → Gives Q (next c'))
    → Gives Q (delayed_load 0 0 (set_reg bad_v_addr_reg va c) >>= next)
raise_to-Raises Q va c next s h k =
    let c₀ = set_reg bad_v_addr_reg va c in
    let s₀ = set_reg-IsSound c bad_v_addr_reg va (ground arith) h s in
    let size = s₀.sized in
    let target = s₀.target in
    let (c', loads, w) = delayed_load-IsWellFormed 0 0 c₀ s₀ (omega arith) (omega arith) in
    let same : loaded c₀ (reg c₀ load_reg) ≡ c' =
      ok_inj (sym (delayed_load-loaded c₀ (omega (arith, size, target))) ∙ loads) in
    rw loads (
      k c' record {
        well_formed = w;
        bad_v_addr =
            ap (λ d. reg d bad_v_addr_reg) (sym same)
            ∙ loaded-bad_v_addr c₀ (reg c₀ load_reg) target
            ∙ get_or-set_self c.registers bad_v_addr_reg va 0 (omega (arith, s.sized));
        memory = ap (λ d. d.memory) (sym same);
      })
  where
    ok_inj : {M : Type 0} {a b : Cpu M} → ok a ≡ ok b → a ≡ b
    ok_inj e = cc
