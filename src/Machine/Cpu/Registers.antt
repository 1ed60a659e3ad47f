-- ===== src/Machine/Cpu/Registers.antt =====
-- What `OneInstruction` keeps of the registers: their number, their width, register 0, and the target
-- of the delayed load.
use op_prac.Base.{
  ℕ, ◌^◌, ◌<◌, ◌≡◌, refl, ◌∙◌, ◌≢◌, arith, Result, ok, err, ◌>>=◌, lt→ltb, length, All, length-set,
  get_or-set_self, get_or-set_ne, All-set, All-get_or,
}
use op_prac.Machine.Cpu.{Cpu, reg, set_reg, delayed_load, load_reg, load_value_reg, num_total_regs}

-- The registers as `Machine` declares them, each a word; a delayed load goes to one of 32.
pub record IsSound {M : Type 0} (c : Cpu M) : Type 0 where
  pub sized : length c.registers ≡ num_total_regs
  pub words : All (λ w. w < 2 ^ 32) c.registers
  pub target : reg c load_reg < 32

-- Between two instructions, register 0 is 0.
pub record IsWellFormed {M : Type 0} (c : Cpu M) : Type 0 where
  pub sound : IsSound c
  pub zeroth : reg c 0 ≡ 0

-- `P` holds of the value, where there is one.
abbrev pub Always {ℓ κ} : {A : Type ℓ} → (A → Type κ) → Result A → Type κ
Always P (ok a) = P a
Always P (err e) = Unit

pub Always-bind {ℓ κ ι μ} :
    {A : Type ℓ} {B : Type κ} (P : A → Type ι) (Q : B → Type μ) (r : Result A) (next : A → Result B)
    → Always P r
    → ((a : A) → P a → Always Q (next a))
    → Always Q (r >>= next)
Always-bind P Q (ok a) next h k = k a h
Always-bind P Q (err e) next h k = tt

pub Always-then {ℓ κ μ} :
    {A : Type ℓ} {B : Type κ} (Q : B → Type μ) (r : Result A) (next : A → Result B)
    → ((a : A) → Always Q (next a))
    → Always Q (r >>= next)
Always-then Q (ok a) next k = k a
Always-then Q (err e) next k = tt

module _ {M : Type 0} where
  pub reg-lt : (c : Cpu M) (i : ℕ) → IsSound c → reg c i < 2 ^ 32
  reg-lt c i s = All-get_or (λ w. w < 2 ^ 32) c.registers i 0 (omega arith) s.words

  pub set_reg-IsSound :
      (c : Cpu M) (i v : ℕ) → i ≢ load_reg → v < 2 ^ 32 → IsSound c → IsSound (set_reg i v c)
  set_reg-IsSound c i v other h s = record {
    sized = length-set c.registers i v ∙ s.sized;
    words = All-set (λ w. w < 2 ^ 32) c.registers i v h s.words;
    target = omega (arith, s.target, get_or-set_ne c.registers i load_reg v 0 other);
  }

  -- With sound registers, a delayed load is carried out, and register 0 is 0 again.
  pub delayed_load-IsWellFormed :
      (next_reg next_value : ℕ) (c : Cpu M)
      → IsSound c
      → next_reg < 32
      → next_value < 2 ^ 32
      → (c' : Cpu M) × (delayed_load next_reg next_value c ≡ ok c') × IsWellFormed c'
  unfolding delayed_load
  delayed_load-IsWellFormed next_reg next_value c s h k =
      let t = reg c load_reg in
      let c₁ = set_reg t (reg c load_value_reg) c in
      let s₁ =
        set_reg-IsSound c t (reg c load_value_reg) (let n = s.target in ground arith)
          (reg-lt c load_value_reg s) s in
      let c₂ = set_reg load_reg next_reg c₁ in
      let s₂ : IsSound c₂ = record {
        sized = length-set c₁.registers load_reg next_reg ∙ s₁.sized;
        words = All-set (λ w. w < 2 ^ 32) c₁.registers load_reg next_reg (omega arith) s₁.words;
        target =
            omega (
              arith,
              h,
              get_or-set_self c₁.registers load_reg next_reg 0 (omega (arith, s₁.sized)),
            );
      } in
      let s₃ = set_reg-IsSound c₂ load_value_reg next_value (ground arith) k s₂ in
      let c₃ = set_reg load_value_reg next_value c₂ in
      (
        set_reg 0 0 c₃,
        rw (lt→ltb t (length c.registers) (omega (arith, s.target, s.sized))) refl,
        record {
          sound = set_reg-IsSound c₃ 0 0 (ground arith) (omega arith) s₃;
          zeroth = get_or-set_self c₃.registers 0 0 0 (omega (arith, s₃.sized));
        },
      )
