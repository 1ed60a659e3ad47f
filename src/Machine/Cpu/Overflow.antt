-- ===== src/Machine/Cpu/Overflow.antt =====
-- ADD, ADDI and SUB against the arithmetic of signed numbers.
use op_prac.Base.{
  ℕ, ◌+◌, ◌-◌, ◌^◌, ◌≤◌, ◌<◌, ◌≡◌, refl, ◌⊎◌, inl, inr, true, false, not, ◌&&◌, arith, dec_lt,
  dec_le, if◌then◌else◌,
}
use op_prac.Machine.Word.{add_word, sub_word, is_negative, same_sign}
use op_prac.Machine.Instruction.{Instruction}
use op_prac.Machine.Cpu.{Cpu, Bus, reg, trap, put_reg, add_instr, sub_instr, overflow_exception}

-- The signed number that a word stands for, moved up by 2 ^ 31 so that it is not negative.
abbrev pub raised : ℕ → ℕ
raised a = if is_negative a then a - 2 ^ 31 else a + 2 ^ 31

-- A sum of two signed numbers, moved up twice, that fits into a word.
abbrev pub Fits : ℕ → Type 0
Fits n = (2 ^ 31 ≤ n) × (n < 2 ^ 32 + 2 ^ 31)

no_overflow :
    (a b : ℕ)
    → a < 2 ^ 32
    → b < 2 ^ 32
    → Fits (raised a + raised b)
    → (same_sign a b && not (same_sign a (add_word a b)) ≡ false)
      × (raised (add_word a b) + 2 ^ 31 ≡ raised a + raised b)
no_overflow a b h k fits = ground arith

overflow :
    (a b : ℕ)
    → a < 2 ^ 32
    → b < 2 ^ 32
    → ¬ Fits (raised a + raised b)
    → same_sign a b && not (same_sign a (add_word a b)) ≡ true
overflow a b h k fits = ground arith

-- The same for a difference.
abbrev pub DiffFits : ℕ → ℕ → Type 0
DiffFits a b = (b ≤ a + 2 ^ 31) × (a < b + 2 ^ 31)

no_underflow :
    (a b : ℕ)
    → a < 2 ^ 32
    → b < 2 ^ 32
    → DiffFits (raised a) (raised b)
    → (not (same_sign a b) && not (same_sign a (sub_word a b)) ≡ false)
      × (raised (sub_word a b) + raised b ≡ raised a + 2 ^ 31)
no_underflow a b h k fits = ground arith

underflow :
    (a b : ℕ)
    → a < 2 ^ 32
    → b < 2 ^ 32
    → ¬ DiffFits (raised a) (raised b)
    → not (same_sign a b) && not (same_sign a (sub_word a b)) ≡ true
underflow a b h k fits = ground arith

Fits-cases : (n : ℕ) → Fits n ⊎ (¬ Fits n)
Fits-cases n = elim (dec_le (2 ^ 31) n) [
  | no below ↦ inr (λ h. below h.0)
  | yes above ↦ elim (dec_lt n (2 ^ 32 + 2 ^ 31)) [
    | yes fits ↦ inl (above, fits)
    | no beyond ↦ inr (λ h. beyond h.1)
  ]
]

DiffFits-cases : (a b : ℕ) → DiffFits a b ⊎ (¬ DiffFits a b)
DiffFits-cases a b = elim (dec_le b (a + 2 ^ 31)) [
  | no below ↦ inr (λ h. below h.0)
  | yes above ↦ elim (dec_lt a (b + 2 ^ 31)) [
    | yes fits ↦ inl (above, fits)
    | no beyond ↦ inr (λ h. beyond h.1)
  ]
]

module _ {M : Type 0} (bus : Bus M) (instr : Instruction) (c : Cpu M) (pc_after : ℕ) where
  -- ADD puts the signed sum of its registers into the target where that fits into a word, and
  -- raises the overflow exception, with no write, exactly where it does not.
  pub add_instr_lem :
      reg c instr.rs < 2 ^ 32
      → reg c instr.rt < 2 ^ 32
      → (Fits (raised (reg c instr.rs) + raised (reg c instr.rt))
          × (sum : ℕ) × (raised sum + 2 ^ 31 ≡ raised (reg c instr.rs) + raised (reg c instr.rt))
          × (add_instr bus instr c pc_after ≡ put_reg instr.rd sum c pc_after))
        ⊎ (¬ Fits (raised (reg c instr.rs) + raised (reg c instr.rt))
            × (add_instr bus instr c pc_after ≡ trap bus overflow_exception 0 c))
  unfolding add_instr
  add_instr_lem h k =
      let a = reg c instr.rs in
      let b = reg c instr.rt in
      elim (Fits-cases (raised a + raised b)) [
        | inl fits ↦
            let (quiet, same) = no_overflow a b h k fits in
            inl (fits, add_word a b, same, rw quiet refl)
        | inr large ↦ inr (large, rw (overflow a b h k large) refl)
      ]

  -- SUB does the same with the signed difference.
  pub sub_instr_lem :
      reg c instr.rs < 2 ^ 32
      → reg c instr.rt < 2 ^ 32
      → (DiffFits (raised (reg c instr.rs)) (raised (reg c instr.rt))
          × (diff : ℕ) × (raised diff + raised (reg c instr.rt) ≡ raised (reg c instr.rs) + 2 ^ 31)
          × (sub_instr bus instr c pc_after ≡ put_reg instr.rd diff c pc_after))
        ⊎ (¬ DiffFits (raised (reg c instr.rs)) (raised (reg c instr.rt))
            × (sub_instr bus instr c pc_after ≡ trap bus overflow_exception 0 c))
  unfolding sub_instr
  sub_instr_lem h k =
      let a = reg c instr.rs in
      let b = reg c instr.rt in
      elim (DiffFits-cases (raised a) (raised b)) [
        | inl fits ↦
            let (quiet, same) = no_underflow a b h k fits in
            inl (fits, sub_word a b, same, rw quiet refl)
        | inr large ↦ inr (large, rw (underflow a b h k large) refl)
      ]
