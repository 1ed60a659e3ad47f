-- ===== src/Machine/Execute/Transfers.antt =====
-- How loads and stores leave the registers.
use op_prac.Base.{
  ℕ, ◌/◌, ◌%◌, ◌^◌, ◌<◌, inl, inr, Bool, true, false, Option, none, some, arith, Result, ◌>>=◌,
  assert, ◌==◌, Bool-cases,
}
use op_prac.Base.Bits.{bit_or-lt, bit_and-lt}
use op_prac.Machine.Instruction.{Instruction}
use op_prac.Machine.Cpu.{Cpu, Ending, Bus, reg, address, address_error_exception, load_value_reg}
use op_prac.Machine.Cpu.Registers.{IsSound, IsWellFormed, Always, Always-bind, Always-then, reg-lt}
use op_prac.Machine.Transfer.{
  load_byte, load_half, load_word, load_word_left, load_word_right, store, store_word_left,
  store_word_right, loaded, stored, extend_byte, extend_half, top_24, top_16, pending,
}
use op_prac.Machine.Execute.Steps.{HasFields, IsEnding, IsRead, Keeps, trap-IsEnding}

extend_byte-lt : (signed : Bool) (v : ℕ) → v < 2 ^ 32 → extend_byte signed v < 2 ^ 32
extend_byte-lt signed v h =
    let a = bit_or-lt 32 v top_24 h (omega arith) in
    let b = bit_and-lt 32 v 255 h (omega arith) in ground arith

extend_half-lt : (signed : Bool) (v : ℕ) → v < 2 ^ 32 → extend_half signed v < 2 ^ 32
extend_half-lt signed v h =
    let a = bit_or-lt 32 v top_16 h (omega arith) in
    let b = bit_and-lt 32 v 65535 h (omega arith) in ground arith

address-lt : {M : Type 0} (instr : Instruction) (c : Cpu M) → address instr c < 2 ^ 32
address-lt instr c = omega arith

module _ {M : Type 0} (bus : Bus M) (keeps : Keeps bus) where
  -- A read, and what becomes of its value.
  read-IsEnding :
      (a size : ℕ) (c : Cpu M) (next : ℕ → Cpu M → Result (Ending M))
      → a < 2 ^ 32
      → IsWellFormed c
      → ((v : ℕ) (c' : Cpu M) → v < 2 ^ 32 → IsWellFormed c' → Always IsEnding (next v c'))
      → Always IsEnding (bus.read_mem a size c >>= loaded bus next)
  read-IsEnding a size c next word w k =
      Always-bind IsRead IsEnding (bus.read_mem a size c) (loaded bus next)
        (keeps.reads a size c word w) go
    where
      go : (r : Option ℕ × Cpu M) → IsRead r → Always IsEnding (loaded bus next r)
      go (none, c') h = h
      go (some v, c') h = k v c' h.0 h.1

  write-IsEnding :
      (a size v : ℕ) (c : Cpu M) (pc : ℕ)
      → a < 2 ^ 32
      → IsWellFormed c
      → pc < 2 ^ 32
      → Always IsEnding (bus.write_mem a size v c >>= stored bus pc)
  write-IsEnding a size v c pc word w k =
      Always-bind (λ r. IsWellFormed r.1) IsEnding (bus.write_mem a size v c) (stored bus pc)
        (keeps.writes a size v c word w) go
    where
      go : (r : Bool × Cpu M) → IsWellFormed r.1 → Always IsEnding (stored bus pc r)
      go (false, c') h = h
      go (true, c') h = (h.sound, k, omega arith, omega arith)

  module _ (instr : Instruction) (c : Cpu M) (pc : ℕ) (f : HasFields instr) (w : IsWellFormed c)
      (k : pc < 2 ^ 32) where
    pub load_byte-IsEnding : (signed : Bool) → Always IsEnding (load_byte bus signed instr c pc)
    unfolding load_byte
    load_byte-IsEnding signed =
        read-IsEnding (address instr c) 1 c _ (address-lt instr c) w
          (λ v c' h w'. (w'.sound, k, f.rt_fits, extend_byte-lt signed v h))

    pub load_half-IsEnding : (signed : Bool) → Always IsEnding (load_half bus signed instr c pc)
    unfolding load_half
    load_half-IsEnding signed = elim (Bool-cases (address instr c % 2 == 0)) [
      | inl even ↦ rw even (
          read-IsEnding (address instr c) 2 c _ (address-lt instr c) w
            (λ v c' h w'. (w'.sound, k, f.rt_fits, extend_half-lt signed v h)))
      | inr odd ↦ rw odd (
          trap-IsEnding bus keeps address_error_exception (address instr c) c (omega arith) w.sound)
    ]

    pub load_word-IsEnding : Always IsEnding (load_word bus instr c pc)
    unfolding load_word
    load_word-IsEnding = elim (Bool-cases (address instr c % 4 == 0)) [
      | inl even ↦ rw even (
          read-IsEnding (address instr c) 4 c _ (address-lt instr c) w
            (λ v c' h w'. (w'.sound, k, f.rt_fits, h)))
      | inr odd ↦ rw odd (
          trap-IsEnding bus keeps address_error_exception (address instr c) c (omega arith) w.sound)
    ]

    pub load_word_left-IsEnding : Always IsEnding (load_word_left bus instr c pc)
    unfolding load_word_left
    load_word_left-IsEnding = Always-then IsEnding (assert (address instr c % 4 == 0)) _ (λ _.
        read-IsEnding (address instr c) 4 c _ (address-lt instr c) w
          (λ v c' h w'. (w'.sound, k, f.rt_fits, h)))

    pub load_word_right-IsEnding : Always IsEnding (load_word_right bus instr c pc)
    unfolding load_word_right
    load_word_right-IsEnding = Always-then IsEnding (assert (address instr c % 4 == 0)) _ (λ _.
        read-IsEnding (address instr c) 4 c _ (address-lt instr c) w (λ v c' h w'.
          let p : pending bus instr.rt c' < 2 ^ 32 = pending-lt instr.rt c' w'.sound in
          (
            w'.sound,
            k,
            f.rt_fits,
            bit_or-lt 32 _ (v / 2 ^ 24 % 2 ^ 8)
                (bit_and-lt 32 (pending bus instr.rt c') top_24 p (omega arith)) (omega arith),
          )))
      where
        pending-lt : (i : ℕ) (c : Cpu M) → IsSound c → pending bus i c < 2 ^ 32
        pending-lt i c s = let a = reg-lt c load_value_reg s in let b = reg-lt c i s in ground arith

    pub store-IsEnding : (size : ℕ) → Always IsEnding (store bus size instr c pc)
    unfolding store
    store-IsEnding size =
        write-IsEnding (address instr c) size (reg c instr.rt) c pc (address-lt instr c) w k

    pub store_word_left-IsEnding : Always IsEnding (store_word_left bus instr c pc)
    unfolding store_word_left
    store_word_left-IsEnding = Always-then IsEnding (assert (address instr c % 4 == 0)) _ (λ _.
        read-IsEnding (address instr c) 4 c _ (address-lt instr c) w (λ v c' h w'.
          write-IsEnding (address instr c) 4 (reg c' instr.rt) c' pc (address-lt instr c) w' k))

    pub store_word_right-IsEnding : Always IsEnding (store_word_right bus instr c pc)
    unfolding store_word_right
    store_word_right-IsEnding = Always-then IsEnding (assert (address instr c % 4 == 0)) _ (λ _.
        read-IsEnding (address instr c) 4 c _ (address-lt instr c) w
          (λ v c' h w'. write-IsEnding (address instr c) 4 _ c' pc (address-lt instr c) w' k))
