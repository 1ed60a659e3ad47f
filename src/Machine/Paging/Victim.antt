-- ===== src/Machine/Paging/Victim.antt =====
-- Which slot the loops of the page fault choose.
use op_prac.Base.{
  ℕ, zero, suc, ◌+◌, ◌%◌, ◌^◌, ◌≤◌, ◌<◌, ◌≡◌, subst, ◌⊎◌, inl, inr, Bool, true, false, arith,
  ℕ_discrete, if◌then◌else◌, Bool-cases,
}
use op_prac.Machine.Word.{ltb_signed}
use op_prac.Machine.Paging.{choose}

module _ {A : Type 0} (is_valid : A → Bool) (time : A → ℕ) (slots : ℕ → A) where
  pub choose-lt :
      (left i best n : ℕ) → best < n → i + left ≤ n → choose is_valid time slots left i best < n
  unfolding choose
  choose-lt zero i best n h k = h
  choose-lt (suc left) i best n h k =
      let next = if ltb_signed (time (slots i)) (time (slots best)) then i else best in
      ground (arith, choose-lt left (suc i) next n)

  -- Signed time, as a number.
  abbrev pub key : ℕ → ℕ
  key i = (time (slots i) + 2 ^ 31) % 2 ^ 32

  -- `j` is the first slot from `i` on that is not valid; or all of these are valid, and
  -- neither one of them nor the slot so far has a lesser time.
  abbrev pub IsVictim : ℕ → ℕ → ℕ → ℕ → Type 0
  IsVictim i n best j =
      (i ≤ j)
        × (j < n)
        × (is_valid (slots j) ≡ false)
        × ((k : ℕ) → i ≤ k → k < j → is_valid (slots k) ≡ true)
      ⊎ ((k : ℕ) → i ≤ k → k < n → (is_valid (slots k) ≡ true) × (key j ≤ key k))
        × (key j ≤ key best)

  IsVictim-first : (i n best : ℕ) → i < n → is_valid (slots i) ≡ false → IsVictim i n best i
  IsVictim-first i n best h v = inl (omega arith, h, v, (λ k a b. absurd (omega arith)))

  -- The slot at `i` is valid, and has been compared.
  IsVictim-next :
      (i n best j : ℕ)
      → is_valid (slots i) ≡ true
      → IsVictim (suc i) n (if ltb_signed (time (slots i)) (time (slots best)) then i else best) j
      → IsVictim i n best j
  IsVictim-next i n best j v (inl (a, b, w, before)) = inl (
    omega arith,
    b,
    w,
    λ k c d. elim (ℕ_discrete i k) [
      | yes e ↦ subst (λ x. is_valid (slots x) ≡ true) e v
      | no ne ↦ before k (omega arith) d
    ],
  )
  IsVictim-next i n best j v (inr (all, least)) = inr (
    (λ k c d. elim (ℕ_discrete i k) [
      | yes e ↦ subst (λ x. (is_valid (slots x) ≡ true) × (key j ≤ key x)) e (v, ground arith)
      | no ne ↦ all k (omega arith) d
    ]),
    ground arith,
  )

  -- The loops choose the first slot that is not valid; if all are valid, a slot whose time is no later
  -- than that of any slot.
  pub choose-IsVictim :
      (left i best n : ℕ)
      → i + left ≡ n
      → IsVictim i n best (choose is_valid time slots left i best)
  unfolding choose
  choose-IsVictim zero i best n e = inr ((λ k h h'. absurd (omega arith)), omega arith)
  choose-IsVictim (suc left) i best n e =
      let next = if ltb_signed (time (slots i)) (time (slots best)) then i else best in
      let rest = choose-IsVictim left (suc i) next n (omega arith) in
      elim (Bool-cases (is_valid (slots i))) [
        | inl v ↦ rw v (IsVictim-next i n best _ v rest)
        | inr v ↦ rw v (IsVictim-first i n best (omega arith) v)
      ]
