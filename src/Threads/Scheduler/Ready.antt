-- ===== src/Threads/Scheduler/Ready.antt =====
-- How often a thread stands on the ready list.
use op_prac.Base.{
  ℕ, ◌+◌, ◌<◌, ◌≡◌, refl, subst, inl, inr, List, [], ◌∷◌, arith, ℕ_discrete, ◌==◌, if◌then◌else◌,
  Bool-cases, All,
}
use op_prac.Base.Int.{ℤ, ltb_ℤ}
use op_prac.Threads.LinkedList.Entries.{insert_entry}

abbrev pub occurs : ℕ → List (ℤ × ℕ) → ℕ
occurs t [] = 0
occurs t (e ∷ xs) = (if e.1 == t then 1 else 0) + occurs t xs

pub occurs-insert_entry :
    (t : ℕ) (e : ℤ × ℕ) (xs : List (ℤ × ℕ)) → occurs t (insert_entry e xs) ≡ occurs t (e ∷ xs)
unfolding insert_entry
occurs-insert_entry t e [] = refl
occurs-insert_entry t e (d ∷ xs) = ground (arith, occurs-insert_entry t e xs)

-- A property of all entries holds of the thread that occurs.
pub All-occurs :
    (P : ℤ × ℕ → Type 0) (t : ℕ) (xs : List (ℤ × ℕ))
    → All P xs
    → 0 < occurs t xs
    → (key : ℤ) × P (key, t)
All-occurs P t [] h lt = absurd (omega arith)
All-occurs P t (e ∷ xs) h lt = elim (ℕ_discrete (e.1) t) [
  | yes same ↦ (e.0, subst (λ u. P (e.0, u)) same (h.0))
  | no ne ↦ All-occurs P t xs (h.1) (ground arith)
]

pub All-insert_entry :
    (P : ℤ × ℕ → Type 0) (e : ℤ × ℕ) (xs : List (ℤ × ℕ))
    → P e
    → All P xs
    → All P (insert_entry e xs)
unfolding insert_entry
All-insert_entry P e [] p h = (p, h)
All-insert_entry P e (d ∷ xs) p h = elim (Bool-cases (ltb_ℤ (e.0) (d.0))) [
  | inl lt ↦ rw lt (p, h)
  | inr ge ↦ rw ge (h.0, All-insert_entry P e xs p (h.1))
]

pub All-both :
    (P Q : ℤ × ℕ → Type 0) (xs : List (ℤ × ℕ)) → All P xs → All Q xs → All (λ e. P e × Q e) xs
All-both P Q [] p q = tt
All-both P Q (e ∷ xs) p q = ((p.0, q.0), All-both P Q xs (p.1) (q.1))
