-- ===== src/Base/Outcome.antt =====
-- What a call comes to: a value, or the end of the program. `assert_failed` is the `Abort` of the
-- macro ASSERT (code/threads/utility.h); `bad_access` is a read or a write outside an array or
-- through a null pointer, and `arithmetic_fault` a division that has no result in an `int`: after
-- these C++ promises nothing. `out_of_fuel` is no outcome of the program: it marks a loop that has
-- run for longer than the bound that the model gives it.
use mathlib.Core.Path.{◌≡◌, refl}
use mathlib.Core.Logic.{◌⊎◌, inl, inr}
use mathlib.Core.Bool.{Bool, true, false}
use mathlib.Core.Option.{Option, none, some}

pub data Error : Type 0 where
  assert_failed bad_access arithmetic_fault out_of_fuel : Error

pub data Result {ℓ} (A : Type ℓ) : Type ℓ where
  ok : A → Result A
  err : Error → Result A

infixl 5 ◌>>=◌ ◌>>◌
abbrev pub ◌>>=◌ {ℓ κ} : {A : Type ℓ} {B : Type κ} → Result A → (A → Result B) → Result B
err why >>= next = err why
ok value >>= next = next value

abbrev pub ◌>>◌ {κ} : {B : Type κ} → Result (Unit {0}) → Result B → Result B
first >> second = first >>= λ _. second

-- The macro ASSERT.
abbrev pub assert : Bool → Result (Unit {0})
assert holds = elim holds [ true ↦ ok tt | false ↦ err assert_failed ]

-- An access to an array element that may not exist.
abbrev pub or_fault {ℓ} : {A : Type ℓ} → Option A → Result A
or_fault (some found) = ok found
or_fault none = err bad_access

pub Result-cases {ℓ} :
    {A : Type ℓ} (r : Result A) → ((e : Error) × (r ≡ err e)) ⊎ ((a : A) × (r ≡ ok a))
Result-cases (ok a) = inr (a, refl)
Result-cases (err e) = inl (e, refl)

-- There is a value, and `P` holds of it.
abbrev pub Gives {ℓ} : {A : Type ℓ} → (A → Type 0) → Result A → Type 0
Gives P (ok a) = P a
Gives P (err e) = ⊥

pub Gives-bind {ℓ κ} :
    {A : Type ℓ} {B : Type κ} (P : A → Type 0) (Q : B → Type 0) (r : Result A) (next : A → Result B)
    → Gives P r
    → ((a : A) → P a → Gives Q (next a))
    → Gives Q (r >>= next)
Gives-bind P Q (ok a) next h k = k a h
Gives-bind P Q (err e) next h k = absurd h

pub Gives-map {ℓ} :
    {A : Type ℓ} {P Q : A → Type 0} → ((a : A) → P a → Q a) → (r : Result A) → Gives P r → Gives Q r
Gives-map f (ok a) h = f a h
Gives-map f (err e) h = absurd h
