-- ===== src/Base/Outcome.antt =====
-- Errors as values: a Go function that returns `(A, error)`, or panics, returns a `Result E A`.
use mathlib.Core.Path.{◌≡◌, refl}
use mathlib.Core.Logic.{◌⊎◌, inl, inr}

pub data Result {ℓ κ} (E : Type ℓ) (A : Type κ) : Type (ℓ ⊔ κ) where
  ok : A → Result E A
  err : E → Result E A

-- The rest of the Go function runs where no error came back.
abbrev pub ◌>>=◌ {ℓ κ ρ} :
    {E : Type ℓ} {A : Type κ} {B : Type ρ} (first : Result E A) (rest : A → Result E B) → Result E B
err why >>= rest = err why
ok value >>= rest = rest value

infixl 5 ◌>>=◌
-- What a chain that succeeds went through.
pub >>=-eq-ok {ℓ κ ρ} :
    {E : Type ℓ} {A : Type κ} {B : Type ρ} (first : Result E A) (rest : A → Result E B) {end : B}
    → first >>= rest ≡ ok end
    → (value : A) × (first ≡ ok value) × (rest value ≡ ok end)
>>=-eq-ok (err why) rest none' = cc
>>=-eq-ok (ok value) rest done = (value, refl, done)

pub Result-cases {ℓ κ} :
    {E : Type ℓ} {A : Type κ} (r : Result E A)
    → ((why : E) × (r ≡ err why)) ⊎ ((value : A) × (r ≡ ok value))
Result-cases (err why) = inl (why, refl)
Result-cases (ok value) = inr (value, refl)
