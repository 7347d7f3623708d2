-- ===== src/Base/Results.antt =====
-- Results of fallible operations, as Go's `(value, error)` pairs.
use mathlib.Core.Path.{◌≡◌, refl}
use mathlib.Core.Logic.{◌⊎◌, inl, inr}

pub data Result {ℓ} (E Value : Type ℓ) : Type ℓ where
  err : E → Result E Value
  ok : Value → Result E Value

module _ {ℓ} {E : Type ℓ} where
  infixl 5 ◌>>=◌ ◌>>◌
  abbrev pub ◌>>=◌ : {V W : Type ℓ} → Result E V → (V → Result E W) → Result E W
  err reason >>= next = err reason
  ok value >>= next = next value

  abbrev pub ◌>>◌ : {V W : Type ℓ} → Result E V → Result E W → Result E W
  first >> next = first >>= λ _. next

  -- A chain that succeeded went through a value of its first part.
  pub bind-ok :
      {V W : Type ℓ} {last : W} (first : Result E V) (next : V → Result E W)
      → (first >>= next) ≡ ok last
      → (v : V) × (first ≡ ok v) × (next v ≡ ok last)
  bind-ok (err reason) next done = cc
  bind-ok (ok value) next done = (value, refl, done)

  -- A chain that failed did so in its first part, or after it.
  pub bind-err :
      {V W : Type ℓ} {why : E} (first : Result E V) (next : V → Result E W)
      → (first >>= next) ≡ err why
      → (first ≡ err why) ⊎ ((v : V) × (first ≡ ok v) × (next v ≡ err why))
  bind-err (err reason) next failed = inl (cc)
  bind-err (ok value) next failed = inr (value, refl, failed)

  pub ok_injective : {V : Type ℓ} {v w : V} → ◌≡◌ {A = Result E V} (ok v) (ok w) → v ≡ w
  ok_injective same = cc
