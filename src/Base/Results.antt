-- ===== src/Base/Results.antt =====
-- A Go function that returns a value and an error, over the type of its errors.
use mathlib.Core.Path.{◌≡◌, refl}

module _ {ℓ} where
  pub data Result (X A : Type ℓ) : Type ℓ where
    err : X → Result X A
    ok : A → Result X A

  infixl 5 ◌>>=◌
  abbrev pub ◌>>=◌ : {X A B : Type ℓ} → Result X A → (A → Result X B) → Result X B
  err x >>= next = err x
  ok a >>= next = next a

  -- A chain that succeeds has a value of its first part, with which the rest succeeds.
  pub >>=-eq-ok :
      {X A B : Type ℓ} (m : Result X A) (next : A → Result X B) {b : B}
      → m >>= next ≡ ok b
      → (a : A) × (m ≡ ok a) × (next a ≡ ok b)
  >>=-eq-ok (err x) next h = cc
  >>=-eq-ok (ok a) next h = (a, refl, h)

  pub ok-injective : {X A : Type ℓ} (a b : A) → ◌≡◌ {A = Result X A} (ok a) (ok b) → a ≡ b
  ok-injective a b h = cc
