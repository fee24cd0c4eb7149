-- ===== src/Prelude/Outcomes.antt =====
-- A call that returns a value or throws; `E` are the errors that the function throws.
use mathlib.Core.Path.{◌≡◌, refl}
use mathlib.Core.Logic.{◌⊎◌, inl, inr}
use mathlib.Core.Bool.{Bool, true, false}

pub data Outcome {ℓ κ} (E : Type ℓ) (A : Type κ) : Type (ℓ ⊔ κ) where
  thrown : E → Outcome E A
  returned : A → Outcome E A

module _ {ℓ} {E : Type ℓ} where
  infixl 5 ◌>>=◌ ◌>>◌
  -- What follows a call is not run where it throws.
  abbrev pub ◌>>=◌ {κ μ} : {A : Type κ} {B : Type μ} → Outcome E A → (A → Outcome E B) → Outcome E B
  thrown e >>= next = thrown e
  returned a >>= next = next a

  abbrev pub ◌>>◌ {μ} : {B : Type μ} → Outcome E (Unit {0}) → Outcome E B → Outcome E B
  thrown e >> next = thrown e
  returned u >> next = next

  -- `if (!holds) throw e;`
  abbrev pub ensure : Bool → E → Outcome E (Unit {0})
  ensure holds e = elim holds [ true ↦ returned tt | false ↦ thrown e ]

  pub >>-ensure {μ} :
      {B : Type μ} (holds : Bool) (e : E) (next : Outcome E B) {b : B}
      → (ensure holds e >> next) ≡ returned b
      → (holds ≡ true) × (next ≡ returned b)
  >>-ensure false e next h = cc
  >>-ensure true e next h = (refl, h)

  pub >>=-returned {κ μ} :
      {A : Type κ} {B : Type μ} (call : Outcome E A) (next : A → Outcome E B) {b : B}
      → (call >>= next) ≡ returned b
      → (a : A) × (call ≡ returned a) × (next a ≡ returned b)
  >>=-returned (thrown e) next h = cc
  >>=-returned (returned a) next h = (a, refl, h)

  pub Outcome-cases {κ} :
      {A : Type κ} (call : Outcome E A)
      → ((e : E) × (call ≡ thrown e)) ⊎ ((a : A) × (call ≡ returned a))
  Outcome-cases (thrown e) = inl (e, refl)
  Outcome-cases (returned a) = inr (a, refl)

  -- What holds of both ways in which a call can end.
  pub Outcome-both {κ μ ν} :
      {A : Type κ} {B : Type μ} (P : B → Type ν) (call : Outcome E A) (f : E → B) (g : A → B)
      → ((e : E) → call ≡ thrown e → P (f e))
      → ((a : A) → call ≡ returned a → P (g a))
      → P (elim call [ thrown e ↦ f e | returned a ↦ g a ])
  Outcome-both P (thrown e) f g h k = h e refl
  Outcome-both P (returned a) f g h k = k a refl
