-- ===== src/Common/Outcome.antt =====
-- A computation that may raise an error of the caller's own type.
use mathlib.Core.Path.{◌≡◌, refl}
use mathlib.Core.Bool.{Bool, true, false}
use mathlib.Core.Logic.{◌⊎◌, inl, inr}

-- A returned value, or the exception that was raised.
pub data Result {ℓ κ} (E : Type κ) (A : Type ℓ) : Type (ℓ ⊔ κ) where
  err : E → Result E A
  ok : A → Result E A

-- `if not test: raise e`
abbrev pub guard {κ} : {E : Type κ} → Bool → E → Result E (Unit {0})
guard test e = elim test [ true ↦ ok tt | false ↦ err e ]

module _ {κ ℓ μ} {E : Type κ} {A : Type ℓ} {B : Type μ} where
  infixl 5 ◌>>=◌
  abbrev pub ◌>>=◌ : Result E A → (A → Result E B) → Result E B
  m >>= next = elim m [ err e ↦ err e | ok a ↦ next a ]

  -- A successful chain has a successful head.
  pub >>=-eq-ok :
      (m : Result E A) (next : A → Result E B) {last : B}
      → (m >>= next) ≡ ok last
      → (first : A) × (m ≡ ok first) × (next first ≡ ok last)
  >>=-eq-ok (err e) next h = cc
  >>=-eq-ok (ok first) next h = (first, refl, h)

module _ {κ μ} {E : Type κ} {B : Type μ} where
  infixl 5 ◌>>◌
  abbrev pub ◌>>◌ : Result E (Unit {0}) → Result E B → Result E B
  check >> rest = check >>= λ _. rest

module _ {κ} {E : Type κ} where
  pub guard-passed : (test : Bool) (e : E) (u : Unit {0}) → guard test e ≡ ok u → test ≡ true
  guard-passed true e u h = refl
  guard-passed false e u h = cc

module _ {κ ℓ} {E : Type κ} {A : Type ℓ} where
  pub ok-injective : {a b : A} → ◌≡◌ {A = Result E A} (ok a) (ok b) → a ≡ b
  ok-injective h = cc

  -- A split on a computed outcome that keeps the equation.
  pub Result-cases : (r : Result E A) → ((a : A) × (r ≡ ok a)) ⊎ ((e : E) × (r ≡ err e))
  Result-cases (err e) = inr (e, refl)
  Result-cases (ok a) = inl (a, refl)
